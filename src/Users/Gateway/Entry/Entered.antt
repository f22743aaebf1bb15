-- ===== src/Users/Gateway/Entry/Entered.antt =====
-- What a login does to the table.
use erina.Base.{
  ℕ, ◌≡◌, ◌≢◌, ◌⊎◌, inl, inr, refl, ap, sym, ◌∙◌, arith, Bool, true, false, Bool-cases, List, [],
  ◌∷◌, Option, none, some, Option-cases, lookup, lookup-insert_other, nat_key, if◌then◌else◌,
}
use mathlib.Core.Option
use erina.Words.{Bytes}
use erina.Sentinel.Types.{Text}
use erina.Users.Types.{UsrSession, UsrSessionPool, close_ws, opened}
use erina.Users.Offline.{Forced, cut_off, force_at, force_user_offline, is_positive}
use erina.Users.Lifecycle.{Life, Reachable, goes, enters, forces, set_live}
use erina.Users.Lifecycle.Reached.{Reachable-Orderly}
use erina.Users.Lifecycle.Steps.{forced}
use erina.Users.Lifecycle.Adding.{added}
use erina.Users.Gateway.Entry.{Bus, Visitor, enter}

nothing : (s : UsrSession) → ¬ (none ≡ some s)
nothing s q = ground arith

-- A pointer that is not in use stays so.
module _ (p : UsrSessionPool) (h : ℕ) (free : lookup p.heap h ≡ none) where
  abbrev looked : Option Forced → Option UsrSession
  looked none = none
  looked (some f) = lookup (f.pool).heap h

  looked-cut_off :
      (k : ℕ) (named : Bool) (written : List (ℕ × Bytes))
      → looked (cut_off p k named written) ≡ none
  looked-cut_off k named written = elim (Option-cases (lookup p.heap k)) [
    | inl absent ↦ rw absent refl
    | inr (s, there) ↦ elim (Option-cases (close_ws s.ws)) [
      | inl nil ↦ rw (there, nil) refl
      | inr (ws, shuts) ↦
          let ne : k ≢ h = λ same. nothing s (sym free ∙ ap (lookup p.heap) (sym same) ∙ there) in
          rw (there, shuts) (lookup-insert_other p.heap k h _ ne ∙ free)
    ]
  ]

  looked-force_at :
      (uid : ℕ) (mobile calm : Text) (o : Option ℕ) → looked (force_at p uid mobile calm o) ≡ none
  looked-force_at uid [] calm none = free
  looked-force_at uid [] calm (some k) = looked-cut_off k false []
  looked-force_at uid (c ∷ mobile) calm none = free
  looked-force_at uid (c ∷ mobile) calm (some k) = looked-cut_off k true _

  looked-force_user_offline :
      (uid : ℕ) (mobile calm : Text) → looked (force_user_offline p uid mobile calm) ≡ none
  unfolding force_user_offline
  looked-force_user_offline uid mobile calm = looked-force_at uid mobile calm (lookup p.sesses uid)

-- The table after the login, and the reply; and the table is one that a history of logins leads to.
pub record Entered (b : Bus) (st : Life) (h : ℕ) (v : Visitor) : Type 0 where
  pub left : UsrSessionPool
  pub enters_as : enter b st.pool h v ≡ some (left, if b.registers v.uid then 0 ∷ [] else 3 ∷ [])
  pub reachable :
      Reachable
        (record { pool = left; live = if b.registers v.uid then set_live st h true else st.live })
  pub listed : (b.registers v.uid ≡ false) ⊎ (lookup left.sesses v.uid ≡ some h)

-- After any history of logins, logouts, forced and kicked users and bindings, and for a visitor with the
-- id of a user, and a new pointer: the login does not panic; what it leaves is again reached by such a
-- history; and the user's entry in the table is the new session, unless redis cannot be told.
pub enter-Entered :
    (b : Bus) (st : Life) (h : ℕ) (v : Visitor)
    → Reachable st
    → lookup (st.pool).heap h ≡ none
    → is_positive v.uid ≡ true
    → Entered b st h v
unfolding enter Option.bind
enter-Entered b st h v r free real =
    let (f, cuts, _) = forced st (Reachable-Orderly st r) v.uid (b.mobile_of v.uid) v.mobile in
    let between : Life = record st { pool = f.pool } in
    let r1 : Reachable between =
      goes st between r (forces st v.uid (b.mobile_of v.uid) v.mobile f cuts) in
    let still : lookup (f.pool).heap h ≡ none =
      ap (looked st.pool h free) (sym cuts)
      ∙ looked-force_user_offline st.pool h free v.uid (b.mobile_of v.uid) v.mobile in
    let s : UsrSession = record { uid = v.uid; devs = b.devs_of v.uid; ws = opened; mz = v.mz } in
    let (q, adds, _, listed) = added between (Reachable-Orderly between r1) h s still refl real in
    elim (Bool-cases (b.registers v.uid)) [
      | inr failed ↦ record {
        left = f.pool;
        enters_as = rw (cuts, failed) refl;
        reachable = rw failed r1;
        listed = inl failed;
      }
      | inl works ↦ record {
        left = q;
        enters_as = rw cuts (rw (works, adds) refl);
        reachable = rw works (goes between _ r1 (enters between h s q still refl real adds));
        listed = inr listed;
      }
    ]
