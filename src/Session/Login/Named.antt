-- ===== src/Session/Login/Named.antt =====
-- Over UDP a login renames no session.
use erina.Base.{
  arith, ◌≢◌, Option-cases, if◌then◌else◌, text_key, remove, ℕ, ◌==◌, ◌≡◌, refl, sym, ◌∙◌, Bool,
  true, false, Option, none, some, Bool-cases, inl, inr, lookup, insert, nat_key, text_same, ◌∷◌,
  [], List, subst,
}
use erina.Words.{Bytes}
use erina.Outcome.{panic, ok, checked}
use erina.Outcome.Laws.{bind_ok, ok_injective, checked-some}
use erina.Session.Types.{Text, DevSession, Pool}
use erina.Session.Children.{Event, subdevlogout, drop_child}
use erina.Session.Commands.Kept.{
  Kept, SameName, SameName-refl, Kept-refl, Kept-trans, Kept-write, Kept-over, Kept-unnamed,
  Kept-routes,
}
use erina.Session.Login.{kept_output, on_login}
use erina.Session.Login.Refused.{on_login-cases}
use erina.Session.Login.Stages.{
  LoginWorld, Tables, LoginDone, Stage, id_login, known_login, first_login, enter_dw, with_users,
  with_mz, child_login, child_at, released_at, same_login,
}

-- `subdevlogout` keeps the table's sessions, and its session's names.
drop_child-Kept :
    (s : DevSession) (p : Pool) (id : ℕ) (o : Option Text)
    → Kept p (drop_child s p id o).pool × SameName s (drop_child s p id o).session
unfolding drop_child
drop_child-Kept s p id none = (Kept-refl p, SameName-refl s)
drop_child-Kept s p id (some mac) =
    (Kept-unnamed p (remove p.sesses id) mac, record { mac_same = refl; sid_same = refl })

subdevlogout-Kept :
    (s : DevSession) (p : Pool) (id : ℕ)
    → Kept p (subdevlogout s p id).pool × SameName s (subdevlogout s p id).session
unfolding subdevlogout
subdevlogout-Kept s p id = drop_child-Kept s p id (lookup s.devs id)

module _ (h : ℕ) (s : DevSession) where
  -- What a login leaves, before the session is written back.
  abbrev Fine : Pool → Stage → Type 0
  Fine p g = Kept p g.tables.pool × SameName s g.session

  released_at-Kept :
      (p : Pool) (id : ℕ) (o : Option ℕ) (r : Pool × List Event)
      → released_at p s id o ≡ ok r
      → Kept p r.0
  released_at-Kept p id none r e =
      subst (λ (x : Pool × List Event). Kept p x.0) (ok_injective (p, []) r e) (Kept-refl p)
  released_at-Kept p id (some v) r e =
      let (sub, at, e1) =
        bind_ok (checked (lookup p.heap v))
          (λ sub. ok (
            if text_same sub.sid s.sid then (p, []) else (
              record ((subdevlogout sub p id).pool) {
                heap = insert ((subdevlogout sub p id).pool).heap v (subdevlogout sub p id).session;
              },
              (subdevlogout sub p id).events,
            )))
          r e in
      let (kept, same) = subdevlogout-Kept sub p id in
      elim (Bool-cases (text_same sub.sid s.sid)) [
        | inl z ↦
            subst (λ (x : Pool × List Event). Kept p x.0) (ok_injective (p, []) r (rw z at e1))
              (Kept-refl p)
        | inr z ↦
            subst (λ (x : Pool × List Event). Kept p x.0) (ok_injective (_, _) r (rw z at e1))
              (Kept-over p (subdevlogout sub p id).pool v sub (subdevlogout sub p id).session kept
                (checked-some (lookup p.heap v) sub at) same)
      ]

  child_at-Fine :
      (t : Tables) (p q : Pool) (id : ℕ) (mac : Text) (told : List Event) (o : Option Text)
      → Kept p q
      → Fine p (child_at t q h s id mac told o)
  child_at-Fine t p q id mac told none k = (
    Kept-trans p q (record q { sesses = insert q.sesses id h }) k
        (Kept-routes q (insert q.sesses id h)),
    record { mac_same = refl; sid_same = refl },
  )
  child_at-Fine t p q id mac told (some listed) k = (k, SameName-refl s)

  child_login-Fine :
      (t : Tables) (id : ℕ) (mac : Text) (g : Stage)
      → child_login t h s id mac ≡ ok g
      → Fine t.pool g
  unfolding child_login
  child_login-Fine t id mac g e =
      let (r, released, e1) =
        bind_ok (released_at t.pool s id (lookup (t.pool).sesses id))
          (λ r. ok (child_at t r.0 h s id mac r.1 (lookup s.devs id))) g e in
      subst (Fine t.pool) (ok_injective (child_at t r.0 h s id mac r.1 (lookup s.devs id)) g e1) (
        child_at-Fine t t.pool r.0 id mac r.1 (lookup s.devs id)
          (released_at-Kept t.pool id (lookup (t.pool).sesses id) r released))

  with_users-SameName : (x : DevSession) (o : Option (List ℕ × ℕ)) → SameName x (with_users x o)
  with_users-SameName x none = SameName-refl x
  with_users-SameName x (some ([], owner)) = record { mac_same = refl; sid_same = refl }
  with_users-SameName x (some (user ∷ users, owner)) = record { mac_same = refl; sid_same = refl }

  module _ (w : LoginWorld) (udp : w.dw ≡ false) where
    first_login-Fine :
        (t : Tables) (id : ℕ) (g : Stage) → first_login w t h s id ≡ ok g → Fine t.pool g
    unfolding first_login enter_dw
    first_login-Fine t id g e =
        let x : DevSession = with_mz w (record s { dev_id = id }) in
        let same = with_users-SameName x (w.users_of id) in
        subst (Fine t.pool) (ok_injective _ g (rw udp at e)) (
          Kept-routes t.pool (insert (t.pool).sesses id h),
          record { mac_same = same.mac_same; sid_same = same.sid_same },
        )

    known_login-Fine :
        (t : Tables) (id : ℕ) (mac : Text) (g : Stage)
        → known_login w t h s id mac ≡ ok g
        → Fine t.pool g
    known_login-Fine t id mac g e = elim (Bool-cases (s.dev_id == 0)) [
      | inl z ↦ first_login-Fine t id g (rw z at e)
      | inr z ↦ elim (Bool-cases (s.dev_id == id)) [
        | inl y ↦
            subst (Fine t.pool) (ok_injective (same_login w t s) g (rw (z, y) at e))
              (Kept-refl t.pool, record { mac_same = refl; sid_same = refl })
        | inr y ↦ child_login-Fine t id mac g (rw (z, y) at e)
      ]
    ]

    id_login-Fine :
        (t : Tables) (mac : Text) (id : ℕ) (g : Stage)
        → id_login w t h s mac (some id) ≡ ok g
        → Fine t.pool g
    unfolding id_login
    id_login-Fine t mac id g e =
        known_login-Fine (record t { mac2id = insert t.mac2id mac id }) id mac g e

    kept_output-SameName :
        (first : Bool) (x : DevSession) (out : Bytes) → SameName x (kept_output first x out)
    kept_output-SameName true x out = record { mac_same = refl; sid_same = refl }
    kept_output-SameName false x out = SameName-refl x

    -- Over UDP, when `onLogin` returns for a session of the table, with an error or without: every session
    -- of the table goes by the MAC and the session id that it had, the session ids lead where they led,
    -- and no MAC leads anywhere new.
    pub on_login-Kept :
        (t : Tables) (body : Bytes) (d : LoginDone)
        → lookup (t.pool).heap h ≡ some s
        → on_login w t h body ≡ ok d
        → Kept t.pool d.tables.pool
    on_login-Kept t body d at e = elim (on_login-cases w t h s d body at e) [
      | inl same ↦ elim (same.tables_kept) [
        | inl q ↦ subst (λ (x : Tables). Kept t.pool x.pool) (sym q) (Kept-refl t.pool)
        | inr q ↦
            subst (λ (x : Tables). Kept t.pool x.pool) (sym q)
              (Kept-write t.pool h s (record s { output = same.output }) at
                (record { mac_same = refl; sid_same = refl }))
      ]
      | inr a ↦
          let (kept, same) = id_login-Fine t _ a.id a.stage a.stages in
          let out = kept_output-SameName (s.dev_id == 0) (a.stage).session _ in
          subst (λ (x : Tables). Kept t.pool x.pool) (sym (a.written))
            (Kept-over t.pool (a.stage).tables.pool h s _ kept at (record {
              mac_same = out.mac_same ∙ same.mac_same;
              sid_same = out.sid_same ∙ same.sid_same;
            }))
    ]

panic-ne-ok {ℓ} : {A : Type ℓ} (a : A) → panic ≢ ok a
panic-ne-ok a e = ground arith

-- When `onLogin` returns, the pointer leads to a session.
pub on_login-session :
    (w : LoginWorld) (t : Tables) (h : ℕ) (body : Bytes) (d : LoginDone)
    → on_login w t h body ≡ ok d
    → (s : DevSession) × (lookup (t.pool).heap h ≡ some s)
unfolding on_login
on_login-session w t h body d e = elim (Option-cases (lookup (t.pool).heap h)) [
  | inl gone ↦ absurd (panic-ne-ok d (rw gone at e))
  | inr found ↦ found
]
