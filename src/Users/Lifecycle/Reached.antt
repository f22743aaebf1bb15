-- ===== src/Users/Lifecycle/Reached.antt =====
-- What holds of users' sessions after any history.
use erina.Base.{
  ℕ, ◌≡◌, inl, refl, sym, ap, ◌∙◌, arith, true, false, Bool, Option, none, some, lookup, insert,
  nat_key, subst,
}
use erina.Outcome.{ok, checked}
use erina.Aes.{Cipher}
use erina.Sentinel.Types.{Text}
use erina.Outcome.Laws.{bind_ok, checked-some, ok_injective, some_injective}
use erina.Users.Types.{UsrSession, UsrSessionPool, Ws, no_ws, opened, shut, close_ws}
use erina.Users.Pool.{add_session, usr_update_ids}
use erina.Users.Push.{Written, offlining_usr, kick, kick_msg}
use erina.Users.Offline.{Forced, force_user_offline, logout, is_positive}
use erina.Users.Lifecycle.{
  Life, set_live, arrived, no_life, Step, enters, leaves, forces, kicks, binds, Reachable, starts,
  goes,
}
use erina.Users.Lifecycle.Orderly.{Orderly, Changes, touched-Orderly, none-ne-some}
use erina.Users.Lifecycle.Adding.{added}
use erina.Users.Lifecycle.Steps.{gone, forced, bound}

close_ws-shut : (w : Ws) (w' : Ws) → close_ws w ≡ some w' → w' ≡ shut
close_ws-shut no_ws w' e = absurd (none-ne-some w' e)
close_ws-shut opened w' e = some_injective w' shut (sym e)
close_ws-shut shut w' e = some_injective w' shut (sym e)

-- `OffliningUsr`, whenever it does not panic.
kicked_at :
    (st : Life) (c : Cipher) (now uid : ℕ) (q : UsrSessionPool) (w : Written) (o : Option ℕ)
    → Orderly st
    → kick c now st.pool uid o ≡ ok (q, w)
    → Orderly (record st { pool = q })
kicked_at st c now uid q w none v e =
    subst (λ x. Orderly (record st { pool = x }))
      (ap (λ r. r.0) (ok_injective (st.pool, none) (q, w) e)) v
kicked_at st c now uid q w (some h) v e =
    let (m, _, e2) = bind_ok (kick_msg c now uid) _ (q, w) e in
    let (s, found, e3) = bind_ok (checked (lookup (st.pool).heap h)) _ (q, w) e2 in
    let (ws, closes, e4) = bind_ok (checked (close_ws s.ws)) _ (q, w) e3 in
    let t : UsrSession = record s { ws = ws } in
    let at : lookup (st.pool).heap h ≡ some s = checked-some (lookup (st.pool).heap h) s found in
    let change : Changes s t = record {
      socket = inl (close_ws-shut s.ws ws (checked-some (close_ws s.ws) ws closes));
      user = inl refl;
    } in
    subst (λ x. Orderly (record st { pool = x }))
      (ap (λ r. r.0)
        (ok_injective (record (st.pool) { heap = insert (st.pool).heap h t }, some (h, m.final))
          (q, w) e4))
      (touched-Orderly st v h s t at change)

-- The pool that an operation leaves is the one that the lemmas name.
settle :
    (f : UsrSessionPool → Life) (o : Option UsrSessionPool) (a q : UsrSessionPool)
    → o ≡ some a
    → Orderly (f a)
    → o ≡ some q
    → Orderly (f q)
settle f o a q e v d = subst (λ x. Orderly (f x)) (some_injective a q (sym e ∙ d)) v

step-Orderly : (st st' : Life) → Step st st' → Orderly st → Orderly st'
unfolding offlining_usr
step-Orderly _ _ (enters st h s q free is_open real e) v =
    let (a, adds, kept, _) = added st v h s free is_open real in
    settle (λ x. record { pool = x; live = set_live st h true }) _ a q adds kept e
step-Orderly _ _ (leaves st h q alive e) v =
    let (a, goes_out, kept) = gone st v h alive in
    settle (λ x. record { pool = x; live = set_live st h false }) _ a q goes_out kept e
step-Orderly _ _ (forces st uid mobile calm f e) v =
    let (a, cuts, kept) = forced st v uid mobile calm in
    subst (λ (x : Forced). Orderly (record st { pool = x.pool }))
      (some_injective a f (sym cuts ∙ e)) kept
step-Orderly _ _ (kicks st c now uid q w e) v =
    kicked_at st c now uid q w (lookup (st.pool).sesses uid) v e
step-Orderly _ _ (binds st dev user bind q e) v =
    let (a, binds_it, kept) = bound st v dev user bind in
    settle (λ x. record st { pool = x }) _ a q binds_it kept e

no_life-Orderly : Orderly no_life
no_life-Orderly = record {
  known = λ h alive. absurd (ground arith);
  open_listed = λ h s found opens. absurd (none-ne-some s found);
  sound = λ u h listed. absurd (none-ne-some h listed);
}

pub Reachable-Orderly : (st : Life) → Reachable st → Orderly st
Reachable-Orderly _ starts = no_life-Orderly
Reachable-Orderly _ (goes st st' r step) = step-Orderly st st' step (Reachable-Orderly st r)

-- After any history of logins, logouts, forced and kicked users and bindings: two sessions with open
-- sockets and the same user are one, and it is the one that the table lists for the user.
pub Reachable-one_session :
    (st : Life) (h k : ℕ) (s t : UsrSession)
    → Reachable st
    → lookup (st.pool).heap h ≡ some s
    → lookup (st.pool).heap k ≡ some t
    → s.ws ≡ opened
    → t.ws ≡ opened
    → s.uid ≡ t.uid
    → (h ≡ k) × (lookup (st.pool).sesses s.uid ≡ some h)
Reachable-one_session st h k s t r at_h at_k opens_h opens_k same =
    let v = Reachable-Orderly st r in
    let (_, listed_h) = v.open_listed h s at_h opens_h in
    let (_, listed_k) = v.open_listed k t at_k opens_k in
    (some_injective h k (sym listed_h ∙ ap (lookup (st.pool).sesses) same ∙ listed_k), listed_h)

-- After any history of logins, logouts, forced and kicked users and bindings, none of the steps
-- panics: `AddSession` succeeds for a session with an open socket, of a user, at a pointer that is
-- not in use, and lists it; `logout` succeeds for a session that has been added and has not run
-- it; and `ForceUserOffline` and `UpdateIds` succeed for any user.
pub Reachable-succeeds :
    (st : Life) (h k uid dev : ℕ) (s : UsrSession) (mobile calm : Text) (bind : Bool)
    → Reachable st
    → lookup (st.pool).heap h ≡ none
    → s.ws ≡ opened
    → is_positive s.uid ≡ true
    → st.live k ≡ true
    → (p : UsrSessionPool) × (q : UsrSessionPool) × (f : Forced) × (b : UsrSessionPool)
      × (add_session (arrived st h s) h ≡ some p)
      × (lookup p.sesses s.uid ≡ some h)
      × (logout st.pool k ≡ some q)
      × (force_user_offline st.pool uid mobile calm ≡ some f)
      × (usr_update_ids st.pool dev uid bind ≡ some b)
Reachable-succeeds st h k uid dev s mobile calm bind r free is_open real alive =
    let v = Reachable-Orderly st r in
    let (p, adds, kept, listed) = added st v h s free is_open real in
    let (q, goes_out, _) = gone st v k alive in
    let (f, cuts, _) = forced st v uid mobile calm in
    let (b, binds_it, _) = bound st v dev uid bind in
    (p, q, f, b, adds, listed, goes_out, cuts, binds_it)
