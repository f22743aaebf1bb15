-- ===== src/Session/Commands/Handlers.antt =====
-- Over UDP no handler but `onSess` gives a session another name.
use erina.Session.Commands.{
  reach, from_login, text_only, cmd_register, cmd_login, cmd_heart_beat, cmd_logout, cmd_log,
  cmd_warn, cmd_stat, cmd_fail, cmd_ld2, cmd_ld2_list, cmd_ld2_chain, cmd_dcm, cmd_sl, invalid,
  cmd_sess, Command, run, Around, Ran, written_back, answered_by, own,
}
use erina.Base.{
  ◌⊎◌, inl, inr, false, Map, ℕ, ◌≡◌, refl, arith, Option, none, some, lookup, insert, subst,
  nat_key, text_key,
}
use erina.Base.Partial.{bind_some}
use erina.Words.{Bytes, slice, hex_encode}
use erina.Outcome.{Outcome, ok, err, ◌>>=◌, checked}
use erina.Outcome.Laws.{bind_ok, ok_injective, some_injective, checked-some}
use erina.Msg.Types.{Msg}
use erina.Session.Types.{Text, DevSession, Pool}
use erina.Session.Children.{Done, sl_for, enlist, logout_for, on_sl, on_logout, resolve}
use erina.Session.Login.Stages.{Tables}
use erina.Session.Login.{on_login}
use erina.Session.Login.Named.{on_login-session, on_login-Kept}
use erina.Session.Registration.{on_register, on_hear_beat}
use erina.Session.Handlers.{Answer, on_log, on_ld2, on_ld2_chain, on_ld2_list}
use erina.Session.Commands.Kept.{Kept, SameName, SameName-refl, Kept-refl, Kept-over, Kept-routes}

-- What the handlers of a session leave: the table's sessions, and the session's names.
abbrev Fine : Pool → DevSession → Done → Type 0
Fine p s d = Kept p d.pool × SameName s d.session

enlist-Fine :
    (s : DevSession) (h : ℕ) (p : Pool) (mac : Text) (out : Bytes) (o : Outcome ℕ) (d : Done)
    → enlist s h p mac out o ≡ some d
    → Fine p s d
unfolding enlist
enlist-Fine s h p mac out Outcome.panic d e = absurd (ground arith)
enlist-Fine s h p mac out (err x) d e =
    subst (Fine p s) (some_injective _ d e) (Kept-refl p, SameName-refl s)
enlist-Fine s h p mac out (ok id) d e =
    subst (Fine p s) (some_injective _ d e)
      (Kept-routes p (insert p.sesses id h), record { mac_same = refl; sid_same = refl })

sl_for-Fine :
    (s : DevSession) (h : ℕ) (p : Pool) (front : Bytes) (o : Option ℕ) (r : Outcome ℕ) (d : Done)
    → sl_for s h p front o r ≡ some d
    → Fine p s d
unfolding sl_for
sl_for-Fine s h p front none r d e = enlist-Fine s h p (hex_encode front) _ r d e
sl_for-Fine s h p front (some id) r d e =
    subst (Fine p s) (some_injective _ d e) (Kept-refl p, SameName-refl s)

on_sl-Fine :
    (mac2id : Map Text ℕ) (asks : Text → Outcome ℕ) (s : DevSession) (h : ℕ) (p : Pool)
    (body : Bytes) (d : Done)
    → on_sl mac2id asks s h p body ≡ some d
    → Fine p s d
unfolding on_sl
on_sl-Fine mac2id asks s h p body d e =
    let (front, _, e1) =
      bind_some (slice body 0 8)
        (λ front.
          sl_for s h p front (lookup s.macs (hex_encode front))
            (resolve mac2id asks (hex_encode front)))
        d e in
    sl_for-Fine s h p front _ _ d e1

logout_for-Fine :
    (s : DevSession) (p : Pool) (front : Bytes) (o : Option ℕ) → Fine p s (logout_for s p front o)
unfolding logout_for
logout_for-Fine s p front none = (Kept-refl p, SameName-refl s)
logout_for-Fine s p front (some id) = (Kept-refl p, record { mac_same = refl; sid_same = refl })

on_logout-Fine :
    (s : DevSession) (p : Pool) (body : Bytes) (d : Done) → on_logout s p body ≡ some d → Fine p s d
unfolding on_logout
on_logout-Fine s p body d e =
    let (front, _, e1) =
      bind_some (slice body 0 8)
        (λ front. some (logout_for s p front (lookup s.macs (hex_encode front)))) d e in
    subst (Fine p s) (some_injective _ d e1) (logout_for-Fine s p front _)

module _ (a : Around) (t : Tables) (sess : Option ℕ) (m : Msg) (r : Ran) where
  abbrev KeptBy : Ran → Type 0
  KeptBy x = Kept t.pool x.tables.pool

  answer-Kept : (o : Option Answer) → (checked o >>= λ x. ok (answered_by t x)) ≡ ok r → KeptBy r
  answer-Kept o e =
      let (x, _, e1) = bind_ok (checked o) (λ x. ok (answered_by t x)) r e in
      subst KeptBy (ok_injective _ r e1) (Kept-refl t.pool)

  done-Kept :
      (h : ℕ) (s : DevSession) (o : Option Done)
      → own t h ≡ ok s
      → ((d : Done) → o ≡ some d → Fine t.pool s d)
      → (checked o >>= λ d. ok (written_back t h d)) ≡ ok r
      → KeptBy r
  done-Kept h s o at fine e =
      let (d, there, e1) = bind_ok (checked o) (λ d. ok (written_back t h d)) r e in
      let (kept, same) = fine d (checked-some o d there) in
      subst KeptBy (ok_injective _ r e1)
        (Kept-over t.pool d.pool h s d.session kept (checked-some _ s at) same)

  text-Kept : (text : Bytes) → ok (text_only t text) ≡ ok r → KeptBy r
  text-Kept text e = subst KeptBy (ok_injective (text_only t text) r e) (Kept-refl t.pool)

  -- A command that finds its session.
  own-Kept :
      (f : ℕ → DevSession → Outcome Ran)
      → ((h : ℕ) (s : DevSession) → own t h ≡ ok s → f h s ≡ ok r → KeptBy r)
      → (checked sess >>= λ h. own t h >>= f h) ≡ ok r
      → KeptBy r
  own-Kept f by e =
      let (h, _, e1) = bind_ok (checked sess) (λ h. own t h >>= f h) r e in
      let (s, at, e2) = bind_ok (own t h) (f h) r e1 in by h s at e2

  login-Kept :
      a.login.dw ≡ false
      → (checked sess >>= λ h. on_login a.login t h m.text >>= λ d. ok (from_login d)) ≡ ok r
      → KeptBy r
  login-Kept udp e =
      let (h, _, e1) =
        bind_ok (checked sess) (λ h. on_login a.login t h m.text >>= λ d. ok (from_login d)) r e in
      let (d, run, e2) = bind_ok (on_login a.login t h m.text) (λ d. ok (from_login d)) r e1 in
      let (s, at) = on_login-session a.login t h m.text d run in
      subst KeptBy (ok_injective (from_login d) r e2)
        (on_login-Kept h s a.login udp t m.text d at run)

  -- Every command but CmdSess keeps the sessions of the table.
  pub run-Kept :
      (c : Command) → a.login.dw ≡ false → run a t sess m c ≡ ok r → (c ≡ cmd_sess) ⊎ KeptBy r
  unfolding run
  run-Kept cmd_sess udp e = inl refl
  run-Kept cmd_register udp e = inr (answer-Kept (on_register a.register m.text (a.spare m)) e)
  run-Kept cmd_login udp e = inr (login-Kept udp e)
  run-Kept cmd_heart_beat udp e = inr (
      own-Kept (λ h s. ok (text_only t (on_hear_beat a.seconds s).0)) (λ h s at q. text-Kept _ q) e)
  run-Kept cmd_logout udp e = inr (
      own-Kept (λ h s. checked (on_logout s t.pool (reach a m)) >>= λ d. ok (written_back t h d))
        (λ h s at q.
          done-Kept h s (on_logout s t.pool (reach a m)) at (on_logout-Fine s t.pool (reach a m)) q)
        e)
  run-Kept cmd_log udp e = inr (answer-Kept (on_log m.text) e)
  run-Kept cmd_warn udp e = inr (text-Kept _ e)
  run-Kept cmd_stat udp e = inr (text-Kept _ e)
  run-Kept cmd_fail udp e = inr (text-Kept _ e)
  run-Kept cmd_ld2 udp e = inr (answer-Kept (on_ld2 a.ld2cfg m.text) e)
  run-Kept cmd_ld2_list udp e = inr (answer-Kept (on_ld2_list a.ld2cfg_list) e)
  run-Kept cmd_ld2_chain udp e = inr (answer-Kept (on_ld2_chain a.ld2ds (reach a m)) e)
  run-Kept cmd_dcm udp e = absurd (ground arith)
  run-Kept cmd_sl udp e = inr (
      own-Kept
        (λ h s. checked (on_sl t.mac2id a.id_by_mac s h t.pool (reach a m)) >>= λ d.
          ok (written_back t h d))
        (λ h s at q.
          done-Kept h s (on_sl t.mac2id a.id_by_mac s h t.pool (reach a m)) at
            (on_sl-Fine t.mac2id a.id_by_mac s h t.pool (reach a m)) q)
        e)
  run-Kept invalid udp e = absurd (ground arith)
