-- ===== src/Session/Dispatch/Checked.antt =====
-- A command that is answered has passed every check.
use erina.Base.{
  key_cases, ℕ, ◌==◌, ◌≡◌, ◌≢◌, ◌⊎◌, sym, ap, ◌∙◌, arith, Option, some, lookup, insert,
  lookup-insert, inl, inr, Bool, true, false, nat_key, text_key,
}
use erina.Outcome.{Outcome, ok, err, panic, ◌>>=◌, checked}
use erina.Outcome.Laws.{bind_ok, checked-some}
use erina.Msg.Types.{Msg}
use erina.Msg.Decode.{binary2msg}
use erina.Session.Types.{DevSession, Pool}
use erina.Session.Replay.{verify_pack}
use erina.Session.Pool.{byte2sess}
use erina.Session.Dispatch.{
  with_number, with_session, login_of, logged_in, serve, admit, respond, World, take_mz,
  exit_outcome, check_session, check_login, opcode02,
}

-- The session that the request names was found, and its packet number passed.
pub record Verified (p : Pool) (n : Msg) (h : ℕ) : Type 0 where
  pub session : DevSession
  pub number : ℕ
  pub named : byte2sess p n.dh_session_id ≡ ok h
  pub at_heap : lookup p.heap h ≡ some session
  pub passed : verify_pack session.ridx n.fh_sequence ≡ ok number

abbrev value_or {ℓ} : {A : Type ℓ} → A → Outcome A → A
value_or d (ok a) = a
value_or d (err e) = d
value_or d panic = d

parts : (x y : Option ℕ × Pool) → Outcome.ok x ≡ ok y → (y.0 ≡ x.0) × (y.1 ≡ x.1)
parts x y e = (ap (λ o. (value_or x o).0) (sym e), ap (λ o. (value_or x o).1) (sym e))

with_number-Verified :
    (p : Pool) (n : Msg) (h : ℕ) (s : DevSession) (found : Option ℕ × Pool)
    → with_number p n h s ≡ ok found
    → (r : ℕ) × (verify_pack s.ridx n.fh_sequence ≡ ok r)
      × (found.0 ≡ some h)
      × (found.1 ≡ record p { heap = insert p.heap h (record s { ridx = r }) })
unfolding with_number
with_number-Verified p n h s found e =
    let (r, passed, same) =
      bind_ok (verify_pack s.ridx n.fh_sequence)
        (λ r. ok (some h, record p { heap = insert p.heap h (record s { ridx = r }) })) found e in
    let (pointer, table) = parts _ found same in (r, passed, pointer, table)

pub check_session-Verified :
    (w : World) (p : Pool) (n : Msg) (found : Option ℕ × Pool)
    → w.udp ≡ true
    → n.dh_msg_id ≢ 0xc1
    → check_session w p n ≡ ok found
    → (h : ℕ) × (x : Verified p n h) × (found.0 ≡ some h)
      × (found.1 ≡ record p { heap = insert p.heap h (record (x.session) { ridx = x.number }) })
unfolding check_session with_session
check_session-Verified w p n found udp other e =
    let command : (n.dh_msg_id == 0xc1) ≡ false = ground arith in
    let chain : (byte2sess p n.dh_session_id >>= with_session p n) ≡ ok found =
      rw (command, udp) at e in
    let (h, named, e1) = bind_ok (byte2sess p n.dh_session_id) (with_session p n) found chain in
    let (s, at_heap, e2) = bind_ok (checked (lookup p.heap h)) (with_number p n h) found e1 in
    let (r, passed, pointer, table) = with_number-Verified p n h s found e2 in
    (
      h,
      record {
        session = s;
        number = r;
        named = named;
        at_heap = checked-some (lookup p.heap h) s at_heap;
        passed = passed;
      },
      pointer,
      table,
    )

-- Where a session listed at `h` has logged in.
check_login-LoggedIn :
    (p : Pool) (h : ℕ) (n : Msg) (s : DevSession) (b : Bool)
    → lookup p.heap h ≡ some s
    → check_login p (some h) n ≡ ok b
    → (n.dh_msg_id ≡ 0xc1) ⊎ (n.dh_msg_id ≡ 0xc2) ⊎ (n.dh_msg_id ≡ 0xc3) ⊎ (s.dev_id ≢ 0)
unfolding check_login login_of logged_in
check_login-LoggedIn p h n s b there e = ground arith

serve-Verified :
    (w : World) (p : Pool) (n : Msg) (out : Msg × Option ℕ × Pool)
    → w.udp ≡ true
    → n.dh_msg_id ≢ 0xc1
    → serve w p n ≡ ok out
    → (h : ℕ) × (x : Verified p n h) × ((n.dh_msg_id ≡ 0xc2)
        ⊎ (n.dh_msg_id ≡ 0xc3)
        ⊎ ((x.session).dev_id ≢ 0))
unfolding serve admit
serve-Verified w p n out udp other e =
    let (found, sess, e1) = bind_ok (check_session w p n) (admit w n) out e in
    let (h, x, pointer, table) = check_session-Verified w p n found udp other sess in
    let (b, logged, _) =
      bind_ok (check_login found.1 found.0 n) (λ logged. respond w n found) out e1 in
    let kept : DevSession = record (x.session) { ridx = x.number } in
    let here : check_login (record p { heap = insert p.heap h kept }) (some h) n ≡ ok b =
      (λ i. check_login (sym table i) (sym pointer i) n) ∙ logged in
    (
      h,
      x,
      elim (check_login-LoggedIn (record p { heap = insert p.heap h kept }) h n kept b
          (lookup-insert p.heap h kept) here) [ inl c ↦ absurd (other c) | inr rest ↦ rest ],
    )

-- Over UDP, for every table and request that `opcode02` answers: the request was decoded, and
-- unless it is CmdSess, `Byte2Sess` found the session that it names, `VerifyPack` accepted its
-- packet number, and the session has logged in, unless it is CmdRegister or CmdLogin.
pub opcode02-Verified :
    (w : World) (p : Pool) (m : Msg) (out : Msg × Option ℕ × Pool)
    → w.udp ≡ true
    → opcode02 w p m ≡ ok out
    → (secret : Msg) × (n : Msg) × (take_mz w m ≡ ok secret)
      × (exit_outcome (binary2msg w.cipher secret) ≡ ok n)
      × ((n.dh_msg_id ≡ 0xc1)
          ⊎ ((h : ℕ) × (x : Verified p n h) × ((n.dh_msg_id ≡ 0xc2)
                ⊎ (n.dh_msg_id ≡ 0xc3)
                ⊎ ((x.session).dev_id ≢ 0))))
unfolding opcode02
opcode02-Verified w p m out udp e =
    let (secret, took, e1) =
      bind_ok (take_mz w m) (λ secret. exit_outcome (binary2msg w.cipher secret) >>= serve w p) out
        e in
    let (n, decoded, e2) = bind_ok (exit_outcome (binary2msg w.cipher secret)) (serve w p) out e1 in
    (
      secret,
      n,
      took,
      decoded,
      elim (key_cases n.dh_msg_id 0xc1) [
        | inl c ↦ inl c
        | inr other ↦ inr (serve-Verified w p n out udp other e2)
      ],
    )
