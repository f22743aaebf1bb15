-- ===== src/Session/Commands/Served.antt =====
-- Over UDP `opcode02` with the handlers of the commands loses no session.
use erina.Base.{
  refl, ℕ, ◌≡◌, ◌≢◌, ◌==◌, sym, ap, ◌∙◌, Option, none, lookup, lookup-insert_other, inl, inr,
  nat_key, text_key, false, true, ==_iff, key_cases, subst,
}
use erina.Words.{Bytes}
use erina.Outcome.{ok, ◌>>=◌}
use erina.Outcome.Laws.{ok_injective, bind_ok}
use erina.Msg.Types.{Msg}
use erina.Msg.Decode.{binary2msg}
use erina.Session.Types.{DevSession, Pool}
use erina.Session.Pool.Consistent.{Consistent, none-ne-some_session}
use erina.Session.Login.Stages.{Tables}
use erina.Session.Dispatch.{
  World, take_mz, exit_outcome, check_session, check_login, admit, respond, serve, opcode02,
  reply_text, seal_reply, reply_to,
}
use erina.Session.Dispatch.Checked.{check_session-Verified}
use erina.Session.Commands.{command_of, Around, run, handler_of, udp_world, reply_of}
use erina.Session.Commands.Kept.{Kept, Kept-refl, Kept-write}
use erina.Session.Commands.Continues.{
  Continues, Kept-Continues, Continues-trans, Fresh, run-Continues,
}

-- Counting the packet leaves a new session's pointer and id free.
check_session-Fresh :
    (w : World) (p : Pool) (n : Msg) (found : Option ℕ × Pool) (h : ℕ) (random : Bytes)
    → w.udp ≡ true
    → Fresh p h random
    → check_session w p n ≡ ok found
    → Kept p found.1 × Fresh found.1 h random
unfolding check_session
check_session-Fresh w p n found h random udp fresh e = elim (key_cases n.dh_msg_id 0xc1) [
  | inl sess ↦
      let is_sess : (n.dh_msg_id == 0xc1) ≡ true = (==_iff n.dh_msg_id 0xc1).1 sess in
      subst (λ (x : Option ℕ × Pool). Kept p x.1 × Fresh x.1 h random)
        (ok_injective (none, p) found (rw is_sess at e)) (Kept-refl p, fresh)
  | inr other ↦
      let (g, x, pointer, table) = check_session-Verified w p n found udp other e in
      let counted : DevSession = record (x.session) { ridx = x.number } in
      let g_ne : g ≢ h = λ q.
        none-ne-some_session x.session
          (sym (fresh.no_session) ∙ ap (lookup p.heap) (sym q) ∙ x.at_heap) in
      subst (λ (q : Pool). Kept p q × Fresh q h random) (sym table)
        (
          Kept-write p g x.session counted x.at_heap (record { mac_same = refl; sid_same = refl }),
          record {
            no_session = lookup-insert_other p.heap g h counted g_ne ∙ fresh.no_session;
            unused = fresh.unused;
            eight = fresh.eight;
          },
        )
]

module _ (a : Around) (t : Tables) (nanos : ℕ) (p : Pool) (udp : a.login.dw ≡ false)
    (old : Consistent p) (fresh : Fresh p a.fresh a.random) where
  abbrev w : World
  w = udp_world a t nanos

  respond-Continues :
      (n : Msg) (found : Option ℕ × Pool) (out : Msg × Option ℕ × Pool)
      → Consistent found.1
      → Fresh found.1 a.fresh a.random
      → respond w n found ≡ ok out
      → Continues found.1 out.2
  unfolding respond
  respond-Continues n found out kept free e =
      let (r, handled, e1) =
        bind_ok (handler_of a t found.1 found.0 n)
          (λ r. reply_text r >>= λ text.
            seal_reply w (reply_to a.seconds n text) >>= λ ret. ok (ret, found.0, r.pool))
          out e in
      let (text, _, e2) =
        bind_ok (reply_text r)
          (λ text. seal_reply w (reply_to a.seconds n text) >>= λ ret. ok (ret, found.0, r.pool))
          out e1 in
      let (ret, _, e3) =
        bind_ok (seal_reply w (reply_to a.seconds n text)) (λ ret. ok (ret, found.0, r.pool)) out
          e2 in
      let now : Tables = record t { pool = found.1 } in
      let (ran, runs, e4) =
        bind_ok (run a now found.0 n (command_of n.dh_msg_id)) (λ x. ok (reply_of x)) r handled in
      let left : Continues found.1 ran.tables.pool =
        run-Continues a now found.0 n ran (command_of n.dh_msg_id) udp kept free runs in
      let table : ran.tables.pool ≡ r.pool = ap (λ x. x.pool) (ok_injective (reply_of ran) r e4) in
      let last : r.pool ≡ out.2 = ap (λ x. x.2) (ok_injective (ret, found.0, r.pool) out e3) in
      subst (Continues found.1) (table ∙ last) left

  serve-Continues :
      (n : Msg) (out : Msg × Option ℕ × Pool) → serve w p n ≡ ok out → Continues p out.2
  unfolding serve admit
  serve-Continues n out e =
      let (found, sess, e1) = bind_ok (check_session w p n) (admit w n) out e in
      let (b, _, e2) =
        bind_ok (check_login found.1 found.0 n) (λ logged. respond w n found) out e1 in
      let (kept, free) = check_session-Fresh w p n found a.fresh a.random refl fresh sess in
      let first : Continues p found.1 = Kept-Continues p found.1 old kept in
      Continues-trans p found.1 out.2 first (respond-Continues n found out first.consistent free e2)

  -- Over UDP, with the handlers of the commands, in a consistent table, when the pointer of a new session
  -- is not in use and its eight random bytes are no session's id: when `opcode02` answers a request,
  -- whatever its command, the table that it leaves is consistent, every session id that `Byte2Sess`
  -- accepted leads to the session that it led to, and every session of the table goes by the MAC and the
  -- id that it had.
  pub opcode02-Continues :
      (m : Msg) (out : Msg × Option ℕ × Pool) → opcode02 w p m ≡ ok out → Continues p out.2
  unfolding opcode02
  opcode02-Continues m out e =
      let (secret, _, e1) =
        bind_ok (take_mz w m) (λ secret. exit_outcome (binary2msg w.cipher secret) >>= serve w p)
          out e in
      let (n, _, e2) = bind_ok (exit_outcome (binary2msg w.cipher secret)) (serve w p) out e1 in
      serve-Continues n out e2
