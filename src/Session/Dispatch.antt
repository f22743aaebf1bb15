-- ===== src/Session/Dispatch.antt =====
-- `opcode02` of srv/devop.go: a command of a device, its checks, its handler and the reply.
use erina.Session.Types.{DevSession, Text, Pool}
use erina.Base.{
  ◌^◌, ℕ, ◌%◌, ◌==◌, ◌&&◌, not, [], Option, none, some, Map, lookup, insert, if◌then◌else◌, nat_key,
  text_key, Bool, true,
}
use erina.Words.{Bytes}
use erina.Outcome.{Outcome, ok, err, panic, ◌>>=◌, checked, no_mz, not_logged_in}
use erina.Aes.{Cipher}
use erina.Msg.Types.{Msg, Exit, done, failed, new_msg}
use erina.Msg.Decode.{binary2msg}
use erina.Msg.Encode.{msg2binary}
use erina.Session.Replay.{verify_pack}
use erina.Session.Pool.{byte2sess, Reply}
pub mod Checked

-- What surrounds a request. `udp` is `SrvType == CometUdp`; `handler` is the switch on the command,
-- from the request and the session to the text and the error; `seconds` and `nanos` are the clock.
pub record World : Type 0 where
  pub cipher : Cipher
  pub gmz : Map Text Bytes
  pub udp : Bool
  pub handler : Pool → Option ℕ → Msg → Outcome Reply
  pub seconds : ℕ
  pub nanos : ℕ

-- How a method of a message ends, where the message it leaves beside an error is not used.
abbrev pub exit_outcome : Exit → Outcome Msg
exit_outcome (done m) = ok m
exit_outcome (failed e m) = err e
exit_outcome Exit.panic = panic

-- The secret of the sender, for key level 3.
unfoldable pub take_mz : World → Msg → Outcome Msg
take_mz w m =
    if m.dh_key_level == 3
    then elim (lookup w.gmz m.fh_src_mac) [
      | none ↦ err no_mz
      | some mz ↦ ok (record m { mz = some mz })
    ]
    else ok m

unfoldable pub with_number : Pool → Msg → ℕ → DevSession → Outcome (Option ℕ × Pool)
with_number p m h s = do
  ridx ← verify_pack s.ridx m.fh_sequence
  ok (some h, record p { heap = insert p.heap h (record s { ridx = ridx }) })

unfoldable pub with_session : Pool → Msg → ℕ → Outcome (Option ℕ × Pool)
with_session p m h = checked (lookup p.heap h) >>= with_number p m h

-- The session that a command other than CmdSess names, its packet number checked and kept.
unfoldable pub check_session : World → Pool → Msg → Outcome (Option ℕ × Pool)
check_session w p m =
    if not (m.dh_msg_id == 0xc1) && w.udp
    then byte2sess p m.dh_session_id >>= with_session p m
    else ok (none, p)

unfoldable pub logged_in : DevSession → Outcome Bool
logged_in s = if s.dev_id == 0 then err not_logged_in else ok true

unfoldable pub login_of : Pool → ℕ → Outcome Bool
login_of p h = checked (lookup p.heap h) >>= logged_in

-- All commands but CmdSess, CmdRegister and CmdLogin are for sessions that have logged in.
unfoldable pub check_login : Pool → Option ℕ → Msg → Outcome Bool
check_login p sess m =
    if not (m.dh_msg_id == 0xc1) && (not (m.dh_msg_id == 0xc2) && not (m.dh_msg_id == 0xc3))
    then checked sess >>= login_of p
    else ok true

-- The reply to the request `m`, with the handler's text.
unfoldable pub reply_to : ℕ → Msg → Bytes → Msg
reply_to seconds m text = record new_msg {
  mz = if m.dh_key_level == 3 then m.mz else none;
  dh_msg_id = m.dh_msg_id;
  fh_mask = m.fh_mask;
  dh_ack = true;
  dh_read = true;
  dh_key_level = m.dh_key_level;
  dh_encrypt_type = m.dh_encrypt_type;
  fh_opcode = 2;
  dh_data_seq = m.dh_data_seq;
  text = text;
  dh_session_id = if m.dh_msg_id == 0xc1 then none else m.dh_session_id;
  fh_sequence = m.fh_sequence;
  fh_time = seconds % 2 ^ 32;
  fh_dst_id = m.fh_src_id;
}

-- An error beside a text is only logged.
unfoldable pub reply_text : Reply → Outcome Bytes
reply_text r = elim r.text [
  | some text ↦ ok text
  | none ↦ elim r.error [ none ↦ ok [] | some e ↦ err e ]
]

-- The reply goes out whatever `Msg2Binary` returns, unless it panics.
unfoldable pub seal_reply : World → Msg → Outcome Msg
seal_reply w ret = elim (msg2binary w.cipher w.nanos ret) [
  | done m ↦ ok m
  | failed e m ↦ ok m
  | Exit.panic ↦ panic
]

-- The handler and the reply.
unfoldable pub respond : World → Msg → Option ℕ × Pool → Outcome (Msg × Option ℕ × Pool)
respond w m found = do
  r ← w.handler found.1 found.0 m
  text ← reply_text r
  ret ← seal_reply w (reply_to w.seconds m text)
  ok (ret, found.0, r.pool)

unfoldable pub admit : World → Msg → Option ℕ × Pool → Outcome (Msg × Option ℕ × Pool)
admit w m found = check_login found.1 found.0 m >>= λ logged. respond w m found

-- What follows the decoding of a request.
unfoldable pub serve : World → Pool → Msg → Outcome (Msg × Option ℕ × Pool)
serve w p m = check_session w p m >>= admit w m

-- The reply, the pointer of the session and the table.
unfoldable pub opcode02 : World → Pool → Msg → Outcome (Msg × Option ℕ × Pool)
opcode02 w p m = take_mz w m >>= λ secret. exit_outcome (binary2msg w.cipher secret) >>= serve w p
