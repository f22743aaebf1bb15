-- ===== src/Users/Push.antt =====
-- `PushMsg`, `PushCommonMsg`, `OffliningUsr` and `KafkaPushMsg` of srv/ms.go. Whether the socket takes
-- the bytes is not looked at beyond a log line.
use erina.Base.{ℕ, ◌==◌, if◌then◌else◌, true, [], Option, none, some, lookup, insert, nat_key}
use erina.Words.{Bytes}
use erina.Outcome.{Outcome, ok, err, panic, ◌>>=◌, checked}
use erina.Aes.{Cipher}
use erina.Msg.Types.{Msg, new_msg}
use erina.Msg.Decode.{binary2msg}
use erina.Msg.Encode.{msg2binary}
use erina.Status.{marshal}
use erina.Session.Forward.{left_by}
use erina.Users.Types.{UsrSessionPool, close_ws}

-- Bytes written to a user's session, by its pointer; none when there is no session.
abbrev pub Written : Type 0
Written = Option (ℕ × Bytes)

-- The bytes for a session with a secret: a message of opcode 5 is encrypted for it.
unfoldable pub reseal : Cipher → ℕ → Bytes → Bytes → Outcome Bytes
reseal c now z frame = do
  m ← left_by (binary2msg c (record new_msg { final = frame }))
  if m.fh_opcode == 5
      then (left_by (msg2binary c now (record m { mz = some z; fh_mask = true; dh_key_level = 3 }))
          >>= λ out. ok out.final)
      else ok frame

abbrev pub bytes_for : Cipher → ℕ → Option Bytes → Bytes → Outcome Bytes
bytes_for c now none frame = ok frame
bytes_for c now (some z) frame = reseal c now z frame

abbrev pub push_at : Cipher → ℕ → UsrSessionPool → Option ℕ → Bytes → Outcome Written
push_at c now p none frame = ok none
push_at c now p (some h) frame = do
  s ← checked (lookup p.heap h)
  out ← bytes_for c now s.mz frame
  ok (some (h, out))

unfoldable pub push_msg : Cipher → ℕ → UsrSessionPool → ℕ → Bytes → Outcome Written
unfolding reseal
push_msg c now p uid frame = push_at c now p (lookup p.sesses uid) frame

-- `KafkaPushMsg`: the bytes as they are.
abbrev pub kafka_push_msg : UsrSessionPool → ℕ → Bytes → Written
kafka_push_msg p uid frame = elim (lookup p.sesses uid) [ none ↦ none | some h ↦ some (h, frame) ]

-- `PushCommonMsg`.
unfoldable pub push_common_msg : Cipher → ℕ → UsrSessionPool → ℕ → ℕ → Bytes → Outcome Written
push_common_msg c now p msg_id dst body = elim (lookup p.sesses dst) [
  | none ↦ ok none
  | some h ↦
      left_by (
        msg2binary c now (record new_msg {
          text = body;
          fh_opcode = 2;
          fh_mask = true;
          dh_msg_id = msg_id;
          fh_dst_id = dst;
        }))
      >>= λ m. ok (some (h, m.final))
]

-- `MSTKickOff` of msgs/body.go and `MIDStatus` of msgs/msg.go.
abbrev pub mst_kick_off : ℕ
mst_kick_off = 13

abbrev pub mid_status : ℕ
mid_status = 0x36

-- An error of `Marshal` leaves nil.
abbrev pub marshalled : Outcome Bytes → Outcome Bytes
marshalled (ok b) = ok b
marshalled (err e) = ok []
marshalled panic = panic

-- The message that tells a user.
unfoldable pub kick_msg : Cipher → ℕ → ℕ → Outcome Msg
kick_msg c now uid = do
  text ← marshalled (marshal (record { kind = mst_kick_off; id = uid; payload = [] }))
  left_by (
      msg2binary c now (record new_msg {
        fh_mask = true;
        fh_opcode = 2;
        dh_msg_id = mid_status;
        fh_dst_id = uid;
        text = text;
      }))

abbrev pub kick : Cipher → ℕ → UsrSessionPool → ℕ → Option ℕ → Outcome (UsrSessionPool × Written)
kick c now p uid none = ok (p, none)
kick c now p uid (some h) = do
  m ← kick_msg c now uid
  s ← checked (lookup p.heap h)
  ws ← checked (close_ws s.ws)
  ok (record p { heap = insert p.heap h (record s { ws = ws }) }, some (h, m.final))

-- `OffliningUsr`: the user is told and its socket closed; its session stays in the table.
unfoldable pub offlining_usr : Cipher → ℕ → UsrSessionPool → ℕ → Outcome (UsrSessionPool × Written)
unfolding kick_msg
offlining_usr c now p uid = kick c now p uid (lookup p.sesses uid)
