-- ===== src/Session/Push.antt =====
-- `PushMsg`, `PushCommonMsg` and `Update` of srv/devsess.go: what goes to a device.
use erina.Base.{
  ℕ, ◌+◌, ◌%◌, ◌^◌, ◌==◌, ltb, ◌&&◌, if◌then◌else◌, Bool, true, [], ◌∷◌, Option, none, some, lookup,
  insert, length, take, nat_key,
}
use erina.Words.{Bytes, of_le}
use erina.Outcome.{Outcome, ok, err, ◌>>=◌, checked, no_session}
use erina.Aes.{Cipher}
use erina.Msg.Types.{Msg, new_msg}
use erina.Msg.Decode.{binary2msg}
use erina.Msg.Encode.{msg2binary}
use erina.Session.Types.{Text, DevSession, Pool}
use erina.Session.Pool.{hex_decode}
use erina.Session.Forward.{left_by}

-- What is queued for the device's session: its pointer and the bytes; nothing on an error.
abbrev pub Queued : Type 0
Queued = Option (ℕ × Bytes)

-- `strings.Trim(mac, " ") == ""`.
abbrev pub blank : Text → Bool
blank [] = true
blank (c ∷ mac) = (c == 32) && blank mac

-- The MAC of the device: the session's own, or that of a device behind it.
abbrev pub text_or_nil : Option Text → Text
text_or_nil none = []
text_or_nil (some mac) = mac

abbrev pub dst_mac : DevSession → ℕ → Msg → Text
dst_mac s did m = if did == s.dev_id then s.mac else text_or_nil (lookup s.devs m.fh_dst_id)

-- `binary.LittleEndian.Uint64` of the decoded MAC; `none` is the panic on fewer than eight bytes.
abbrev pub mac_id : Text → Option ℕ
mac_id mac =
    if ltb (length (hex_decode mac)) 8 then none else some (of_le (take 8 (hex_decode mac)))

abbrev pub sealed_for : Cipher → ℕ → Msg → Text → ℕ → Option Bytes → Outcome (Option Bytes)
sealed_for c now m mac id none = ok none
sealed_for c now m mac id (some z) =
    left_by (
      msg2binary c now (record m {
        mz = some z;
        fh_mask = true;
        dh_key_level = 3;
        fh_dst_id = id;
        fh_dst_mac = mac;
      }))
    >>= λ out. ok (some out.final)

-- A message of opcode 5 is addressed by the MAC and encrypted with the session's secret.
unfoldable pub dev_reseal : Cipher → ℕ → DevSession → ℕ → Msg → Outcome (Option Bytes)
dev_reseal c now s did m =
    if blank (dst_mac s did m)
    then ok none
    else (checked (mac_id (dst_mac s did m)) >>= λ id. sealed_for c now m (dst_mac s did m) id s.mz)

unfoldable pub dev_bytes : Cipher → ℕ → DevSession → ℕ → Bytes → Outcome (Option Bytes)
unfolding dev_reseal
dev_bytes c now s did msg = do
  m ← left_by (binary2msg c (record new_msg { final = msg }))
  if m.fh_opcode == 5 then dev_reseal c now s did m else ok (some msg)

abbrev pub queued_at : ℕ → Option Bytes → Queued
queued_at h none = none
queued_at h (some bytes) = some (h, bytes)

abbrev pub dev_push_at : Cipher → ℕ → Pool → ℕ → Bytes → Option ℕ → Outcome Queued
dev_push_at c now p did msg none = ok none
dev_push_at c now p did msg (some h) = do
  s ← checked (lookup p.heap h)
  out ← dev_bytes c now s did msg
  ok (queued_at h out)

unfoldable pub dev_push_msg : Cipher → ℕ → Pool → ℕ → Bytes → Outcome Queued
dev_push_msg c now p did msg = dev_push_at c now p did msg (lookup p.sesses did)

-- `PushCommonMsg`, with the session's next number.
abbrev pub common_at : Cipher → ℕ → Pool → ℕ → ℕ → Bytes → Option ℕ → Outcome (Pool × (ℕ × Bytes))
common_at c now p msg_id did body none = err no_session
common_at c now p msg_id did body (some h) = do
  s ← checked (lookup p.heap h)
  let next = (s.sidx + 1) % 2 ^ 16
  out ← left_by (
      msg2binary c now (record new_msg {
        fh_opcode = 2;
        fh_mask = true;
        dh_msg_id = msg_id;
        fh_dst_id = did;
        fh_sequence = next;
      }))
  ok (record p { heap = insert p.heap h (record s { sidx = next }) }, (h, out.final))

unfoldable pub dev_push_common_msg :
    Cipher → ℕ → Pool → ℕ → ℕ → Bytes → Outcome (Pool × (ℕ × Bytes))
dev_push_common_msg c now p msg_id did body =
    common_at c now p msg_id did body (lookup p.sesses did)
