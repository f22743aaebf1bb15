-- ===== src/Users/Gateway.antt =====
-- The gateway for applications, `mwh` of srv/mws.go: what one request of a session that is logged in
-- is answered with, and where it goes.
use erina.Base.{
  ℕ, ◌%◌, ◌^◌, ◌+◌, ◌==◌, ltb, ◌&&◌, if◌then◌else◌, Bool, true, false, List, [], ◌∷◌, ◌++◌, Option,
  none, some, length, text_same,
}
use erina.Words.{Bytes, slice, of_le, to_le}
use erina.Outcome.{Outcome, ok, panic, ◌>>=◌, checked}
use erina.Aes.{Cipher}
use erina.Msg.Types.{Msg, Exit, done, failed, new_msg}
use erina.Msg.Decode.{binary2msg}
use erina.Msg.Encode.{msg2binary}
use erina.Session.Forward.{left_by}
use erina.Users.Types.{UsrSession}
use erina.Users.Pool.{usr_dest_ids}
pub mod Bounded
pub mod Entry

-- What surrounds a request: the clock, what `GetDevByUsr` answers, and what stands behind the text of a
-- message in its array, which a slice of the text may take in.
pub record Around : Type 0 where
  pub cipher : Cipher
  pub seconds : ℕ
  pub nanos : ℕ
  pub devs_of : ℕ → List ℕ
  pub spare : Msg → Bytes

-- The session, what is sent back, what is forwarded to whom, and whether the loop goes on.
pub record Turn : Type 0 where
  pub session : UsrSession
  pub replies : List Bytes
  pub forwards : List (List ℕ × Bytes)
  pub goes_on : Bool

abbrev pub quiet : UsrSession → Bool → Turn
quiet s b = record { session = s; replies = []; forwards = []; goes_on = b }

-- The message that a decoder leaves, and whether there is an error.
abbrev pub seen : Exit → Outcome (Msg × Bool)
seen (done m) = ok (m, false)
seen (failed e m) = ok (m, true)
seen Exit.panic = panic

-- `r`, without its text.
abbrev pub answer_to : ℕ → Msg → Msg
answer_to seconds m = record new_msg {
  dh_ack = true;
  dh_read = true;
  fh_fin = true;
  fh_mask = m.fh_mask;
  dh_msg_id = m.dh_msg_id;
  fh_opcode = m.fh_opcode;
  dh_data_seq = m.dh_data_seq;
  dh_key_level = m.dh_key_level;
  dh_encrypt_type = m.dh_encrypt_type;
  fh_dst_id = m.fh_src_id;
  fh_time = seconds % 2 ^ 32;
}

-- The answer to the command to drop a device.
unfoldable pub kill_reply : Around → Msg → Outcome Msg
kill_reply w m = left_by (
    msg2binary w.cipher w.nanos
      (record (answer_to w.seconds m) { text = to_le 4 0 ++ to_le 8 m.fh_dst_id }))

-- The turn in which a device is dropped.
abbrev pub killing : UsrSession → Bytes → Msg → Msg → Turn
killing s dst m r = record {
  session = s;
  replies = r.final ∷ [];
  forwards = (of_le dst ∷ [], m.final) ∷ [];
  goes_on = true;
}

-- A command: only that to drop a device does anything. Go checks `m.Text[0:8]` against the capacity of
-- the text, not its length.
unfoldable pub on_command : Around → UsrSession → Msg → Outcome Turn
on_command w s m =
    if m.dh_msg_id == 0xc7
    then (do
      dst ← checked (slice (m.text ++ w.spare m) 0 8)
      r ← kill_reply w m
      ok (killing s dst m r))
    else ok (quiet s true)

-- The message at key level 0.
unfoldable pub unsealed : Around → Msg → Outcome Msg
unsealed w m = left_by (msg2binary w.cipher w.nanos (record m { dh_key_level = 0 }))

-- The bytes go to the devices that `calcDestIds` finds, if there are any.
abbrev pub passed_to : List ℕ → Bytes → List (List ℕ × Bytes)
passed_to [] bytes = []
passed_to (id ∷ ids) bytes = (id ∷ ids, bytes) ∷ []

unfoldable pub pass_on : Around → UsrSession → ℕ → Bytes → Turn
unfolding usr_dest_ids
pass_on w s to bytes =
    let found = usr_dest_ids (some (w.devs_of s.uid)) s to in
    record { session = found.0; replies = []; forwards = passed_to found.1 bytes; goes_on = true }

-- A message that was encrypted for the gateway goes on at key level 0.
unfoldable pub on_sealed : Around → UsrSession → Msg → Bool → Outcome Turn
unfolding pass_on
on_sealed w s m bad = elim m.mz [
  | none ↦ ok (quiet s false)
  | some mz ↦
      if bad
      then ok (quiet s false)
      else (unsealed w m >>= λ out. ok (pass_on w s out.fh_dst_id out.final))
]

unfoldable pub on_frame : Around → UsrSession → Msg → Bool → Outcome Turn
unfolding on_command on_sealed pass_on
on_frame w s m bad =
    if m.fh_opcode == 2
    then on_command w s m
    else (if m.fh_opcode == 5
        then on_sealed w s m bad
        else (if m.fh_opcode == 3 then ok (pass_on w s m.fh_dst_id m.final) else ok (quiet s true)))

-- `kDstIdEnd`.
abbrev pub k_dst_id_end : ℕ
k_dst_id_end = 16

-- "p" is answered with "P".
abbrev pub on_short : UsrSession → Bytes → Turn
on_short s reply =
    if text_same reply (112 ∷ [])
    then record { session = s; replies = (80 ∷ []) ∷ []; forwards = []; goes_on = true }
    else quiet s false

-- The frame, read with the key of the session.
unfoldable pub received : Around → UsrSession → Bytes → Outcome (Msg × Bool)
received w s reply = seen (binary2msg w.cipher (record new_msg { mz = s.mz; final = reply }))

unfoldable pub on_request : Around → UsrSession → Bytes → Outcome Turn
unfolding on_frame
on_request w s reply =
    if ltb 1024 (length reply)
    then ok (quiet s true)
    else (if ltb (length reply) k_dst_id_end
        then ok (on_short s reply)
        else (received w s reply >>= λ d. on_frame w s d.0 d.1))
