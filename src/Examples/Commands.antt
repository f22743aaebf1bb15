-- ===== src/Examples/Commands.antt =====
-- A command of a device, answered, and the theorems at it.
mod Datagrams
mod Switched
use erina.Base.{
  ℕ, ◌≡◌, ◌≢◌, ◌⊎◌, refl, [], ◌∷◌, Option, none, some, true, replicate, insert, nat_key, text_key,
}
use erina.Words.{Bytes}
use erina.Outcome.{Outcome, ok, err, panic}
use erina.Aes.{Cipher}
use erina.Crc.{crc, crc_loop, crc_byte, crc_bits, crc_bit}
use erina.Msg.Types.{Msg, new_msg, Exit, done, failed}
use erina.Msg.Mask.{deferred, toggle_mask}
use erina.Msg.Encode.{
  msg2binary, prepare, seal_body, seal_plain, seal, head_bytes, frame_bytes, guid_bytes, flag_byte,
  data_byte,
}
use erina.Msg.Decode.{
  binary2msg, read_front, read_flags, read_ids, read_data_header, check_length, check_header,
  open_body, open_plain,
}
use erina.Session.Types.{DevSession, Pool, new_pool}
use erina.Session.Replay.{verify_pack}
use erina.Session.Pool.{new_dev_session, byte2sess, add}
use erina.Session.Dispatch.{
  World, take_mz, exit_outcome, check_session, with_session, with_number, check_login, login_of,
  logged_in, opcode02, serve, admit, respond, reply_text, reply_to, seal_reply,
}
use erina.Session.Dispatch.Checked
use erina.Session.Dispatch.Checked.{Verified}

abbrev identity_cipher : Cipher
identity_cipher = record { encrypt_block = λ key b. b; decrypt_block = λ key b. b }

abbrev world : World
world = record {
  cipher = identity_cipher;
  gmz = [];
  udp = true;
  handler = λ p sess m. ok (record { text = some (1 ∷ []); error = none; pool = p });
  seconds = 5;
  nanos = 0;
}

abbrev sid : Bytes
sid = replicate 8 17

device : DevSession
unfolding new_dev_session
device = record (new_dev_session [] sid) { mac = 49 ∷ []; dev_id = 9 }

table : Pool
unfolding add device
table = add (record new_pool { heap = insert [] 1 device }) 1 device

-- A heartbeat.
abbrev heartbeat : Msg
heartbeat = record new_msg {
  fh_opcode = 2;
  fh_sequence = 300;
  fh_time = 7;
  dh_msg_id = 0xc4;
  dh_session_id = some sid;
}

abbrev message_of : Exit → Msg
message_of (done m) = m
message_of (failed e m) = m
message_of Exit.panic = new_msg

request : Msg
unfolding msg2binary prepare seal_body seal_plain seal head_bytes frame_bytes guid_bytes flag_byte
    data_byte toggle_mask crc crc_loop crc_byte crc_bits crc_bit
request = record new_msg { final = (message_of (msg2binary identity_cipher 0 heartbeat)).final }

abbrev out_of : Outcome (Msg × Option ℕ × Pool) → Msg × Option ℕ × Pool
out_of (ok out) = out
out_of (err e) = (new_msg, none, new_pool)
out_of panic = (new_msg, none, new_pool)

answered : opcode02 world table request ≡ ok (out_of (opcode02 world table request))
unfolding request table device opcode02 take_mz serve check_session with_session with_number admit
    check_login login_of logged_in respond reply_text reply_to seal_reply byte2sess verify_pack
    new_dev_session add binary2msg read_front read_flags read_ids read_data_header check_length
    check_header open_body open_plain deferred msg2binary prepare seal_body seal_plain seal
    head_bytes frame_bytes guid_bytes flag_byte data_byte toggle_mask crc crc_loop crc_byte crc_bits
    crc_bit
answered = refl
