-- ===== src/Examples/Commands/Switched.antt =====
-- A login that `opcode02` answers with the handlers of the commands, and the theorem at it.
use erina.Examples.Commands.{message_of, out_of, sid, heartbeat}
use erina.Examples.Logins.{world as login_world, body, mac}
use erina.Base.{ℕ, ◌≡◌, refl, arith, [], Option, replicate, insert, nat_key, text_key}
use erina.Outcome.{ok, lookup_failed, err}
use erina.Crc.{crc, crc_loop, crc_byte, crc_bits, crc_bit}
use erina.Msg.Types.{Msg, new_msg}
use erina.Msg.Mask.{deferred, toggle_mask}
use erina.Msg.Encode.{
  msg2binary, prepare, seal_body, seal_plain, seal, head_bytes, frame_bytes, guid_bytes, flag_byte,
  data_byte,
}
use erina.Msg.Decode.{
  binary2msg, read_front, read_flags, read_ids, read_data_header, check_length, check_header,
  open_body, open_plain,
}
use erina.Session.Types.{DevSession, Pool, new_pool}
use erina.Session.Replay.{verify_pack}
use erina.Session.Pool.{new_dev_session, byte2sess, add, hex_value}
use erina.Session.Pool.Consistent.{Consistent, IsSid, add-Consistent}
use erina.Session.Dispatch.{
  take_mz, check_session, with_session, with_number, check_login, login_of, logged_in, opcode02,
  serve, admit, respond, reply_text, reply_to, seal_reply,
}
use erina.Session.Registration.{refused}
use erina.Session.Login.{on_login, on_macs, on_status, on_fine}
use erina.Session.Login.Stages.{Tables, id_login, first_login, enter_dw}
use erina.Aes.{encrypt_np, blocks}
use erina.Session.Commands.{Around, run, command_of, udp_world}
use erina.Session.Commands.Continues.{Continues, Fresh}
use erina.Session.Commands.Served

abbrev around : Around
around = record {
  login = login_world;
  addr = [];
  fresh = 2;
  random = replicate 8 3;
  seconds = 5;
  id_by_mac = λ m. err lookup_failed;
  register = λ r. refused 500 lookup_failed;
  ld2cfg = λ key. err lookup_failed;
  ld2ds = λ key. err lookup_failed;
  ld2cfg_list = err lookup_failed;
  spare = λ m. [];
}

stranger : DevSession
unfolding new_dev_session
stranger = record (new_dev_session [] sid) { mac = mac }

bare : Pool
bare = record new_pool { heap = insert [] 1 stranger }

table : Pool
unfolding add stranger bare
table = add bare 1 stranger

sid-IsSid : IsSid sid
sid-IsSid = ground arith

table-Consistent : Consistent table
unfolding table stranger bare new_dev_session
table-Consistent =
    add-Consistent bare 1 stranger sid (λ m h e. absurd (ground arith)) refl refl sid-IsSid refl

table-Fresh : Fresh table 2 (replicate 8 3)
unfolding table stranger bare new_dev_session add
table-Fresh = record { no_session = refl; unused = refl; eight = ground arith }

abbrev tables : Tables
tables = record { pool = new_pool; mac2id = []; gmz = [] }

request : Msg
unfolding msg2binary prepare seal_body seal_plain seal head_bytes frame_bytes guid_bytes flag_byte
    data_byte toggle_mask crc crc_loop crc_byte crc_bits crc_bit
request = record new_msg {
  final =
      (message_of (
        msg2binary login_world.cipher 0
          (record heartbeat { dh_msg_id = 0xc3; text = body }))).final;
}

abbrev answer : Msg × Option ℕ × Pool
answer = out_of (opcode02 (udp_world around tables 0) table request)

answered : opcode02 (udp_world around tables 0) table request ≡ ok answer
unfolding request table stranger bare opcode02 take_mz serve check_session with_session with_number
    admit check_login login_of logged_in respond reply_text reply_to seal_reply byte2sess
    verify_pack new_dev_session add binary2msg read_front read_flags read_ids read_data_header
    check_length check_header open_body open_plain deferred msg2binary prepare seal_body seal_plain
    seal head_bytes frame_bytes guid_bytes flag_byte data_byte toggle_mask crc crc_loop crc_byte
    crc_bits crc_bit run command_of on_login on_macs on_status on_fine id_login first_login enter_dw
    encrypt_np blocks hex_value
answered = refl

opcode02-Continues_example : Continues table answer.2
opcode02-Continues_example =
    Served.opcode02-Continues around tables 0 table refl table-Consistent table-Fresh request answer
      answered
