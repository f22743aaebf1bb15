-- ===== src/Examples/Commands/Datagrams.antt =====
-- A datagram that is handled, and the theorem at it.
use erina.Examples.Commands.{identity_cipher, world, table, request, device}
use erina.Base.{ℕ, ◌≡◌, refl, Option, none, List}
use erina.Words.{Bytes}
use erina.Outcome.{Outcome, ok, err, panic}
use erina.Msg.Types.{Msg, new_msg}
use erina.Msg.Decode.{
  read_msg_id, header, binary2msg, read_front, read_flags, read_ids, read_data_header, check_length,
  check_header, open_body, open_plain,
}
use erina.Session.Types.{new_pool}
use erina.Session.Forward.{left_by}
use erina.Session.Loop.{Handled, replied, handle}
use erina.Session.Loop.Guarded.{Guarded}
use erina.Session.Dispatch.{
  opcode02, take_mz, serve, check_session, with_session, with_number, admit, check_login, login_of,
  logged_in, respond, reply_text, reply_to, seal_reply,
}
use erina.Session.Pool.{byte2sess, new_dev_session, add}
use erina.Session.Replay.{verify_pack}
use erina.Msg.Mask.{deferred, toggle_mask}
use erina.Msg.Encode.{
  msg2binary, prepare, seal_body, seal_plain, seal, head_bytes, frame_bytes, guid_bytes, flag_byte,
  data_byte,
}
use erina.Crc.{crc, crc_loop, crc_byte, crc_bits, crc_bit}
use erina.Session.Loop.Guarded as Guard

abbrev no_secret : ℕ → Outcome (Option Bytes)
no_secret id = ok none

abbrev no_users : ℕ → Option (List ℕ × ℕ)
no_users id = none

abbrev handled_of : Outcome Handled → Handled
handled_of (ok h) = h
handled_of (err e) = replied new_msg none new_pool
handled_of panic = replied new_msg none new_pool

handled :
    handle world no_secret no_users table request
    ≡ ok (handled_of (handle world no_secret no_users table request))
unfolding handle header read_msg_id request table device opcode02 take_mz serve check_session
    with_session with_number admit check_login login_of logged_in respond reply_text reply_to
    seal_reply byte2sess verify_pack new_dev_session add binary2msg read_front read_flags read_ids
    read_data_header check_length check_header open_body open_plain deferred msg2binary prepare
    seal_body seal_plain seal head_bytes frame_bytes guid_bytes flag_byte data_byte toggle_mask crc
    crc_loop crc_byte crc_bits crc_bit
handled = refl

handle-Guarded_example :
    (n : Msg) × (left_by (header identity_cipher request) ≡ ok n)
    × Guarded world no_secret table n (handled_of (handle world no_secret no_users table request))
handle-Guarded_example =
    Guard.handle-Guarded world no_secret no_users table request
      (handled_of (handle world no_secret no_users table request)) refl handled
