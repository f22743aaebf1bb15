-- ===== src/Examples/Gateways.antt =====
-- Users at one gateway, and the theorems at them.
use erina.Base.{
  List, ◌==◌, replicate, ◌↔◌, ℕ, ◌≡◌, ◌⊎◌, ◌<◌, ◌+◌, refl, arith, true, false, none, some, Bool, [],
  ◌∷◌, lookup, nat_key,
}
use erina.Users.Pool.{usr_dest_ids, add_session}
use erina.Users.Gateway.{pass_on, on_frame, Around, Turn, on_request, quiet, received}
use erina.Examples.{flip_cipher}
use erina.Examples.Pushes.{user_session}
use erina.Words.{Bytes}
use erina.Outcome.{Outcome, ok, ◌>>=◌}
use erina.Sentinel.Types.{Text}
use erina.Users.Types.{UsrSession, UsrSessionPool}
use erina.Users.Lifecycle.{Life, Reachable, starts, goes, enters, no_life, set_live}
use erina.Users.Params.{
  Params, verify_login_params, is_auth, to_sign, params_of, is_expired, decimal,
}
use erina.Users.Params.Accepted.{login_text}
use erina.Users.Gateway.Bounded.{ToDevices, Kills}
use erina.Msg.Types.{Msg, Exit, done, failed, panic, new_msg}
use erina.Msg.Encode.{
  msg2binary, prepare, seal_body, seal_plain, seal, head_bytes, frame_bytes, guid_bytes, flag_byte,
  data_byte,
}
use erina.Msg.Decode.{
  binary2msg, read_front, read_flags, read_ids, read_data_header, check_length, check_header,
  open_body, open_plain,
}
use erina.Msg.Mask.{toggle_mask, deferred}
use erina.Crc.{crc, crc_loop, crc_byte, crc_bits, crc_bit}
use erina.Users.Gateway.Entry.{
  Gate, no_data, Visitor, admitted, log_in, old_login, deliver, Post, popped, Bus,
}
use erina.Users.Gateway.Entry.Vouched.{ByFrame, ByText}
use erina.Users.Gateway.Entry.Waiting.{Taken, Ended}
use erina.Sentinel.Routes.{split_at, parse_int, digits}
use erina.Users.Gateway.Entry.Entered.{Entered}
use erina.Users.Lifecycle.Reached
use erina.Users.Params.Accepted
use erina.Users.Gateway.Entry.Entered as Entering
use erina.Users.Gateway.Entry.Vouched
use erina.Users.Gateway.Entry.Waiting
use erina.Users.Gateway.Bounded

-- One user has logged in.
abbrev logged_pool : UsrSessionPool
logged_pool = record { heap = (1, user_session) ∷ []; sesses = (7, 1) ∷ [] }

abbrev one_life : Life
one_life = record { pool = logged_pool; live = set_live no_life 1 true }

one_life-Reachable : Reachable one_life
unfolding add_session
one_life-Reachable =
    goes no_life one_life starts (enters no_life 1 user_session logged_pool refl refl refl refl)

Reachable-one_session_example : (◌≡◌ {A = ℕ} 1 1) × (lookup logged_pool.sesses 7 ≡ some 1)
Reachable-one_session_example =
    Reached.Reachable-one_session one_life 1 1 user_session user_session one_life-Reachable refl
      refl refl refl refl

abbrev params : Params
params = record { id = 7; timestamp = 100; timeout = 150; md5 = 65 ∷ []; mobile = 66 ∷ [] }

-- A signature that is always "A".
abbrev signature : Text → Text
signature text = 65 ∷ []

login_text-accepted_example :
    ((verify_login_params (login_text params) >>= λ q. is_auth signature 120 q) ≡ ok true)
    ↔ (((◌≡◌ {A = ℕ} 100 0) ⊎ (120 < 100 + 60)) × (signature (to_sign 7 100 150) ≡ 65 ∷ []))
login_text-accepted_example =
    Accepted.login_text-accepted signature 120 params (omega arith) (omega arith) (omega arith)
      (ground arith) (ground arith) (omega arith)

abbrev around : Around
around = record {
  cipher = flip_cipher;
  seconds = 5;
  nanos = 6;
  devs_of = λ user. 5 ∷ 6 ∷ [];
  spare = λ m. [];
}

abbrev with_devices : UsrSession
with_devices = record user_session { mz = none }

abbrev final_of : Exit → Bytes
final_of (done m) = m.final
final_of (failed e m) = []
final_of panic = []

-- A message to device 6, which is bound to the user and not known to the session yet.
abbrev request : Bytes
request = final_of (
    msg2binary flip_cipher 0
      (record new_msg { fh_opcode = 3; fh_time = 5; fh_dst_id = 6; text = 1 ∷ 2 ∷ [] }))

abbrev turn_of : Outcome Turn → Turn
turn_of (ok t) = t
turn_of _ = quiet with_devices false

abbrev turn : Turn
turn = turn_of (on_request around with_devices request)

turned : on_request around with_devices request ≡ ok turn
unfolding on_request received on_frame pass_on usr_dest_ids msg2binary seal_body prepare seal_plain
    seal crc crc_loop crc_byte crc_bits crc_bit head_bytes frame_bytes guid_bytes flag_byte
    data_byte toggle_mask binary2msg read_front read_flags read_ids read_data_header check_length
    check_header open_body open_plain deferred
turned = refl

on_request-ToDevices_example :
    ToDevices turn
    ⊎ (d : Msg × Bool) × (received around with_devices request ≡ ok d) × Kills around d.0 turn
on_request-ToDevices_example = Bounded.on_request-ToDevices around with_devices request turn turned

abbrev gate : Gate
gate = record {
  cipher = flip_cipher;
  md5 = λ bytes. bytes;
  signature = signature;
  seconds = 120;
  nanos = 6;
  random = replicate 16 1;
  auth = λ user token. no_data;
}

-- "7|0|9|A|B".
abbrev login_line : Bytes
login_line = 55 ∷ 124 ∷ 48 ∷ 124 ∷ 57 ∷ 124 ∷ 65 ∷ 124 ∷ 66 ∷ []

abbrev user_seven : Visitor
user_seven = record { uid = 7; mobile = 66 ∷ []; mz = none; replies = [] }

logged : log_in gate login_line ≡ ok (admitted user_seven)
unfolding log_in old_login verify_login_params split_at params_of parse_int digits is_auth
    is_expired decimal binary2msg read_front
logged = refl

log_in-cases_example : ByFrame gate login_line user_seven ⊎ ByText gate login_line user_seven
log_in-cases_example = Vouched.log_in-cases gate login_line user_seven (omega arith) logged

-- The socket takes the first message only, and redis puts a message back.
abbrev post : Post
post = record { pops = λ n. popped; takes = λ n. n == 0; puts = true }

abbrev waited : List Bytes
waited = (1 ∷ []) ∷ ((2 ∷ 2 ∷ []) ∷ ((3 ∷ []) ∷ []))

deliver-Interrupted_example :
    Taken post 0 (deliver post 0 waited).sent × Ended post 0 waited (deliver post 0 waited)
deliver-Interrupted_example = Waiting.deliver-Interrupted post 0 waited

abbrev bus : Bus
bus = record { mobile_of = λ user. 65 ∷ []; devs_of = λ user. 5 ∷ []; registers = λ user. true }

enter-Entered_example : Entered bus one_life 2 user_seven
enter-Entered_example =
    Entering.enter-Entered bus one_life 2 user_seven one_life-Reachable refl refl
