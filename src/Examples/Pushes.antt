-- ===== src/Examples/Pushes.antt =====
-- Sessions of users and devices that messages are pushed to, and the theorems at them.
use erina.Examples.{flip_cipher, command, secret}
use erina.Base.{ℕ, ◌≡◌, ◌≢◌, refl, arith, [], ◌∷◌, none, some, nat_key}
use erina.Words.{Bytes}
use erina.Outcome.{ok, body_check}
use erina.Crc.Detection.{crc_fold}
use erina.Msg.Types.{Msg, failed}
use erina.Msg.Decode.{binary2msg}
use erina.Msg.RoundTrip.Front.{received}
use erina.Users.Types.{UsrSession, UsrSessionPool, opened}
use erina.Session.Types.{Text, DevSession, Pool, new_pool}
use erina.Session.Notices.{Notices, push_online}
use erina.Session.Notices.Refused.{first_checked}
use erina.Users.Readable as ForUsers
use erina.Session.Readable as ForDevices
use erina.Session.Notices.Refused

-- A command of opcode 5.
abbrev pushed : Msg
pushed = record (command 0) { fh_opcode = 5 }

abbrev pub user_session : UsrSession
user_session = record { uid = 7; devs = []; ws = opened; mz = some secret }

abbrev users_pool : UsrSessionPool
users_pool = record { heap = (1, user_session) ∷ (2, user_session) ∷ []; sesses = (7, 1) ∷ [] }

-- The MAC 0102030405060708.
abbrev mac : Text
mac = 48 ∷ 49 ∷ 48 ∷ 50 ∷ 48 ∷ 51 ∷ 48 ∷ 52 ∷ 48 ∷ 53 ∷ 48 ∷ 54 ∷ 48 ∷ 55 ∷ 48 ∷ 56 ∷ []

abbrev device : DevSession
device = record {
  sid = [];
  dev_id = 7;
  udp_adr = [];
  owner = 9;
  mac = mac;
  users = 9 ∷ 10 ∷ [];
  devs = [];
  macs = [];
  sidx = 0;
  ridx = 0;
  mz = some secret;
  output = [];
}

abbrev device_pool : Pool
device_pool = record new_pool { heap = (1, device) ∷ []; sesses = (7, 1) ∷ [] }

abbrev mac_number : ℕ
mac_number = 0x0807060504030201

-- The checksum of the notice for the device 7 on a server of type 2.
sum_set : crc_fold 0 (first_checked device 2) ≢ 0
unfolding erina.Crc.crc_bit erina.Crc.crc_bits erina.Crc.crc_byte
sum_set = let sum : crc_fold 0 (first_checked device 2) ≡ 16 = refl in omega (arith, sum)

push_online-refused_example :
    (first : Bytes) × (second : Bytes) × (fs : Notices) × (n : Msg) × (push_online flip_cipher 0
        123456 2 device
      ≡ ok ((9, first) ∷ ((10, second) ∷ fs)))
    × (binary2msg flip_cipher (received none second) ≡ failed body_check n)
push_online-refused_example =
    Refused.push_online-refused flip_cipher 0 123456 2 device 9 10 [] refl (ground arith)
      (omega arith) (omega arith) (omega arith) (omega arith) sum_set
