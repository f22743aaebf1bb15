-- ===== src/Msg/Types.antt =====
-- The message of msgs/msg.go, its constants, and what its methods return.
use erina.Base.{ℕ, ◌==◌, List, [], Option, none, some, Bool, false, ◌||◌, if◌then◌else◌}
use erina.Words.{Bytes}
use erina.Outcome.{Error}

abbrev pub frame_header_len : ℕ
frame_header_len = 24

abbrev pub data_header_len : ℕ
data_header_len = 16

abbrev pub guid_len : ℕ
guid_len = 16

-- A slice that the code compares with nil is an `Option`. An int64 id is its 64-bit pattern. A MAC
-- is the characters of its hexadecimal form.
pub record Msg : Type 0 where
  pub mz : Option Bytes
  pub fh_fin : Bool
  pub fh_mask : Bool
  pub fh_ver : ℕ
  pub fh_short : Bool
  pub fh_opcode : ℕ
  pub fh_reserve : ℕ
  pub fh_sequence : ℕ
  pub fh_time : ℕ
  pub fh_dst_id : ℕ
  pub fh_dst_mac : List ℕ
  pub fh_src_id : ℕ
  pub fh_src_mac : List ℕ
  pub fh_guid : Option Bytes
  pub dh_read : Bool
  pub dh_ack : Bool
  pub dh_data_format : ℕ
  pub dh_key_level : ℕ
  pub dh_encrypt_type : ℕ
  pub dh_data_seq : ℕ
  pub dh_msg_id : ℕ
  pub dh_length : ℕ
  pub dh_head_check : ℕ
  pub dh_check : ℕ
  pub dh_session_id : Option Bytes
  pub datacrc : Bytes
  pub text : Bytes
  pub final : Bytes
  pub rk : Option Bytes
  pub rkxormz : Option Bytes
  pub cipher : Option Bytes

-- `&Msg{}`.
abbrev pub new_msg : Msg
new_msg = record {
  mz = none;
  fh_fin = false;
  fh_mask = false;
  fh_ver = 0;
  fh_short = false;
  fh_opcode = 0;
  fh_reserve = 0;
  fh_sequence = 0;
  fh_time = 0;
  fh_dst_id = 0;
  fh_dst_mac = [];
  fh_src_id = 0;
  fh_src_mac = [];
  fh_guid = none;
  dh_read = false;
  dh_ack = false;
  dh_data_format = 0;
  dh_key_level = 0;
  dh_encrypt_type = 0;
  dh_data_seq = 0;
  dh_msg_id = 0;
  dh_length = 0;
  dh_head_check = 0;
  dh_check = 0;
  dh_session_id = none;
  datacrc = [];
  text = [];
  final = [];
  rk = none;
  rkxormz = none;
  cipher = none;
}

-- How a method of `*Msg` ends: the message it leaves, beside an error or not, or a panic.
pub data Exit : Type 0 where
  done : Msg → Exit
  failed : Error → Msg → Exit
  panic : Exit

-- A runtime check inside a method.
infixl 5 ◌>>=◌
abbrev pub ◌>>=◌ {ℓ} : {A : Type ℓ} → Option A → (A → Exit) → Exit
none >>= f = panic
some a >>= f = f a

-- One step of a method after another; an error returns at once.
abbrev pub and_then : Exit → (Msg → Exit) → Exit
and_then (done m) f = f m
and_then (failed e m) f = failed e m
and_then panic f = panic

-- The opcodes that the three decoders accept.
abbrev pub known_opcode : ℕ → Bool
known_opcode op = (op == 2) || (op == 3) || (op == 1) || (op == 5)

-- Where the data header begins.
abbrev pub data_offset : ℕ → ℕ
data_offset op = if op == 3 then 40 else 24
