-- ===== src/Ld2.antt =====
-- msgs/ld2cfg.go: the binary form of a linkage rule between devices.
pub mod Laws
pub mod RoundTrip
use erina.Base.{
  ℕ, zero, suc, ◌+◌, ◌-◌, ◌*◌, ◌/◌, ◌%◌, List, [], ◌∷◌, ◌++◌, Option, none, some, bit_and, bit_or,
  if◌then◌else◌, ltb, length, take, drop,
}
use erina.Words.{Bytes, index, slice}
use erina.Crc.{crc}
use erina.Base.Partial.{◌>>=◌}

-- `dev_type` and the entries of `alarm` are windows of `final` once it was read.
pub record CfgLd2 : Type 0 where
  pub checksum : ℕ
  pub version : ℕ
  pub ldtype : ℕ
  pub and_or : ℕ
  pub dev_type : Bytes
  pub dev_type_rvs : Bytes
  pub alarm_length : ℕ
  pub alarm : List Bytes
  pub action_length : ℕ
  pub action_pre_location : ℕ
  pub action_ctn : Bytes
  pub final : Bytes

-- `&CFGLD2{Final: …}`.
abbrev pub new_cfg : Bytes → CfgLd2
new_cfg final = record {
  checksum = 0;
  version = 0;
  ldtype = 0;
  and_or = 0;
  dev_type = [];
  dev_type_rvs = [];
  alarm_length = 0;
  alarm = [];
  action_length = 0;
  action_pre_location = 0;
  action_ctn = [];
  final = final;
}

-- The bytes of an integer in the other order.
abbrev pub swap_onto : Bytes → Bytes → Bytes
swap_onto [] out = out
swap_onto (b ∷ bs) out = swap_onto bs (b ∷ out)

abbrev pub swap : Bytes → Bytes
swap bs = swap_onto bs []

-- The loop over the alarms, with `left` rounds left, from the position `at`.
unfoldable pub alarms : ℕ → ℕ → Bytes → Option (List Bytes)
alarms zero at final = some []
alarms (suc left) at final = do
  code ← slice final at (at + 2)
  codes ← alarms left (at + 2) final
  some (code ∷ codes)

unfoldable pub read_action : CfgLd2 → ℕ → Option CfgLd2
read_action m at = do
  len ← index m.final at
  pre ← index m.final (at + 1)
  some (record m {
    action_length = len;
    action_pre_location = pre;
    action_ctn = drop (at + 2) m.final;
  })

-- What follows the alarms, if the length, taken as a byte, says that something does.
unfoldable pub action : CfgLd2 → Option CfgLd2
action m =
    if ltb (8 + m.alarm_length * 2) (length m.final % 256)
    then read_action m (8 + m.alarm_length * 2)
    else some m

-- The fields in front of the action.
abbrev pub with_rule : CfgLd2 → ℕ → ℕ → ℕ → Bytes → List Bytes → CfgLd2
with_rule m checksum version flags dev_type codes = record m {
  checksum = checksum;
  version = version;
  ldtype = bit_and flags 0xe0 / 32;
  and_or = bit_and flags 0x10 / 16;
  alarm_length = bit_and flags 0x0f;
  dev_type = dev_type;
  dev_type_rvs = swap dev_type;
  alarm = codes;
}

-- `none` is the panic on bytes that are missing.
unfoldable pub b2o : CfgLd2 → Option CfgLd2
b2o m = do
  checksum ← index m.final 0
  version ← index m.final 1
  flags ← index m.final 2
  dev_type ← slice m.final 4 8
  codes ← alarms (bit_and flags 0x0f) 8 m.final
  action (with_rule m checksum version flags dev_type codes)

abbrev pub join : List Bytes → Bytes
join [] = []
join (code ∷ codes) = code ++ join codes

-- The third byte: the kind of rule, how its conditions are joined, and their number.
unfoldable pub flags_of : ℕ → ℕ → ℕ → ℕ
flags_of ldtype and_or count =
    let b1 = bit_or 0 (bit_and ldtype 0x07 * 32 % 256) in
    let b2 = bit_or b1 (bit_and and_or 0x01 * 16 % 256) in bit_or b2 (count % 256)

-- `buf` of `O2B`, all but the checksum.
unfoldable pub written : CfgLd2 → Bytes
written m =
    m.version
    ∷ flags_of m.ldtype m.and_or (length m.alarm)
    ∷ 0
    ∷ (m.dev_type
        ++ (join m.alarm
            ++ (if ltb 0 m.action_length
                then m.action_length ∷ m.action_pre_location ∷ m.action_ctn
                else [])))

unfoldable pub o2b : CfgLd2 → Option CfgLd2
o2b m = do
  checksum ← crc (written m) (length (written m))
  some (record m { final = checksum ∷ written m })

-- The loop of `RvsDT`, which swaps the two bytes of each alarm in the buffer.
unfoldable pub swap_alarms : ℕ → ℕ → Bytes → Option Bytes
swap_alarms zero at final = some final
swap_alarms (suc left) at final = do
  code ← slice final at (at + 2)
  swap_alarms left (at + 2) (take at final ++ (swap code ++ drop (at + 2) final))

-- The windows show what was written; the copy in `dev_type_rvs` stays.
unfoldable pub rvs_dt : CfgLd2 → Option CfgLd2
rvs_dt m = do
  m ← b2o m
  final ← swap_alarms m.alarm_length 8 (take 4 m.final ++ (swap m.dev_type ++ drop 8 m.final))
  dev_type ← slice final 4 8
  codes ← alarms m.alarm_length 8 final
  some (record m { final = final; dev_type = dev_type; alarm = codes })
