-- ===== src/Msg/RoundTrip/Flags.antt =====
-- The two flag bytes, read back field by field. Each table holds every value of the fields.
use erina.Base.{
  ℕ, ◌+◌, ◌*◌, ◌/◌, ◌%◌, ◌<◌, ◌≡◌, refl, arith, Bool, true, false, ◌&&◌, not, bit_and, ◌==◌, ltb,
  all_below, all_below_at, subst, if◌then◌else◌,
}
use erina.Msg.Encode.{flag_byte, data_byte}

abbrev bool_eq : Bool → Bool → Bool
bool_eq true b = b
bool_eq false b = not b

abbrev flags_agree : Bool → Bool → ℕ → Bool → ℕ → Bool
flags_agree fin mask ver short op =
    let b = flag_byte fin mask ver short op in
    (bit_and 0x07 b == op)
    && (bool_eq fin (bit_and b 0x80 == 0x80)
        && (bool_eq mask (bit_and b 0x40 == 0x40)
            && ((bit_and b 0x30 / 16 == ver)
                && (bool_eq short (bit_and b 0x08 == 0x08) && ltb b 256))))

flags_table :
    (fin mask short : Bool) → all_below 32 (λ k. flags_agree fin mask (k / 8) short (k % 8)) ≡ true
unfolding all_below flag_byte
flags_table true true true = refl
flags_table true true false = refl
flags_table true false true = refl
flags_table true false false = refl
flags_table false true true = refl
flags_table false true false = refl
flags_table false false true = refl
flags_table false false false = refl

flags_agree_at :
    (fin mask : Bool) (ver : ℕ) (short : Bool) (op : ℕ)
    → ver < 4
    → op < 8
    → flags_agree fin mask ver short op ≡ true
flags_agree_at fin mask ver short op p q =
    let k : ℕ = 8 * ver + op in
    let hi : k / 8 ≡ ver = omega arith in
    let lo : k % 8 ≡ op = omega arith in
    subst (λ (v : ℕ). flags_agree fin mask v short op ≡ true) hi
      (subst (λ (o : ℕ). flags_agree fin mask (k / 8) short o ≡ true) lo
        (all_below_at 32 _ (flags_table fin mask short) k (omega arith)))

-- What the decoders compute from the first byte.
pub record FlagsRead (fin mask : Bool) (ver : ℕ) (short : Bool) (op b : ℕ) : Type 0 where
  pub opcode_read : bit_and 0x07 b ≡ op
  pub fin_read : (if bit_and b 0x80 == 0x80 then true else false) ≡ fin
  pub mask_read : (if bit_and b 0x40 == 0x40 then true else false) ≡ mask
  pub ver_read : bit_and b 0x30 / 16 ≡ ver
  pub short_read : (if bit_and b 0x08 == 0x08 then true else false) ≡ short
  pub flag_is_byte : b < 256

flags_of_agree :
    (fin mask : Bool) (ver : ℕ) (short : Bool) (op : ℕ)
    → flags_agree fin mask ver short op ≡ true
    → FlagsRead fin mask ver short op (flag_byte fin mask ver short op)
flags_of_agree fin mask ver short op h = ground arith

pub flag_byte_read :
    (fin mask : Bool) (ver : ℕ) (short : Bool) (op : ℕ)
    → ver < 4
    → op < 8
    → FlagsRead fin mask ver short op (flag_byte fin mask ver short op)
flag_byte_read fin mask ver short op p q =
    flags_of_agree fin mask ver short op (flags_agree_at fin mask ver short op p q)

abbrev data_agree : Bool → Bool → ℕ → ℕ → ℕ → Bool
data_agree read ack format level enc =
    let b = data_byte read ack format level enc in
    bool_eq read (bit_and b 0x80 == 0x80)
    && (bool_eq ack (bit_and b 0x40 == 0x40)
        && ((bit_and b 0x30 / 16 == format)
            && ((bit_and b 0x0c / 4 == level) && ((bit_and b 0x03 == enc) && ltb b 256))))

data_table :
    (read ack : Bool) → all_below 64 (λ k. data_agree read ack (k / 16) (k / 4 % 4) (k % 4)) ≡ true
unfolding all_below data_byte
data_table true true = refl
data_table true false = refl
data_table false true = refl
data_table false false = refl

-- What `Binary2Msg` computes from the first byte of the data header.
pub record DataRead (read ack : Bool) (format level enc b : ℕ) : Type 0 where
  pub read_read : (if bit_and b 0x80 == 0x80 then true else false) ≡ read
  pub ack_read : (if bit_and b 0x40 == 0x40 then true else false) ≡ ack
  pub format_read : bit_and b 0x30 / 16 ≡ format
  pub level_read : bit_and b 0x0c / 4 ≡ level
  pub enc_read : bit_and b 0x03 ≡ enc
  pub data_is_byte : b < 256

data_of_agree :
    (read ack : Bool) (format level enc : ℕ)
    → data_agree read ack format level enc ≡ true
    → DataRead read ack format level enc (data_byte read ack format level enc)
data_of_agree read ack format level enc h = ground arith

pub data_byte_read :
    (read ack : Bool) (format level enc : ℕ)
    → format < 4
    → level < 4
    → enc < 4
    → DataRead read ack format level enc (data_byte read ack format level enc)
data_byte_read read ack format level enc p q r =
    let k : ℕ = 16 * format + 4 * level + enc in
    let hi : k / 16 ≡ format = omega arith in
    let mid : k / 4 % 4 ≡ level = omega arith in
    let lo : k % 4 ≡ enc = omega arith in
    data_of_agree read ack format level enc (
      subst (λ (f : ℕ). data_agree read ack f level enc ≡ true) hi
        (subst (λ (l : ℕ). data_agree read ack (k / 16) l enc ≡ true) mid
          (subst (λ (e : ℕ). data_agree read ack (k / 16) (k / 4 % 4) e ≡ true) lo
            (all_below_at 64 _ (data_table read ack) k (omega arith)))))
