-- ===== src/Crc.antt =====
-- The checksum of common/common.go: one byte, the message's bytes folded in from the front.
pub mod Detection
use erina.Base.{
  ℕ, zero, suc, ◌+◌, ◌*◌, ◌%◌, List, [], ◌∷◌, Option, none, some, bit_and, bit_xor, ◌==◌,
  if◌then◌else◌, not,
}
use erina.Words.{Bytes}

-- One round of the inner loop on `headerCheck`, a uint8.
unfoldable pub crc_bit : ℕ → ℕ
crc_bit c = if not (bit_and c 0x80 == 0) then bit_xor (c * 2 % 256) 0x31 else c * 2 % 256

-- The inner loop, with `bit` rounds left.
unfoldable pub crc_bits : ℕ → ℕ → ℕ
crc_bits zero c = c
crc_bits (suc bit) c = crc_bits bit (crc_bit c)

-- One round of the outer loop.
unfoldable pub crc_byte : ℕ → ℕ → ℕ
crc_byte c b = crc_bits 8 (bit_xor c b)

-- The outer loop over the first `n` bytes, from the check byte `c`; `none` is the panic when
-- the message is shorter than `n`.
unfoldable pub crc_loop : ℕ → ℕ → Bytes → Option ℕ
crc_loop c zero msg = some c
crc_loop c (suc n) [] = none
crc_loop c (suc n) (b ∷ msg) = crc_loop (crc_byte c b) n msg

unfoldable pub crc : Bytes → ℕ → Option ℕ
crc msg n = crc_loop 0 n msg
