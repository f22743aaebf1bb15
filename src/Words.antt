-- ===== src/Words.antt =====
-- Fixed-width integers as bytes: Go's encoding/binary and encoding/hex as octopus uses them.
-- A byte slice is a list of numbers below 256.
pub mod Laws
use erina.Base.{
  ℕ, zero, suc, ◌+◌, ◌-◌, ◌*◌, ◌/◌, ◌%◌, ◌≤◌, ◌<◌, List, [], ◌∷◌, ◌++◌, Option, none, some, ltb,
  leb, ◌==◌, if◌then◌else◌, ◌&&◌, length, take, drop, get_or, replicate, All,
}

abbrev pub Bytes : Type 0
Bytes = List ℕ

abbrev pub IsByte : ℕ → Type 0
IsByte b = b < 256

abbrev pub IsBytes : Bytes → Type 0
IsBytes = All IsByte

-- `binary.LittleEndian.PutUintN` of a number of `n` bytes.
abbrev pub to_le : ℕ → ℕ → Bytes
to_le zero v = []
to_le (suc n) v = v % 256 ∷ to_le n (v / 256)

-- `binary.LittleEndian.UintN` of all the bytes of a slice.
abbrev pub of_le : Bytes → ℕ
of_le [] = 0
of_le (b ∷ bs) = b + 256 * of_le bs

-- `binary.BigEndian.UintN`.
abbrev pub of_be_from : ℕ → Bytes → ℕ
of_be_from acc [] = acc
of_be_from acc (b ∷ bs) = of_be_from (acc * 256 + b) bs

abbrev pub of_be : Bytes → ℕ
of_be bs = of_be_from 0 bs

-- `binary.BigEndian.PutUintN`.
abbrev pub to_be_onto : ℕ → ℕ → Bytes → Bytes
to_be_onto zero v out = out
to_be_onto (suc n) v out = to_be_onto n (v / 256) (v % 256 ∷ out)

abbrev pub to_be : ℕ → ℕ → Bytes
to_be n v = to_be_onto n v []

-- A lower-case hexadecimal digit, as its character code.
abbrev pub hex_digit : ℕ → ℕ
hex_digit d = if ltb d 10 then 48 + d else 87 + d

-- `hex.EncodeToString`, and `fmt.Sprintf("%x", …)` of a byte slice.
abbrev pub hex_encode : Bytes → List ℕ
hex_encode [] = []
hex_encode (b ∷ bs) = hex_digit (b / 16) ∷ hex_digit (b % 16) ∷ hex_encode bs

-- `b[i]`; `none` is Go's panic on an index out of range.
abbrev pub index : Bytes → ℕ → Option ℕ
index b i = if ltb i (length b) then some (get_or b i 0) else none

-- `b[lo:hi]` of a slice with no spare capacity; `none` is the panic.
abbrev pub slice : Bytes → ℕ → ℕ → Option Bytes
slice b lo hi = if leb lo hi && leb hi (length b) then some (take (hi - lo) (drop lo b)) else none

-- What `copy(dst, src)` leaves in a zeroed `dst` of `n` bytes.
abbrev pub fit : ℕ → Bytes → Bytes
fit zero src = []
fit (suc n) [] = 0 ∷ fit n []
fit (suc n) (b ∷ bs) = b ∷ fit n bs
