-- ===== src/Msg/Key.antt =====
-- `RandomKeyGet` of msgs/msg.go, and the key masked by the device's secret.
use erina.Base.{
  ℕ, zero, suc, ◌+◌, ◌%◌, ◌≤◌, ◌≡◌, refl, ap, arith, [], ◌∷◌, ◌++◌, Option, none, some, bit_and,
  bit_xor, length, get_or,
}
use erina.Words.{Bytes, to_le}
use mathlib.Core.Option

module _ (id times : Bytes) (time_xor : ℕ) where
  -- The inner loop of round `i`, from position `n` on; all sums are of uint8.
  unfoldable pub key_round : ℕ → ℕ → Bytes → Bytes
  key_round i n [] = []
  key_round i n (k ∷ key) =
      let shift = (i + n) % 256 in
      bit_xor k (
        bit_xor (get_or id (bit_and ((time_xor + shift) % 256) 0x07) 0)
          (get_or times (bit_and shift 0x03) 0))
      ∷ key_round i (n + 1) key

  -- The outer loop, with `left` rounds left.
  unfoldable pub key_rounds : ℕ → ℕ → Bytes → Bytes
  key_rounds zero i key = key
  key_rounds (suc left) i key = key_rounds left (i + 1) (key_round i 0 key)

-- `seq`, `dst` and `time` are the uint16, int64 and uint32 of the source.
unfoldable pub random_key_get : ℕ → ℕ → ℕ → Bytes
random_key_get seq dst time =
    let id = to_le 8 dst in
    let times = to_le 4 time in
    let time_xor =
      bit_xor (bit_xor (bit_xor (get_or times 0 0) (get_or times 1 0)) (get_or times 2 0))
        (get_or times 3 0) in
    key_rounds id times time_xor (bit_and time_xor 0x03 + 1) 0
      (times ++ (id ++ (to_le 2 seq ++ to_le 2 seq)))

-- `key[n] = x ^ m.MZ[n]` for every byte of the random key; `none` is the panic on a short secret.
unfoldable pub xor_key : Bytes → Bytes → Option Bytes
xor_key [] mz = some []
xor_key (x ∷ a) [] = none
xor_key (x ∷ a) (z ∷ mz) = Option.map (λ key. bit_xor x z ∷ key) (xor_key a mz)

module _ (id times : Bytes) (time_xor : ℕ) where
  length-key_round :
      (i n : ℕ) (key : Bytes) → length (key_round id times time_xor i n key) ≡ length key
  unfolding key_round
  length-key_round i n [] = refl
  length-key_round i n (k ∷ key) = ap suc (length-key_round i (n + 1) key)

  length-key_rounds :
      (left i : ℕ) (key : Bytes) → length (key_rounds id times time_xor left i key) ≡ length key
  unfolding key_rounds
  length-key_rounds zero i key = refl
  length-key_rounds (suc left) i key = omega (
    arith,
    length-key_rounds left (i + 1) (key_round id times time_xor i 0 key),
    length-key_round i 0 key,
  )

-- The key always has the 16 bytes that AES-128 wants.
pub length-random_key_get : (seq dst time : ℕ) → length (random_key_get seq dst time) ≡ 16
unfolding random_key_get
length-random_key_get seq dst time =
    let times : Bytes = to_le 4 time in
    let time_xor : ℕ =
      bit_xor (bit_xor (bit_xor (get_or times 0 0) (get_or times 1 0)) (get_or times 2 0))
        (get_or times 3 0) in
    length-key_rounds (to_le 8 dst) times time_xor (bit_and time_xor 0x03 + 1) 0
      (times ++ (to_le 8 dst ++ (to_le 2 seq ++ to_le 2 seq)))

-- With a secret at least as long, the masked key exists and is as long as the key.
pub xor_key_lem :
    (a mz : Bytes)
    → length a ≤ length mz
    → (key : Bytes) × (xor_key a mz ≡ some key) × (length key ≡ length a)
unfolding xor_key
xor_key_lem [] mz h = ([], refl, refl)
xor_key_lem (x ∷ a) [] h = absurd (omega arith)
xor_key_lem (x ∷ a) (z ∷ mz) h =
    let (key, e, l) = xor_key_lem a mz (omega arith) in (bit_xor x z ∷ key, rw e, ap suc l)
