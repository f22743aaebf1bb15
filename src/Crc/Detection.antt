-- ===== src/Crc/Detection.antt =====
-- What the checksum catches.
use erina.Base.{
  ◌≤◌, take, ℕ, zero, suc, ◌+◌, ◌*◌, ◌/◌, ◌%◌, ◌<◌, ◌≡◌, refl, sym, ap, ◌∙◌, ◌≢◌, arith, [], ◌∷◌,
  ◌++◌, some, length, bit_xor, true, ◌==◌, ==_iff, if◌then◌else◌, subst, append-nil, all_below,
  all_below_at, bit_xor-byte, bit_xor_injective, bit_xor_comm,
}
use erina.Words.{Bytes, IsByte, IsBytes}
use erina.Crc.{crc_bit, crc_bits, crc_byte, crc_loop, crc}

-- One round backwards: an odd byte comes from a round that folded the polynomial in.
crc_unbit : ℕ → ℕ
crc_unbit c = if c % 2 == 1 then bit_xor c 0x31 / 2 + 128 else c / 2

crc_bit_table : all_below 256 (λ c. crc_unbit (crc_bit c) == c) ≡ true
unfolding all_below crc_unbit crc_bit
crc_bit_table = refl

crc_unbit-crc_bit : (c : ℕ) → c < 256 → crc_unbit (crc_bit c) ≡ c
crc_unbit-crc_bit c h = (==_iff _ c).0 (all_below_at 256 _ crc_bit_table c h)

crc_bit-byte : (c : ℕ) → c < 256 → crc_bit c < 256
unfolding crc_bit
crc_bit-byte c h = ground (arith, bit_xor-byte (c * 2 % 256) 0x31)

crc_bits-byte : (n c : ℕ) → c < 256 → crc_bits n c < 256
unfolding crc_bits
crc_bits-byte zero c h = h
crc_bits-byte (suc n) c h = crc_bits-byte n (crc_bit c) (crc_bit-byte c h)

crc_bits_injective : (n c d : ℕ) → c < 256 → d < 256 → crc_bits n c ≡ crc_bits n d → c ≡ d
unfolding crc_bits
crc_bits_injective zero c d p q e = e
crc_bits_injective (suc n) c d p q e =
    sym (crc_unbit-crc_bit c p)
    ∙ ap crc_unbit (crc_bits_injective n _ _ (crc_bit-byte c p) (crc_bit-byte d q) e)
    ∙ crc_unbit-crc_bit d q

pub crc_byte-byte : (c b : ℕ) → c < 256 → b < 256 → crc_byte c b < 256
unfolding crc_byte
crc_byte-byte c b p q = crc_bits-byte 8 _ (bit_xor-byte c b p q)

crc_byte_injective : (c d b : ℕ) → c < 256 → d < 256 → b < 256 → crc_byte c b ≡ crc_byte d b → c ≡ d
unfolding crc_byte
crc_byte_injective c d b p q r e =
    bit_xor_injective c d b
      (crc_bits_injective 8 _ _ (bit_xor-byte c b p r) (bit_xor-byte d b q r) e)

crc_byte_injective_right :
    (c b b' : ℕ) → c < 256 → b < 256 → b' < 256 → crc_byte c b ≡ crc_byte c b' → b ≡ b'
unfolding crc_byte
crc_byte_injective_right c b b' p q r e = bit_xor_injective b b' c (
    bit_xor_comm b c
    ∙ crc_bits_injective 8 _ _ (bit_xor-byte c b p q) (bit_xor-byte c b' p r) e
    ∙ bit_xor_comm c b')

-- The fold without the panic, over a whole message.
abbrev pub crc_fold : ℕ → Bytes → ℕ
crc_fold c [] = c
crc_fold c (b ∷ msg) = crc_fold (crc_byte c b) msg

pub crc_fold-byte : (c : ℕ) (msg : Bytes) → c < 256 → IsBytes msg → crc_fold c msg < 256
crc_fold-byte c [] p h = p
crc_fold-byte c (b ∷ msg) p (q, h) = crc_fold-byte (crc_byte c b) msg (crc_byte-byte c b p q) h

pub crc_loop-fold :
    (c : ℕ) (msg more : Bytes) → crc_loop c (length msg) (msg ++ more) ≡ some (crc_fold c msg)
unfolding crc_loop
crc_loop-fold c [] more = refl
crc_loop-fold c (b ∷ msg) more = crc_loop-fold (crc_byte c b) msg more

pub crc_loop-take :
    (c n : ℕ) (msg : Bytes) → n ≤ length msg → crc_loop c n msg ≡ some (crc_fold c (take n msg))
unfolding crc_loop
crc_loop-take c zero msg h = refl
crc_loop-take c (suc n) [] h = absurd (omega arith)
crc_loop-take c (suc n) (b ∷ msg) h = crc_loop-take (crc_byte c b) n msg (omega arith)

-- The checksum of no more bytes than there are never fails.
pub crc-take : (msg : Bytes) (n : ℕ) → n ≤ length msg → crc msg n ≡ some (crc_fold 0 (take n msg))
unfolding crc
crc-take msg n h = crc_loop-take 0 n msg h

-- The checksum of a front reads nothing behind it and never fails.
pub crc-front : (msg more : Bytes) → crc (msg ++ more) (length msg) ≡ some (crc_fold 0 msg)
unfolding crc
crc-front msg more = crc_loop-fold 0 msg more

pub crc_fold_injective :
    (c d : ℕ) (msg : Bytes)
    → c < 256
    → d < 256
    → IsBytes msg
    → crc_fold c msg ≡ crc_fold d msg
    → c ≡ d
crc_fold_injective c d [] p q h e = e
crc_fold_injective c d (b ∷ msg) p q (r, h) e = crc_byte_injective c d b p q r (
    crc_fold_injective (crc_byte c b) (crc_byte d b) msg (crc_byte-byte c b p r)
      (crc_byte-byte d b q r) h e)

pub crc_fold-append : (c : ℕ) (xs ys : Bytes) → crc_fold c (xs ++ ys) ≡ crc_fold (crc_fold c xs) ys
crc_fold-append c [] ys = refl
crc_fold-append c (x ∷ xs) ys = crc_fold-append (crc_byte c x) xs ys

crc_fold_one_byte :
    (front back : Bytes) (b b' : ℕ)
    → IsBytes front
    → IsBytes back
    → IsByte b
    → IsByte b'
    → crc_fold 0 (front ++ (b ∷ back)) ≡ crc_fold 0 (front ++ (b' ∷ back))
    → b ≡ b'
crc_fold_one_byte front back b b' hf hb p q e =
    let c : ℕ = crc_fold 0 front in
    let hc : c < 256 = crc_fold-byte 0 front (omega arith) hf in
    crc_byte_injective_right c b b' hc p q (
      crc_fold_injective _ _ back (crc_byte-byte c b hc p) (crc_byte-byte c b' hc q) hb
        (sym (crc_fold-append 0 front (b ∷ back)) ∙ e ∙ crc_fold-append 0 front (b' ∷ back)))

pub crc_whole : (msg : Bytes) → crc msg (length msg) ≡ some (crc_fold 0 msg)
crc_whole msg =
    subst (λ m. crc m (length msg) ≡ some (crc_fold 0 msg)) (append-nil msg) (crc-front msg [])

-- For any byte messages that differ in exactly one byte, wherever it stands, the checksums over
-- the whole messages differ, and neither call fails.
pub crc_detects_one_byte :
    (front back : Bytes) (b b' : ℕ)
    → IsBytes front
    → IsBytes back
    → IsByte b
    → IsByte b'
    → b ≢ b'
    → (c : ℕ) × (d : ℕ) × (crc (front ++ (b ∷ back)) (length (front ++ (b ∷ back))) ≡ some c)
      × (crc (front ++ (b' ∷ back)) (length (front ++ (b' ∷ back))) ≡ some d)
      × (c ≢ d)
crc_detects_one_byte front back b b' hf hb p q ne = (
  crc_fold 0 (front ++ (b ∷ back)),
  crc_fold 0 (front ++ (b' ∷ back)),
  crc_whole _,
  crc_whole _,
  λ e. ne (crc_fold_one_byte front back b b' hf hb p q e),
)
