-- ===== src/Base/Xor.antt =====
-- Exclusive or on natural numbers: its recursion on the lowest digit, and the laws that follow.
use Prim.Native.Nat.{
  ℕ, zero, suc, ◌+◌, ◌*◌, ◌/◌, ◌%◌, ◌^◌, ◌≤◌, ◌<◌, bit_xor, digits, differ, bit_xor-bitwise,
}
use mathlib.Core.Path.{◌≡◌, refl, sym, ap, ◌∙◌}
use native.Mathlib.Nat.{pow-suc}
use native.Mathlib.Omega.{arith}

abbrev xor_digits : ℕ → ℕ → ℕ → ℕ
xor_digits n a b = digits (λ y. y) differ n a b

-- Any count of digits that covers the first number gives the same result.
xor_digits_enough : (n m a b : ℕ) → a ≤ n → a ≤ m → xor_digits n a b ≡ xor_digits m a b
xor_digits_enough zero zero a b p q = refl
xor_digits_enough zero (suc m) zero b p q = refl
xor_digits_enough zero (suc m) (suc a) b p q = absurd (omega arith)
xor_digits_enough (suc n) zero zero b p q = refl
xor_digits_enough (suc n) zero (suc a) b p q = absurd (omega arith)
xor_digits_enough (suc n) (suc m) zero b p q = refl
xor_digits_enough (suc n) (suc m) (suc a) b p q =
    ap (λ (t : ℕ). t * 2 + differ (suc a % 2) (b % 2))
      (xor_digits_enough n m (suc a / 2) (b / 2) (omega arith) (omega arith))

digit_cases : (P : ℕ → Type 0) → P 0 → P 1 → (x : ℕ) → x < 2 → P x
digit_cases P p q zero h = p
digit_cases P p q (suc zero) h = q
digit_cases P p q (suc (suc x)) h = absurd (omega arith)

zero-differ_digit : (b : ℕ) → b ≡ b / 2 * 2 + differ 0 (b % 2)
zero-differ_digit b = omega arith

pub bit_xor_step : (a b : ℕ) → bit_xor a b ≡ bit_xor (a / 2) (b / 2) * 2 + differ (a % 2) (b % 2)
bit_xor_step zero b = simp bit_xor-bitwise (omega arith)
bit_xor_step (suc a) b = simp bit_xor-bitwise (
    ap (λ (t : ℕ). t * 2 + differ (suc a % 2) (b % 2))
      (xor_digits_enough a (suc a / 2) (suc a / 2) (b / 2) (omega arith) (omega arith)))

differ_digit : (x y : ℕ) → x < 2 → y < 2 → differ x y ≡ (x + y) % 2
differ_digit x y p q =
    digit_cases (λ x. differ x y ≡ (x + y) % 2)
      (digit_cases (λ y. differ 0 y ≡ (0 + y) % 2) refl refl y q)
      (digit_cases (λ y. differ 1 y ≡ (1 + y) % 2) refl refl y q) x p

-- The lowest digit of the result is the sum's, and the rest is the exclusive or of the rest.
pub bit_xor-mod-two : (a b : ℕ) → bit_xor a b % 2 ≡ (a + b) % 2
bit_xor-mod-two a b =
    omega (arith, bit_xor_step a b, differ_digit (a % 2) (b % 2) (omega arith) (omega arith))

pub bit_xor-div-two : (a b : ℕ) → bit_xor a b / 2 ≡ bit_xor (a / 2) (b / 2)
bit_xor-div-two a b =
    omega (arith, bit_xor_step a b, differ_digit (a % 2) (b % 2) (omega arith) (omega arith))

eq_of_halves : (a b : ℕ) → a / 2 ≡ b / 2 → a % 2 ≡ b % 2 → a ≡ b
eq_of_halves a b p q = omega arith

pub bit_xor_comm_up_to : (n a b : ℕ) → a ≤ n → b ≤ n → bit_xor a b ≡ bit_xor b a
bit_xor_comm_up_to zero zero zero p q = refl
bit_xor_comm_up_to zero zero (suc b) p q = absurd (omega arith)
bit_xor_comm_up_to zero (suc a) b p q = absurd (omega arith)
bit_xor_comm_up_to (suc n) a b p q =
    eq_of_halves _ _
      (bit_xor-div-two a b
        ∙ bit_xor_comm_up_to n (a / 2) (b / 2) (omega arith) (omega arith)
        ∙ sym (bit_xor-div-two b a))
      (omega (arith, bit_xor-mod-two a b, bit_xor-mod-two b a))

pub bit_xor_comm : (a b : ℕ) → bit_xor a b ≡ bit_xor b a
bit_xor_comm a b = bit_xor_comm_up_to (a + b) a b (omega arith) (omega arith)

bit_xor_assoc_up_to :
    (n a b c : ℕ) → a ≤ n → b ≤ n → c ≤ n → bit_xor (bit_xor a b) c ≡ bit_xor a (bit_xor b c)
bit_xor_assoc_up_to zero zero zero zero p q r = refl
bit_xor_assoc_up_to zero zero zero (suc c) p q r = absurd (omega arith)
bit_xor_assoc_up_to zero zero (suc b) c p q r = absurd (omega arith)
bit_xor_assoc_up_to zero (suc a) b c p q r = absurd (omega arith)
bit_xor_assoc_up_to (suc n) a b c p q r =
    eq_of_halves _ _
      (bit_xor-div-two (bit_xor a b) c
        ∙ ap (λ (t : ℕ). bit_xor t (c / 2)) (bit_xor-div-two a b)
        ∙ bit_xor_assoc_up_to n (a / 2) (b / 2) (c / 2) (omega arith) (omega arith) (omega arith)
        ∙ ap (λ (t : ℕ). bit_xor (a / 2) t) (sym (bit_xor-div-two b c))
        ∙ sym (bit_xor-div-two a (bit_xor b c)))
      (omega (
        arith,
        bit_xor-mod-two (bit_xor a b) c,
        bit_xor-mod-two a b,
        bit_xor-mod-two a (bit_xor b c),
        bit_xor-mod-two b c,
      ))

pub bit_xor_assoc : (a b c : ℕ) → bit_xor (bit_xor a b) c ≡ bit_xor a (bit_xor b c)
bit_xor_assoc a b c =
    bit_xor_assoc_up_to (a + b + c) a b c (omega arith) (omega arith) (omega arith)

bit_xor_self_up_to : (n a : ℕ) → a ≤ n → bit_xor a a ≡ 0
bit_xor_self_up_to zero zero p = refl
bit_xor_self_up_to zero (suc a) p = absurd (omega arith)
bit_xor_self_up_to (suc n) a p =
    eq_of_halves _ 0 (bit_xor-div-two a a ∙ bit_xor_self_up_to n (a / 2) (omega arith) ∙ refl)
      (omega (arith, bit_xor-mod-two a a))

pub bit_xor_self : (a : ℕ) → bit_xor a a ≡ 0
bit_xor_self a = bit_xor_self_up_to a a (omega arith)

pub zero-bit_xor : (b : ℕ) → bit_xor 0 b ≡ b
zero-bit_xor b = simp bit_xor-bitwise

pub bit_xor-zero : (a : ℕ) → bit_xor a 0 ≡ a
bit_xor-zero a = bit_xor_comm a 0 ∙ zero-bit_xor a

-- Masking twice with the same number gives the first number back.
pub bit_xor_cancel : (a k : ℕ) → bit_xor (bit_xor a k) k ≡ a
bit_xor_cancel a k = bit_xor_assoc a k k ∙ ap (bit_xor a) (bit_xor_self k) ∙ bit_xor-zero a

pub bit_xor_injective : (a b k : ℕ) → bit_xor a k ≡ bit_xor b k → a ≡ b
bit_xor_injective a b k e =
    sym (bit_xor_cancel a k) ∙ ap (λ (t : ℕ). bit_xor t k) e ∙ bit_xor_cancel b k

bit_xor-lt-pow : (w a b : ℕ) → a < 2 ^ w → b < 2 ^ w → bit_xor a b < 2 ^ w
bit_xor-lt-pow zero zero zero p q = p
bit_xor-lt-pow zero zero (suc b) p q = absurd (omega arith)
bit_xor-lt-pow zero (suc a) b p q = absurd (omega arith)
bit_xor-lt-pow (suc w) a b p q = omega (
  arith,
  pow-suc 2 w,
  bit_xor-div-two a b,
  bit_xor-lt-pow w (a / 2) (b / 2) (omega (arith, pow-suc 2 w)) (omega (arith, pow-suc 2 w)),
)

-- The exclusive or of two bytes is a byte.
pub bit_xor-byte : (a b : ℕ) → a < 256 → b < 256 → bit_xor a b < 256
bit_xor-byte a b p q = bit_xor-lt-pow 8 a b p q
