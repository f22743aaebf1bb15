-- ===== src/Users/Params/Decimal.antt =====
-- Numbers that are printed and parsed.
use erina.Base.{
  ℕ, zero, suc, ◌+◌, ◌-◌, ◌*◌, ◌/◌, ◌%◌, ◌^◌, ◌<◌, ◌≤◌, ◌==◌, ◌≡◌, ltb, leb, refl, ap, ◌∙◌, arith,
  [], ◌∷◌, some, true, false, Bool-cases, inl, inr,
}
use erina.Sentinel.Types.{Text}
use erina.Sentinel.Routes.{parse_int, number, digits}
use erina.Sentinel.Online.{NoBar}
use erina.Outcome.{ok}
use erina.Users.Params.{not_empty, decimal, signed, unsigned, parse_uint, in_range}

abbrev pub tens : ℕ → ℕ
tens zero = 1
tens (suc k) = 10 * tens k

digits_one :
    (acc d : ℕ) (rest : Text) → d < 10 → digits acc ((48 + d) ∷ rest) ≡ digits (acc * 10 + d) rest
unfolding digits
digits_one acc d rest h =
    let value : 48 + d - 48 ≡ d = omega arith in
    let low : leb 48 (48 + d) ≡ true = ground arith in
    let high : leb (48 + d) 57 ≡ true = ground arith in rw (low, high, value) refl

digits_first : (d : ℕ) (rest : Text) → d < 10 → digits 0 ((48 + d) ∷ rest) ≡ digits d rest
digits_first d rest h =
    digits_one 0 d rest h ∙ ap (λ (v : ℕ). digits v rest) {x = 0 * 10 + d} {y = d} (omega arith)

pub digits-decimal :
    (fuel n : ℕ) (rest : Text)
    → n < tens fuel
    → 0 < fuel
    → digits 0 (decimal fuel n rest) ≡ digits n rest
unfolding decimal
digits-decimal zero n rest h k = absurd (omega arith)
digits-decimal (suc zero) n rest h k =
    let small : ltb n 10 ≡ true = ground arith in rw small (digits_first n rest (omega arith))
digits-decimal (suc (suc fuel)) n rest h k = elim (Bool-cases (ltb n 10)) [
  | inl e ↦ rw e (digits_first n rest (ground arith))
  | inr e ↦ rw e (
      digits-decimal (suc fuel) (n / 10) ((48 + n % 10) ∷ rest) (omega arith) (omega arith)
      ∙ digits_one (n / 10) (n % 10) rest (omega arith)
      ∙ ap (λ (v : ℕ). digits v rest) {x = n / 10 * 10 + n % 10} {y = n} (omega arith))
]

-- A text that begins with a digit.
abbrev Starts : Text → Type 0
Starts [] = ⊥
Starts (c ∷ text) = (48 ≤ c) × (c ≤ 57)

decimal-Starts : (fuel n : ℕ) (rest : Text) → Starts rest → Starts (decimal fuel n rest)
unfolding decimal
decimal-Starts zero n rest h = h
decimal-Starts (suc fuel) n rest h = elim (Bool-cases (ltb n 10)) [
  | inl e ↦ rw e (omega arith, ground arith)
  | inr e ↦ rw e (decimal-Starts fuel (n / 10) ((48 + n % 10) ∷ rest) (omega arith, omega arith))
]

unsigned-Starts : (n : ℕ) → Starts (unsigned n)
unfolding decimal
unsigned-Starts n = elim (Bool-cases (ltb n 10)) [
  | inl e ↦ rw e (omega arith, ground arith)
  | inr e ↦ rw e (decimal-Starts 19 (n / 10) ((48 + n % 10) ∷ []) (omega arith, omega arith))
]

decimal-NoBar : (fuel n : ℕ) (rest : Text) → NoBar rest → NoBar (decimal fuel n rest)
unfolding decimal
decimal-NoBar zero n rest h = h
decimal-NoBar (suc fuel) n rest h = elim (Bool-cases (ltb n 10)) [
  | inl e ↦ rw e (ground arith, h)
  | inr e ↦ rw e (decimal-NoBar fuel (n / 10) ((48 + n % 10) ∷ rest) (omega arith, h))
]

pub unsigned-NoBar : (n : ℕ) → NoBar (unsigned n)
unsigned-NoBar n = decimal-NoBar 20 n [] tt

pub signed-NoBar : (n : ℕ) → NoBar (signed n)
signed-NoBar n = elim (Bool-cases (ltb n (2 ^ 63))) [
  | inl e ↦ rw e (unsigned-NoBar n)
  | inr e ↦ rw e (omega arith, unsigned-NoBar (2 ^ 64 - n))
]

number_digits : (text : Text) → Starts text → number text ≡ digits 0 text
number_digits [] h = elim h [ ]
number_digits (c ∷ text) h = refl

pub number-unsigned : (n : ℕ) → n < 2 ^ 64 → number (unsigned n) ≡ some n
unfolding digits
number-unsigned n h =
    number_digits (unsigned n) (unsigned-Starts n)
    ∙ digits-decimal 20 n [] (omega arith) (omega arith)

-- What is printed as an unsigned number is read back.
pub parse_uint-unsigned : (n : ℕ) → n < 2 ^ 64 → parse_uint (unsigned n) ≡ some n
parse_uint-unsigned n h =
    let fits : leb n (2 ^ 64 - 1) ≡ true = ground arith in
    ap in_range (number-unsigned n h) ∙ rw fits refl

-- Without a sign in front.
parse_int_digit :
    (text : Text) (n : ℕ)
    → Starts text
    → number text ≡ some n
    → n < 2 ^ 63
    → parse_int text ≡ (n, true)
unfolding parse_int
parse_int_digit [] n h e fits = elim h [ ]
parse_int_digit (c ∷ text) n h e fits =
    let minus : (c == 45) ≡ false = ground arith in
    let plus : (c == 43) ≡ false = ground arith in
    let small : leb n (2 ^ 63 - 1) ≡ true = ground arith in rw (minus, plus, e, small) refl

parse_int_minus :
    (text : Text) (n : ℕ)
    → number text ≡ some (2 ^ 64 - n)
    → 2 ^ 63 ≤ n
    → n < 2 ^ 64
    → parse_int (45 ∷ text) ≡ (n, true)
unfolding parse_int
parse_int_minus text n e low high =
    let small : leb (2 ^ 64 - n) (2 ^ 63) ≡ true = ground arith in
    let value : (2 ^ 64 - (2 ^ 64 - n)) % 2 ^ 64 ≡ n = omega arith in rw (e, small, value) refl

-- What is printed as a signed number is read back.
pub parse_int-signed : (n : ℕ) → n < 2 ^ 64 → parse_int (signed n) ≡ (n, true)
parse_int-signed n h = elim (Bool-cases (ltb n (2 ^ 63))) [
  | inl e ↦
      rw e (parse_int_digit (unsigned n) n (unsigned-Starts n) (number-unsigned n h) (ground arith))
  | inr e ↦ rw e (
      parse_int_minus (unsigned (2 ^ 64 - n)) n (number-unsigned (2 ^ 64 - n) (ground arith))
        (ground arith) h)
]

not_empty_digit : (text : Text) → Starts text → not_empty text ≡ ok text
not_empty_digit [] h = elim h [ ]
not_empty_digit (c ∷ text) h = refl

pub unsigned-not_empty : (n : ℕ) → not_empty (unsigned n) ≡ ok (unsigned n)
unsigned-not_empty n = not_empty_digit (unsigned n) (unsigned-Starts n)
