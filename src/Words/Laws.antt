-- ===== src/Words/Laws.antt =====
-- What goes into bytes comes out again.
use erina.Words.{slice, index, Bytes, IsBytes, to_le, of_le, fit}
use erina.Base.{
  ◌-◌, ◌≤◌, ◌++◌, get_or, length-append, take, drop, some, ℕ, zero, suc, ◌+◌, ◌*◌, ◌/◌, ◌%◌, ◌^◌,
  ◌<◌, ◌≡◌, refl, ap, ◌∙◌, arith, [], ◌∷◌, length,
}
use native.Mathlib.Nat.{pow-suc}

pub length-to_le : (n v : ℕ) → length (to_le n v) ≡ n
length-to_le zero v = refl
length-to_le (suc n) v = ap suc (length-to_le n (v / 256))

pub to_le-IsBytes : (n v : ℕ) → IsBytes (to_le n v)
to_le-IsBytes zero v = tt
to_le-IsBytes (suc n) v = (omega arith, to_le-IsBytes n (v / 256))

-- A number of `n` bytes survives the trip.
pub of_le-to_le : (n v : ℕ) → v < 256 ^ n → of_le (to_le n v) ≡ v
of_le-to_le zero v h = omega arith
of_le-to_le (suc n) v h = omega (arith, of_le-to_le n (v / 256) (omega (arith, pow-suc 256 n)))

-- So do `n` bytes.
pub to_le-of_le : (bs : Bytes) → IsBytes bs → to_le (length bs) (of_le bs) ≡ bs
to_le-of_le [] h = refl
to_le-of_le (b ∷ bs) (p, h) =
    let low : (b + 256 * of_le bs) % 256 ≡ b = omega arith in
    let high : (b + 256 * of_le bs) / 256 ≡ of_le bs = omega arith in
    ap (λ t. t ∷ to_le (length bs) ((b + 256 * of_le bs) / 256)) low
    ∙ ap (λ t. b ∷ to_le (length bs) t) high
    ∙ ap (λ t. b ∷ t) (to_le-of_le bs h)

pub length-fit : (n : ℕ) (bs : Bytes) → length (fit n bs) ≡ n
length-fit zero bs = refl
length-fit (suc n) [] = ap suc (length-fit n [])
length-fit (suc n) (b ∷ bs) = ap suc (length-fit n bs)

pub fit_exact : (n : ℕ) (bs : Bytes) → length bs ≡ n → fit n bs ≡ bs
fit_exact zero [] h = refl
fit_exact zero (b ∷ bs) h = absurd (omega arith)
fit_exact (suc n) [] h = absurd (omega arith)
fit_exact (suc n) (b ∷ bs) h = ap (λ t. b ∷ t) (fit_exact n bs (omega arith))

pub fit-IsBytes : (n : ℕ) (bs : Bytes) → IsBytes bs → IsBytes (fit n bs)
fit-IsBytes zero bs h = tt
fit-IsBytes (suc n) [] h = (omega arith, fit-IsBytes n [] tt)
fit-IsBytes (suc n) (b ∷ bs) (p, h) = (p, fit-IsBytes n bs h)

-- An index within bounds.
pub index_lem : (b : Bytes) (i : ℕ) → i < length b → index b i ≡ some (get_or b i 0)
index_lem b i h = ground arith

-- A slice within bounds.
pub slice_lem :
    (buf : Bytes) (lo hi : ℕ)
    → lo ≤ hi
    → hi ≤ length buf
    → slice buf lo hi ≡ some (take (hi - lo) (drop lo buf))
slice_lem buf lo hi p q = ground arith

-- The byte behind a front.
get_or-front :
    (front rest : Bytes) (i : ℕ) → get_or (front ++ rest) (length front + i) 0 ≡ get_or rest i 0
get_or-front [] rest i = ap (λ (t : ℕ). get_or rest t 0) {x = 0 + i} {y = i} (omega arith)
get_or-front (b ∷ front) rest i =
    ap (λ (t : ℕ). get_or (b ∷ (front ++ rest)) t 0) {x = suc (length front) + i}
      {y = suc (length front + i)} (omega arith)
    ∙ get_or-front front rest i

pub index-front :
    (front rest : Bytes) (i : ℕ)
    → i < length rest
    → index (front ++ rest) (length front + i) ≡ some (get_or rest i 0)
index-front front rest i h =
    index_lem (front ++ rest) (length front + i) (omega (arith, length-append front rest))
    ∙ ap some (get_or-front front rest i)
