-- ===== src/Base/Maps.antt =====
-- Go maps as association lists. The first entry of a key counts, and a key that is set again
-- loses its earlier entry.
use Prim.Native.Nat.{ℕ}
use mathlib.Core.Path.{◌≡◌, refl, sym, ap, ◌∙◌}
use mathlib.Core.Logic.{◌↔◌, ◌≢◌, ◌⊎◌, inl, inr}
use mathlib.Core.Bool.{Bool, true, false, ◌&&◌}
use mathlib.Core.Option.{Option, none, some}
use mathlib.Core.List.{List, [], ◌∷◌}
use native.Mathlib.Omega.{arith}
use erina.Base.Tests.{◌==◌, ==_iff, if◌then◌else◌, Bool-cases}

pub true-ne-false : true ≢ false
true-ne-false e = ground arith

-- Types whose values are map keys.
pub record Key {ℓ} (K : Type ℓ) : Type ℓ where
  pub same : K → K → Bool
  pub same_iff : (a b : K) → (same a b ≡ true) ↔ (a ≡ b)

instance abbrev pub nat_key : Key ℕ
nat_key = record { same = λ a b. a == b; same_iff = ==_iff }

-- Two strings of the source, byte by byte.
abbrev pub text_same : List ℕ → List ℕ → Bool
text_same [] [] = true
text_same [] (y ∷ ys) = false
text_same (x ∷ xs) [] = false
text_same (x ∷ xs) (y ∷ ys) = (x == y) && text_same xs ys

pub text_same_to : (a b : List ℕ) → text_same a b ≡ true → a ≡ b
text_same_to [] [] h = refl
text_same_to [] (y ∷ ys) h = absurd (ground arith)
text_same_to (x ∷ xs) [] h = absurd (ground arith)
text_same_to (x ∷ xs) (y ∷ ys) h =
    let hd : x ≡ y = ground arith in
    let tl : xs ≡ ys = text_same_to xs ys (ground arith) in λ i. hd i ∷ tl i

pub text_same_refl : (a : List ℕ) → text_same a a ≡ true
text_same_refl [] = refl
text_same_refl (x ∷ xs) = rw ((==_iff x x).1 refl) (text_same_refl xs)

instance abbrev pub text_key : Key (List ℕ)
text_key = record {
  same = text_same;
  same_iff = λ a b. (text_same_to a b, λ e. ap (text_same a) (sym e) ∙ text_same_refl a);
}

abbrev pub Map {ℓ κ} : Type ℓ → Type κ → Type (ℓ ⊔ κ)
Map K V = List (K × V)

module _ {ℓ} {K : Type ℓ} ⦃k : Key K⦄ where
  pub same_refl : (a : K) → k.same a a ≡ true
  same_refl a = (k.same_iff a a).1 refl

  pub same_ne : (a b : K) → a ≢ b → k.same a b ≡ false
  same_ne a b ne = elim (Bool-cases (k.same a b)) [
    | inl e ↦ absurd (ne ((k.same_iff a b).0 e))
    | inr e ↦ e
  ]

  -- Two keys are equal or not.
  pub key_cases : (a b : K) → (a ≡ b) ⊎ (a ≢ b)
  key_cases a b = elim (Bool-cases (k.same a b)) [
    | inl e ↦ inl ((k.same_iff a b).0 e)
    | inr e ↦ inr λ q. absurd (true-ne-false (sym ((k.same_iff a b).1 q) ∙ e))
  ]

module _ {ℓ κ} {K : Type ℓ} {V : Type κ} ⦃k : Key K⦄ where
  abbrev pub lookup : Map K V → K → Option V
  lookup [] a = none
  lookup ((b, v) ∷ m) a = if k.same a b then some v else lookup m a

  -- `delete(m, a)`.
  abbrev pub remove : Map K V → K → Map K V
  remove [] a = []
  remove ((b, v) ∷ m) a = let rest = remove m a in if k.same a b then rest else (b, v) ∷ rest

  -- `m[a] = v`.
  abbrev pub insert : Map K V → K → V → Map K V
  insert m a v = (a, v) ∷ remove m a

  pub lookup-remove : (m : Map K V) (a : K) → lookup (remove m a) a ≡ none
  lookup-remove [] a = refl
  lookup-remove ((b, v) ∷ m) a = elim (Bool-cases (k.same a b)) [
    | inl e ↦ rw e (lookup-remove m a)
    | inr e ↦ rw (e, e) (lookup-remove m a)
  ]

  pub lookup-remove_other : (m : Map K V) (a b : K) → a ≢ b → lookup (remove m a) b ≡ lookup m b
  lookup-remove_other [] a b ne = refl
  lookup-remove_other ((c, v) ∷ m) a b ne = elim (Bool-cases (k.same a c)) [
    | inl e ↦
        let other : k.same b c ≡ false = same_ne b c λ q. ne ((k.same_iff a c).0 e ∙ sym q) in
        rw (e, other) (lookup-remove_other m a b ne)
    | inr e ↦ rw (e, lookup-remove_other m a b ne) refl
  ]

  pub lookup-insert : (m : Map K V) (a : K) (v : V) → lookup (insert m a v) a ≡ some v
  lookup-insert m a v = rw (same_refl a) refl

  pub lookup-insert_other :
      (m : Map K V) (a b : K) (v : V) → a ≢ b → lookup (insert m a v) b ≡ lookup m b
  lookup-insert_other m a b v ne = rw (same_ne b a λ e. ne (sym e)) (lookup-remove_other m a b ne)
