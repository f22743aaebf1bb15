-- ===== src/Queue/Retrain/Counted.antt =====
-- How often a value is listed before and after values are taken out.
use erina.Base.{
  ℕ, suc, ◌-◌, ◌≤◌, ◌≡◌, refl, ap, sym, ◌∙◌, arith, if◌then◌else◌, true, false, List, [], ◌∷◌,
  Option, none, some, Key, Bool-cases, inl, inr, subst,
}
use erina.Queue.Search.{holds}
use erina.Queue.Removal.{mem, without}
use erina.Queue.Retrain.{struck, strike}

module _ {V : Type 0} ⦃k : Key V⦄ where
  -- How often a value is in a list.
  abbrev pub times : V → List (Option V) → ℕ
  times v [] = 0
  times v (w ∷ xs) = let rest = times v xs in if holds v w then suc rest else rest

  holds_iff : (v : V) (w : Option V) → holds v w ≡ true → w ≡ some v
  holds_iff v none h = ground arith
  holds_iff v (some w) h = ap some (sym ((k.same_iff v w).0 h))

  pub self : (v : V) → k.same v v ≡ true
  self v = (k.same_iff v v).1 refl

  pub times_absent : (v : V) (xs : List (Option V)) → mem v xs ≡ false → times v xs ≡ 0
  times_absent v [] out = refl
  times_absent v (w ∷ xs) out =
      let here : holds v w ≡ false = ground arith in
      let later : mem v xs ≡ false = ground arith in rw here (times_absent v xs later)

  pub times_present : (v : V) (xs : List (Option V)) → mem v xs ≡ true → 1 ≤ times v xs
  times_present v [] h = ground arith
  times_present v (w ∷ xs) h = elim (Bool-cases (holds v w)) [
    | inl e ↦ rw e (omega arith)
    | inr e ↦ rw e (times_present v xs (ground arith))
  ]

  times-without_self : (v : V) (xs : List (Option V)) → times v (without v xs) ≡ times v xs - 1
  times-without_self v [] = refl
  times-without_self v (w ∷ xs) = elim (Bool-cases (holds v w)) [
    | inl e ↦ rw e (omega arith)
    | inr e ↦ rw (e, e) (times-without_self v xs)
  ]

  -- One value is not the other.
  differs : (v a : V) (w : Option V) → k.same v a ≡ false → holds a w ≡ true → holds v w ≡ false
  differs v a w ne h = ap (holds v) (holds_iff a w h) ∙ ne

  times-without_other :
      (v a : V) (xs : List (Option V)) → k.same v a ≡ false → times v (without a xs) ≡ times v xs
  times-without_other v a [] ne = refl
  times-without_other v a (w ∷ xs) ne = elim (Bool-cases (holds a w)) [
    | inl e ↦ rw (e, differs v a w ne e) refl
    | inr e ↦ rw e (ap (λ n. if holds v w then suc n else n) (times-without_other v a xs ne))
  ]

  times-without :
      (v a : V) (xs : List (Option V))
      → times v (without a xs) ≡ (if k.same v a then times v xs - 1 else times v xs)
  times-without v a xs = elim (Bool-cases (k.same v a)) [
    | inl e ↦ rw e (
        subst (λ b. times v (without b xs) ≡ times v xs - 1) ((k.same_iff v a).0 e)
          (times-without_self v xs))
    | inr e ↦ rw e (times-without_other v a xs e)
  ]

  abbrev pub without_all : List (Option V) → List (Option V) → List (Option V)
  without_all [] xs = xs
  without_all (none ∷ keys) xs = without_all keys xs
  without_all (some a ∷ keys) xs = without_all keys (without a xs)

  pub times-without_all :
      (v : V) (keys xs : List (Option V))
      → times v (without_all keys xs) ≡ times v xs - times v keys
  times-without_all v [] xs = omega arith
  times-without_all v (none ∷ keys) xs = times-without_all v keys xs
  times-without_all v (some a ∷ keys) xs =
      ground (arith, times-without_all v keys (without a xs), times-without v a xs)

  times-struck :
      (v : V) (w : Option V) (keys : List (Option V))
      → times v (struck w keys) ≡ (if holds v w then 0 else times v keys)
  unfolding struck
  times-struck v w [] = ground arith
  times-struck v none (none ∷ keys) = times-struck v none keys
  times-struck v none (some b ∷ keys) =
      ap (λ n. if k.same v b then suc n else n) (times-struck v none keys)
  times-struck v (some a) (u ∷ keys) = elim (Bool-cases (holds a u)) [
    | inl e ↦ elim (Bool-cases (k.same v a)) [
      | inl s ↦ rw (e, s) (times-struck v (some a) keys ∙ rw s refl)
      | inr s ↦ rw (e, s) (times-struck v (some a) keys ∙ rw (s, differs v a u s e) refl)
    ]
    | inr e ↦ elim (Bool-cases (k.same v a)) [
      | inl s ↦
          let apart : holds v u ≡ false =
            subst (λ b. holds b u ≡ false) (sym ((k.same_iff v a).0 s)) e in
          rw (e, s, apart) (times-struck v (some a) keys ∙ rw s refl)
      | inr s ↦
          rw (e, s)
            (ap (λ n. if holds v u then suc n else n) (times-struck v (some a) keys ∙ rw s refl))
    ]
  ]

  pub times-strike :
      (v : V) (staff keys : List (Option V))
      → times v (strike staff keys) ≡ (if mem v staff then 0 else times v keys)
  unfolding strike
  times-strike v [] keys = refl
  times-strike v (w ∷ staff) keys = elim (Bool-cases (holds v w)) [
    | inl e ↦ times-strike v staff (struck w keys) ∙ rw (times-struck v w keys, e) (ground arith)
    | inr e ↦ times-strike v staff (struck w keys) ∙ rw (times-struck v w keys, e) refl
  ]
