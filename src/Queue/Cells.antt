-- ===== src/Queue/Cells.antt =====
-- The nodes that a queue stands for, in order: what the pointers between them are.
use erina.Base.{
  ℕ, ◌<◌, ◌==◌, ◌≡◌, refl, ap, sym, ◌∙◌, arith, Bool, false, ◌||◌, Option, some, List, [], ◌∷◌,
  ◌++◌,
}
use erina.Queue.Types.{Node, Store, update}

abbrev pub Cells : Type 0 → Type 0
Cells V = List (ℕ × Option V)

module _ {V : Type 0} where
  abbrev pub has : ℕ → Cells V → Bool
  has a [] = false
  has a ((p, _) ∷ xs) = (a == p) || has a xs

  abbrev pub first : Cells V → Option ℕ → Option ℕ
  first [] next = next
  first ((p, _) ∷ xs) next = some p

  abbrev pub last : Option ℕ → Cells V → Option ℕ
  last prev [] = prev
  last prev ((p, _) ∷ xs) = last (some p) xs

  abbrev pub node_at : Option ℕ → Option ℕ → Option V → Node V
  node_at prev next v = record { prev = prev; next = next; value = v }

  -- From `prev` on, the links lead through the nodes `xs` to `next`, and back.
  abbrev pub Linked : Store V → Option ℕ → Cells V → Option ℕ → Type 0
  Linked cell prev [] next = Unit
  Linked cell prev ((p, v) ∷ xs) next =
      (cell p ≡ some (node_at prev (first xs next) v)) × Linked cell (some p) xs next

  abbrev pub Below : ℕ → Cells V → Type 0
  Below brk [] = Unit
  Below brk ((p, _) ∷ xs) = (p < brk) × Below brk xs

  abbrev pub Separate : Cells V → Type 0
  Separate [] = Unit
  Separate ((p, _) ∷ xs) = (has p xs ≡ false) × Separate xs

  pub first-append : (xs ys : Cells V) (n : Option ℕ) → first (xs ++ ys) n ≡ first xs (first ys n)
  first-append [] ys n = refl
  first-append (x ∷ xs) ys n = refl

  pub last-append : (o : Option ℕ) (xs ys : Cells V) → last o (xs ++ ys) ≡ last (last o xs) ys
  last-append o [] ys = refl
  last-append o ((p, v) ∷ xs) ys = last-append (some p) xs ys

  pub Linked-split :
      (cell : Store V) (prev next : Option ℕ) (xs ys : Cells V)
      → Linked cell prev (xs ++ ys) next
      → Linked cell prev xs (first ys next) × Linked cell (last prev xs) ys next
  Linked-split cell prev next [] ys l = (_, l)
  Linked-split cell prev next ((p, v) ∷ xs) ys (here, l) =
      let (front, back) = Linked-split cell (some p) next xs ys l in
      ((here ∙ ap (λ o. some (node_at prev o v)) (first-append xs ys next), front), back)

  pub Linked-join :
      (cell : Store V) (prev next : Option ℕ) (xs ys : Cells V)
      → Linked cell prev xs (first ys next)
      → Linked cell (last prev xs) ys next
      → Linked cell prev (xs ++ ys) next
  Linked-join cell prev next [] ys l r = r
  Linked-join cell prev next ((p, v) ∷ xs) ys (here, l) r = (
    here ∙ ap (λ o. some (node_at prev o v)) (sym (first-append xs ys next)),
    Linked-join cell (some p) next xs ys l r,
  )

  -- A write elsewhere keeps the links.
  pub Linked-update :
      (cell : Store V) (prev next : Option ℕ) (xs : Cells V) (a : ℕ) (n : Node V)
      → has a xs ≡ false
      → Linked cell prev xs next
      → Linked (update cell a n) prev xs next
  Linked-update cell prev next [] a n out l = _
  Linked-update cell prev next ((p, v) ∷ xs) a n out (here, l) =
      (ground arith, Linked-update cell (some p) next xs a n (ground arith) l)
