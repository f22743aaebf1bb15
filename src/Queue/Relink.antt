-- ===== src/Queue/Relink.antt =====
-- Writes to the links at the ends of a row of nodes.
use erina.Base.{
  inr, ==_iff, ap, inl, Bool-cases, ℕ, ◌≤◌, ◌==◌, ◌≡◌, refl, ◌∙◌, arith, true, false, ◌||◌, Option,
  some, [], ◌∷◌, ◌++◌, ==_refl,
}
use erina.Queue.Types.{Node, Store, update}
use erina.Queue.Cells.{Cells, has, first, last, node_at, Linked, Below, Separate, Linked-update}

pub ==_comm : (a b : ℕ) → (a == b) ≡ (b == a)
==_comm a b = ground arith

module _ {V : Type 0} where
  pub has-Below : (brk : ℕ) (xs : Cells V) → Below brk xs → has brk xs ≡ false
  has-Below brk [] b = refl
  has-Below brk ((p, v) ∷ xs) (here, b) = ground (arith, has-Below brk xs b)

  pub Below-mono : (n m : ℕ) (xs : Cells V) → n ≤ m → Below n xs → Below m xs
  Below-mono n m [] h b = _
  Below-mono n m ((p, v) ∷ xs) h (here, b) = (omega arith, Below-mono n m xs h b)

  -- The last of the nodes from `p` on.
  abbrev pub end_of : ℕ → Cells V → ℕ
  end_of p [] = p
  end_of p ((q, _) ∷ xs) = end_of q xs

  pub last-end_of : (p : ℕ) (xs : Cells V) → last (some p) xs ≡ some (end_of p xs)
  last-end_of p [] = refl
  last-end_of p ((q, v) ∷ xs) = last-end_of q xs

  pub has-end_of : (p : ℕ) (v : Option V) (xs : Cells V) → has (end_of p xs) ((p, v) ∷ xs) ≡ true
  has-end_of p v [] = ground (arith, ==_refl p)
  has-end_of p v ((q, w) ∷ xs) = ground (arith, has-end_of q w xs)

  pub apart : (a b : ℕ) (xs : Cells V) → has a xs ≡ false → has b xs ≡ true → (a == b) ≡ false
  apart a b [] n y = ground arith
  apart a b ((p, v) ∷ xs) n y = ground (arith, apart a b xs)

  -- The last node gets another successor.
  pub relink_last :
      (cell : Store V) (prev old new : Option ℕ) (p : ℕ) (v : Option V) (xs : Cells V)
      → Linked cell prev ((p, v) ∷ xs) old
      → Separate ((p, v) ∷ xs)
      → (node : Node V) × (cell (end_of p xs) ≡ some node)
        × Linked (update cell (end_of p xs) (record node { next = new })) prev ((p, v) ∷ xs) new
  relink_last cell prev old new p v [] (here, l) s =
      (node_at prev old v, here, (rw (==_refl p) refl, _))
  relink_last cell prev old new p v ((q, w) ∷ xs) (here, l) (out, s) =
      let (node, at_end, linked) = relink_last cell (some p) old new q w xs l s in
      let other : (end_of q xs == p) ≡ false =
        ==_comm (end_of q xs) p ∙ apart p (end_of q xs) ((q, w) ∷ xs) out (has-end_of q w xs) in
      (node, at_end, (rw other here, linked))

  -- The first node gets another predecessor.
  pub relink_first :
      (cell : Store V) (prev new next : Option ℕ) (p : ℕ) (v : Option V) (xs : Cells V)
      → Linked cell prev ((p, v) ∷ xs) next
      → Separate ((p, v) ∷ xs)
      → Linked (update cell p (node_at new (first xs next) v)) new ((p, v) ∷ xs) next
  relink_first cell prev new next p v xs (here, l) (out, s) =
      (rw (==_refl p) refl, Linked-update cell (some p) next xs p _ out l)

  pub has-append : (a : ℕ) (xs ys : Cells V) → has a (xs ++ ys) ≡ (has a xs || has a ys)
  has-append a [] ys = refl
  has-append a ((p, v) ∷ xs) ys = ground (arith, has-append a xs ys)

  pub Below-append : (n : ℕ) (xs ys : Cells V) → Below n xs → Below n ys → Below n (xs ++ ys)
  Below-append n [] ys b c = c
  Below-append n ((p, v) ∷ xs) ys (here, b) c = (here, Below-append n xs ys b c)

  pub Below-split : (n : ℕ) (xs ys : Cells V) → Below n (xs ++ ys) → Below n xs × Below n ys
  Below-split n [] ys b = (_, b)
  Below-split n ((p, v) ∷ xs) ys (here, b) =
      let (front, back) = Below-split n xs ys b in ((here, front), back)

  -- No node of the one row stands in the other.
  abbrev pub Disjoint : Cells V → Cells V → Type 0
  Disjoint [] ys = Unit
  Disjoint ((p, _) ∷ xs) ys = (has p ys ≡ false) × Disjoint xs ys

  pub Separate-split :
      (xs ys : Cells V) → Separate (xs ++ ys) → Separate xs × Separate ys × Disjoint xs ys
  Separate-split [] ys s = (_, s, _)
  Separate-split ((p, v) ∷ xs) ys (out, s) =
      let (front, back, dis) = Separate-split xs ys s in
      ((ground (arith, has-append p xs ys), front), back, (ground (arith, has-append p xs ys), dis))

  pub Separate-join :
      (xs ys : Cells V) → Separate xs → Separate ys → Disjoint xs ys → Separate (xs ++ ys)
  Separate-join [] ys s t d = t
  Separate-join ((p, v) ∷ xs) ys (out, s) t (o, d) =
      (ground (arith, has-append p xs ys), Separate-join xs ys s t d)

  pub Disjoint-out : (xs ys : Cells V) (a : ℕ) → Disjoint xs ys → has a ys ≡ true → has a xs ≡ false
  Disjoint-out [] ys a d h = refl
  Disjoint-out ((p, v) ∷ xs) ys a (o, d) h =
      ground (arith, Disjoint-out xs ys a d h, apart p a ys o h)

  pub Disjoint-in : (xs ys : Cells V) (a : ℕ) → Disjoint xs ys → has a xs ≡ true → has a ys ≡ false
  Disjoint-in [] ys a d h = absurd (ground arith)
  Disjoint-in ((p, v) ∷ xs) ys a (o, d) h = elim (Bool-cases (a == p)) [
    | inl e ↦ ap (λ (t : ℕ). has t ys) ((==_iff a p).0 e) ∙ o
    | inr e ↦ Disjoint-in xs ys a d (ground arith)
  ]
