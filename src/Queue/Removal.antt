-- ===== src/Queue/Removal.antt =====
-- `Remove` and `Contains` on the values that a queue holds.
use erina.Queue.Cells.{first-append, Cells, first, last, node_at, Linked}
use erina.Base.{
  append-nil, ℕ, zero, suc, ◌<◌, ◌≤◌, ◌≡◌, refl, ap, sym, ◌∙◌, subst, arith, if◌then◌else◌, Bool,
  true, false, ◌||◌, Option, none, some, List, [], ◌∷◌, ◌++◌, length, ◌⊎◌, inl, inr, Key,
  Bool-cases, length-append,
}
use erina.Queue.Types.{Node, Store, Queue}
use erina.Queue.Ends.{unlink, unlink_from}
use erina.Queue.Search.{found, absent, walk, holds, remove, remove_at, contains, answer}
use erina.Queue.Relink.{end_of, last-end_of}
use erina.Queue.Laws.{Represents}
use erina.Queue.Unlinking.{cut, unlink_first-Represents, unlink_last-Represents}
use erina.Queue.Between.{unlink_between-Represents}

abbrev pub values : {V : Type 0} → Cells V → List (Option V)
values [] = []
values ((_, v) ∷ xs) = v ∷ values xs

pub values-append : {V : Type 0} (xs ys : Cells V) → values (xs ++ ys) ≡ values xs ++ values ys
values-append [] ys = refl
values-append ((p, v) ∷ xs) ys = ap (λ l. v ∷ l) (values-append xs ys)

module _ {V : Type 0} ⦃k : Key V⦄ where
  -- Whether the value is listed, and the list without its first entry of the value.
  abbrev pub mem : V → List (Option V) → Bool
  mem v [] = false
  mem v (w ∷ xs) = holds v w || mem v xs

  abbrev pub without : V → List (Option V) → List (Option V)
  without v [] = []
  without v (w ∷ xs) = let rest = without v xs in if holds v w then xs else w ∷ rest

  -- Where the first entry of the value stands.
  record Split (v : V) (xs : Cells V) : Type 0 where
    front : Cells V
    at : ℕ
    item : Option V
    back : Cells V
    whole : xs ≡ front ++ ((at, item) ∷ back)
    earlier : mem v (values front) ≡ false
    here : holds v item ≡ true

  split : (v : V) (xs : Cells V) → (mem v (values xs) ≡ false) ⊎ Split v xs
  split v [] = inl refl
  split v ((p, w) ∷ xs) = elim (Bool-cases (holds v w)) [
    | inl e ↦
        inr (record {
          front = [];
          at = p;
          item = w;
          back = xs;
          whole = refl;
          earlier = refl;
          here = e;
        })
    | inr e ↦ elim (split v xs) [
      | inl out ↦ inl (rw (e, out) refl)
      | inr s ↦ inr (record {
        front = (p, w) ∷ s.front;
        at = s.at;
        item = s.item;
        back = s.back;
        whole = ap (λ l. (p, w) ∷ l) s.whole;
        earlier = rw (e, s.earlier) refl;
        here = s.here;
      })
    ]
  ]

  walk-absent :
      (fuel : ℕ) (cell : Store V) (v : V) (prev : Option ℕ) (xs : Cells V)
      → Linked cell prev xs none
      → length xs ≤ fuel
      → mem v (values xs) ≡ false
      → walk fuel cell v (first xs none) ≡ absent
  unfolding walk
  walk-absent fuel cell v prev [] l h out = refl
  walk-absent zero cell v prev ((p, w) ∷ xs) l h out = absurd (omega arith)
  walk-absent (suc fuel) cell v prev ((p, w) ∷ xs) (here, l) h out =
      let not_here : holds v w ≡ false = ground arith in
      let later : mem v (values xs) ≡ false = ground arith in
      rw (here, not_here) (walk-absent fuel cell v (some p) xs l (omega arith) later)

  walk-found :
      (fuel : ℕ) (cell : Store V) (v : V) (prev next : Option ℕ) (xs : Cells V) (p : ℕ)
      (node : Node V)
      → Linked cell prev xs (some p)
      → length xs < fuel
      → mem v (values xs) ≡ false
      → cell p ≡ some node
      → holds v node.value ≡ true
      → walk fuel cell v (first xs (some p)) ≡ found p
  unfolding walk
  walk-found zero cell v prev next xs p node l h out at hit = absurd (omega arith)
  walk-found (suc fuel) cell v prev next [] p node l h out at hit = rw (at, hit) refl
  walk-found (suc fuel) cell v prev next ((s, w) ∷ xs) p node (here, l) h out at hit =
      let not_here : holds v w ≡ false = ground arith in
      let later : mem v (values xs) ≡ false = ground arith in
      rw (here, not_here)
        (walk-found fuel cell v (some s) next xs p node l (omega arith) later at hit)

  -- What is left when the node at `p` is unlinked.
  unlink-Represents :
      (q : Queue V) (p : ℕ) (w : Option V) (xs ys : Cells V)
      → Represents q (xs ++ ((p, w) ∷ ys))
      → (q' : Queue V) × (zs : Cells V) × (unlink q p ≡ some q')
        × Represents q' zs
        × (values zs ≡ values (xs ++ ys))
  unfolding unlink unlink_from
  unlink-Represents q p w [] ys r =
      let (q', gone, r', _, _) = unlink_first-Represents q p w ys r in
      (q', ys, rw r.linked.0 (rw gone refl), r', refl)
  unlink-Represents q p w ((s, u) ∷ xs) [] r =
      let (q', gone, r') = unlink_last-Represents q p s w u xs r in
      let c = cut q ((s, u) ∷ xs) [] p w r in
      let at : q.cell p ≡ some (node_at (some (end_of s xs)) none w) =
        c.at ∙ ap (λ o. some (node_at o none w)) (last-end_of s xs) in
      (q', (s, u) ∷ xs, rw at (rw gone refl), r', ap values (sym (append-nil ((s, u) ∷ xs))))
  unlink-Represents q p w ((s, u) ∷ xs) ((t, x) ∷ ys) r =
      let (q', gone, r') = unlink_between-Represents q p s t w u x xs ys r in
      let c = cut q ((s, u) ∷ xs) ((t, x) ∷ ys) p w r in
      let at : q.cell p ≡ some (node_at (some (end_of s xs)) (some t) w) =
        c.at ∙ ap (λ o. some (node_at o (some t) w)) (last-end_of s xs) in
      (q', ((s, u) ∷ xs) ++ ((t, x) ∷ ys), rw at gone, r', refl)

  mem-found :
      (v : V) (w : Option V) (xs ys : List (Option V))
      → holds v w ≡ true
      → mem v (xs ++ (w ∷ ys)) ≡ true
  mem-found v w [] ys h = rw h refl
  mem-found v w (x ∷ xs) ys h = ground (arith, mem-found v w xs ys h)

  without-found :
      (v : V) (w : Option V) (xs ys : List (Option V))
      → mem v xs ≡ false
      → holds v w ≡ true
      → without v (xs ++ (w ∷ ys)) ≡ xs ++ ys
  without-found v w [] ys out h = rw h refl
  without-found v w (x ∷ xs) ys out h =
      let not_here : holds v x ≡ false = ground arith in
      let later : mem v xs ≡ false = ground arith in
      rw not_here (ap (λ l. x ∷ l) (without-found v w xs ys later h))

  without-absent : (v : V) (xs : List (Option V)) → mem v xs ≡ false → without v xs ≡ xs
  without-absent v [] out = refl
  without-absent v (x ∷ xs) out =
      let not_here : holds v x ≡ false = ground arith in
      let later : mem v xs ≡ false = ground arith in
      rw not_here (ap (λ l. x ∷ l) (without-absent v xs later))

  removed :
      (q : Queue V) (v : V) (xs ys : Cells V) (p : ℕ) (w : Option V)
      → Represents q (xs ++ ((p, w) ∷ ys))
      → mem v (values xs) ≡ false
      → holds v w ≡ true
      → walk q.brk q.cell v q.head ≡ found p
  removed q v xs ys p w r out hit =
      let c = cut q xs ys p w r in
      ap (walk q.brk q.cell v) (r.head_is ∙ first-append xs ((p, w) ∷ ys) none)
      ∙ walk-found q.brk q.cell v none none xs p (node_at (last none xs) (first ys none) w) c.front
          (omega (arith, r.fits, length-append xs ((p, w) ∷ ys))) out c.at hit

  -- `Remove` reports whether the value was listed, and its first entry is gone.
  pub remove-Represents :
      (q : Queue V) (v : V) (xs : Cells V)
      → Represents q xs
      → (q' : Queue V) × (ys : Cells V) × (remove q (some v) ≡ some (q', mem v (values xs)))
        × Represents q' ys
        × (values ys ≡ without v (values xs))
  unfolding remove remove_at
  remove-Represents q v xs r = elim (split v xs) [
    | inl out ↦ (
      q,
      xs,
      ap (remove_at q) (
            ap (walk q.brk q.cell v) r.head_is
            ∙ walk-absent q.brk q.cell v none xs r.linked r.fits out)
          ∙ (λ i. some (q, sym out i)),
      r,
      sym (without-absent v (values xs) out),
    )
    | inr s ↦
        let r' : Represents q (s.front ++ ((s.at, s.item) ∷ s.back)) =
          subst (Represents q) s.whole r in
        let (q', ys, gone, r'', left) = unlink-Represents q s.at s.item s.front s.back r' in
        let shape : values xs ≡ values s.front ++ (s.item ∷ values s.back) =
          ap values s.whole ∙ values-append s.front ((s.at, s.item) ∷ s.back) in
        (
          q',
          ys,
          ap (remove_at q) (removed q v s.front s.back s.at s.item r' s.earlier s.here)
              ∙ rw gone (λ i. some (
                q',
                sym (ap (mem v) shape ∙ mem-found v s.item (values s.front) (values s.back) s.here)
                    i,
              )),
          r'',
          left
              ∙ values-append s.front s.back
              ∙ sym (
                  ap (without v) shape
                  ∙ without-found v s.item (values s.front) (values s.back) s.earlier s.here),
        )
  ]

  pub contains-Represents :
      (q : Queue V) (v : V) (xs : Cells V)
      → Represents q xs
      → contains q (some v) ≡ some (mem v (values xs))
  unfolding contains answer
  contains-Represents q v xs r = elim (split v xs) [
    | inl out ↦
        ap answer (
          ap (walk q.brk q.cell v) r.head_is
          ∙ walk-absent q.brk q.cell v none xs r.linked r.fits out)
        ∙ ap some (sym out)
    | inr s ↦
        let r' : Represents q (s.front ++ ((s.at, s.item) ∷ s.back)) =
          subst (Represents q) s.whole r in
        let shape : values xs ≡ values s.front ++ (s.item ∷ values s.back) =
          ap values s.whole ∙ values-append s.front ((s.at, s.item) ∷ s.back) in
        ap answer (removed q v s.front s.back s.at s.item r' s.earlier s.here)
        ∙ ap some
            (sym (ap (mem v) shape ∙ mem-found v s.item (values s.front) (values s.back) s.here))
  ]
