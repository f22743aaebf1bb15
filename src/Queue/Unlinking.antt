-- ===== src/Queue/Unlinking.antt =====
-- The unlinking operations on the row of nodes that a queue stands for.
use erina.Base.{
  ℕ, ◌+◌, ◌-◌, ◌%◌, ◌^◌, ◌≤◌, ◌==◌, ◌≡◌, refl, ap, sym, ◌∙◌, arith, false, Option, none, some, [],
  ◌∷◌, ◌++◌, length, ==_refl, length-append,
}
use erina.Queue.Types.{Store, Queue, update, capacity}
use erina.Queue.Ends.{
  unlink_first, unlink_first_at, unlink_before, unlink_last, unlink_last_at, unlink_behind,
}
use erina.Queue.Cells.{
  Cells, has, first, last, node_at, Linked, Below, Separate, Linked-update, Linked-split,
  last-append,
}
use erina.Queue.Relink.{
  end_of, last-end_of, relink_last, relink_first, Below-split, Separate-split, Disjoint,
  Disjoint-out, ==_comm,
}
use erina.Queue.Laws.{Represents}

pub dec_lem : (n m : ℕ) → n ≡ m + 1 → n ≤ capacity → (n + (2 ^ 64 - 1)) % 2 ^ 64 ≡ m
dec_lem n m e h = omega arith

module _ {V : Type 0} where
  -- The queue that stands for one node less, given its links.
  pub less-Represents :
      (q : Queue V) (xs ys : Cells V) (cell : Store V)
      → Represents q xs
      → length xs ≡ length ys + 1
      → Linked cell none ys none
      → Separate ys
      → Below q.brk ys
      → Represents
          (record q {
            cell = cell;
            head = first ys none;
            tail = last none ys;
            count = (q.count + (2 ^ 64 - 1)) % 2 ^ 64;
          })
          ys
  less-Represents q xs ys cell r one linked separate below = record {
    head_is = refl;
    tail_is = refl;
    linked = linked;
    separate = separate;
    below = below;
    counted = dec_lem q.count (length ys) (r.counted ∙ one) (omega (arith, r.counted, r.few));
    few = omega (arith, r.few);
    fits = omega (arith, r.fits);
  }

  pub unlink_first-empty : (q : Queue V) → Represents q [] → unlink_first q ≡ some (q, none)
  unfolding unlink_first_at
  unlink_first-empty q r = rw r.head_is refl

  pub head_apart :
      (s p : ℕ) (w : Option V) (xs : Cells V) → has p ((s, w) ∷ xs) ≡ false → (s == p) ≡ false
  head_apart s p w xs h = ground (arith, ==_comm s p)

  -- The removed node keeps its place in the store, and leads to itself.
  pub unlink_first-Represents :
      (q : Queue V) (p : ℕ) (v : Option V) (xs : Cells V)
      → Represents q ((p, v) ∷ xs)
      → (q' : Queue V) × (unlink_first q ≡ some (q', v))
        × Represents q' xs
        × (q'.cell p ≡ some (node_at none (some p) none))
        × (q'.cursor ≡ q.cursor)
  unfolding unlink_first_at unlink_before
  unlink_first-Represents q p v [] r = (
    _,
    rw (r.head_is, r.linked.0) refl,
    less-Represents q ((p, v) ∷ []) [] (update q.cell p (node_at none (some p) none)) r refl _ _ _,
    rw (==_refl p) refl,
    refl,
  )
  unlink_first-Represents q p v ((s, w) ∷ xs) r =
      let before : (s == p) ≡ false = head_apart s p w xs r.separate.0 in
      let other : (p == s) ≡ false = ==_comm p s ∙ before in
      let cell : Store V = update q.cell p (node_at none (some p) none) in
      (
        _,
        rw (r.head_is, r.linked.0)
            (rw (other, r.linked.1.0)
              (ap
                (λ t. some (
                  record q {
                    cell = update cell s (node_at none (first xs none) w);
                    head = some s;
                    tail = t;
                    count = (q.count + (2 ^ 64 - 1)) % 2 ^ 64;
                  },
                  v,
                ))
                r.tail_is)),
        less-Represents q ((p, v) ∷ ((s, w) ∷ xs)) ((s, w) ∷ xs)
            (update cell s (node_at none (first xs none) w)) r (omega arith)
            (relink_first cell (some p) none none s w xs
              (Linked-update q.cell (some p) none ((s, w) ∷ xs) p (node_at none (some p) none)
                r.separate.0 r.linked.1)
              r.separate.1)
            r.separate.1 r.below.1,
        rw (before, ==_refl p) refl,
        refl,
      )

  -- What stands behind a row that is cut in two is cut off it.
  pub record Cut (q : Queue V) (xs ys : Cells V) (p : ℕ) (v : Option V) : Type 0 where
    pub at : q.cell p ≡ some (node_at (last none xs) (first ys none) v)
    pub front : Linked q.cell none xs (some p)
    pub back : Linked q.cell (some p) ys none
    pub front_separate : Separate xs
    pub back_separate : Separate ys
    pub apart_both : Disjoint xs ys
    pub not_front : has p xs ≡ false
    pub not_back : has p ys ≡ false
    pub front_below : Below q.brk xs
    pub back_below : Below q.brk ys
    pub longer : length (xs ++ ((p, v) ∷ ys)) ≡ length (xs ++ ys) + 1

  Disjoint-tail : (xs ys : Cells V) (c : ℕ × Option V) → Disjoint xs (c ∷ ys) → Disjoint xs ys
  Disjoint-tail [] ys c d = _
  Disjoint-tail ((p, v) ∷ xs) ys c (o, d) = (ground arith, Disjoint-tail xs ys c d)

  length-cut :
      (xs ys : Cells V) (c : ℕ × Option V) → length (xs ++ (c ∷ ys)) ≡ length (xs ++ ys) + 1
  length-cut xs ys c = omega (arith, length-append xs (c ∷ ys), length-append xs ys)

  pub cut :
      (q : Queue V) (xs ys : Cells V) (p : ℕ) (v : Option V)
      → Represents q (xs ++ ((p, v) ∷ ys))
      → Cut q xs ys p v
  cut q xs ys p v r =
      let (front, (at, back)) = Linked-split q.cell none none xs ((p, v) ∷ ys) r.linked in
      let (front_sep, (out, back_sep), dis) = Separate-split xs ((p, v) ∷ ys) r.separate in
      let (front_below, (_, back_below)) = Below-split q.brk xs ((p, v) ∷ ys) r.below in
      record {
        at = at;
        front = front;
        back = back;
        front_separate = front_sep;
        back_separate = back_sep;
        apart_both = Disjoint-tail xs ys (p, v) dis;
        not_front = Disjoint-out xs ((p, v) ∷ ys) p dis (rw (==_refl p) refl);
        not_back = out;
        front_below = front_below;
        back_below = back_below;
        longer = length-cut xs ys (p, v);
      }

  -- The last of several.
  pub unlink_last-Represents :
      (q : Queue V) (p s : ℕ) (v w : Option V) (xs : Cells V)
      → Represents q (((s, w) ∷ xs) ++ ((p, v) ∷ []))
      → (q' : Queue V) × (unlink_last q ≡ some (q', v)) × Represents q' ((s, w) ∷ xs)
  unfolding unlink_last_at unlink_behind
  unlink_last-Represents q p s v w xs r =
      let c = cut q ((s, w) ∷ xs) [] p v r in
      let e : ℕ = end_of s xs in
      let at : q.cell p ≡ some (node_at (some e) none v) =
        c.at ∙ ap (λ o. some (node_at o none v)) (last-end_of s xs) in
      let cell : Store V = update q.cell p (node_at (some p) none none) in
      let kept =
        Linked-update q.cell none (some p) ((s, w) ∷ xs) p (node_at (some p) none none) c.not_front
          c.front in
      let (node, at_end, linked) =
        relink_last cell none (some p) none s w xs kept c.front_separate in
      let tail : q.tail ≡ some p = r.tail_is ∙ last-append none ((s, w) ∷ xs) ((p, v) ∷ []) in
      (
        _,
        rw (tail, at) (rw at_end refl) ∙ (λ i. some (
          record q {
            cell = update cell e (record node { next = none });
            head = r.head_is i;
            tail = sym (last-end_of s xs) i;
            count = (q.count + (2 ^ 64 - 1)) % 2 ^ 64;
          },
          v,
        )),
        less-Represents q (((s, w) ∷ xs) ++ ((p, v) ∷ [])) ((s, w) ∷ xs)
            (update cell e (record node { next = none })) r
            (length-append ((s, w) ∷ xs) ((p, v) ∷ [])) linked c.front_separate c.front_below,
      )
