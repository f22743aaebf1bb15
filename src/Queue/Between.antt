-- ===== src/Queue/Between.antt =====
-- The unlinking of a node with a neighbour on each side.
use erina.Base.{
  subst, ℕ, ◌+◌, ◌-◌, ◌%◌, ◌^◌, ◌==◌, ◌≡◌, refl, ap, sym, ◌∙◌, false, Option, none, some, ◌∷◌, ◌++◌,
  ==_refl,
}
use erina.Queue.Relink.{
  Disjoint-in, end_of, last-end_of, relink_last, relink_first, Below-append, Separate-join,
  Disjoint-out, apart, has-end_of, ==_comm,
}
use erina.Queue.Unlinking.{head_apart, Cut, cut, less-Represents}
use erina.Queue.Types.{Node, Store, Queue, update}
use erina.Queue.Ends.{unlink_between}
use erina.Queue.Cells.{
  Cells, has, first, last, node_at, Linked, Linked-update, Linked-join, last-append,
}
use erina.Queue.Laws.{Represents}

module _ {V : Type 0} (q : Queue V) (p s t : ℕ) (v w u : Option V) (xs ys : Cells V)
    (r : Represents q (((s, w) ∷ xs) ++ ((p, v) ∷ ((t, u) ∷ ys)))) where
  abbrev c : Cut q ((s, w) ∷ xs) ((t, u) ∷ ys) p v
  c = cut q ((s, w) ∷ xs) ((t, u) ∷ ys) p v r

  abbrev e : ℕ
  e = end_of s xs

  e_out : has e ((t, u) ∷ ys) ≡ false
  e_out = Disjoint-in ((s, w) ∷ xs) ((t, u) ∷ ys) e c.apart_both (has-end_of s w xs)

  t_out : has t ((s, w) ∷ xs) ≡ false
  t_out = Disjoint-out ((s, w) ∷ xs) ((t, u) ∷ ys) t c.apart_both (rw (==_refl t) refl)

  relinked :
      (node : Node V) × (q.cell e ≡ some node)
      × Linked (update q.cell e (record node { next = some t })) none ((s, w) ∷ xs) (some t)
  relinked = relink_last q.cell none (some p) (some t) s w xs c.front c.front_separate

  abbrev cell1 : Store V
  cell1 = update q.cell e (record relinked.0 { next = some t })

  back1 : Linked cell1 (some p) ((t, u) ∷ ys) none
  back1 = Linked-update q.cell (some p) none ((t, u) ∷ ys) e _ e_out c.back

  abbrev cell2 : Store V
  cell2 = update cell1 t (node_at (some e) (first ys none) u)

  at2 : cell2 p ≡ some (node_at (some e) (some t) v)
  at2 =
      let not_t : (t == p) ≡ false = head_apart t p u ys c.not_back in
      let not_e : (e == p) ≡ false =
        ==_comm e p ∙ apart p e ((s, w) ∷ xs) c.not_front (has-end_of s w xs) in
      rw (not_t, not_e) (c.at ∙ ap (λ o. some (node_at o (some t) v)) (last-end_of s xs))

  abbrev cell3 : Store V
  cell3 = update cell2 p (node_at (some e) (some t) none)

  front3 : Linked cell3 none ((s, w) ∷ xs) (some t)
  front3 =
      Linked-update cell2 none (some t) ((s, w) ∷ xs) p _ c.not_front
        (Linked-update cell1 none (some t) ((s, w) ∷ xs) t _ t_out relinked.2)

  back3 : Linked cell3 (some e) ((t, u) ∷ ys) none
  back3 =
      Linked-update cell2 (some e) none ((t, u) ∷ ys) p _ c.not_back
        (relink_first cell1 (some p) (some e) none t u ys back1 c.back_separate)

  tail_same : q.tail ≡ last none (((s, w) ∷ xs) ++ ((t, u) ∷ ys))
  tail_same =
      r.tail_is
      ∙ last-append none ((s, w) ∷ xs) ((p, v) ∷ ((t, u) ∷ ys))
      ∙ sym (last-append none ((s, w) ∷ xs) ((t, u) ∷ ys))

  pub unlink_between-Represents :
      (q' : Queue V) × (unlink_between q p e t ≡ some q')
      × Represents q' (((s, w) ∷ xs) ++ ((t, u) ∷ ys))
  unfolding unlink_between
  unlink_between-Represents = (
    _,
    rw (relinked.1) (rw (back1.0) (rw at2 refl)) ∙ (λ i. some (record q {
      cell = cell3;
      head = r.head_is i;
      tail = tail_same i;
      count = (q.count + (2 ^ 64 - 1)) % 2 ^ 64;
    })),
    less-Represents q (((s, w) ∷ xs) ++ ((p, v) ∷ ((t, u) ∷ ys))) (((s, w) ∷ xs) ++ ((t, u) ∷ ys))
        cell3 r c.longer
        (Linked-join cell3 none none ((s, w) ∷ xs) ((t, u) ∷ ys) front3
          (subst (λ o. Linked cell3 o ((t, u) ∷ ys) none) (sym (last-end_of s xs)) back3))
        (Separate-join ((s, w) ∷ xs) ((t, u) ∷ ys) c.front_separate c.back_separate c.apart_both)
        (Below-append q.brk ((s, w) ∷ xs) ((t, u) ∷ ys) c.front_below c.back_below),
  )
