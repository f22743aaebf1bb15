-- ===== src/Queue/Laws.antt =====
-- `Put` and the unlinking operations on the row of nodes that a queue stands for.
use erina.Queue.Types.{set_node, Node, Store, Queue, update, capacity, new_queue}
use erina.Base.{
  ℕ, ◌+◌, ◌%◌, ◌^◌, ◌<◌, ◌≤◌, ◌==◌, ◌≡◌, refl, ap, sym, ◌∙◌, arith, true, false, Option, none, some,
  [], ◌∷◌, ◌++◌, length, ==_refl, leb, length-append,
}
use erina.Queue.Ends.{put, link_last, link_behind}
use erina.Queue.Cells.{
  Cells, first, last, node_at, Linked, Below, Separate, Linked-update, Linked-join, last-append,
}
use erina.Queue.Relink.{
  has-Below, Below-mono, end_of, last-end_of, relink_last, Below-append, Separate-join, Disjoint,
  apart, has-end_of, ==_comm,
}

room_left : (n m : ℕ) → n ≡ m → m < capacity → leb capacity n ≡ false
room_left n m e h = ground arith

module _ {V : Type 0} where
  -- The queue stands for the row `xs` of nodes.
  pub record Represents (q : Queue V) (xs : Cells V) : Type 0 where
    pub head_is : q.head ≡ first xs none
    pub tail_is : q.tail ≡ last none xs
    pub linked : Linked q.cell none xs none
    pub separate : Separate xs
    pub below : Below q.brk xs
    pub counted : q.count ≡ length xs
    pub few : length xs ≤ capacity
    pub fits : length xs ≤ q.brk

  pub new_queue-Represents : Represents new_queue []
  new_queue-Represents = record {
    head_is = refl;
    tail_is = refl;
    linked = _;
    separate = _;
    below = _;
    counted = refl;
    few = omega arith;
    fits = omega arith;
  }

  Disjoint-Below : (n : ℕ) (v : Option V) (xs : Cells V) → Below n xs → Disjoint xs ((n, v) ∷ [])
  Disjoint-Below n v [] b = _
  Disjoint-Below n v ((p, w) ∷ xs) (here, b) = (ground arith, Disjoint-Below n v xs b)

  length-snoc : (xs : Cells V) (c : ℕ × Option V) → length (xs ++ (c ∷ [])) ≡ length xs + 1
  length-snoc xs c = length-append xs (c ∷ [])

  -- What `Put` leaves, given the store in which the new node is linked.
  put-end :
      (q : Queue V) (v : Option V) (xs : Cells V) (cell : Store V)
      → Represents q xs
      → length xs < capacity
      → Linked cell none xs (some q.brk)
      → cell q.brk ≡ some (node_at (last none xs) none v)
      → Represents
          (record q {
            brk = q.brk + 1;
            cell = cell;
            head = first (xs ++ ((q.brk, v) ∷ [])) none;
            tail = some q.brk;
            count = (q.count + 1) % 2 ^ 64;
          })
          (xs ++ ((q.brk, v) ∷ []))
  put-end q v xs cell r room front back = record {
    head_is = refl;
    tail_is = sym (last-append none xs ((q.brk, v) ∷ []));
    linked = Linked-join cell none none xs ((q.brk, v) ∷ []) front (back, _);
    separate =
        Separate-join xs ((q.brk, v) ∷ []) r.separate (refl, _) (Disjoint-Below q.brk v xs r.below);
    below =
        Below-append (q.brk + 1) xs ((q.brk, v) ∷ [])
          (Below-mono q.brk (q.brk + 1) xs (omega arith) r.below) (omega arith, _);
    counted = omega (arith, r.counted, length-snoc xs (q.brk, v));
    few = omega (arith, length-snoc xs (q.brk, v));
    fits = omega (arith, r.fits, length-snoc xs (q.brk, v));
  }

  -- The new node, with its predecessor.
  abbrev with_node : Queue V → Option V → Store V
  with_node q v = update (update q.cell q.brk (node_at none none v)) q.brk (node_at q.tail none v)

  Linked-with_node :
      (q : Queue V) (v : Option V) (xs : Cells V)
      → Represents q xs
      → Linked (with_node q v) none xs none
  Linked-with_node q v xs r =
      Linked-update (update q.cell q.brk (node_at none none v)) none none xs q.brk _
        (has-Below q.brk xs r.below)
        (Linked-update q.cell none none xs q.brk _ (has-Below q.brk xs r.below) r.linked)

  link_behind_lem :
      (q : Queue V) (head last : Option ℕ) (h l p : ℕ) (node : Node V)
      → head ≡ some h
      → last ≡ some l
      → q.cell l ≡ some node
      → link_behind q head last p ≡ some (set_node q l (record node { next = some p }))
  unfolding link_behind
  link_behind_lem q head last h l p node e f g = rw (e, f) (rw g refl)

  pub put-Represents :
      (q : Queue V) (v : Option V) (xs : Cells V)
      → Represents q xs
      → length xs < capacity
      → (q' : Queue V) × (put q v ≡ some (q', true)) × Represents q' (xs ++ ((q.brk, v) ∷ []))
  unfolding put link_last link_behind
  put-Represents q v [] r room =
      let not_full : leb capacity q.count ≡ false = room_left q.count 0 r.counted room in
      let cell : Store V = with_node q v in
      (
        _,
        rw (not_full, ==_refl q.brk, r.head_is) refl,
        put-end q v [] cell r room _ (rw (==_refl q.brk, r.tail_is) refl),
      )
  put-Represents q v ((p, w) ∷ xs) r room =
      let not_full : leb capacity q.count ≡ false =
        room_left q.count (length xs + 1) (r.counted ∙ omega arith) (omega arith) in
      let (node, at_end, linked) =
        relink_last (with_node q v) none none (some q.brk) p w xs
          (Linked-with_node q v ((p, w) ∷ xs) r) r.separate in
      let other : (end_of p xs == q.brk) ≡ false =
        ==_comm (end_of p xs) q.brk
        ∙ apart q.brk (end_of p xs) ((p, w) ∷ xs) (has-Below q.brk ((p, w) ∷ xs) r.below)
            (has-end_of p w xs) in
      let with_new : Queue V = record q {
        brk = q.brk + 1;
        cell = with_node q v;
        tail = some q.brk;
      } in
      let behind =
        link_behind_lem with_new q.head q.tail p (end_of p xs) q.brk node r.head_is
          (r.tail_is ∙ last-end_of p xs) at_end in
      (
        _,
        rw (not_full, ==_refl q.brk, behind)
            (ap
              (λ h. some (
                record (set_node with_new (end_of p xs) (record node { next = some q.brk })) {
                  head = h;
                  count = (q.count + 1) % 2 ^ 64;
                },
                true,
              ))
              r.head_is),
        put-end q v ((p, w) ∷ xs) _ r room linked (rw (other, ==_refl q.brk, r.tail_is) refl),
      )
