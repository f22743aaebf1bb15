-- ===== src/Queue/Ends.antt =====
-- `Put`, `Poll` and what they link and unlink, of common/queue.go. `none` is the panic on a nil
-- pointer.
use erina.Base.{ℕ, ◌+◌, leb, if◌then◌else◌, Bool, true, false, Option, none, some}
use erina.Base.Partial.{◌>>=◌}
use erina.Queue.Types.{Node, Queue, capacity, set_node, count_inc, count_dec}

module _ {V : Type 0} where
  -- The last node, if there is one, leads to the new one.
  unfoldable pub link_behind : Queue V → Option ℕ → Option ℕ → ℕ → Option (Queue V)
  link_behind q none last p = some (record q { head = some p })
  link_behind q (some _) last p = do
    l ← last
    node ← q.cell l
    some (set_node q l (record node { next = some p }))

  unfoldable pub link_last : Queue V → ℕ → Option (Queue V × Bool)
  unfolding link_behind
  link_last q p = if leb capacity q.count then some (q, false) else (do
    node ← q.cell p
    let q1 = record (set_node q p (record node { prev = q.tail })) { tail = some p }
    q2 ← link_behind q1 q.head q.tail p
    some (count_inc q2, true))

  -- False stands for a caller that waits.
  unfoldable pub put : Queue V → Option V → Option (Queue V × Bool)
  unfolding link_last
  put q v =
      let node : Node V = record { prev = none; next = none; value = v } in
      link_last (record (set_node q q.brk node) { brk = q.brk + 1 }) q.brk

  -- The node behind the removed first one, if any, becomes the first.
  unfoldable pub unlink_before : Queue V → Option ℕ → Option (Queue V)
  unlink_before q none = some (record q { tail = none })
  unlink_before q (some n) = do node ← q.cell n; some (set_node q n (record node { prev = none }))

  unfoldable pub unlink_first_at : Queue V → Option ℕ → Option (Queue V × Option V)
  unfolding unlink_before
  unlink_first_at q none = some (q, none)
  unlink_first_at q (some f) = do
    node ← q.cell f
    let q1 = set_node q f (record node { value = none; next = some f })
    q2 ← unlink_before (record q1 { head = node.next }) node.next
    some (count_dec q2, node.value)

  abbrev pub unlink_first : Queue V → Option (Queue V × Option V)
  unlink_first q = unlink_first_at q q.head

  -- `Poll`, by way of `pollFirst`.
  abbrev pub poll : Queue V → Option (Queue V × Option V)
  poll q = unlink_first q

  unfoldable pub unlink_behind : Queue V → Option ℕ → Option (Queue V)
  unlink_behind q none = some (record q { head = none })
  unlink_behind q (some p) = do node ← q.cell p; some (set_node q p (record node { next = none }))

  unfoldable pub unlink_last_at : Queue V → Option ℕ → Option (Queue V × Option V)
  unfolding unlink_behind
  unlink_last_at q none = some (q, none)
  unlink_last_at q (some l) = do
    node ← q.cell l
    let q1 = set_node q l (record node { value = none; prev = some l })
    q2 ← unlink_behind (record q1 { tail = node.prev }) node.prev
    some (count_dec q2, node.value)

  abbrev pub unlink_last : Queue V → Option (Queue V × Option V)
  unlink_last q = unlink_last_at q q.tail

  -- A node with both neighbours.
  unfoldable pub unlink_between : Queue V → ℕ → ℕ → ℕ → Option (Queue V)
  unlink_between q x p n = do
    before ← q.cell p
    let q1 = set_node q p (record before { next = some n })
    behind ← q1.cell n
    let q2 = set_node q1 n (record behind { prev = some p })
    node ← q2.cell x
    some (count_dec (set_node q2 x (record node { value = none })))

  abbrev pub left_by : Option (Queue V × Option V) → Option (Queue V)
  left_by r = r >>= λ s. some s.0

  unfoldable pub unlink_from : Queue V → ℕ → Option ℕ → Option ℕ → Option (Queue V)
  unfolding unlink_between unlink_first_at unlink_last_at
  unlink_from q x none next = left_by (unlink_first q)
  unlink_from q x (some p) none = left_by (unlink_last q)
  unlink_from q x (some p) (some n) = unlink_between q x p n

  unfoldable pub unlink : Queue V → ℕ → Option (Queue V)
  unfolding unlink_from
  unlink q x = do node ← q.cell x; unlink_from q x node.prev node.next
