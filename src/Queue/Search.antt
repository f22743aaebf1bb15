-- ===== src/Queue/Search.antt =====
-- `Remove`, `Contains`, `Next` and `Size` of common/queue.go.
use erina.Base.{ℕ, zero, suc, if◌then◌else◌, Bool, true, false, Option, none, some, Key}
use erina.Base.Partial.{◌>>=◌}
use erina.Queue.Types.{Store, Queue}
use erina.Queue.Ends.{unlink}

-- How a walk along `next` ends. A walk that has not ended when the fuel is spent is `unfinished`.
pub data Found : Type 0 where
  found : ℕ → Found
  absent : Found
  unfinished : Found
  panic : Found

unfoldable pub answer : Found → Option Bool
answer (found p) = some true
answer absent = some false
answer unfinished = none
answer Found.panic = none

-- A cursor that is nil starts at the head.
abbrev pub cursor_of : Option ℕ → Option ℕ → Option ℕ
cursor_of none head = head
cursor_of (some c) head = some c

module _ {V : Type 0} ⦃k : Key V⦄ where
  -- `v == p.value`, for a `v` that is not nil.
  abbrev pub holds : V → Option V → Bool
  holds v none = false
  holds v (some w) = k.same v w

  unfoldable pub walk : ℕ → Store V → V → Option ℕ → Found
  walk fuel cell v none = absent
  walk zero cell v (some p) = unfinished
  walk (suc fuel) cell v (some p) = elim (cell p) [
    | none ↦ panic
    | some node ↦
        let rest = walk fuel cell v node.next in if holds v node.value then found p else rest
  ]

  -- A walk passes each node at most once, so there are fewer steps than addresses.
  unfoldable pub remove_at : Queue V → Found → Option (Queue V × Bool)
  unfolding unlink
  remove_at q (found p) = unlink q p >>= λ r. some (r, true)
  remove_at q absent = some (q, false)
  remove_at q unfinished = none
  remove_at q Found.panic = none

  unfoldable pub remove : Queue V → Option V → Option (Queue V × Bool)
  unfolding walk remove_at
  remove q none = some (q, false)
  remove q (some v) = remove_at q (walk q.brk q.cell v q.head)

  unfoldable pub contains : Queue V → Option V → Option Bool
  unfolding walk answer
  contains q none = some false
  contains q (some v) = answer (walk q.brk q.cell v q.head)

module _ {V : Type 0} where
  unfoldable pub next_at : Queue V → Option ℕ → Option (Queue V × Option V)
  next_at q none = some (record q { cursor = none }, none)
  next_at q (some c) = do node ← q.cell c; some (record q { cursor = node.next }, node.value)

  unfoldable pub next : Queue V → Option (Queue V × Option V)
  unfolding next_at
  next q = next_at q (cursor_of q.cursor q.head)

  -- `Size`.
  abbrev pub size : Queue V → ℕ
  size q = q.count
