-- ===== src/Queue/Types.antt =====
-- `Node` and `Queue` of common/queue.go. A `*Node` is a number, and the queue's store maps it to the
-- node; `none` is nil.
use erina.Base.{ℕ, ◌+◌, ◌-◌, ◌%◌, ◌^◌, ◌==◌, if◌then◌else◌, Option, none, some}

pub record Node (V : Type 0) : Type 0 where
  pub prev : Option ℕ
  pub next : Option ℕ
  pub value : Option V

abbrev pub Store : Type 0 → Type 0
Store V = ℕ → Option (Node V)

-- `brk` is the address that `new` gives next. The conditions and mutexes are left out: each
-- operation is one step.
pub record Queue (V : Type 0) : Type 0 where
  pub brk : ℕ
  pub cell : Store V
  pub head : Option ℕ
  pub tail : Option ℕ
  pub count : ℕ
  pub cursor : Option ℕ

abbrev pub capacity : ℕ
capacity = 2 ^ 64 - 1

module _ {V : Type 0} where
  abbrev pub update : Store V → ℕ → Node V → Store V
  update f p n q = if p == q then some n else f q

  abbrev pub set_node : Queue V → ℕ → Node V → Queue V
  set_node q p n = record q { cell = update q.cell p n }

  -- `NewQueue`.
  abbrev pub new_queue : Queue V
  new_queue = record {
    brk = 0;
    cell = λ _. none;
    head = none;
    tail = none;
    count = 0;
    cursor = none;
  }

  -- `Inc` and `Dec` of `AtomicUint64`.
  abbrev pub count_inc : Queue V → Queue V
  count_inc q = record q { count = (q.count + 1) % 2 ^ 64 }

  abbrev pub count_dec : Queue V → Queue V
  count_dec q = record q { count = (q.count + (2 ^ 64 - 1)) % 2 ^ 64 }
