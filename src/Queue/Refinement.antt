-- ===== src/Queue/Refinement.antt =====
-- The queue of common/queue.go against a list of values.
use erina.Base.{
  inr, inl, Bool-cases, suc, ℕ, ◌+◌, ◌<◌, ◌≤◌, ◌≡◌, refl, ap, sym, ◌∙◌, arith, Bool, true, false,
  Option, none, some, List, [], ◌∷◌, ◌++◌, length, Key, length-append,
}
use erina.Queue.Search.{holds, remove, contains, size}
use erina.Base.Partial.{◌>>=◌}
use erina.Queue.Types.{Queue, capacity, new_queue}
use erina.Queue.Ends.{put, poll}
use erina.Queue.Cells.{Cells}
use erina.Queue.Laws.{Represents, new_queue-Represents, put-Represents}
use erina.Queue.Unlinking.{unlink_first-empty, unlink_first-Represents}
use erina.Queue.Removal.{
  values, values-append, mem, without, remove-Represents, contains-Represents,
}

-- A call of one of the queue's operations.
pub data Call (V : Type 0) : Type 0 where
  puts : Option V → Call V
  polls : Call V
  removes : Option V → Call V
  asks : Option V → Call V
  sizes : Call V

-- What a call returns: a value or nil, or a Boolean, or a number.
pub data Returned (V : Type 0) : Type 0 where
  value : Option V → Returned V
  flag : Bool → Returned V
  number : ℕ → Returned V

length-values : {V : Type 0} (xs : Cells V) → length (values xs) ≡ length xs
length-values [] = refl
length-values (x ∷ xs) = ap suc (length-values xs)

module _ {V : Type 0} ⦃k : Key V⦄ where
  -- A call on the linked queue.
  abbrev pub call : Queue V → Call V → Option (Queue V × Returned V)
  call q (puts v) = put q v >>= λ r. some (r.0, flag r.1)
  call q polls = poll q >>= λ r. some (r.0, value r.1)
  call q (removes v) = remove q v >>= λ r. some (r.0, flag r.1)
  call q (asks v) = contains q v >>= λ b. some (q, flag b)
  call q sizes = some (q, number (size q))

  -- The same call on the list of the values, the first to leave in front.
  abbrev pub call_list : List (Option V) → Call V → List (Option V) × Returned V
  call_list xs (puts v) = (xs ++ (v ∷ []), flag true)
  call_list [] polls = ([], value none)
  call_list (v ∷ xs) polls = (xs, value v)
  call_list xs (removes none) = (xs, flag false)
  call_list xs (removes (some v)) = (without v xs, flag (mem v xs))
  call_list xs (asks none) = (xs, flag false)
  call_list xs (asks (some v)) = (xs, flag (mem v xs))
  call_list xs sizes = (xs, number (length xs))

  -- The answers to a sequence of calls.
  abbrev pub run : Queue V → List (Call V) → Option (List (Returned V))
  run q [] = some []
  run q (c ∷ cs) = call q c >>= λ r. run r.0 cs >>= λ answers. some (r.1 ∷ answers)

  abbrev pub run_list : List (Option V) → List (Call V) → List (Returned V)
  run_list xs [] = []
  run_list xs (c ∷ cs) = (call_list xs c).1 ∷ run_list (call_list xs c).0 cs

  length-without : (v : V) (xs : List (Option V)) → length (without v xs) ≤ length xs
  length-without v [] = omega arith
  length-without v (w ∷ xs) = elim (Bool-cases (holds v w)) [
    | inl e ↦ rw e (omega arith)
    | inr e ↦ rw e (omega (arith, length-without v xs))
  ]

  length-call_list : (xs : List (Option V)) (c : Call V) → length (call_list xs c).0 ≤ length xs + 1
  length-call_list xs (puts v) = omega (arith, length-append xs (v ∷ []))
  length-call_list [] polls = omega arith
  length-call_list (v ∷ xs) polls = omega arith
  length-call_list xs (removes none) = omega arith
  length-call_list xs (removes (some v)) = omega (arith, length-without v xs)
  length-call_list xs (asks none) = omega arith
  length-call_list xs (asks (some v)) = omega arith
  length-call_list xs sizes = omega arith

  -- A call on the queue does what it does on the list.
  record Simulates (q : Queue V) (xs : List (Option V)) (c : Call V) : Type 0 where
    left : Queue V
    cells : Cells V
    runs : call q c ≡ some (left, (call_list xs c).1)
    stands : Represents left cells
    holds_values : values cells ≡ (call_list xs c).0

  simulates :
      (q : Queue V) (xs : Cells V) (c : Call V)
      → Represents q xs
      → length xs < capacity
      → Simulates q (values xs) c
  unfolding remove contains
  simulates q xs (puts v) r room =
      let (q', runs, r') = put-Represents q v xs r room in
      record {
        left = q';
        cells = xs ++ ((q.brk, v) ∷ []);
        runs = rw runs refl;
        stands = r';
        holds_values = values-append xs ((q.brk, v) ∷ []);
      }
  simulates q [] polls r room = record {
    left = q;
    cells = [];
    runs = rw (unlink_first-empty q r) refl;
    stands = r;
    holds_values = refl;
  }
  simulates q ((p, v) ∷ xs) polls r room =
      let (q', runs, r', _, _) = unlink_first-Represents q p v xs r in
      record { left = q'; cells = xs; runs = rw runs refl; stands = r'; holds_values = refl }
  simulates q xs (removes none) r room = record {
    left = q;
    cells = xs;
    runs = refl;
    stands = r;
    holds_values = refl;
  }
  simulates q xs (removes (some v)) r room =
      let (q', ys, runs, r', same) = remove-Represents q v xs r in
      record { left = q'; cells = ys; runs = rw runs refl; stands = r'; holds_values = same }
  simulates q xs (asks none) r room = record {
    left = q;
    cells = xs;
    runs = refl;
    stands = r;
    holds_values = refl;
  }
  simulates q xs (asks (some v)) r room = record {
    left = q;
    cells = xs;
    runs = rw (contains-Represents q v xs r) refl;
    stands = r;
    holds_values = refl;
  }
  simulates q xs sizes r room = record {
    left = q;
    cells = xs;
    runs = ap (λ n. some (q, number n)) (r.counted ∙ sym (length-values xs));
    stands = r;
    holds_values = refl;
  }

  run_refines :
      (cs : List (Call V)) (q : Queue V) (xs : Cells V)
      → Represents q xs
      → length xs + length cs ≤ capacity
      → run q cs ≡ some (run_list (values xs) cs)
  run_refines [] q xs r room = refl
  run_refines (c ∷ cs) q xs r room =
      let s = simulates q xs c r (omega arith) in
      let grown : length s.cells ≤ length xs + 1 = omega (
        arith,
        length-values s.cells,
        length-values xs,
        ap length s.holds_values,
        length-call_list (values xs) c,
      ) in
      let later = run_refines cs s.left s.cells s.stands (omega arith) in
      rw s.runs
        (rw later (ap (λ l. some ((call_list (values xs) c).1 ∷ run_list l cs)) s.holds_values))

  -- Whatever up to 2 ^ 64 - 1 calls of `Put`, `Poll`, `Remove`, `Contains` and `Size` are made on a
  -- new queue: none of them panics or waits, and each returns what it returns on the list of the
  -- values, where `Put` adds at the end, `Poll` takes from the front, `Remove` takes out the first
  -- entry of a value and reports whether there was one, and `Size` is the length.
  pub run-run_list :
      (cs : List (Call V)) → length cs ≤ capacity → run new_queue cs ≡ some (run_list [] cs)
  run-run_list cs few = run_refines cs new_queue [] new_queue-Represents (omega arith)
