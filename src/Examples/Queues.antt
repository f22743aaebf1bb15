-- ===== src/Examples/Queues.antt =====
-- A queue of numbers, and the theorems at it.
use erina.Base.{
  zero, suc, ℕ, ◌≡◌, refl, arith, true, false, none, some, List, [], ◌∷◌, replicate, nat_key,
}
use erina.Queue.Types.{Queue, new_queue}
use erina.Queue.Ends.{poll}
use erina.Queue.Laws.{Represents}
use erina.Queue.Refinement
use erina.Queue.Refinement.{
  Call, puts, polls, removes, asks, sizes, run, run_list, value, flag, number,
}
use erina.Queue.Cursor
use erina.Queue.Cursor.{nexts}

abbrev calls : List (Call ℕ)
calls =
    puts (some 4)
    ∷ (puts (some 5)
        ∷ (puts (some 6) ∷ (removes (some 5) ∷ (asks (some 5) ∷ (polls ∷ (sizes ∷ []))))))

run-run_list_example :
    run new_queue calls
    ≡ some (
        flag true
        ∷ (flag true
            ∷ (flag true ∷ (flag true ∷ (flag false ∷ (value (some 4) ∷ (number 1 ∷ [])))))))
run-run_list_example = Refinement.run-run_list calls (omega arith)

-- Two values, and the cursor on the first.
abbrev two : Queue ℕ
two = record {
  brk = 2;
  cell = λ p. elim p [
    | zero ↦ some (record { prev = none; next = some 1; value = some 7 })
    | suc n ↦ elim n [
      | zero ↦ some (record { prev = some 0; next = none; value = some 8 })
      | suc m ↦ none
    ]
  ];
  head = some 0;
  tail = some 1;
  count = 2;
  cursor = some 0;
}

two-Represents : Represents two ((0, some 7) ∷ ((1, some 8) ∷ []))
two-Represents = record {
  head_is = refl;
  tail_is = refl;
  linked = (refl, (refl, _));
  separate = (refl, (refl, _));
  below = (omega arith, (omega arith, _));
  counted = refl;
  few = omega arith;
  fits = omega arith;
}

nexts-poll_example :
    (q' : Queue ℕ) × (poll two ≡ some (q', some 7))
    × Represents q' ((1, some 8) ∷ [])
    × (nexts 3 q' ≡ some (record q' { cursor = some 0 }, replicate 3 none))
nexts-poll_example = Cursor.nexts-poll 3 two 0 (some 7) ((1, some 8) ∷ []) two-Represents refl
