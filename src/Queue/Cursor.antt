-- ===== src/Queue/Cursor.antt =====
-- The cursor of common/queue.go.
use erina.Queue.Cells.{node_at, Cells, Linked}
use erina.Queue.Search.{cursor_of, next, next_at}
use erina.Base.{
  replicate, ℕ, zero, suc, ◌≡◌, refl, ap, ◌∙◌, Option, none, some, List, [], ◌∷◌, length,
}
use erina.Base.Partial.{◌>>=◌}
use erina.Queue.Types.{Queue, Node}
use erina.Queue.Ends.{poll}
use erina.Queue.Laws.{Represents}
use erina.Queue.Unlinking.{unlink_first-Represents}
use erina.Queue.Removal.{values}

module _ {V : Type 0} where
  -- The values that `n` calls of `Next` return, and the queue they leave.
  abbrev pub nexts : ℕ → Queue V → Option (Queue V × List (Option V))
  nexts zero q = some (q, [])
  nexts (suc n) q = next q >>= λ r. nexts n r.0 >>= λ s. some (s.0, r.1 ∷ s.1)

  pub next_at_node :
      (q : Queue V) (p : ℕ) (node : Node V)
      → cursor_of q.cursor q.head ≡ some p
      → q.cell p ≡ some node
      → next q ≡ some (record q { cursor = node.next }, node.value)
  unfolding next next_at
  next_at_node q p node at found =
      ap (next_at q) at ∙ ap (λ o. o >>= λ n. some (record q { cursor = n.next }, n.value)) found

  nexts-suc :
      (n : ℕ) (q q' q'' : Queue V) (v : Option V) (vs : List (Option V))
      → next q ≡ some (q', v)
      → nexts n q' ≡ some (q'', vs)
      → nexts (suc n) q ≡ some (q'', v ∷ vs)
  nexts-suc n q q' q'' v vs e f = rw e (rw f refl)

  nexts_from :
      (xs : Cells V) (q : Queue V) (prev : Option ℕ) (p : ℕ) (v : Option V)
      → Linked q.cell prev ((p, v) ∷ xs) none
      → cursor_of q.cursor q.head ≡ some p
      → nexts (suc (length xs)) q ≡ some (record q { cursor = none }, values ((p, v) ∷ xs))
  nexts_from [] q prev p v (here, l) at =
      nexts-suc 0 q (record q { cursor = none }) (record q { cursor = none }) v []
        (next_at_node q p (node_at prev none v) at here) refl
  nexts_from ((s, w) ∷ xs) q prev p v (here, l) at =
      nexts-suc (suc (length xs)) q (record q { cursor = some s }) (record q { cursor = none }) v
        (values ((s, w) ∷ xs)) (next_at_node q p (node_at prev (some s) v) at here)
        (nexts_from xs (record q { cursor = some s }) (some p) s w l refl)

  -- In a queue of any values whose cursor is not on a node: as many calls of `Next` as there are
  -- values return them all, from the first to the last, and the cursor is again on no node.
  pub nexts-values :
      (q : Queue V) (xs : Cells V)
      → Represents q xs
      → q.cursor ≡ none
      → nexts (length xs) q ≡ some (record q { cursor = none }, values xs)
  nexts-values q [] r off = λ i. some (record q { cursor = off i }, [])
  nexts-values q ((p, v) ∷ xs) r off =
      nexts_from xs q none p v r.linked (ap (λ c. cursor_of c q.head) off ∙ r.head_is)

  stays :
      (n : ℕ) (q : Queue V) (p : ℕ)
      → q.cursor ≡ some p
      → q.cell p ≡ some (node_at none (some p) none)
      → nexts n q ≡ some (record q { cursor = some p }, replicate n none)
  stays zero q p on own = λ i. some (record q { cursor = on i }, [])
  stays (suc n) q p on own =
      nexts-suc n q (record q { cursor = some p }) (record q { cursor = some p }) none
        (replicate n none)
        (next_at_node q p (node_at none (some p) none) (ap (λ c. cursor_of c q.head) on) own)
        (stays n (record q { cursor = some p }) p refl own)

  -- When the cursor is on the first node and `Poll` takes that node away: the queue still holds
  -- the values behind it, but however often `Next` is called, it returns nil.
  pub nexts-poll :
      (n : ℕ) (q : Queue V) (p : ℕ) (v : Option V) (xs : Cells V)
      → Represents q ((p, v) ∷ xs)
      → q.cursor ≡ some p
      → (q' : Queue V) × (poll q ≡ some (q', v))
        × Represents q' xs
        × (nexts n q' ≡ some (record q' { cursor = some p }, replicate n none))
  nexts-poll n q p v xs r on =
      let (q', gone, r', own, kept) = unlink_first-Represents q p v xs r in
      (q', gone, r', stays n q' p (kept ∙ on) own)
