-- ===== src/Queue/Retrain.antt =====
-- `Retrain` of common/queue.go. `none` is the panic on a nil pointer, or a walk that has not ended.
pub mod Counted
pub mod Kept
use erina.Base.{
  ℕ, zero, suc, if◌then◌else◌, Bool, true, false, ◌||◌, List, [], ◌∷◌, Option, none, some, Key,
}
use erina.Base.Partial.{◌>>=◌}
use erina.Queue.Types.{Store, Queue}
use erina.Queue.Search.{holds, remove}

module _ {V : Type 0} ⦃k : Key V⦄ where
  -- Two values of the source are equal; nil equals nil only.
  abbrev pub same_value : Option V → Option V → Bool
  same_value none none = true
  same_value none (some w) = false
  same_value (some v) w = holds v w

  abbrev pub listed : Option V → List (Option V) → Bool
  listed v [] = false
  listed v (w ∷ keys) = same_value v w || listed v keys

  -- `total[v] = 1`, on the list of the map's keys.
  unfoldable pub enter : Option V → List (Option V) → List (Option V)
  enter v keys = if listed v keys then keys else v ∷ keys

  -- The walk along `next`.
  unfoldable pub gather : ℕ → Store V → Option ℕ → List (Option V) → Option (List (Option V))
  unfolding enter
  gather fuel cell none keys = some keys
  gather zero cell (some p) keys = none
  gather (suc fuel) cell (some p) keys =
      cell p >>= λ node. gather fuel cell node.next (enter node.value keys)

  -- `delete(total, v)`, for one value and for all of the staff.
  unfoldable pub struck : Option V → List (Option V) → List (Option V)
  struck v [] = []
  struck v (w ∷ keys) = let rest = struck v keys in if same_value v w then rest else w ∷ rest

  unfoldable pub strike : List (Option V) → List (Option V) → List (Option V)
  unfolding struck
  strike [] keys = keys
  strike (v ∷ staff) keys = strike staff (struck v keys)

  unfoldable pub remove_all : Queue V → List (Option V) → Option (Queue V)
  unfolding remove
  remove_all q [] = some q
  remove_all q (v ∷ keys) = remove q v >>= λ r. remove_all r.0 keys

  -- `order` is the order in which the runtime walks the map.
  unfoldable pub retrain :
      (List (Option V) → List (Option V)) → Queue V → List (Option V) → Option (Queue V)
  unfolding gather strike remove_all
  retrain order q staff =
      gather q.brk q.cell q.head [] >>= λ keys. remove_all q (order (strike staff keys))
