-- ===== src/Queue/Retrain/Kept.antt =====
-- What `Retrain` of common/queue.go leaves in the queue.
use erina.Base.{
  ℕ, zero, suc, ◌-◌, ◌≤◌, ◌≡◌, refl, ap, ◌∙◌, arith, if◌then◌else◌, Bool, true, false, ◌||◌, List,
  [], ◌∷◌, Option, none, some, Key, length, Bool-cases, inl, inr, subst,
}
use erina.Base.Partial.{◌>>=◌}
use erina.Queue.Types.{Store, Queue}
use erina.Queue.Cells.{Cells, Linked, first}
use erina.Queue.Search.{holds, remove}
use erina.Queue.Laws.{Represents}
use erina.Queue.Removal.{values, mem, remove-Represents}
use erina.Queue.Retrain.{listed, enter, gather, strike, remove_all, retrain}
use erina.Queue.Retrain.Counted.{
  times, self, times_absent, times_present, without_all, times-without_all, times-strike,
}

abbrev one : Bool → ℕ
one true = 1
one false = 0

module _ {V : Type 0} ⦃k : Key V⦄ where
  listed-mem : (a : V) (keys : List (Option V)) → listed (some a) keys ≡ mem a keys
  listed-mem a [] = refl
  listed-mem a (w ∷ keys) = ap (λ b. holds a w || b) (listed-mem a keys)

  -- The keys of the map, after the values of a list.
  abbrev keys_of : List (Option V) → List (Option V) → List (Option V)
  keys_of [] keys = keys
  keys_of (v ∷ xs) keys = keys_of xs (enter v keys)

  -- A key is entered once.
  times-enter_self :
      (v : V) (keys : List (Option V)) (b : Bool)
      → times v keys ≡ one b
      → times v (enter (some v) keys) ≡ 1
  unfolding enter
  times-enter_self v keys b e = elim (Bool-cases (mem v keys)) [
    | inl h ↦ rw (listed-mem v keys, h) (ground (arith, times_present v keys h))
    | inr h ↦ rw (listed-mem v keys, h, self v) (ap suc (times_absent v keys h))
  ]

  times-enter :
      (v : V) (w : Option V) (keys : List (Option V)) (b : Bool)
      → times v keys ≡ one b
      → times v (enter w keys) ≡ one (holds v w || b)
  unfolding enter
  times-enter v none keys b e = elim (Bool-cases (listed none keys)) [
    | inl h ↦ rw h e
    | inr h ↦ rw h e
  ]
  times-enter v (some a) keys b e = elim (Bool-cases (k.same v a)) [
    | inl s ↦ rw s (
        subst (λ c. times v (enter (some c) keys) ≡ 1) ((k.same_iff v a).0 s)
          (times-enter_self v keys b e))
    | inr s ↦ elim (Bool-cases (listed (some a) keys)) [
      | inl h ↦ rw (s, h) e
      | inr h ↦ rw (s, h) (rw s e)
    ]
  ]

  abbrev seen : V → List (Option V) → Bool → Bool
  seen v [] b = b
  seen v (w ∷ xs) b = seen v xs (holds v w || b)

  times-keys_of :
      (v : V) (xs keys : List (Option V)) (b : Bool)
      → times v keys ≡ one b
      → times v (keys_of xs keys) ≡ one (seen v xs b)
  times-keys_of v [] keys b e = e
  times-keys_of v (w ∷ xs) keys b e =
      times-keys_of v xs (enter w keys) (holds v w || b) (times-enter v w keys b e)

  seen-true : (v : V) (xs : List (Option V)) → seen v xs true ≡ true
  seen-true v [] = refl
  seen-true v (w ∷ xs) = elim (Bool-cases (holds v w)) [
    | inl e ↦ rw e (seen-true v xs)
    | inr e ↦ rw e (seen-true v xs)
  ]

  -- A value that was not seen is not there.
  less_seen : (v : V) (xs : List (Option V)) → times v xs - one (seen v xs false) ≡ times v xs - 1
  less_seen v [] = refl
  less_seen v (w ∷ xs) = elim (Bool-cases (holds v w)) [
    | inl e ↦ rw (e, seen-true v xs) refl
    | inr e ↦ rw e (less_seen v xs)
  ]

  gather-keys_of :
      (fuel : ℕ) (cell : Store V) (prev : Option ℕ) (xs : Cells V) (keys : List (Option V))
      → Linked cell prev xs none
      → length xs ≤ fuel
      → gather fuel cell (first xs none) keys ≡ some (keys_of (values xs) keys)
  unfolding gather
  gather-keys_of zero cell prev [] keys l h = refl
  gather-keys_of (suc fuel) cell prev [] keys l h = refl
  gather-keys_of zero cell prev ((p, w) ∷ xs) keys l h = absurd (omega arith)
  gather-keys_of (suc fuel) cell prev ((p, w) ∷ xs) keys (here, l) h =
      rw here (gather-keys_of fuel cell (some p) xs (enter w keys) l (omega arith))

  remove_all-Represents :
      (q : Queue V) (keys : List (Option V)) (xs : Cells V)
      → Represents q xs
      → (q' : Queue V) × (ys : Cells V) × (remove_all q keys ≡ some q')
        × Represents q' ys
        × (values ys ≡ without_all keys (values xs))
  unfolding remove_all remove
  remove_all-Represents q [] xs r = (q, xs, refl, r, refl)
  remove_all-Represents q (none ∷ keys) xs r = remove_all-Represents q keys xs r
  remove_all-Represents q (some v ∷ keys) xs r =
      let (q1, ys, gone, r1, same) = remove-Represents q v xs r in
      let (q2, zs, later, r2, same2) = remove_all-Represents q1 keys ys r1 in
      (q2, zs, rw gone later, r2, same2 ∙ ap (without_all keys) same)

  -- `Retrain` for all values at once.
  pub retrain-Represents :
      (q : Queue V) (xs : Cells V) (staff : List (Option V))
      (order : List (Option V) → List (Option V))
      → Represents q xs
      → ((w : V) (keys : List (Option V)) → times w (order keys) ≡ times w keys)
      → (q' : Queue V) × (ys : Cells V) × (retrain order q staff ≡ some q')
        × Represents q' ys
        × ((v : V)
            → times v (values ys)
              ≡ (if mem v staff then times v (values xs) else times v (values xs) - 1))
  unfolding retrain
  retrain-Represents q xs staff order r fair =
      let keys = keys_of (values xs) [] in
      let left = order (strike staff keys) in
      let gathered = gather-keys_of q.brk q.cell none xs [] r.linked r.fits in
      let (q', ys, runs, r', same) = remove_all-Represents q left xs r in
      let often : (v : V)
          → times v left ≡ (if mem v staff then 0 else one (seen v (values xs) false)) =
        λ v.
          fair v (strike staff keys)
          ∙ times-strike v staff keys
          ∙ ap (λ n. if mem v staff then 0 else n) (times-keys_of v (values xs) [] false refl) in
      (
        q',
        ys,
        ap (λ h. gather q.brk q.cell h [] >>= λ ks. remove_all q (order (strike staff ks)))
              r.head_is
            ∙ ap (λ o. o >>= λ ks. remove_all q (order (strike staff ks))) gathered
            ∙ runs,
        r',
        λ v.
            ap (times v) same
            ∙ times-without_all v left (values xs)
            ∙ ground (arith, often v, less_seen v (values xs)),
      )

  -- For a queue that stands for a row of nodes, and any order in which the map is walked, which lists
  -- each value as often as its keys do: `Retrain` does not panic, leaves a queue that stands for a
  -- row of nodes again, and for each value, leaves as many entries as before if the value is on the
  -- staff, and otherwise one less if there was one.
  pub retrain-times :
      (q : Queue V) (xs : Cells V) (staff : List (Option V))
      (order : List (Option V) → List (Option V)) (v : V)
      → Represents q xs
      → ((w : V) (keys : List (Option V)) → times w (order keys) ≡ times w keys)
      → (q' : Queue V) × (ys : Cells V) × (retrain order q staff ≡ some q')
        × Represents q' ys
        × (times v (values ys)
            ≡ (if mem v staff then times v (values xs) else times v (values xs) - 1))
  retrain-times q xs staff order v r fair =
      let (q', ys, runs, r', often) = retrain-Represents q xs staff order r fair in
      (q', ys, runs, r', often v)
