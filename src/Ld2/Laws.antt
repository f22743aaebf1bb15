-- ===== src/Ld2/Laws.antt =====
-- Reading a rule back, and what `B2O` needs of its bytes.
use erina.Base.{
  ℕ, zero, suc, ◌+◌, ◌-◌, ◌*◌, ◌≤◌, ◌<◌, ◌≡◌, refl, ap, ◌∙◌, arith, List, [], ◌∷◌, none, some,
  bit_and, length, take, drop, get_or, ◌⊎◌, inl, inr,
}
use erina.Words.{Bytes, slice}
use erina.Words.Laws.{slice_lem, index_lem}
use erina.Ld2.{with_rule, read_action, CfgLd2, alarms, action, b2o}

-- The number of alarms that the third byte announces.
abbrev pub announced : Bytes → ℕ
announced final = bit_and (get_or final 2 0) 0x0f

alarms-enough :
    (left at : ℕ) (final : Bytes)
    → at + 2 * left ≤ length final
    → (codes : List Bytes) × (alarms left at final ≡ some codes) × (length codes ≡ left)
unfolding alarms
alarms-enough zero at final h = ([], refl, refl)
alarms-enough (suc left) at final h =
    let (codes, e, l) = alarms-enough left (at + 2) final (omega arith) in
    let here : slice final at (at + 2) ≡ some (take (at + 2 - at) (drop at final)) =
      slice_lem final at (at + 2) (omega arith) (omega arith) in
    (take (at + 2 - at) (drop at final) ∷ codes, rw (here, e) refl, ap suc l)

-- What `action` does, by what is left behind the alarms.
action-enough :
    (m : CfgLd2)
    → length m.final < 256
    → 8 + 2 * m.alarm_length ≤ length m.final
    → ((length m.final ≡ 8 + 2 * m.alarm_length + 1) × (action m ≡ none))
      ⊎ ((n : CfgLd2) × (action m ≡ some n) × (n.alarm ≡ m.alarm) × (n.final ≡ m.final))
unfolding action read_action
action-enough m short long = ground arith

-- On less than 256 bytes, if they are as many as the announced alarms ask for, or at least two
-- more, `B2O` does not panic and finds as many alarms as announced. One byte more is a panic.
pub b2o-enough :
    (m : CfgLd2)
    → length m.final < 256
    → 8 + 2 * announced m.final ≤ length m.final
    → ((length m.final ≡ 8 + 2 * announced m.final + 1) × (b2o m ≡ none))
      ⊎ ((n : CfgLd2) × (b2o m ≡ some n)
          × (length n.alarm ≡ announced m.final)
          × (n.final ≡ m.final))
unfolding b2o
b2o-enough m short long =
    let at0 = index_lem m.final 0 (omega arith) in
    let at1 = index_lem m.final 1 (omega arith) in
    let at2 = index_lem m.final 2 (omega arith) in
    let dev = slice_lem m.final 4 8 (omega arith) (omega arith) in
    let (codes, e, l) = alarms-enough (announced m.final) 8 m.final (omega arith) in
    let rule =
      with_rule m (get_or m.final 0 0) (get_or m.final 1 0) (get_or m.final 2 0)
        (take 4 (drop 4 m.final)) codes in
    let whole : b2o m ≡ action rule = rw (at0, at1, at2, dev, e) refl in
    (elim (action-enough rule short long) [
      | inl (a, b) ↦ inl (a, whole ∙ b)
      | inr (n, a, b, k) ↦ inr (n, whole ∙ a, ap length b ∙ l, k)
    ])
