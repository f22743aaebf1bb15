-- ===== src/Users/Lifecycle/Going.antt =====
-- The invariant of the users' sessions, when a session runs `logout`.
use erina.Base.{
  ℕ, ◌≡◌, ◌≢◌, ◌⊎◌, inl, inr, refl, sym, ap, ◌∙◌, arith, true, false, some, lookup, insert, remove,
  nat_key, key_cases, lookup-insert, lookup-insert_other, lookup-remove, lookup-remove_other,
}
use erina.Outcome.Laws.{some_injective}
use erina.Users.Types.{UsrSession, Ws, no_ws, opened, shut, minus_one}
use erina.Users.Pool.{close_if}
use erina.Users.Offline.{is_positive}
use erina.Users.Lifecycle.{Life, set_live}
use erina.Users.Lifecycle.Orderly.{Orderly, none-ne-some}
use erina.Users.Lifecycle.Coming.{live_same, live_other}

close_if-ne-opened : (w : Ws) → close_if w ≢ opened
close_if-ne-opened no_ws e = ground arith
close_if-ne-opened opened e = ground arith
close_if-ne-opened shut e = ground arith

close_if-ne-no_ws : (w : Ws) → w ≢ no_ws → close_if w ≢ no_ws
close_if-ne-no_ws no_ws ne e = ne refl
close_if-ne-no_ws opened ne e = ground arith
close_if-ne-no_ws shut ne e = ground arith

-- The pointers that are live afterwards are live before, and others.
was_live : (st : Life) (h k : ℕ) → set_live st h false k ≡ true → (h ≢ k) × (st.live k ≡ true)
was_live st h k alive = elim (key_cases h k) [
  | inl e ↦ absurd (ground (arith, sym (ap (set_live st h false) e) ∙ live_same st h false, alive))
  | inr ne ↦ (ne, sym (live_other st h k false ne) ∙ alive)
]

module _ (st : Life) (v : Orderly st) (h : ℕ) (s : UsrSession)
    (at : lookup (st.pool).heap h ≡ some s) (alive_h : st.live h ≡ true) where
  -- A session without a user's id changes nothing of the table.
  abbrev pub idle : Life
  idle = record st { live = set_live st h false }

  pub idle-Orderly : is_positive s.uid ≡ false → Orderly idle
  idle-Orderly lost = record {
    known = λ k alive. let (ne, was) = was_live st h k alive in v.known k was;
    open_listed = λ k u found opens.
        let (alive, listed) = v.open_listed k u found opens in
        elim (key_cases h k) [
          | inl e ↦
              let same : u ≡ s =
                some_injective u s (sym found ∙ ap (lookup (st.pool).heap) (sym e) ∙ at) in
              let (_, _, _, real) = v.sound u.uid k listed in
              absurd (ground (arith, sym real ∙ ap (λ x. is_positive x.uid) same ∙ lost))
          | inr ne ↦ (live_other st h k false ne ∙ alive, listed)
        ];
    sound = v.sound;
  }

  abbrev pub left : Life
  left = record {
    pool = record {
      heap = insert (st.pool).heap h (record s { ws = close_if s.ws });
      sesses = remove (st.pool).sesses s.uid;
    };
    live = set_live st h false;
  }

  left_here : lookup (left.pool).heap h ≡ some (record s { ws = close_if s.ws })
  left_here = lookup-insert (st.pool).heap h (record s { ws = close_if s.ws })

  left_there : (k : ℕ) → h ≢ k → lookup (left.pool).heap k ≡ lookup (st.pool).heap k
  left_there k ne = lookup-insert_other (st.pool).heap h k (record s { ws = close_if s.ws }) ne

  -- The route that goes is the session's own.
  own_route : is_positive s.uid ≡ true → lookup (st.pool).sesses s.uid ≡ some h
  own_route real =
      let (u, found, why) = v.known h alive_h in
      let same : u ≡ s = some_injective u s (sym found ∙ at) in
      elim why [
        | inl lost ↦ absurd (
            ground (arith, sym real ∙ ap (λ x. is_positive x.uid) (sym same) ∙ ap is_positive lost))
        | inr listed ↦ ap (λ x. lookup (st.pool).sesses x.uid) (sym same) ∙ listed
      ]

  route_kept :
      (u k : ℕ)
      → is_positive s.uid ≡ true
      → h ≢ k
      → lookup (st.pool).sesses u ≡ some k
      → lookup (left.pool).sesses u ≡ some k
  route_kept u k real ne listed =
      let other : s.uid ≢ u = λ e.
        ne (some_injective h k (sym (own_route real) ∙ ap (lookup (st.pool).sesses) e ∙ listed)) in
      lookup-remove_other (st.pool).sesses s.uid u other ∙ listed

  known_left :
      is_positive s.uid ≡ true
      → (k : ℕ) → left.live k ≡ true
      → (u : UsrSession) × (lookup (left.pool).heap k ≡ some u)
        × ((u.uid ≡ minus_one) ⊎ (lookup (left.pool).sesses u.uid ≡ some k))
  known_left real k alive =
      let (ne, was) = was_live st h k alive in
      let (u, found, why) = v.known k was in
      (
        u,
        left_there k ne ∙ found,
        elim why [ inl lost ↦ inl lost | inr listed ↦ inr (route_kept u.uid k real ne listed) ],
      )

  open_left :
      is_positive s.uid ≡ true
      → (k : ℕ) (u : UsrSession) → lookup (left.pool).heap k ≡ some u
      → u.ws ≡ opened
      → (left.live k ≡ true) × (lookup (left.pool).sesses u.uid ≡ some k)
  open_left real k u found opens = elim (key_cases h k) [
    | inl e ↦
        let same : u ≡ record s { ws = close_if s.ws } =
          some_injective u (record s { ws = close_if s.ws })
            (sym found ∙ ap (lookup (left.pool).heap) (sym e) ∙ left_here) in
        absurd (close_if-ne-opened s.ws (ap (λ x. x.ws) (sym same) ∙ opens))
    | inr ne ↦
        let (alive, listed) = v.open_listed k u (sym (left_there k ne) ∙ found) opens in
        (live_other st h k false ne ∙ alive, route_kept u.uid k real ne listed)
  ]

  sound_left :
      (u k : ℕ)
      → lookup (left.pool).sesses u ≡ some k
      → (x : UsrSession) × (lookup (left.pool).heap k ≡ some x)
        × (x.ws ≢ no_ws)
        × (is_positive u ≡ true)
  sound_left u k listed = elim (key_cases s.uid u) [
    | inl e ↦ absurd (
        none-ne-some k
          (sym (lookup-remove (st.pool).sesses s.uid) ∙ ap (lookup (left.pool).sesses) e ∙ listed))
    | inr other ↦
        let (x, found, ws, positive) =
          v.sound u k (sym (lookup-remove_other (st.pool).sesses s.uid u other) ∙ listed) in
        elim (key_cases h k) [
          | inl e ↦
              let same : x ≡ s =
                some_injective x s (sym found ∙ ap (lookup (st.pool).heap) (sym e) ∙ at) in
              (
                record s { ws = close_if s.ws },
                ap (lookup (left.pool).heap) (sym e) ∙ left_here,
                close_if-ne-no_ws s.ws (λ nil. ws (ap (λ y. y.ws) same ∙ nil)),
                positive,
              )
          | inr ne ↦ (x, left_there k ne ∙ found, ws, positive)
        ]
  ]

  pub left-Orderly : is_positive s.uid ≡ true → Orderly left
  left-Orderly real = record {
    known = known_left real;
    open_listed = open_left real;
    sound = sound_left;
  }
