-- ===== src/Users/Lifecycle/Coming.antt =====
-- The invariant of the users' sessions, when a session is added and when it is taken out.
use erina.Base.{
  ℕ, ◌≡◌, ◌≢◌, ◌⊎◌, inl, inr, refl, sym, ap, ◌∙◌, arith, true, none, some, Bool, lookup, insert,
  nat_key, key_cases, lookup-insert, lookup-insert_other, same_ne, same_refl,
}
use erina.Outcome.Laws.{some_injective}
use erina.Users.Types.{UsrSession, no_ws, opened, shut, minus_one}
use erina.Users.Offline.{is_positive}
use erina.Users.Lifecycle.{Life, set_live}
use erina.Users.Lifecycle.Orderly.{Orderly, none-ne-some}

pub live_same : (st : Life) (h : ℕ) (b : Bool) → set_live st h b h ≡ b
live_same st h b = rw (same_refl h) refl

pub live_other : (st : Life) (h k : ℕ) (b : Bool) → h ≢ k → set_live st h b k ≡ st.live k
live_other st h k b ne = rw (same_ne k h λ e. ne (sym e)) refl

-- The invariant looks at the heap by its pointers only.
pub agree-Orderly :
    (st st' : Life)
    → Orderly st
    → ((k : ℕ) → lookup (st'.pool).heap k ≡ lookup (st.pool).heap k)
    → (st'.pool).sesses ≡ (st.pool).sesses
    → ((k : ℕ) → st'.live k ≡ st.live k)
    → Orderly st'
agree-Orderly st st' v heap sesses live = record {
  known = λ h alive.
      let (s, found, why) = v.known h (sym (live h) ∙ alive) in
      (
        s,
        heap h ∙ found,
        elim why [ inl e ↦ inl e | inr e ↦ inr (ap (λ m. lookup m s.uid) sesses ∙ e) ],
      );
  open_listed = λ h s found is_open.
      let (alive, listed) = v.open_listed h s (sym (heap h) ∙ found) is_open in
      (live h ∙ alive, ap (λ m. lookup m s.uid) sesses ∙ listed);
  sound = λ u h listed.
      let (s, found, ws, real) = v.sound u h (sym (ap (λ m. lookup m u) sesses) ∙ listed) in
      (s, heap h ∙ found, ws, real);
}

-- A session arrives for a user whose former session, if there is one, is closed.
module _ (st : Life) (v : Orderly st) (h : ℕ) (s : UsrSession)
    (free : lookup (st.pool).heap h ≡ none) (is_open : s.ws ≡ opened)
    (real : is_positive s.uid ≡ true)
    (former : (k : ℕ) (u : UsrSession)
      → lookup (st.pool).sesses s.uid ≡ some k
      → lookup (st.pool).heap k ≡ some u
      → (u.uid ≡ minus_one) × (u.ws ≡ shut)) where
  abbrev pub entered : Life
  entered = record {
    pool = record { heap = insert (st.pool).heap h s; sesses = insert (st.pool).sesses s.uid h };
    live = set_live st h true;
  }

  new_here : lookup (entered.pool).heap h ≡ some s
  new_here = lookup-insert (st.pool).heap h s

  old_there : (k : ℕ) → h ≢ k → lookup (entered.pool).heap k ≡ lookup (st.pool).heap k
  old_there k ne = lookup-insert_other (st.pool).heap h k s ne

  route_other : (u : ℕ) → s.uid ≢ u → lookup (entered.pool).sesses u ≡ lookup (st.pool).sesses u
  route_other u ne = lookup-insert_other (st.pool).sesses s.uid u h ne

  known_entered :
      (k : ℕ)
      → entered.live k ≡ true
      → (u : UsrSession) × (lookup (entered.pool).heap k ≡ some u)
        × ((u.uid ≡ minus_one) ⊎ (lookup (entered.pool).sesses u.uid ≡ some k))
  known_entered k alive = elim (key_cases h k) [
    | inl e ↦ (
      s,
      ap (lookup (entered.pool).heap) (sym e) ∙ new_here,
      inr (lookup-insert (st.pool).sesses s.uid h ∙ ap some e),
    )
    | inr ne ↦
        let (u, found, why) = v.known k (sym (live_other st h k true ne) ∙ alive) in
        (
          u,
          old_there k ne ∙ found,
          elim why [
            | inl lost ↦ inl lost
            | inr listed ↦ elim (key_cases s.uid u.uid) [
              | inl same ↦ inl (former k u (ap (lookup (st.pool).sesses) same ∙ listed) found).0
              | inr other ↦ inr (route_other u.uid other ∙ listed)
            ]
          ],
        )
  ]

  open_entered :
      (k : ℕ) (u : UsrSession)
      → lookup (entered.pool).heap k ≡ some u
      → u.ws ≡ opened
      → (entered.live k ≡ true) × (lookup (entered.pool).sesses u.uid ≡ some k)
  open_entered k u found opens = elim (key_cases h k) [
    | inl e ↦
        let same : u ≡ s =
          some_injective u s (sym found ∙ ap (lookup (entered.pool).heap) (sym e) ∙ new_here) in
        (
          ap entered.live (sym e) ∙ live_same st h true,
          ap (λ x. lookup (entered.pool).sesses x.uid) same
              ∙ lookup-insert (st.pool).sesses s.uid h
              ∙ ap some e,
        )
    | inr ne ↦
        let at : lookup (st.pool).heap k ≡ some u = sym (old_there k ne) ∙ found in
        let (alive, listed) = v.open_listed k u at opens in
        elim (key_cases s.uid u.uid) [
          | inl same ↦
              let (_, closed) = former k u (ap (lookup (st.pool).sesses) same ∙ listed) at in
              absurd (ground arith)
          | inr other ↦ (live_other st h k true ne ∙ alive, route_other u.uid other ∙ listed)
        ]
  ]

  sound_entered :
      (u k : ℕ)
      → lookup (entered.pool).sesses u ≡ some k
      → (x : UsrSession) × (lookup (entered.pool).heap k ≡ some x)
        × (x.ws ≢ no_ws)
        × (is_positive u ≡ true)
  sound_entered u k listed = elim (key_cases s.uid u) [
    | inl e ↦
        let same : h ≡ k = some_injective h k (
          sym (lookup-insert (st.pool).sesses s.uid h)
          ∙ ap (lookup (entered.pool).sesses) e
          ∙ listed) in
        (
          s,
          ap (lookup (entered.pool).heap) (sym same) ∙ new_here,
          λ nil. ground arith,
          ap is_positive (sym e) ∙ real,
        )
    | inr other ↦
        let (x, found, ws, positive) = v.sound u k (sym (route_other u other) ∙ listed) in
        let ne : h ≢ k = λ e. none-ne-some x (sym free ∙ ap (lookup (st.pool).heap) e ∙ found) in
        (x, old_there k ne ∙ found, ws, positive)
  ]

  pub entered-Orderly : Orderly entered
  entered-Orderly = record {
    known = known_entered;
    open_listed = open_entered;
    sound = sound_entered;
  }
