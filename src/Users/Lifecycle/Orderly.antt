-- ===== src/Users/Lifecycle/Orderly.antt =====
-- The invariant of the users' sessions, and what one change of a session, of an arrival or of a
-- departure does to it.
use erina.Base.{
  ℕ, ◌≡◌, ◌≢◌, ◌⊎◌, inl, inr, sym, ap, ◌∙◌, arith, true, none, some, lookup, insert, nat_key,
  key_cases, lookup-insert, lookup-insert_other,
}
use erina.Outcome.Laws.{some_injective}
use erina.Users.Types.{UsrSession, no_ws, opened, shut, minus_one}
use erina.Users.Offline.{is_positive}
use erina.Users.Lifecycle.{Life}

pub none-ne-some {ℓ} : {A : Type ℓ} (a : A) → none ≢ some a
none-ne-some a e = ground arith

-- A live session has lost its user id or is the one that the table lists; a session with an open
-- socket is live and listed; and what is listed is a session with a socket, of a user.
pub record Orderly (st : Life) : Type 0 where
  pub known :
      (h : ℕ)
      → st.live h ≡ true
      → (s : UsrSession) × (lookup (st.pool).heap h ≡ some s)
        × ((s.uid ≡ minus_one) ⊎ (lookup (st.pool).sesses s.uid ≡ some h))
  pub open_listed :
      (h : ℕ) (s : UsrSession)
      → lookup (st.pool).heap h ≡ some s
      → s.ws ≡ opened
      → (st.live h ≡ true) × (lookup (st.pool).sesses s.uid ≡ some h)
  pub sound :
      (u h : ℕ)
      → lookup (st.pool).sesses u ≡ some h
      → (s : UsrSession) × (lookup (st.pool).heap h ≡ some s)
        × (s.ws ≢ no_ws)
        × (is_positive u ≡ true)

shut-ne-opened : shut ≢ opened
shut-ne-opened e = ground arith

-- A session is changed: its socket is closed, or stays with its user; its user stays or is lost.
pub record Changes (s t : UsrSession) : Type 0 where
  pub socket : (t.ws ≡ shut) ⊎ ((t.ws ≡ s.ws) × (t.uid ≡ s.uid))
  pub user : (t.uid ≡ s.uid) ⊎ (t.uid ≡ minus_one)

module _ (st : Life) (v : Orderly st) (h : ℕ) (s t : UsrSession)
    (at : lookup (st.pool).heap h ≡ some s) (c : Changes s t) where
  abbrev pub touched : Life
  touched = record st { pool = record (st.pool) { heap = insert (st.pool).heap h t } }

  here : lookup (touched.pool).heap h ≡ some t
  here = lookup-insert (st.pool).heap h t

  there : (k : ℕ) → h ≢ k → lookup (touched.pool).heap k ≡ lookup (st.pool).heap k
  there k ne = lookup-insert_other (st.pool).heap h k t ne

  known_touched :
      (k : ℕ)
      → st.live k ≡ true
      → (u : UsrSession) × (lookup (touched.pool).heap k ≡ some u)
        × ((u.uid ≡ minus_one) ⊎ (lookup (st.pool).sesses u.uid ≡ some k))
  known_touched k alive = elim (key_cases h k) [
    | inl e ↦
        let (u, found, why) = v.known k alive in
        let same : u ≡ s =
          some_injective u s (sym found ∙ ap (lookup (st.pool).heap) (sym e) ∙ at) in
        (
          t,
          ap (lookup (touched.pool).heap) (sym e) ∙ here,
          elim c.user [
            | inr lost ↦ inl lost
            | inl kept ↦ elim why [
              | inl gone ↦ inl (kept ∙ ap (λ x. x.uid) (sym same) ∙ gone)
              | inr there_is ↦
                  inr (ap (lookup (st.pool).sesses) (kept ∙ ap (λ x. x.uid) (sym same)) ∙ there_is)
            ]
          ],
        )
    | inr ne ↦ let (u, found, why) = v.known k alive in (u, there k ne ∙ found, why)
  ]

  open_touched :
      (k : ℕ) (u : UsrSession)
      → lookup (touched.pool).heap k ≡ some u
      → u.ws ≡ opened
      → (st.live k ≡ true) × (lookup (st.pool).sesses u.uid ≡ some k)
  open_touched k u found is_open = elim (key_cases h k) [
    | inl e ↦
        let same : u ≡ t =
          some_injective u t (sym found ∙ ap (lookup (touched.pool).heap) (sym e) ∙ here) in
        elim c.socket [
          | inl closed ↦ absurd (shut-ne-opened (sym closed ∙ ap (λ x. x.ws) (sym same) ∙ is_open))
          | inr (kept, user) ↦
              let (alive, listed) =
                v.open_listed k s (ap (lookup (st.pool).heap) (sym e) ∙ at)
                  (sym kept ∙ ap (λ x. x.ws) (sym same) ∙ is_open) in
              (alive, ap (lookup (st.pool).sesses) (ap (λ x. x.uid) same ∙ user) ∙ listed)
        ]
    | inr ne ↦ v.open_listed k u (sym (there k ne) ∙ found) is_open
  ]

  sound_touched :
      (u k : ℕ)
      → lookup (st.pool).sesses u ≡ some k
      → (x : UsrSession) × (lookup (touched.pool).heap k ≡ some x)
        × (x.ws ≢ no_ws)
        × (is_positive u ≡ true)
  sound_touched u k listed = elim (key_cases h k) [
    | inl e ↦
        let (x, found, some_ws, real) = v.sound u k listed in
        let same : x ≡ s =
          some_injective x s (sym found ∙ ap (lookup (st.pool).heap) (sym e) ∙ at) in
        (
          t,
          ap (lookup (touched.pool).heap) (sym e) ∙ here,
          λ nil. elim c.socket [
            | inl closed ↦ ground arith
            | inr (kept, user) ↦ some_ws (ap (λ y. y.ws) same ∙ sym kept ∙ nil)
          ],
          real,
        )
    | inr ne ↦
        let (x, found, some_ws, real) = v.sound u k listed in (x, there k ne ∙ found, some_ws, real)
  ]

  pub touched-Orderly : Orderly touched
  touched-Orderly = record {
    known = known_touched;
    open_listed = open_touched;
    sound = sound_touched;
  }
