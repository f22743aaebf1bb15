-- ===== src/Users/Lifecycle/Adding.antt =====
-- `AddSession` of srv/ms.go, for a new session, succeeds and keeps the sessions orderly.
use erina.Base.{
  ℕ, ◌≡◌, ◌≢◌, inl, inr, refl, sym, ap, ◌∙◌, true, Option, none, some, lookup, insert, nat_key,
  key_cases, lookup-insert, lookup-insert_other,
}
use erina.Base.Partial.{◌>>=◌}
use erina.Outcome.Laws.{some_injective}
use erina.Users.Types.{UsrSession, UsrSessionPool, Ws, no_ws, opened, shut, minus_one, close_ws}
use erina.Users.Pool.{add_session, supersede, supersede_at}
use erina.Users.Offline.{is_positive}
use erina.Users.Lifecycle.{Life, set_live, arrived}
use erina.Users.Lifecycle.Orderly.{Orderly, Changes, touched, touched-Orderly, none-ne-some}
use erina.Users.Lifecycle.Coming.{agree-Orderly, entered, entered-Orderly}

pub close_ws-some : (w : Ws) → w ≢ no_ws → close_ws w ≡ some shut
close_ws-some no_ws ne = absurd (ne refl)
close_ws-some opened ne = refl
close_ws-some shut ne = refl

-- What `AddSession` leaves, given what the closing of the former session leaves.
pub add_session_lem :
    (p p0 : UsrSessionPool) (h : ℕ) (s : UsrSession)
    → lookup p.heap h ≡ some s
    → supersede_at p (lookup p.sesses s.uid) ≡ some p0
    → lookup p0.heap h ≡ some s
    → add_session p h ≡ some (record p0 { sesses = insert p0.sesses s.uid h })
unfolding add_session
add_session_lem p p0 h s at over still =
    ap
      (λ o. o >>= λ t. supersede_at p (lookup p.sesses t.uid) >>= λ q.
        lookup q.heap h >>= λ u. some (record q { sesses = insert q.sesses u.uid h }))
      at
    ∙ ap
        (λ o.
          o >>= λ q. lookup q.heap h >>= λ u. some (record q { sesses = insert q.sesses u.uid h }))
        over
    ∙ ap (λ o. o >>= λ u. some (record p0 { sesses = insert p0.sesses u.uid h })) still

-- The pool that `AddSession` leaves for a new session, and that it keeps order.
module _ (st : Life) (v : Orderly st) (h : ℕ) (s : UsrSession)
    (free : lookup (st.pool).heap h ≡ none) (is_open : s.ws ≡ opened)
    (real : is_positive s.uid ≡ true) where
  abbrev Kept : UsrSessionPool → Type 0
  Kept q = Orderly (record { pool = q; live = set_live st h true })

  at_new : lookup (arrived st h s).heap h ≡ some s
  at_new = lookup-insert (st.pool).heap h s

  added_first :
      lookup (st.pool).sesses s.uid ≡ none
      → (q : UsrSessionPool) × (add_session (arrived st h s) h ≡ some q)
        × Kept q
        × (lookup q.sesses s.uid ≡ some h)
  added_first e = (
    (entered st v h s free is_open real
        λ k u listed found. absurd (none-ne-some k (sym e ∙ listed))).pool,
    add_session_lem (arrived st h s) (arrived st h s) h s at_new
        (ap (supersede_at (arrived st h s)) e) at_new,
    (entered-Orderly st v h s free is_open real
        λ k u listed found. absurd (none-ne-some k (sym e ∙ listed))),
    lookup-insert (st.pool).sesses s.uid h,
  )

  added_again :
      (a : ℕ)
      → lookup (st.pool).sesses s.uid ≡ some a
      → (q : UsrSessionPool) × (add_session (arrived st h s) h ≡ some q)
        × Kept q
        × (lookup q.sesses s.uid ≡ some h)
  added_again a e =
      let (other, found, ws, _) = v.sound s.uid a e in
      let gone : UsrSession = record other { ws = shut; uid = minus_one } in
      let ne : a ≢ h =
        λ q. none-ne-some other (sym free ∙ ap (lookup (st.pool).heap) (sym q) ∙ found) in
      let ne' : h ≢ a = λ q. ne (sym q) in
      let c : Changes other gone = record { socket = inl refl; user = inr refl } in
      let st1 : Life = touched st v a other gone found c in
      let v1 : Orderly st1 = touched-Orderly st v a other gone found c in
      let free1 : lookup (st1.pool).heap h ≡ none =
        lookup-insert_other (st.pool).heap a h gone ne ∙ free in
      let former : (k : ℕ) (u : UsrSession)
          → lookup (st1.pool).sesses s.uid ≡ some k
          → lookup (st1.pool).heap k ≡ some u
          → (u.uid ≡ minus_one) × (u.ws ≡ shut) =
        λ k u listed at.
          let same : a ≡ k = some_injective a k (sym e ∙ listed) in
          let is_gone : u ≡ gone = some_injective u gone (
            sym at
            ∙ ap (lookup (st1.pool).heap) (sym same)
            ∙ lookup-insert (st.pool).heap a gone) in
          (ap (λ x. x.uid) is_gone, ap (λ x. x.ws) is_gone) in
      let st2 : Life = entered st1 v1 h s free1 is_open real former in
      let p : UsrSessionPool = arrived st h s in
      let p0 : UsrSessionPool = record p { heap = insert p.heap a gone } in
      let q : UsrSessionPool = record p0 { sesses = insert p0.sesses s.uid h } in
      let at_a : lookup p.heap a ≡ some other =
        lookup-insert_other (st.pool).heap h a s ne' ∙ found in
      let over : supersede p a ≡ some p0 =
        ap
          (λ o. o >>= λ x. close_ws x.ws >>= λ w.
            some (record p { heap = insert p.heap a (record x { ws = w; uid = minus_one }) }))
          at_a
        ∙ ap
            (λ o. o >>= λ w.
              some (record p { heap = insert p.heap a (record other { ws = w; uid = minus_one }) }))
            (close_ws-some other.ws ws) in
      let still : lookup p0.heap h ≡ some s = lookup-insert_other p.heap a h gone ne ∙ at_new in
      let same_heap : (k : ℕ) → lookup q.heap k ≡ lookup (st2.pool).heap k = λ k.
        elim (key_cases a k) [
          | inl x ↦
              ap (lookup q.heap) (sym x)
              ∙ lookup-insert p.heap a gone
              ∙ sym (lookup-insert (st.pool).heap a gone)
              ∙ sym (lookup-insert_other (st1.pool).heap h a s ne')
              ∙ ap (lookup (st2.pool).heap) x
          | inr x ↦ elim (key_cases h k) [
            | inl y ↦
                ap (lookup q.heap) (sym y)
                ∙ still
                ∙ sym (lookup-insert (st1.pool).heap h s)
                ∙ ap (lookup (st2.pool).heap) y
            | inr y ↦
                lookup-insert_other p.heap a k gone x
                ∙ lookup-insert_other (st.pool).heap h k s y
                ∙ sym (lookup-insert_other (st.pool).heap a k gone x)
                ∙ sym (lookup-insert_other (st1.pool).heap h k s y)
          ]
        ] in
      (
        q,
        add_session_lem p p0 h s at_new (ap (supersede_at p) e ∙ over) still,
        agree-Orderly st2 (record { pool = q; live = set_live st h true })
            (entered-Orderly st1 v1 h s free1 is_open real former) same_heap refl (λ k. refl),
        lookup-insert (st.pool).sesses s.uid h,
      )

  -- `AddSession` succeeds.
  pub added :
      (q : UsrSessionPool) × (add_session (arrived st h s) h ≡ some q)
      × Kept q
      × (lookup q.sesses s.uid ≡ some h)
  added = at_route (lookup (st.pool).sesses s.uid) refl
    where
      at_route :
          (o : Option ℕ)
          → lookup (st.pool).sesses s.uid ≡ o
          → (q : UsrSessionPool) × (add_session (arrived st h s) h ≡ some q)
            × Kept q
            × (lookup q.sesses s.uid ≡ some h)
      at_route none e = added_first e
      at_route (some a) e = added_again a e
