-- ===== src/Users/Superseded.antt =====
-- A user who logs in again, and the end of the earlier session.
use erina.Users.Pool.{close_if, add_session, remove_session, supersede, supersede_at}
use erina.Base.{
  ℕ, ◌≡◌, ◌≢◌, refl, ap, sym, ◌∙◌, some, lookup, insert, remove, nat_key, lookup-insert,
  lookup-insert_other, lookup-remove_other,
}
use erina.Base.Partial.{◌>>=◌}
use erina.Users.Types.{UsrSession, UsrSessionPool, opened, shut, minus_one}

-- For a session, at one pointer, of a user who has another one with an open socket, at another
-- pointer, in the table: `AddSession` does not panic, closes the other one's socket and enters the
-- new one, and when the other one is then removed by `RemoveSession`, the user still has the new one.
pub add_session-remove_session :
    (p : UsrSessionPool) (h a : ℕ) (s other : UsrSession)
    → lookup p.heap h ≡ some s
    → lookup p.heap a ≡ some other
    → lookup p.sesses s.uid ≡ some a
    → other.ws ≡ opened
    → a ≢ h
    → s.uid ≢ minus_one
    → (p1 : UsrSessionPool) × (p2 : UsrSessionPool) × (add_session p h ≡ some p1)
      × (lookup p1.heap a ≡ some (record other { ws = shut; uid = minus_one }))
      × (lookup p1.sesses s.uid ≡ some h)
      × (remove_session p1 a ≡ some p2)
      × (lookup p2.sesses s.uid ≡ some h)
      × (lookup p2.heap h ≡ some s)
unfolding add_session remove_session
add_session-remove_session p h a s other at_h at_a listed is_open ne real =
    let gone : UsrSession = record other { ws = shut; uid = minus_one } in
    let p0 : UsrSessionPool = record p { heap = insert p.heap a gone } in
    let p1 : UsrSessionPool = record p0 { sesses = insert p.sesses s.uid h } in
    let superseded : supersede p a ≡ some p0 = rw (at_a, is_open) refl in
    let still : lookup p0.heap h ≡ some s = lookup-insert_other p.heap a h gone ne ∙ at_h in
    let closed : lookup p0.heap a ≡ some gone = lookup-insert p.heap a gone in
    let entered : lookup p1.sesses s.uid ≡ some h = lookup-insert p.sesses s.uid h in
    (
      p1,
      record { heap = insert p0.heap a gone; sesses = remove p1.sesses minus_one },
      ap
            (λ o. o >>= λ t. supersede_at p (lookup p.sesses t.uid) >>= λ q.
              lookup q.heap h >>= λ u. some (record q { sesses = insert q.sesses u.uid h }))
            at_h
          ∙ ap
              (λ o. supersede_at p o >>= λ q.
                lookup q.heap h >>= λ u. some (record q { sesses = insert q.sesses u.uid h }))
              listed
          ∙ ap
              (λ o. o >>= λ q.
                lookup q.heap h >>= λ u. some (record q { sesses = insert q.sesses u.uid h }))
              superseded
          ∙ ap (λ o. o >>= λ u. some (record p0 { sesses = insert p0.sesses u.uid h })) still,
      closed,
      entered,
      ap
          (λ o. o >>= λ t. some (record {
            heap = insert p0.heap a (record t { ws = close_if t.ws });
            sesses = remove p1.sesses t.uid;
          }))
          closed,
      lookup-remove_other p1.sesses minus_one s.uid (λ e. real (sym e)) ∙ entered,
      lookup-insert_other p0.heap a h gone ne ∙ still,
    )
