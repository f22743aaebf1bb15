-- ===== src/Session/Children/Paired.antt =====
-- The two tables of a session's devices stay each other's inverse.
use erina.Base.{
  ℕ, ◌≡◌, ◌≢◌, ◌↔◌, refl, sym, ap, ◌∙◌, arith, [], ◌∷◌, ◌++◌, Option, none, some, Map, lookup,
  insert, remove, key_cases, lookup-insert, lookup-insert_other, lookup-remove, lookup-remove_other,
  inl, inr, take, nat_key, text_key, length, ◌≤◌, false,
}
use erina.Words.{Bytes, slice, hex_encode, to_le}
use erina.Words.Laws.{slice_lem}
use erina.Outcome.{Outcome, ok}
use erina.Outcome.Laws.{some_injective}
use erina.Session.Types.{Text, DevSession, Pool}
use erina.Session.Children.{
  sl_for, enlist, logout_for, drop_child, published, logged_in, address_set, route_set, users_told,
  with_child, without_child, resolve, enlist, on_sl, on_logout, subdevlogout, Done,
}

unfoldable pub Paired : DevSession → Type 0
Paired s = (id : ℕ) (mac : Text) → (lookup s.devs id ≡ some mac) ↔ (lookup s.macs mac ≡ some id)

none-ne-some {ℓ} : {A : Type ℓ} (a : A) → none ≢ some a
none-ne-some a e = ground arith

pair_at :
    (s : DevSession) (id : ℕ) (mac : Text)
    → Paired s
    → lookup s.devs id ≡ some mac
    → lookup s.macs mac ≡ some id
unfolding Paired
pair_at s id mac old e = (old id mac).0 e

module _ (s : DevSession) (id : ℕ) (mac : Text) (old : Paired s) where
  without_child-Paired : lookup s.macs mac ≡ some id → Paired (without_child s id mac)
  unfolding Paired
  without_child-Paired there k n = (
    λ e.
        let k_ne : id ≢ k = λ q.
          none-ne-some n (sym (lookup-remove s.devs id) ∙ ap (lookup (remove s.devs id)) q ∙ e) in
        let by_mac : lookup s.macs n ≡ some k =
          (old k n).0 (sym (lookup-remove_other s.devs id k k_ne) ∙ e) in
        let n_ne : mac ≢ n =
          λ q. k_ne (some_injective id k (sym there ∙ ap (lookup s.macs) q ∙ by_mac)) in
        lookup-remove_other s.macs mac n n_ne ∙ by_mac,
    λ e.
        let n_ne : mac ≢ n = λ q.
          none-ne-some k (sym (lookup-remove s.macs mac) ∙ ap (lookup (remove s.macs mac)) q ∙ e) in
        let by_id : lookup s.devs k ≡ some n =
          (old k n).1 (sym (lookup-remove_other s.macs mac n n_ne) ∙ e) in
        let k_ne : id ≢ k = λ q.
          n_ne (some_injective mac n (sym ((old id mac).1 there) ∙ ap (lookup s.devs) q ∙ by_id)) in
        lookup-remove_other s.devs id k k_ne ∙ by_id,
  )

  pub with_child-Paired :
      lookup s.macs mac ≡ none → lookup s.devs id ≡ none → Paired (with_child s id mac)
  unfolding Paired
  with_child-Paired new free k n = (
    λ e. elim (key_cases id k) [
      | inl q ↦
          let same : mac ≡ n =
            some_injective mac n
              (sym (lookup-insert s.devs id mac) ∙ ap (lookup (insert s.devs id mac)) q ∙ e) in
          ap (lookup (insert s.macs mac id)) (sym same) ∙ lookup-insert s.macs mac id ∙ ap some q
      | inr q ↦
          let by_mac : lookup s.macs n ≡ some k =
            (old k n).0 (sym (lookup-insert_other s.devs id k mac q) ∙ e) in
          let other : mac ≢ n =
            λ same. none-ne-some k (sym new ∙ ap (lookup s.macs) same ∙ by_mac) in
          lookup-insert_other s.macs mac n id other ∙ by_mac
    ],
    λ e. elim (key_cases mac n) [
      | inl q ↦
          let same : id ≡ k =
            some_injective id k
              (sym (lookup-insert s.macs mac id) ∙ ap (lookup (insert s.macs mac id)) q ∙ e) in
          ap (lookup (insert s.devs id mac)) (sym same) ∙ lookup-insert s.devs id mac ∙ ap some q
      | inr q ↦
          let by_id : lookup s.devs k ≡ some n =
            (old k n).1 (sym (lookup-insert_other s.macs mac n id q) ∙ e) in
          let other : id ≢ k =
            λ same. none-ne-some n (sym free ∙ ap (lookup s.devs) same ∙ by_id) in
          lookup-insert_other s.devs id k mac other ∙ by_id
    ],
  )

logout_for-Paired :
    (s : DevSession) (p : Pool) (front : Bytes) (o : Option ℕ)
    → Paired s
    → lookup s.macs (hex_encode front) ≡ o
    → Paired (logout_for s p front o).session
      × (lookup (logout_for s p front o).session.macs (hex_encode front) ≡ none)
unfolding logout_for
logout_for-Paired s p front none old e = (old, e)
logout_for-Paired s p front (some id) old e =
    (without_child-Paired s id (hex_encode front) old e, lookup-remove s.macs (hex_encode front))

-- `onLogout` of a body of at least eight bytes, for a session whose two tables are each other's
-- inverse: it does not panic, the tables stay each other's inverse, and neither lists the MAC.
pub on_logout-Paired :
    (s : DevSession) (p : Pool) (body : Bytes)
    → Paired s
    → 8 ≤ length body
    → (d : Done) × (on_logout s p body ≡ some d)
      × Paired d.session
      × (lookup (d.session).macs (hex_encode (take 8 body)) ≡ none)
unfolding on_logout
on_logout-Paired s p body old long =
    let front : slice body 0 8 ≡ some (take 8 body) = slice_lem body 0 8 (omega arith) long in
    let o : Option ℕ = lookup s.macs (hex_encode (take 8 body)) in
    let (paired, gone) = logout_for-Paired s p (take 8 body) o old refl in
    (logout_for s p (take 8 body) o, rw front refl, paired, gone)

drop_child-Paired :
    (s : DevSession) (p : Pool) (id : ℕ) (o : Option Text)
    → Paired s
    → lookup s.devs id ≡ o
    → Paired (drop_child s p id o).session × (lookup (drop_child s p id o).session.devs id ≡ none)
unfolding drop_child
drop_child-Paired s p id none old e = (old, e)
drop_child-Paired s p id (some mac) old e =
    (without_child-Paired s id mac old (pair_at s id mac old e), lookup-remove s.devs id)

-- `subdevlogout` of any device, for such a session: the tables stay each other's inverse, and the
-- device is not listed any more.
pub subdevlogout-Paired :
    (s : DevSession) (p : Pool) (id : ℕ)
    → Paired s
    → Paired (subdevlogout s p id).session × (lookup (subdevlogout s p id).session.devs id ≡ none)
unfolding subdevlogout
subdevlogout-Paired s p id old = drop_child-Paired s p id (lookup s.devs id) old refl

abbrev enlisted : DevSession → ℕ → Pool → Bytes → ℕ → Done
enlisted s h p front id = record {
  text = some (to_le 4 0 ++ front);
  error = none;
  session = with_child s id (hex_encode front);
  pool = record p { sesses = insert p.sesses id h };
  events =
      published id
      ∷ logged_in id (hex_encode front)
      ∷ address_set id
      ∷ route_set id
      ∷ users_told id false
      ∷ [];
}

sl_for-new :
    (s : DevSession) (h : ℕ) (p : Pool) (front : Bytes) (id : ℕ)
    → sl_for s h p front none (ok id) ≡ some (enlisted s h p front id)
unfolding sl_for enlist
sl_for-new s h p front id = refl

-- `onSL` of a body of at least eight bytes, for such a session, where the MAC's id is resolved and
-- is not listed under another MAC: it does not panic, the tables stay each other's inverse, and a
-- device that was not listed is routed to this session.
pub on_sl-Paired :
    (mac2id : Map Text ℕ) (asks : Text → Outcome ℕ) (s : DevSession) (h : ℕ) (p : Pool)
    (body : Bytes) (id : ℕ)
    → Paired s
    → 8 ≤ length body
    → resolve mac2id asks (hex_encode (take 8 body)) ≡ ok id
    → lookup s.devs id ≡ none
    → lookup s.macs (hex_encode (take 8 body)) ≡ none
    → (d : Done) × (on_sl mac2id asks s h p body ≡ some d)
      × Paired d.session
      × (lookup (d.session).devs id ≡ some (hex_encode (take 8 body)))
      × (lookup (d.pool).sesses id ≡ some h)
unfolding on_sl
on_sl-Paired mac2id asks s h p body id old long resolved free new =
    let front : slice body 0 8 ≡ some (take 8 body) = slice_lem body 0 8 (omega arith) long in
    let mac : Text = hex_encode (take 8 body) in
    (
      enlisted s h p (take 8 body) id,
      rw front (
          (λ i. sl_for s h p (take 8 body) (new i) (resolved i))
          ∙ sl_for-new s h p (take 8 body) id),
      with_child-Paired s id mac old new free,
      lookup-insert s.devs id mac,
      lookup-insert p.sesses id h,
    )
