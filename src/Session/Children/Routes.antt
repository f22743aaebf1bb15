-- ===== src/Session/Children/Routes.antt =====
-- `devLogout` leaves no route to the device or to a device behind it.
use erina.Base.{
  same_ne, true, ℕ, ◌==◌, ◌≡◌, ◌≢◌, ◌⊎◌, refl, sym, ap, ◌∙◌, List, [], ◌∷◌, ◌++◌, none, Map, lookup,
  remove, key_cases, lookup-remove, lookup-remove_other, inl, inr, nat_key, text_key, Bool, false,
}
use erina.Session.Types.{Text, DevSession, Pool}
use erina.Session.Children.{
  Done, Event, without_child, drop_children, drop_device, dev_logout, logged_out, route_dropped,
  users_told,
}

-- A key that is gone, or that is listed.
abbrev Going : Map ℕ Text → Pool → ℕ → Type 0
Going devs p k = (lookup p.sesses k ≡ none) ⊎ (lookup devs k ≢ none)

removed_stays : (p : Map ℕ ℕ) (id k : ℕ) → lookup p k ≡ none → lookup (remove p id) k ≡ none
removed_stays p id k e = elim (key_cases id k) [
  | inl q ↦ ap (lookup (remove p id)) (sym q) ∙ lookup-remove p id
  | inr q ↦ lookup-remove_other p id k q ∙ e
]

drop_children-sesses :
    (devs : Map ℕ Text) (s : DevSession) (p : Pool) (events : List Event) (k : ℕ)
    → Going devs p k
    → lookup (drop_children devs s p events).pool.sesses k ≡ none
unfolding drop_children
drop_children-sesses [] s p events k (inl e) = e
drop_children-sesses [] s p events k (inr e) = absurd (e refl)
drop_children-sesses ((id, mac) ∷ devs) s p events k going =
    let q : Pool = record p { sesses = remove p.sesses id; macs = remove p.macs mac } in
    drop_children-sesses devs (without_child s id mac) q
      (events ++ (logged_out id mac ∷ route_dropped id ∷ [])) k
      (elim (key_cases id k) [
        | inl same ↦ inl (ap (lookup (remove p.sesses id)) (sym same) ∙ lookup-remove p.sesses id)
        | inr ne ↦ elim going [
          | inl e ↦ inl (removed_stays p.sesses id k e)
          | inr e ↦ inr λ rest.
              let other : (k == id) ≡ false = same_ne ⦃k = nat_key⦄ k id λ q. ne (sym q) in
              e (rw other rest)
        ]
      ])

-- For a session that has logged in: after `devLogout` the table has no route to the device nor to
-- any device that the session listed, and neither the session's id nor its MAC finds it.
pub dev_logout-sesses :
    (s : DevSession) (killed : Bool) (p : Pool) (k : ℕ)
    → s.dev_id ≢ 0
    → (s.dev_id ≡ k) ⊎ (lookup s.devs k ≢ none)
    → (lookup (dev_logout s killed p).pool.sesses k ≡ none)
      × (lookup (dev_logout s killed p).pool.sids s.sid ≡ none)
      × (lookup (dev_logout s killed p).pool.macs s.mac ≡ none)
unfolding dev_logout drop_device
dev_logout-sesses s killed p k here going =
    let logged : (s.dev_id == 0) ≡ false = same_ne ⦃k = nat_key⦄ s.dev_id 0 here in
    let told : List Event = users_told s.dev_id true ∷ [] in
    let d : Done = drop_children s.devs s p told in
    let gone : lookup (remove (d.pool).sesses s.dev_id) k ≡ none = elim going [
      | inl same ↦
          ap (lookup (remove (d.pool).sesses s.dev_id)) (sym same)
          ∙ lookup-remove (d.pool).sesses s.dev_id
      | inr listed ↦
          removed_stays (d.pool).sesses s.dev_id k
            (drop_children-sesses s.devs s p told k (inr listed))
    ] in
    rw logged (gone, lookup-remove (d.pool).sids s.sid, lookup-remove (d.pool).macs s.mac)
