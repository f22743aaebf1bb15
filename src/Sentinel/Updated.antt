-- ===== src/Sentinel/Updated.antt =====
-- What `update` of srv/sentinel.go leaves in the table of sentinels.
use erina.Base.{
  ==_refl, ℕ, ◌==◌, ◌≡◌, ◌≢◌, refl, ap, sym, ◌∙◌, subst, arith, not, ◌&&◌, if◌then◌else◌, Bool,
  true, false, List, [], ◌∷◌, Option, none, some, Map, lookup, text_key, text_same, Bool-cases, inl,
  inr, key_cases, same_ne, same_refl,
}
use erina.Sentinel.Routes.{listed, connect_all, disconnect, update}
use erina.Sentinel.Types.{Text, Sentinel, SentinelMgr}
use erina.Sentinel.Connected.{
  Unique, fresh, or_fresh, connect_all-or_fresh, connect_all-Unique, connect_all-usr2sentinel,
}

-- A sentinel of the kind that is not listed any more.
abbrev pub gone : ℕ → List Text → Text → Sentinel → Bool
gone t leaves a s = (s.kind == t) && not (listed a leaves)

abbrev pub keep : ℕ → List Text → Text → Option Sentinel → Option Sentinel
keep t leaves a none = none
keep t leaves a (some s) = if gone t leaves a s then none else some s

-- What is closed has a channel and a connection to close.
abbrev pub Closable : ℕ → List Text → Map Text Sentinel → Type 0
Closable t leaves m =
    (a : Text) (s : Sentinel)
    → lookup m a ≡ some s
    → gone t leaves a s ≡ true
    → (s.queue && s.con) ≡ true

none-ne-some_sentinel : (s : Sentinel) → none ≢ some s
none-ne-some_sentinel s e = ground arith

Closable-tail :
    (t : ℕ) (leaves : List Text) (b : Text) (s : Sentinel) (m : Map Text Sentinel)
    → lookup m b ≡ none
    → Closable t leaves ((b, s) ∷ m)
    → Closable t leaves m
Closable-tail t leaves b s m once q a r found dead = elim (key_cases a b) [
  | inl e ↦ absurd (none-ne-some_sentinel r (sym once ∙ ap (lookup m) (sym e) ∙ found))
  | inr ne ↦ let other : text_same a b ≡ false = same_ne a b ne in q a r (rw other found) dead
]

-- The second loop, entry by entry.
disconnect-keep :
    (t : ℕ) (leaves : List Text) (m : Map Text Sentinel)
    → Unique m
    → Closable t leaves m
    → (kept : Map Text Sentinel) × (disconnect t leaves m ≡ some kept)
      × ((a : Text) → lookup kept a ≡ keep t leaves a (lookup m a))
unfolding disconnect
disconnect-keep t leaves [] u q = ([], refl, λ a. refl)
disconnect-keep t leaves ((b, s) ∷ m) (once, u) q =
    let (kept, runs, same) = disconnect-keep t leaves m u (Closable-tail t leaves b s m once q) in
    elim (Bool-cases (gone t leaves b s)) [
      | inl dead ↦
          let queue : (s.queue && s.con) ≡ true = q b s (rw (same_refl b) refl) dead in
          (
            kept,
            rw (dead, queue) runs,
            λ a. elim (key_cases a b) [
              | inl e ↦
                  subst (λ x. lookup kept x ≡ keep t leaves x (lookup ((b, s) ∷ m) x)) (sym e)
                    (rw (same_refl b, dead) (same b ∙ ap (keep t leaves b) once))
              | inr ne ↦ rw (same_ne a b ne) (same a)
            ],
          )
      | inr alive ↦ (
        (b, s) ∷ kept,
        rw (alive, runs) refl,
        λ a. elim (key_cases a b) [
          | inl e ↦
              subst (λ x. lookup ((b, s) ∷ kept) x ≡ keep t leaves x (lookup ((b, s) ∷ m) x))
                (sym e) (rw (same_refl b, alive) refl)
          | inr ne ↦ rw (same_ne a b ne) (same a)
        ],
      )
    ]

module _ (dial : Text → Bool) (own : Text) (t : ℕ) where
  fresh-Closable :
      (a : Text) (wanted : Bool) (s : Sentinel)
      → fresh dial own t a wanted ≡ some s
      → (s.queue && s.con) ≡ true
  fresh-Closable a wanted s e = ground arith

  or_fresh-Closable :
      (leaves : List Text) (m : Map Text Sentinel) (a : Text) (o : Option Sentinel) (s : Sentinel)
      → Closable t leaves m
      → lookup m a ≡ o
      → or_fresh dial own t a (listed a leaves) o ≡ some s
      → gone t leaves a s ≡ true
      → (s.queue && s.con) ≡ true
  or_fresh-Closable leaves m a none s q found e dead = fresh-Closable a (listed a leaves) s e
  or_fresh-Closable leaves m a (some r) s q found e dead = q a s (found ∙ e) dead

  keep-fresh :
      (leaves : List Text) (a : Text)
      → keep t leaves a (fresh dial own t a (listed a leaves))
        ≡ fresh dial own t a (listed a leaves)
  keep-fresh leaves a = elim (Bool-cases (listed a leaves)) [
    | inl l ↦ elim (Bool-cases (not (text_same a own) && dial a)) [
      | inl e ↦ rw (l, e, l, ==_refl t) refl
      | inr e ↦ rw (l, e) refl
    ]
    | inr l ↦ rw l refl
  ]

  -- What `update` makes of an address: a sentinel stays, unless it is of the kind and not listed;
  -- where there is none, one comes if the address is listed, is not the gateway's own and answers.
  abbrev pub updated : List Text → Text → Option Sentinel → Option Sentinel
  updated leaves a (some s) = if gone t leaves a s then none else some s
  updated leaves a none = fresh dial own t a (listed a leaves)

  keep-or_fresh :
      (leaves : List Text) (a : Text) (o : Option Sentinel)
      → keep t leaves a (or_fresh dial own t a (listed a leaves) o) ≡ updated leaves a o
  keep-or_fresh leaves a none = keep-fresh leaves a
  keep-or_fresh leaves a (some s) = refl

  -- In a table with one sentinel for each address, in which every sentinel of the kind that is not
  -- listed any more has a channel and a connection: `update` does not panic, keeps the routes of the users, and at
  -- every address keeps the sentinel, unless it is of the kind and not listed, or makes one where
  -- there is none, if the address is listed, is not the gateway's own and answers.
  pub update-updated :
      (g : SentinelMgr) (leaves : List Text)
      → Unique g.sentinels
      → Closable t leaves g.sentinels
      → (g' : SentinelMgr) × (update dial own g leaves t ≡ some g')
        × (g'.usr2sentinel ≡ g.usr2sentinel)
        × ((a : Text) → lookup g'.sentinels a ≡ updated leaves a (lookup g.sentinels a))
  unfolding update
  update-updated g leaves u q =
      let g1 : SentinelMgr = connect_all dial own t g leaves in
      let spec = connect_all-or_fresh dial own t leaves g in
      let (kept, runs, same) =
        disconnect-keep t leaves g1.sentinels (connect_all-Unique dial own t leaves g u)
          λ a s found dead.
            or_fresh-Closable leaves g.sentinels a (lookup g.sentinels a) s q refl
              (sym (spec a) ∙ found) dead in
      (
        record g1 { sentinels = kept },
        rw runs refl,
        connect_all-usr2sentinel dial own t leaves g,
        λ a. same a ∙ ap (keep t leaves a) (spec a) ∙ keep-or_fresh leaves a (lookup g.sentinels a),
      )
