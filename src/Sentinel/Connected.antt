-- ===== src/Sentinel/Connected.antt =====
-- What the first loop of `update` of srv/sentinel.go leaves in the table of sentinels.
use erina.Base.{
  ℕ, ◌≡◌, ◌≢◌, refl, ap, sym, ◌∙◌, arith, not, ◌&&◌, if◌then◌else◌, Bool, true, false, List, [],
  ◌∷◌, Option, none, some, Map, lookup, remove, text_key, text_same, Bool-cases, inl, inr,
  key_cases, same_ne, same_refl, lookup-insert, lookup-insert_other, lookup-remove,
  lookup-remove_other,
}
use erina.Sentinel.Routes.{dialed, listed, connect, connect_all}
use erina.Sentinel.Types.{Text, Sentinel, SentinelMgr}

-- No address has two entries.
abbrev pub Unique : Map Text Sentinel → Type 0
Unique [] = Unit
Unique ((a, s) ∷ m) = (lookup m a ≡ none) × Unique m

Unique-remove : (m : Map Text Sentinel) (a : Text) → Unique m → Unique (remove m a)
Unique-remove [] a u = _
Unique-remove ((b, s) ∷ m) a (once, u) = elim (key_cases a b) [
  | inl e ↦
      let here : text_same a b ≡ true = ap (text_same a) (sym e) ∙ same_refl a in
      rw here (Unique-remove m a u)
  | inr ne ↦
      let other : text_same a b ≡ false = same_ne a b ne in
      rw other (lookup-remove_other m a b ne ∙ once, Unique-remove m a u)
]

module _ (dial : Text → Bool) (own : Text) (t : ℕ) where
  -- What there is at an address that had no sentinel.
  abbrev pub fresh : Text → Bool → Option Sentinel
  fresh a wanted =
      if wanted && (not (text_same a own) && dial a)
      then some (record { adr = a; kind = t; con = true; queue = true })
      else none

  abbrev pub or_fresh : Text → Bool → Option Sentinel → Option Sentinel
  or_fresh a wanted (some s) = some s
  or_fresh a wanted none = fresh a wanted

  dialed-here :
      (g : SentinelMgr) (a : Text) (found : Option Sentinel)
      → lookup g.sentinels a ≡ found
      → lookup (if text_same a own then g else dialed dial own t g a found).sentinels a
        ≡ or_fresh a true found
  dialed-here g a (some s) e = elim (Bool-cases (text_same a own)) [
    | inl o ↦ rw o e
    | inr o ↦ rw o e
  ]
  dialed-here g a none e = elim (Bool-cases (text_same a own)) [
    | inl o ↦ rw o e
    | inr o ↦ elim (Bool-cases (dial a)) [
      | inl d ↦
          rw (o, d)
            (lookup-insert g.sentinels a (record { adr = a; kind = t; con = true; queue = true }))
      | inr d ↦ rw (o, d) e
    ]
  ]

  dialed-other :
      (g : SentinelMgr) (a b : Text) (found : Option Sentinel)
      → a ≢ b
      → lookup (if text_same b own then g else dialed dial own t g b found).sentinels a
        ≡ lookup g.sentinels a
  dialed-other g a b (some s) ne = elim (Bool-cases (text_same b own)) [
    | inl o ↦ rw o refl
    | inr o ↦ rw o refl
  ]
  dialed-other g a b none ne = elim (Bool-cases (text_same b own)) [
    | inl o ↦ rw o refl
    | inr o ↦ elim (Bool-cases (dial b)) [
      | inl d ↦
          rw (o, d)
            (lookup-insert_other g.sentinels b a
              (record { adr = b; kind = t; con = true; queue = true }) λ e. ne (sym e))
      | inr d ↦ rw (o, d) refl
    ]
  ]

  dialed-Unique :
      (g : SentinelMgr) (b : Text) (found : Option Sentinel)
      → Unique g.sentinels
      → Unique (if text_same b own then g else dialed dial own t g b found).sentinels
  dialed-Unique g b (some s) u = elim (Bool-cases (text_same b own)) [
    | inl o ↦ rw o u
    | inr o ↦ rw o u
  ]
  dialed-Unique g b none u = elim (Bool-cases (text_same b own)) [
    | inl o ↦ rw o u
    | inr o ↦ elim (Bool-cases (dial b)) [
      | inl d ↦ rw (o, d) (lookup-remove g.sentinels b, Unique-remove g.sentinels b u)
      | inr d ↦ rw (o, d) u
    ]
  ]

  or_fresh-again :
      (a : Text) (wanted : Bool) (o : Option Sentinel)
      → or_fresh a wanted (or_fresh a true o) ≡ or_fresh a true o
  or_fresh-again a wanted (some s) = refl
  or_fresh-again a true none = elim (Bool-cases (not (text_same a own) && dial a)) [
    | inl e ↦ rw e refl
    | inr e ↦ rw e (rw e refl)
  ]
  or_fresh-again a false none = elim (Bool-cases (not (text_same a own) && dial a)) [
    | inl e ↦ rw e refl
    | inr e ↦ rw e refl
  ]

  -- The first loop.
  pub connect_all-or_fresh :
      (leaves : List Text) (g : SentinelMgr) (a : Text)
      → lookup (connect_all dial own t g leaves).sentinels a
        ≡ or_fresh a (listed a leaves) (lookup g.sentinels a)
  unfolding connect
  connect_all-or_fresh [] g a = none_wanted (lookup g.sentinels a)
    where
      none_wanted : (o : Option Sentinel) → o ≡ or_fresh a false o
      none_wanted none = refl
      none_wanted (some s) = refl
  connect_all-or_fresh (b ∷ leaves) g a = elim (key_cases a b) [
    | inl e ↦
        let here : text_same a b ≡ true = ap (text_same a) (sym e) ∙ same_refl a in
        connect_all-or_fresh leaves (connect dial own t g b) a
        ∙ ap (or_fresh a (listed a leaves)) (
            ap (λ x. lookup (connect dial own t g x).sentinels a) (sym e)
            ∙ dialed-here g a (lookup g.sentinels a) refl)
        ∙ rw here (or_fresh-again a (listed a leaves) (lookup g.sentinels a))
    | inr ne ↦
        connect_all-or_fresh leaves (connect dial own t g b) a
        ∙ rw (same_ne a b ne)
            (ap (or_fresh a (listed a leaves)) (dialed-other g a b (lookup g.sentinels b) ne))
  ]

  pub connect_all-Unique :
      (leaves : List Text) (g : SentinelMgr)
      → Unique g.sentinels
      → Unique (connect_all dial own t g leaves).sentinels
  unfolding connect
  connect_all-Unique [] g u = u
  connect_all-Unique (b ∷ leaves) g u =
      connect_all-Unique leaves (connect dial own t g b)
        (dialed-Unique g b (lookup g.sentinels b) u)

  pub connect_all-usr2sentinel :
      (leaves : List Text) (g : SentinelMgr)
      → (connect_all dial own t g leaves).usr2sentinel ≡ g.usr2sentinel
  unfolding connect
  connect_all-usr2sentinel [] g = refl
  connect_all-usr2sentinel (b ∷ leaves) g =
      connect_all-usr2sentinel leaves (connect dial own t g b) ∙ same_routes (lookup g.sentinels b)
    where
      same_routes :
          (found : Option Sentinel)
          → (if text_same b own then g else dialed dial own t g b found).usr2sentinel
            ≡ g.usr2sentinel
      same_routes found = ground arith
