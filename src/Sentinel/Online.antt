-- ===== src/Sentinel/Online.antt =====
-- What `handleOnOff` of srv/rds.go does to the routes.
use erina.Sentinel.Types.{text_of, Text, SentinelMgr, host_of}
use erina.Base.{
  ℕ, ◌==◌, ◌≡◌, ◌≢◌, refl, ap, ◌∙◌, arith, if◌then◌else◌, false, [], ◌∷◌, ◌++◌, none, some, nat_key,
  text_key, text_same, All, lookup-insert, lookup-remove, lookup-insert_other, lookup-remove_other,
  Bool-cases, inl, inr,
}
use erina.Sentinel.Routes.{split_at, onto_first, parse_int, routed, handle_on_off}

-- A field of the message.
abbrev pub NoBar : Text → Type 0
NoBar = All λ c. c ≢ 124

pub split_at-nil : (xs : Text) → NoBar xs → split_at 124 xs ≡ xs ∷ []
unfolding split_at
split_at-nil [] h = refl
split_at-nil (x ∷ xs) (ne, h) =
    let other : (x == 124) ≡ false = ground arith in
    rw other (ap (onto_first x) (split_at-nil xs h))

pub split_at-cons :
    (xs ys : Text) → NoBar xs → split_at 124 (xs ++ (124 ∷ ys)) ≡ xs ∷ split_at 124 ys
unfolding split_at
split_at-cons [] ys h = refl
split_at-cons (x ∷ xs) ys (ne, h) =
    let other : (x == 124) ≡ false = ground arith in
    rw other (ap (onto_first x) (split_at-cons xs ys h))

-- What is left of the routes when the user `id` is on `host`, or off.
routed-host_of :
    (g : SentinelMgr) (id : ℕ) (host online : Text)
    → host_of (routed g id host online) id ≡ (if text_same online (49 ∷ []) then host else [])
routed-host_of g id host online = elim (Bool-cases (text_same online (49 ∷ []))) [
  | inl e ↦ rw e (ap text_of (lookup-insert g.usr2sentinel id host))
  | inr e ↦ rw e (ap text_of (lookup-remove g.usr2sentinel id))
]

routed-other :
    (g : SentinelMgr) (id other : ℕ) (host online : Text)
    → id ≢ other
    → host_of (routed g id host online) other ≡ host_of g other
routed-other g id other host online ne = elim (Bool-cases (text_same online (49 ∷ []))) [
  | inl e ↦ rw e (ap text_of (lookup-insert_other g.usr2sentinel id other host ne))
  | inr e ↦ rw e (ap text_of (lookup-remove_other g.usr2sentinel id other ne))
]

-- For a user, a host and a flag without bars, and any other user: `handleOnOff` of the three, separated by bars, does
-- not panic, the user's route is the host if the flag is "1", and there is none otherwise, and the
-- other user's route is as before. Of the user alone, and of the user and the host, it panics.
pub handle_on_off-host_of :
    (g : SentinelMgr) (user host online : Text) (other : ℕ)
    → (parse_int user).0 ≢ other
    → NoBar user
    → NoBar host
    → NoBar online
    → (g' : SentinelMgr) × (handle_on_off g (user ++ (124 ∷ (host ++ (124 ∷ online)))) ≡ some g')
      × (host_of g' (parse_int user).0 ≡ (if text_same online (49 ∷ []) then host else []))
      × (host_of g' other ≡ host_of g other)
      × (handle_on_off g user ≡ none)
      × (handle_on_off g (user ++ (124 ∷ host)) ≡ none)
unfolding handle_on_off
handle_on_off-host_of g user host online other ne u h o =
    let id : ℕ = (parse_int user).0 in
    let three : split_at 124 (user ++ (124 ∷ (host ++ (124 ∷ online))))
        ≡ user ∷ (host ∷ (online ∷ [])) =
      split_at-cons user (host ++ (124 ∷ online)) u
      ∙ ap (λ l. user ∷ l)
          (split_at-cons host online h ∙ ap (λ l. host ∷ l) (split_at-nil online o)) in
    let two : split_at 124 (user ++ (124 ∷ host)) ≡ user ∷ (host ∷ []) =
      split_at-cons user host u ∙ ap (λ l. user ∷ l) (split_at-nil host h) in
    (
      routed g id host online,
      rw three refl,
      routed-host_of g id host online,
      routed-other g id other host online ne,
      rw (split_at-nil user u) refl,
      rw two refl,
    )
