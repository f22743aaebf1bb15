-- ===== src/Session/Users.antt =====
-- The users of a device: `isBinded`, `CalcDestIds` and `UpdateIds` of srv/devsess.go.
use erina.Base.{
  ℕ, ◌+◌, ◌-◌, ◌≡◌, refl, sym, ap, ◌∙◌, arith, List, [], ◌∷◌, ◌++◌, Option, none, some, Bool, true,
  false, ◌==◌, ==_iff, if◌then◌else◌, All, ◌⊎◌, inl, inr, Bool-cases,
}
use erina.Session.Types.{DevSession}

abbrev pub contains : List ℕ → ℕ → Bool
contains [] id = false
contains (v ∷ users) id = if v == id then true else contains users id

unfoldable pub is_binded : DevSession → ℕ → Bool
is_binded s id = contains s.users id

-- For a user that the session does not list, `GetUsersByDev` is asked. It answers the users and the
-- owner, which the session keeps, or fails.
unfoldable pub ask_users : Option (List ℕ × ℕ) → DevSession → ℕ → DevSession × List ℕ
ask_users none s to = (s, [])
ask_users (some (users, owner)) s to = (
  record s { users = users; owner = owner },
  if owner == to then to ∷ [] else (if contains users to then to ∷ [] else []),
)

-- The session that the call leaves, and the ids; an empty result stands for nil, which the callers
-- do not tell apart.
unfoldable pub calc_dest_ids : Option (List ℕ × ℕ) → DevSession → ℕ → DevSession × List ℕ
calc_dest_ids found s to =
    if to == 0
    then (s, s.users)
    else (if is_binded s to then (s, to ∷ []) else ask_users found s to)

-- The user `id` may hear from the device of the session `s`.
abbrev pub Allowed : DevSession → ℕ → Type 0
Allowed s id = (contains s.users id ≡ true) ⊎ (s.owner ≡ id)

contains-here : (v : ℕ) (users : List ℕ) → contains (v ∷ users) v ≡ true
contains-here v users = rw ((==_iff v v).1 refl) refl

contains-there :
    (v id : ℕ) (users : List ℕ) → contains users id ≡ true → contains (v ∷ users) id ≡ true
contains-there v id users h = elim (Bool-cases (v == id)) [ inl e ↦ rw e refl | inr e ↦ rw e h ]

All-Allowed :
    (s : DevSession) (ids : List ℕ)
    → ((id : ℕ) → contains ids id ≡ true → Allowed s id)
    → All (Allowed s) ids
All-Allowed s [] h = _
All-Allowed s (v ∷ ids) h =
    (h v (contains-here v ids), All-Allowed s ids λ id k. h id (contains-there v id ids k))

-- What was answered, and only to the user that is meant.
abbrev Answers : DevSession × List ℕ → ℕ → Type 0
Answers r to = All (Allowed r.0) r.1 × All (λ id. id ≡ to) r.1

ask_users-Answers :
    (found : Option (List ℕ × ℕ)) (s : DevSession) (to : ℕ) → Answers (ask_users found s to) to
unfolding ask_users
ask_users-Answers none s to = (_, _)
ask_users-Answers (some (users, owner)) s to = elim (Bool-cases (owner == to)) [
  | inl e ↦ rw e ((inr ((==_iff owner to).0 e), _), (refl, _))
  | inr e ↦ elim (Bool-cases (contains users to)) [
    | inl h ↦ rw (e, h) ((inl h, _), (refl, _))
    | inr h ↦ rw (e, h) (_, _)
  ]
]

-- Whatever is asked and whatever `GetUsersByDev` answers: the ids that a message is forwarded to
-- are users of the device or its owner, as the session left by the call records them, and a
-- message to one user goes to nobody else.
pub calc_dest_ids-Allowed :
    (found : Option (List ℕ × ℕ)) (s : DevSession) (to : ℕ)
    → All (Allowed (calc_dest_ids found s to).0) (calc_dest_ids found s to).1
      × ((to ≡ 0) ⊎ All (λ id. id ≡ to) (calc_dest_ids found s to).1)
unfolding calc_dest_ids is_binded
calc_dest_ids-Allowed found s to = elim (Bool-cases (to == 0)) [
  | inl e ↦ rw e (All-Allowed s s.users λ id h. inl h, inl ((==_iff to 0).0 e))
  | inr e ↦ elim (Bool-cases (contains s.users to)) [
    | inl h ↦ rw (e, h) ((inl h, _), inr (refl, _))
    | inr h ↦ let (allowed, only) = ask_users-Answers found s to in rw (e, h) (allowed, inr only)
  ]
]

-- `UpdateIds` for a new user, and for one that goes: the last user takes the place of the first
-- entry that is the one that goes.
abbrev pub last_of : ℕ → List ℕ → ℕ
last_of v [] = v
last_of v (w ∷ ws) = last_of w ws

abbrev pub but_last : ℕ → List ℕ → List ℕ
but_last v [] = []
but_last v (w ∷ ws) = v ∷ but_last w ws

unfoldable pub unbind : ℕ → List ℕ → List ℕ
unbind id [] = []
unbind id (v ∷ users) =
    let rest = unbind id users in
    if v == id then elim users [ [] ↦ [] | w ∷ ws ↦ last_of w ws ∷ but_last w ws ] else v ∷ rest

unfoldable pub update_ids : DevSession → ℕ → Bool → DevSession
update_ids s id true = record s { users = s.users ++ (id ∷ []) }
update_ids s id false = record s { users = unbind id s.users }

-- How often a user is listed.
abbrev pub count : List ℕ → ℕ → ℕ
count [] id = 0
count (v ∷ users) id = if v == id then count users id + 1 else count users id

count-append : (xs : List ℕ) (v id : ℕ) → count (xs ++ (v ∷ [])) id ≡ count (v ∷ xs) id
count-append [] v id = refl
count-append (x ∷ xs) v id = ground (arith, count-append xs v id)

count-last :
    (v : ℕ) (vs : List ℕ) (id : ℕ) → count (last_of v vs ∷ but_last v vs) id ≡ count (v ∷ vs) id
count-last v [] id = refl
count-last v (w ∷ ws) id = ground (arith, count-last w ws id)

count-unbind_here : (users : List ℕ) (v id : ℕ) → count (unbind v (v ∷ users)) id ≡ count users id
unfolding unbind
count-unbind_here [] v id = rw ((==_iff v v).1 refl) refl
count-unbind_here (w ∷ ws) v id = rw ((==_iff v v).1 refl) (count-last w ws id)

count-unbind :
    (users : List ℕ) (user id : ℕ)
    → count (unbind user users) id ≡ (if user == id then count users id - 1 else count users id)
unfolding unbind
count-unbind [] user id = ground arith
count-unbind (v ∷ users) user id = elim (Bool-cases (v == user)) [
  | inl e ↦
      let same : v ≡ user = (==_iff v user).0 e in
      let less : count users id
          ≡ (if user == id then count (v ∷ users) id - 1 else count (v ∷ users) id) =
        ground arith in
      ap (λ (u : ℕ). count (unbind u (v ∷ users)) id) (sym same)
      ∙ count-unbind_here users v id
      ∙ less
  | inr e ↦ rw e (ground (arith, count-unbind users user id))
]

-- For every session and user: after binding the user is listed once more, after unbinding once
-- less, or not at all as before, and every other user is listed as often as before.
pub count-update_ids :
    (s : DevSession) (user id : ℕ)
    → (count (update_ids s user true).users id
        ≡ (if user == id then count s.users id + 1 else count s.users id))
      × (count (update_ids s user false).users id
          ≡ (if user == id then count s.users id - 1 else count s.users id))
unfolding update_ids
count-update_ids s user id = (count-append s.users user id, count-unbind s.users user id)
