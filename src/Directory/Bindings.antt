-- ===== src/Directory/Bindings.antt =====
-- `HandleDeviceUsers` and `HandleModifiedPasswd` of srv/rds.go: the messages that change bindings.
use erina.Base.{
  ℕ, ◌==◌, ◌≡◌, ◌-◌, ◌^◌, refl, ap, ◌∙◌, leb, ltb, ◌||◌, not, if◌then◌else◌, Bool, false, [], ◌∷◌,
  ◌++◌, Option, none, some, lookup, insert, nat_key, arith,
}
use erina.Base.Partial.{◌>>=◌}
use erina.Outcome.{Outcome, ok}
use erina.Aes.{Cipher}
use erina.Sentinel.Types.{Text}
use erina.Sentinel.Routes.{parse_int}
use erina.Sentinel.Online.{NoBar}
use erina.Session.Types.{Pool}
use erina.Session.Users.{update_ids}
use erina.Users.Types.{UsrSessionPool}
use erina.Users.Pool.{usr_update_ids}
use erina.Users.Push.{Written, offlining_usr}

-- `strings.SplitN` at the first bar: what stands before it and behind it.
abbrev pub before : ℕ → Option (Text × Text) → Option (Text × Text)
before x none = none
before x (some (front, back)) = some (x ∷ front, back)

unfoldable pub cut_bar : Text → Option (Text × Text)
cut_bar [] = none
cut_bar (x ∷ xs) = let rest = cut_bar xs in if x == 124 then some ([], xs) else before x rest

-- A number without an error, and one of 32 bits.
abbrev pub int64_of : ℕ × Bool → Option ℕ
int64_of (n, fine) = if fine then some n else none

abbrev pub int32_of : ℕ × Bool → Option ℕ
int32_of (n, fine) =
    if fine then (if ltb n (2 ^ 31) || leb (2 ^ 64 - 2 ^ 31) n then some n else none) else none

-- The device, the user, and whether they are bound; `none` is a message that is refused.
unfoldable pub binding : Text → Option (ℕ × ℕ × Bool)
unfolding cut_bar parse_int
binding buf = do
  first ← cut_bar buf
  second ← cut_bar first.1
  dev ← int64_of (parse_int first.0)
  user ← int64_of (parse_int second.0)
  kind ← int32_of (parse_int second.1)
  some (dev, user, not (kind == 0))

-- `UpdateIds` of the table of devices; whom it tells is in Session/Notices.
abbrev pub dev_update_at : Pool → ℕ → Bool → Option ℕ → Option Pool
dev_update_at p user bind none = some p
dev_update_at p user bind (some h) = do
  s ← lookup p.heap h
  some (record p { heap = insert p.heap h (update_ids s user bind) })

-- The gateways for devices and for users; a message that is refused changes nothing.
unfoldable pub handle_dev_binding : Pool → Text → Option Pool
unfolding binding
handle_dev_binding p buf = elim (binding buf) [
  | none ↦ some p
  | some b ↦ dev_update_at p b.1 b.2 (lookup p.sesses b.0)
]

abbrev pub usr_bound : UsrSessionPool → Option (ℕ × ℕ × Bool) → Option UsrSessionPool
usr_bound p none = some p
usr_bound p (some (dev, user, bind)) = usr_update_ids p dev user bind

unfoldable pub handle_usr_binding : UsrSessionPool → Text → Option UsrSessionPool
unfolding binding
handle_usr_binding p buf = usr_bound p (binding buf)

unfoldable pub handle_modified_passwd :
    Cipher → ℕ → UsrSessionPool → Text → Outcome (UsrSessionPool × Written)
unfolding parse_int
handle_modified_passwd c now p buf =
    if (parse_int buf).1 then offlining_usr c now p (parse_int buf).0 else ok (p, none)

pub cut_bar-append :
    (front back : Text) → NoBar front → cut_bar (front ++ (124 ∷ back)) ≡ some (front, back)
unfolding cut_bar
cut_bar-append [] back h = refl
cut_bar-append (x ∷ front) back (ne, h) =
    let other : (x == 124) ≡ false = ground arith in
    rw other (ap (before x) (cut_bar-append front back h))

-- The fields that stand between bars.
binding-read :
    (dev user kind : Text) (d u k : ℕ)
    → NoBar dev
    → NoBar user
    → int64_of (parse_int dev) ≡ some d
    → int64_of (parse_int user) ≡ some u
    → int32_of (parse_int kind) ≡ some k
    → binding (dev ++ (124 ∷ (user ++ (124 ∷ kind)))) ≡ some (d, u, not (k == 0))
unfolding binding
binding-read dev user kind d u k no_bar no_bar2 is_dev is_user is_kind =
    ap
      (λ o. o >>= λ a. cut_bar a.1 >>= λ b. int64_of (parse_int a.0) >>= λ x.
        int64_of (parse_int b.0) >>= λ y.
        int32_of (parse_int b.1) >>= λ z. some (x, y, not (z == 0)))
      (cut_bar-append dev (user ++ (124 ∷ kind)) no_bar)
    ∙ ap
        (λ o. o >>= λ b. int64_of (parse_int dev) >>= λ x. int64_of (parse_int b.0) >>= λ y.
          int32_of (parse_int b.1) >>= λ z. some (x, y, not (z == 0)))
        (cut_bar-append user kind no_bar2)
    ∙ ap
        (λ o. o >>= λ x. int64_of (parse_int user) >>= λ y.
          int32_of (parse_int kind) >>= λ z. some (x, y, not (z == 0)))
        is_dev
    ∙ ap (λ o. o >>= λ y. int32_of (parse_int kind) >>= λ z. some (d, y, not (z == 0))) is_user
    ∙ ap (λ o. o >>= λ z. some (d, u, not (z == 0))) is_kind

-- A device, a user and a kind that are numbers, separated by bars, reach the table of the users'
-- sessions.
pub handle_usr_binding-usr_update_ids :
    (p : UsrSessionPool) (dev user kind : Text) (d u k : ℕ)
    → NoBar dev
    → NoBar user
    → int64_of (parse_int dev) ≡ some d
    → int64_of (parse_int user) ≡ some u
    → int32_of (parse_int kind) ≡ some k
    → handle_usr_binding p (dev ++ (124 ∷ (user ++ (124 ∷ kind))))
      ≡ usr_update_ids p d u (not (k == 0))
unfolding handle_usr_binding
handle_usr_binding-usr_update_ids p dev user kind d u k no_bar no_bar2 is_dev is_user is_kind =
    ap (usr_bound p) (binding-read dev user kind d u k no_bar no_bar2 is_dev is_user is_kind)
