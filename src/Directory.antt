-- ===== src/Directory.antt =====
-- Who belongs to whom, as srv/rds.go finds it in redis, and what its messages change.
use erina.Base.{
  ℕ, zero, suc, ◌==◌, if◌then◌else◌, Bool, true, false, not, List, [], ◌∷◌, ◌++◌, Option, none,
  some,
}
use erina.Sentinel.Types.{Text}
use erina.Sentinel.Routes.{parse_int, onto_first}
use erina.Aes.{Cipher}
use erina.Outcome.{Outcome, ok, ◌>>=◌, panic, err}
use erina.Words.{Bytes}
use erina.Users.Types.{UsrSessionPool}
use erina.Users.Pool.{usr_update_ids}
use erina.Users.Push.{Written, push_common_msg, offlining_usr}
pub mod Bindings

-- What redis answers; `none` is an error, and where the source drops the error it is nil.
pub record Redis : Type 0 where
  pub device_user : ℕ → Option Text
  pub user_family : ℕ → Option Text
  pub family_of : Text → Option Text
  pub family : Text → List Text
  pub devices_of : ℕ → List Text
  pub devices : Text → Option (List Text)

-- The strings that are numbers.
unfoldable pub numbers : List Text → List ℕ
unfolding parse_int
numbers [] = []
numbers (t ∷ ts) = let rest = numbers ts in if (parse_int t).1 then (parse_int t).0 ∷ rest else rest

abbrev pub users_of : Redis → ℕ → Option Text → List ℕ × ℕ
users_of r owner none = (owner ∷ [], owner)
users_of r owner (some []) = (owner ∷ [], owner)
users_of r owner (some (c ∷ host)) = (numbers (r.family (c ∷ host)), owner)

-- `GetUsersByDev`: the users of a device and its owner.
unfoldable pub get_users_by_dev : Redis → ℕ → Option (List ℕ × ℕ)
unfolding numbers
get_users_by_dev r dev = elim (r.device_user dev) [
  | none ↦ none
  | some user ↦ some (users_of r (parse_int user).0 (r.family_of user))
]

abbrev pub or_none : Option (List Text) → List Text
or_none none = []
or_none (some devs) = devs

abbrev pub all_devices : Redis → List Text → List Text
all_devices r [] = []
all_devices r (m ∷ mems) = or_none (r.devices m) ++ all_devices r mems

abbrev pub device_texts : Redis → ℕ → Option Text → List Text
device_texts r user none = r.devices_of user
device_texts r user (some []) = r.devices_of user
device_texts r user (some (c ∷ host)) = all_devices r (r.family (c ∷ host))

-- `GetDevByUsr`, whose error is always nil.
unfoldable pub get_dev_by_usr : Redis → ℕ → List ℕ
unfolding numbers
get_dev_by_usr r user = numbers (device_texts r user (r.user_family user))
