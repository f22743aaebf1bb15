-- ===== src/Outcome/Laws.antt =====
-- What follows when a call has given a value.
use erina.Base.{◌≡◌, refl, ap, Option, none, some, arith}
use erina.Outcome.{Outcome, ok, err, panic, ◌>>=◌, checked, value_or_nil}

-- A chain that gives a value has given one at its first step.
pub bind_ok {ℓ κ} :
    {A : Type ℓ} {B : Type κ} (x : Outcome A) (f : A → Outcome B) (b : B)
    → (x >>= f) ≡ ok b
    → (a : A) × (x ≡ ok a) × (f a ≡ ok b)
bind_ok (ok a) f b e = (a, refl, e)
bind_ok (err x) f b e = absurd (ground arith)
bind_ok panic f b e = absurd (ground arith)

pub checked-some {ℓ} : {A : Type ℓ} (o : Option A) (a : A) → checked o ≡ ok a → o ≡ some a
checked-some none a e = absurd (ground arith)
checked-some (some b) a e = ap value_or_nil e

abbrev from_ok {ℓ} : {A : Type ℓ} → A → Outcome A → A
from_ok d (ok a) = a
from_ok d (err e) = d
from_ok d panic = d

pub ok_injective {ℓ} : {A : Type ℓ} (a b : A) → ok a ≡ ok b → a ≡ b
ok_injective a b e = ap (from_ok a) e

abbrev from_some {ℓ} : {A : Type ℓ} → A → Option A → A
from_some d none = d
from_some d (some a) = a

pub some_injective {ℓ} : {A : Type ℓ} (a b : A) → some a ≡ some b → a ≡ b
some_injective a b e = ap (from_some a) e
