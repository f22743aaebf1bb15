-- ===== src/Outcome.antt =====
-- What a Go function returns: a value, a non-nil error, or a panic of the runtime.
pub mod Laws
use erina.Base.{Option, none, some}

-- The errors, one constructor for each message of the source.
pub data Error : Type 0 where
  bad_key_size : Error
  bad_padding : Error
  empty_message : Error
  wrong_opcode : Error
  too_short : Error
  wrong_body_length : Error
  header_check : Error
  body_check : Error
  short_text : Error
  no_mz : Error
  wrong_key_level : Error
  wrong_sequence : Error
  no_session : Error
  no_session_key : Error
  short_session_key : Error
  not_logged_in : Error
  bad_body : Error
  lookup_failed : Error
  no_reply : Error
  invalid_command : Error
  payload_too_long : Error
  wrong_params : Error
  expired : Error
  not_verified : Error

pub data Outcome {ℓ} (A : Type ℓ) : Type ℓ where
  ok : A → Outcome A
  err : Error → Outcome A
  panic : Outcome A

infixl 5 ◌>>=◌
abbrev pub ◌>>=◌ {ℓ κ} : {A : Type ℓ} {B : Type κ} → Outcome A → (A → Outcome B) → Outcome B
ok a >>= f = f a
err e >>= f = err e
panic >>= f = panic

-- A runtime check that fails panics.
abbrev pub checked {ℓ} : {A : Type ℓ} → Option A → Outcome A
checked none = panic
checked (some a) = ok a

-- A value and an error that are returned together, the value being nil beside an error.
abbrev pub value_or_nil {ℓ} : {A : Type ℓ} → Outcome A → Option A
value_or_nil (ok a) = some a
value_or_nil (err e) = none
value_or_nil panic = none
