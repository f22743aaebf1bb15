-- ===== src/Users/Params.antt =====
-- How an application logs in without a frame: `verifyLoginParams` and `isAuth` of srv/mws.go, and
-- `gotTmpkey`, the key of an application that sends one.
use erina.Base.{
  ℕ, zero, suc, ◌+◌, ◌-◌, ◌*◌, ◌/◌, ◌%◌, ◌^◌, ◌==◌, ltb, leb, ◌&&◌, not, if◌then◌else◌, List, [],
  ◌∷◌, ◌++◌, Option, none, some, Bool, true, false, text_same,
}
use erina.Words.{Bytes}
use erina.Outcome.{Outcome, ok, err, panic, ◌>>=◌, checked, wrong_params, expired, not_verified}
use erina.Aes.{Cipher, encrypt_np}
use erina.Sentinel.Types.{Text}
use erina.Sentinel.Routes.{split_at, parse_int, number, field_at}
pub mod Accepted
pub mod Decimal
pub mod Tmpkey

-- `strconv.ParseUint(text, 10, 64)`, without the value beside an error.
abbrev pub in_range : Option ℕ → Option ℕ
in_range none = none
in_range (some n) = if leb n (2 ^ 64 - 1) then some n else none

abbrev pub parse_uint : Text → Option ℕ
parse_uint text = in_range (number text)

abbrev pub or_wrong : Option ℕ → Outcome ℕ
or_wrong none = err wrong_params
or_wrong (some n) = ok n

-- `strconv.ParseInt` where an error ends the function.
abbrev pub int_or_wrong : ℕ × Bool → Outcome ℕ
int_or_wrong (n, fine) = if fine then ok n else err wrong_params

abbrev pub not_empty : Text → Outcome Text
not_empty [] = err wrong_params
not_empty (c ∷ text) = ok (c ∷ text)

pub record Params : Type 0 where
  pub id : ℕ
  pub timestamp : ℕ
  pub timeout : ℕ
  pub md5 : Text
  pub mobile : Text

abbrev pub text_or_empty : Option Text → Text
text_or_empty none = []
text_or_empty (some text) = text

-- `args[i]` of a slice that is too short panics.
unfoldable pub params_of : List Text → Outcome Params
unfolding parse_int
params_of args = do
  first ← checked (field_at args 0)
  id ← int_or_wrong (parse_int first)
  second ← checked (field_at args 1)
  stamped ← not_empty second
  timestamp ← or_wrong (parse_uint stamped)
  third ← checked (field_at args 2)
  timed ← not_empty third
  timeout ← or_wrong (parse_uint timed)
  md5 ← checked (field_at args 3)
  ok (record {
    id = id;
    timestamp = timestamp;
    timeout = timeout;
    md5 = md5;
    mobile = text_or_empty (field_at args 4);
  })

unfoldable pub verify_login_params : Text → Outcome Params
unfolding split_at params_of
verify_login_params req = params_of (split_at 124 req)

-- `%d` of an unsigned number; a number of `fuel` digits is printed whole.
unfoldable pub decimal : ℕ → ℕ → Text → Text
decimal zero n rest = rest
decimal (suc fuel) n rest =
    let more = decimal fuel (n / 10) ((48 + n % 10) ∷ rest) in
    if ltb n 10 then (48 + n) ∷ rest else more

abbrev pub unsigned : ℕ → Text
unsigned n = decimal 20 n []

-- `%d` of an int64, which is given by its bit pattern.
abbrev pub signed : ℕ → Text
signed n = if ltb n (2 ^ 63) then unsigned n else 45 ∷ unsigned (2 ^ 64 - n)

-- "BlackCrystalWb14527", the key that the http server shares.
abbrev pub login_key : Text
login_key =
    66 ∷ 108 ∷ 97 ∷ 99 ∷ 107 ∷ 67 ∷ 114 ∷ 121 ∷ 115 ∷ 116 ∷ 97 ∷ 108 ∷ 87 ∷ 98 ∷ 49 ∷ 52 ∷ 53 ∷ 50
    ∷ 55 ∷ []

abbrev pub to_sign : ℕ → ℕ → ℕ → Text
to_sign id timestamp timeout =
    signed id ++ (124 ∷ (unsigned timestamp ++ (124 ∷ (unsigned timeout ++ (124 ∷ login_key)))))

abbrev pub expire_time : ℕ
expire_time = 60

-- `int64(uint64(now)-timestamp) >= EXPIRE_TIME`: a difference from 2 ^ 63 on is negative.
unfoldable pub is_expired : ℕ → ℕ → Bool
is_expired now timestamp =
    let passed = (now + (2 ^ 64 - timestamp)) % 2 ^ 64 in
    ltb 0 timestamp && (leb expire_time passed && ltb passed (2 ^ 63))

-- `signature` is the base64 text of the MD5 sum.
unfoldable pub is_auth : (Text → Text) → ℕ → Params → Outcome Bool
unfolding is_expired decimal
is_auth signature now p =
    if is_expired now p.timestamp
    then err expired
    else (if text_same (signature (to_sign p.id p.timestamp p.timeout)) p.md5
        then ok true
        else err not_verified)

-- `gotTmpkey`: the encrypted key for the application, and the secret of the session. `random` is the
-- key and `md5` the MD5 sum.
unfoldable pub got_tmpkey : Cipher → (Bytes → Bytes) → Bytes → Bytes → Outcome (Bytes × Bytes)
got_tmpkey c md5 random authcode =
    encrypt_np c random authcode >>= λ tmpcipher. ok (tmpcipher, md5 (random ++ authcode))
