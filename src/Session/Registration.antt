-- ===== src/Session/Registration.antt =====
-- `onRegister` and `onHearBeat` of srv/devbusi.go. `none` is the panic.
use erina.Base.{
  length-append, ℕ, ◌+◌, ◌<◌, ◌≤◌, ◌≡◌, ◌↔◌, arith, List, [], ◌∷◌, ◌++◌, Option, none, some, ltb,
  ◌==◌, if◌then◌else◌, Bool, length, get_or, replicate,
}
use erina.Base.Partial.{◌>>=◌}
use erina.Words.{Bytes, index, slice, to_le, of_le, fit, hex_encode}
use erina.Outcome.{Error, bad_body}
use erina.Session.Types.{Text, DevSession}
use erina.Session.Pool.{hex_decode}
use erina.Session.Handlers.{Answer}

-- `input`, before its values are printed.
pub record Registration : Type 0 where
  pub mac : Text
  pub dv : ℕ
  pub sn : Text
  pub do_unbind : Bool
  pub sign : Text

-- What `post` returns: an error beside a code, or the fields of the answer that have their types. The
-- code is a uint32, converted as the source does.
pub data Posted : Type 0 where
  refused : ℕ → Error → Posted
  accepted : Option ℕ → Option Text → Posted

abbrev pub status_bytes : Option ℕ → Bytes
status_bytes none = replicate 4 0
status_bytes (some status) = to_le 4 status

abbrev pub cookie_bytes : Option Text → Bytes
cookie_bytes none = replicate 32 0
cookie_bytes (some cookie) = fit 32 (hex_decode cookie)

abbrev pub register_reply : Posted → Answer
register_reply (refused code e) = record {
  text = some (to_le 4 code ++ replicate 32 0);
  error = some e;
}
register_reply (accepted status cookie) = record {
  text = some (status_bytes status ++ cookie_bytes cookie);
  error = none;
}

-- What the body of at least 22 bytes asks for.
unfoldable pub registration : Bytes → Option Registration
registration body = do
  dv ← slice body 0 4
  mac ← slice body 4 12
  sn ← slice body 12 20
  unbind ← index body 20
  len ← index body 21
  signature ← slice body 22 (22 + len)
  some (record {
    mac = hex_encode mac;
    dv = of_le dv;
    sn = hex_encode sn;
    do_unbind = unbind == 1;
    sign = hex_encode signature;
  })

-- `spare` stands behind the body in its array; Go checks the slice of the signature against the capacity.
unfoldable pub on_register : (Registration → Posted) → Bytes → Bytes → Option Answer
unfolding registration
on_register post body spare =
    if ltb (length body) 22
    then some (record { text = none; error = some bad_body })
    else (registration (body ++ spare) >>= λ r. some (register_reply (post r)))

-- The reply, and the devices that are logged: the session's own and those behind it.
unfoldable pub on_hear_beat : ℕ → DevSession → Bytes × List (ℕ × Text)
on_hear_beat seconds s = (
  to_le 4 0 ++ (fit 8 (hex_decode s.mac) ++ (to_le 4 seconds ++ (0 ∷ []))),
  (s.dev_id, s.mac) ∷ s.devs,
)

-- `onRegister` panics on a body of at least 22 bytes that, with what stands behind it in its array, is
-- shorter than its last length says, and on no other.
pub on_register_panics :
    (post : Registration → Posted) (body spare : Bytes)
    → (on_register post body spare ≡ none)
      ↔ ((22 ≤ length body) × (length (body ++ spare) < 22 + get_or (body ++ spare) 21 0))
unfolding on_register registration
on_register_panics post body spare = ground (arith, length-append body spare)
