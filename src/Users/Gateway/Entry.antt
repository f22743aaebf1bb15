-- ===== src/Users/Gateway/Entry.antt =====
-- How an application gets in, the part of `mwh` of srv/mws.go before its loop: who it says it is,
-- whether that is so, the table, and the messages that waited.
use erina.Base.{
  ℕ, ◌+◌, ◌-◌, ◌*◌, ◌==◌, leb, ◌&&◌, if◌then◌else◌, Bool, true, false, List, [], ◌∷◌, ◌++◌, Option,
  none, some, insert, nat_key,
}
use erina.Words.{Bytes}
use mathlib.Core.Option
use erina.Outcome.{Outcome, ok, err, panic, ◌>>=◌, checked}
use erina.Aes.{Cipher}
use erina.Msg.Types.{Msg, Exit, done, failed, new_msg}
use erina.Msg.Decode.{binary2msg}
use erina.Msg.Encode.{msg2binary}
use erina.Sentinel.Types.{Text}
use erina.Sentinel.Routes.{split_at}
use erina.Session.Forward.{left_by}
use erina.Users.Types.{UsrSession, UsrSessionPool, opened}
use erina.Users.Pool.{add_session}
use erina.Users.Offline.{force_user_offline}
use erina.Users.Params.{Params, verify_login_params, is_auth, got_tmpkey, signed}
pub mod Entered
pub mod Granted
pub mod Vouched
pub mod Waiting

-- What `get` answers: an error; no "data"; "data" without a status that is a number; or the status,
-- with the "key" if there is a text.
pub data AuthAnswer : Type 0 where
  unreachable : AuthAnswer
  no_data : AuthAnswer
  unknown : AuthAnswer
  status : ℕ → Option Text → AuthAnswer

-- What surrounds a login: MD5 as bytes and as base64 text, the clock, a random key, and the
-- http server.
pub record Gate : Type 0 where
  pub cipher : Cipher
  pub md5 : Bytes → Bytes
  pub signature : Text → Text
  pub seconds : ℕ
  pub nanos : ℕ
  pub random : Bytes
  pub auth : Text → Text → AuthAnswer

-- Who has been let in.
pub record Visitor : Type 0 where
  pub uid : ℕ
  pub mobile : Text
  pub mz : Option Bytes
  pub replies : List Bytes

-- The socket is closed after some replies, or the login goes on.
pub data Entrance : Type 0 where
  closed : List Bytes → Entrance
  admitted : Visitor → Entrance

-- `hex.DecodeString`; `none` is its error.
abbrev pub hex_digit_of : ℕ → Option ℕ
hex_digit_of c =
    if leb 48 c && leb c 57
    then some (c - 48)
    else (if leb 97 c && leb c 102
        then some (c - 87)
        else (if leb 65 c && leb c 70 then some (c - 55) else none))

abbrev pub joined : Option ℕ → Option ℕ → Option Bytes → Option Bytes
joined (some a) (some b) (some bytes) = some ((a * 16 + b) ∷ bytes)
joined _ _ _ = none

unfoldable pub decode_string : Text → Option Bytes
decode_string [] = some []
decode_string (a ∷ []) = none
decode_string (a ∷ b ∷ text) =
    let rest = decode_string text in joined (hex_digit_of a) (hex_digit_of b) rest

-- The key for the application and the secret of the session, both nil when there is no key;
-- `none` closes the socket.
abbrev pub Keys : Type 0
Keys = Bytes × Option Bytes

abbrev pub keys_or_close : Outcome (Bytes × Bytes) → Outcome (Option Keys)
keys_or_close (ok (tmpcipher, mz)) = ok (some (tmpcipher, some mz))
keys_or_close (err e) = ok none
keys_or_close panic = panic

abbrev pub keys_from : Gate → Option Bytes → Outcome (Option Keys)
keys_from g none = ok none
keys_from g (some authcode) = keys_or_close (got_tmpkey g.cipher g.md5 g.random authcode)

unfoldable pub keys_of : Gate → AuthAnswer → Outcome (Option Keys)
unfolding decode_string
keys_of g unreachable = ok none
keys_of g no_data = ok none
keys_of g unknown = ok (some ([], none))
keys_of g (status n key) =
    if n == 0
    then (elim key [ none ↦ ok (some ([], none)) | some text ↦ keys_from g (decode_string text) ])
    else ok none

-- The answer to a login by a frame, and the visitor.
abbrev pub welcomed : Gate → Msg → Text → Option Keys → Outcome Entrance
welcomed g m mobile none = ok (closed [])
welcomed g m mobile (some (tmpcipher, mz)) =
    left_by (
      msg2binary g.cipher g.nanos
        (record m { fh_dst_id = m.fh_src_id; fh_src_id = 0; text = tmpcipher }))
    >>= λ r.
        ok (
          admitted (record { uid = m.fh_src_id; mobile = mobile; mz = mz; replies = r.final ∷ [] }))

abbrev pub on_fields : Gate → Msg → List Text → Outcome Entrance
on_fields g m (token ∷ mobile ∷ []) =
    keys_of g (g.auth (signed m.fh_src_id) token) >>= λ keys. welcomed g m mobile keys
on_fields g m _ = ok (closed [])

unfoldable pub new_login : Gate → Msg → Outcome Entrance
unfolding keys_of
new_login g m = on_fields g m (split_at 124 m.text)

-- `AckWrongParams` and `AckCheckFail`.
abbrev pub authorised : Params → Outcome Bool → Outcome Entrance
authorised p (ok b) =
    ok (admitted (record { uid = p.id; mobile = p.mobile; mz = none; replies = [] }))
authorised p (err e) = ok (closed ((2 ∷ []) ∷ []))
authorised p panic = panic

abbrev pub on_params : Gate → Outcome Params → Outcome Entrance
on_params g (ok p) = authorised p (is_auth g.signature g.seconds p)
on_params g (err e) = ok (closed ((1 ∷ []) ∷ []))
on_params g panic = panic

unfoldable pub old_login : Gate → Bytes → Outcome Entrance
old_login g reply = on_params g (verify_login_params reply)

-- The first message: a frame, or else a text. The decoder works in the message's own bytes.
abbrev pub on_first : Gate → Exit → Outcome Entrance
on_first g (done m) = new_login g m
on_first g (failed e m) = old_login g m.final
on_first g Exit.panic = panic

unfoldable pub log_in : Gate → Bytes → Outcome Entrance
unfolding new_login old_login
log_in g reply = on_first g (binary2msg g.cipher (record new_msg { final = reply }))

-- What redis and the bus say: the mobile of a user, the devices, and whether `Login` works.
pub record Bus : Type 0 where
  pub mobile_of : ℕ → Text
  pub devs_of : ℕ → List ℕ
  pub registers : ℕ → Bool

-- The table after the login of a visitor whose session is at the new pointer `h`, and what is sent:
-- `AckNotifyMsgbusFail`, or `AckLoginOK`.
unfoldable pub enter : Bus → UsrSessionPool → ℕ → Visitor → Option (UsrSessionPool × Bytes)
unfolding force_user_offline add_session
enter b p h v =
    let s : UsrSession = record { uid = v.uid; devs = b.devs_of v.uid; ws = opened; mz = v.mz } in
    Option.bind (force_user_offline p v.uid (b.mobile_of v.uid) v.mobile) λ f.
      let q = record (f.pool) { heap = insert (f.pool).heap h s } in
      if b.registers v.uid
      then Option.bind (add_session q h) (λ r. some (r, 0 ∷ []))
      else some (f.pool, 3 ∷ [])

-- The messages that are sent, those that wait afterwards, and whether the loop is entered.
pub record Delivery : Type 0 where
  pub sent : List Bytes
  pub waiting : List Bytes
  pub goes_on : Bool

-- What `lpop` does: it gives the first message; it fails, and the message stays; or its answer is lost,
-- and the message with it. Beside an error the code has nil, as for an empty queue.
pub data Pop : Type 0 where
  popped : Pop
  failed_pop : Pop
  lost_answer : Pop

-- What redis and the socket do: at the attempt of a number, `lpop` and the socket's send; and whether
-- `rpush`, whose error is not looked at, puts the message back.
pub record Post : Type 0 where
  pub pops : ℕ → Pop
  pub takes : ℕ → Bool
  pub puts : Bool

-- A message that was popped: `rest` is the loop on the others.
abbrev pub offered : Bool → Bool → Bytes → List Bytes → Delivery → Delivery
offered takes puts m waiting rest = if takes then record rest { sent = m ∷ rest.sent } else record {
  sent = [];
  waiting = if puts then waiting ++ (m ∷ []) else waiting;
  goes_on = false;
}

-- The loop over the messages that wait, from the attempt of a number.
abbrev pub after_pop : Pop → Bool → Bool → Bytes → List Bytes → Delivery → Delivery
after_pop popped takes puts m waiting rest = offered takes puts m waiting rest
after_pop failed_pop takes puts m waiting rest = record {
  sent = [];
  waiting = m ∷ waiting;
  goes_on = true;
}
after_pop lost_answer takes puts m waiting rest = record {
  sent = [];
  waiting = waiting;
  goes_on = true;
}

unfoldable pub deliver : Post → ℕ → List Bytes → Delivery
deliver b k [] = record { sent = []; waiting = []; goes_on = true }
deliver b k (m ∷ waiting) =
    after_pop (b.pops k) (b.takes k) b.puts m waiting (deliver b (k + 1) waiting)
