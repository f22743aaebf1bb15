-- ===== src/Session/Pool.antt =====
-- The table's operations: `newDevSession`, `add`, `delSessionByMac` of srv/devsess.go, `Byte2Sess`
-- of srv/util.go and `onSess` of srv/devbusi.go.
pub mod Consistent
pub mod Opened
pub mod Removal
use erina.Base.{
  ℕ, ◌+◌, ◌*◌, ◌-◌, List, [], ◌∷◌, ◌++◌, Option, none, some, Map, lookup, insert, remove, ltb, leb,
  ◌==◌, not, ◌&&◌, if◌then◌else◌, length, take, replicate, nat_key, text_key,
}
use erina.Words.{Bytes, hex_encode, to_le, fit}
use erina.Outcome.{
  Outcome, ok, err, panic, Error, bad_body, no_session, no_session_key, short_session_key,
}
use erina.Session.Types.{Text, DevSession, Pool}

-- `newDevSession`, with the eight random bytes that become the session id.
unfoldable pub new_dev_session : Text → Bytes → DevSession
new_dev_session addr random = record {
  sid = hex_encode random;
  dev_id = 0;
  udp_adr = addr;
  owner = 0;
  mac = [];
  users = [];
  devs = [];
  macs = [];
  sidx = 0;
  ridx = 0;
  mz = none;
  output = [];
}

-- The session at the pointer `h`.
unfoldable pub add : Pool → ℕ → DevSession → Pool
add p h o = record p {
  sids = insert p.sids o.sid h;
  macs = insert p.macs o.mac h;
  mac_sid = insert p.mac_sid o.mac o.sid;
}

-- A key that is missing reads as the empty string.
abbrev pub sid_of : Pool → Text → Text
sid_of p mac = elim (lookup p.mac_sid mac) [ none ↦ [] | some sid ↦ sid ]

unfoldable pub del_session_by_mac : Pool → Text → Pool
del_session_by_mac p mac = record p {
  macs = remove p.macs mac;
  sids = remove p.sids (sid_of p mac);
  mac_sid = remove p.mac_sid mac;
}

unfoldable pub byte2sess : Pool → Option Bytes → Outcome ℕ
byte2sess p none = err no_session_key
byte2sess p (some adr) =
    if ltb (length adr) 8
    then err short_session_key
    else elim (lookup p.sids (hex_encode (take 8 adr))) [ none ↦ err no_session | some h ↦ ok h ]

-- The value of a hexadecimal digit.
unfoldable pub hex_value : ℕ → Option ℕ
hex_value d =
    if leb 48 d && leb d 57
    then some (d - 48)
    else (if leb 97 d && leb d 102
        then some (d - 87)
        else (if leb 65 d && leb d 70 then some (d - 55) else none))

-- One byte in front of those that follow; an error ends the bytes.
abbrev pub hex_pair : Option ℕ → Option ℕ → Bytes → Bytes
hex_pair none lo rest = []
hex_pair (some x) none rest = []
hex_pair (some x) (some y) rest = (x * 16 + y) ∷ rest

-- `hex.DecodeString`: the bytes up to the first error, which the callers ignore.
abbrev pub hex_decode : Text → Bytes
hex_decode [] = []
hex_decode (a ∷ []) = []
hex_decode (a ∷ b ∷ text) = hex_pair (hex_value a) (hex_value b) (hex_decode text)

-- What a handler returns: the reply's text and the error, both possibly nil, and the table.
pub record Reply : Type 0 where
  pub text : Option Bytes
  pub error : Option Error
  pub pool : Pool

-- `output` of `onSess`, with the session id twice.
abbrev pub sess_output : Bytes → Bytes
sess_output sid = to_le 4 0 ++ (fit 8 sid ++ fit 8 sid)

-- `onSess`. `addr` is the peer, `h` the new session's pointer, `random` its random bytes. `none` is
-- the panic on a pointer that is nil.
unfoldable pub on_sess : Pool → Text → Bytes → Text → ℕ → Bytes → Option Reply
on_sess p mac body addr h random =
    if not (length body == 48)
    then some (record { text = some (replicate 20 0); error = some bad_body; pool = p })
    else elim (lookup p.macs mac) [
      | none ↦
          let s = record (new_dev_session addr random) { mac = mac } in
          some (record {
            text = some (sess_output (hex_decode s.sid));
            error = none;
            pool = add (record p { heap = insert p.heap h s }) h s;
          })
      | some v ↦ elim (lookup p.heap v) [
        | none ↦ none
        | some s ↦
            some (record { text = some (sess_output (hex_decode s.sid)); error = none; pool = p })
      ]
    ]
