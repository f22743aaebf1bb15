-- ===== src/Session/Login/Stages.antt =====
-- What a login changes, by the http server's answer: the parts of `onLogin` of srv/devbusi.go.
use erina.Base.{
  ℕ, ◌%◌, ◌^◌, ◌==◌, if◌then◌else◌, Bool, false, List, [], ◌∷◌, ◌++◌, Option, none, some, Map,
  lookup, insert, nat_key, text_key, text_same,
}
use erina.Words.{Bytes, to_le, fit, hex_encode}
use erina.Outcome.{Outcome, ok, err, panic, Error, ◌>>=◌, checked}
use erina.Aes.{Cipher, encrypt_np}
use erina.Sentinel.Routes.{parse_int}
use erina.Session.Types.{Text, DevSession, Pool}
use erina.Session.Pool.{add, hex_decode}
use erina.Session.Children.{
  Event, logged_in, route_set, address_set, users_told, published, session_published, kill_sent,
  with_child, subdevlogout, dev_logout,
}

-- The fields of the http server's answer that have their types; numbers are whole.
pub record LoginAnswer : Type 0 where
  pub status : Option ℕ
  pub id : Option ℕ
  pub dv : Option Text
  pub tmp : Option Text
  pub ctlpwd : Option Text

-- What `post` returns: an error beside a code, or the answer.
pub data LoginPosted : Type 0 where
  unanswered : ℕ → Error → LoginPosted
  answered : LoginAnswer → LoginPosted

-- What surrounds a login. `dw` is `SrvType == CometDw`; `mz_of` is what `setMZ` stores, `users_of`
-- `GetUsersByDev`, `code_of` `GetDevLogCode`.
pub record LoginWorld : Type 0 where
  pub cipher : Cipher
  pub dw : Bool
  pub timeout : ℕ
  pub random : Bytes
  pub post : Text → Text → LoginPosted
  pub mz_of : Text → Bytes
  pub users_of : ℕ → Option (List ℕ × ℕ)
  pub sq : ℕ → Outcome Bytes
  pub code_of : Text → Text

-- The table of sessions, `MAC2ID` and `GMZ`.
pub record Tables : Type 0 where
  pub pool : Pool
  pub mac2id : Map Text ℕ
  pub gmz : Map Text Bytes

-- `output`.
pub record Output : Type 0 where
  pub status : ℕ
  pub owner : ℕ
  pub timeout : ℕ
  pub tmp : Bytes
  pub code : ℕ
  pub pwd : Bytes
  pub dv : ℕ

abbrev pub flat : Output → Bytes
flat o =
    to_le 4 o.status
    ++ (to_le 8 o.owner
        ++ ((o.timeout % 256)
            ∷ (fit 16 o.tmp ++ (to_le 4 o.code ++ (fit 16 o.pwd ++ to_le 4 o.dv)))))

abbrev pub no_output : Output
no_output = record { status = 0; owner = 0; timeout = 0; tmp = []; code = 0; pwd = []; dv = 0 }

-- What `onLogin` returns and leaves. `state` is none for -1.
pub record LoginDone : Type 0 where
  pub text : Option Bytes
  pub error : Option Error
  pub state : Option ℕ
  pub tables : Tables
  pub events : List Event

-- The session at `h`, the tables, the owner's place in the output, and what is told.
pub record Stage : Type 0 where
  pub session : DevSession
  pub tables : Tables
  pub owner : ℕ
  pub events : List Event

-- `DAckHTTPError` of srv/http.go.
abbrev pub dack_http_error : ℕ
dack_http_error = 500

-- `uint32` of `strconv.Atoi`, where an error leaves zero, or the value beside the error.
abbrev pub dv_of : Option Text → ℕ
dv_of none = 0
dv_of (some text) = let (n, fine) = parse_int text in if fine then n % 2 ^ 32 else 0

abbrev pub code_from : Text → ℕ
code_from [] = 0
code_from (c ∷ text) = (parse_int (c ∷ text)).0 % 2 ^ 32

abbrev pub tmp_of : Option Text → Bytes
tmp_of none = []
tmp_of (some text) = hex_decode text

-- The encrypted password; nothing when an error comes up.
abbrev pub pwd_from : Cipher → Outcome Bytes → Text → Outcome Bytes
pwd_from c (ok sq) text = encrypt_np c (hex_decode text) sq
pwd_from c (err e) text = ok []
pwd_from c panic text = panic

abbrev pub or_nothing : Outcome Bytes → Outcome Bytes
or_nothing (ok b) = ok b
or_nothing (err e) = ok []
or_nothing panic = panic

abbrev pub pwd_of : LoginWorld → ℕ → Option Text → Outcome Bytes
pwd_of w id none = ok []
pwd_of w id (some text) = or_nothing (pwd_from w.cipher (w.sq id) text)

-- `sess.mz = GMZ[sess.mac]` behind `setMZ`.
abbrev pub with_mz : LoginWorld → DevSession → DevSession
with_mz w s = record s { mz = some (w.mz_of s.mac) }

abbrev pub mz_kept : LoginWorld → DevSession → Map Text Bytes → Map Text Bytes
mz_kept w s gmz = insert gmz s.mac (w.mz_of s.mac)

-- The previous session of the device, which is not `beKilled`, runs `devLogout` before the new one goes
-- on.
abbrev pub replaced_at : Pool → Option ℕ → Outcome (Pool × List Event)
replaced_at p none = ok (p, [])
replaced_at p (some v) = do
  prev ← checked (lookup p.heap v)
  let d = dev_logout prev false p
  ok (record (d.pool) { heap = insert (d.pool).heap v d.session }, kill_sent v ∷ d.events)

-- Of a gateway for TCP devices: the session id is made here, and the table finds the session by it.
unfoldable pub enter_dw :
    LoginWorld → Pool → ℕ → DevSession → Outcome (DevSession × Pool × List Event)
unfolding dev_logout add
enter_dw w p h s =
    if w.dw
    then (do
      r ← replaced_at p (lookup p.sesses s.dev_id)
      let named = record s { sid = hex_encode w.random }
      ok (named, add r.0 h named, session_published s.mac ∷ r.1))
    else ok (s, p, [])

abbrev pub with_users : DevSession → Option (List ℕ × ℕ) → DevSession
with_users s none = s
with_users s (some ([], owner)) = record s { owner = owner }
with_users s (some (user ∷ users, owner)) = record s { owner = owner; users = user ∷ users }

abbrev pub owner_of : Option (List ℕ × ℕ) → ℕ
owner_of none = 0
owner_of (some (users, owner)) = owner

-- The first login of the session.
unfoldable pub first_login : LoginWorld → Tables → ℕ → DevSession → ℕ → Outcome Stage
unfolding enter_dw
first_login w t h s id = enter_dw w t.pool h (record s { dev_id = id }) >>= λ (s1, p, told).
    ok (record {
      session = with_users (with_mz w s1) (w.users_of id);
      tables = record t {
        pool = record p { sesses = insert p.sesses id h };
        gmz = mz_kept w s t.gmz;
      };
      owner = owner_of (w.users_of id);
      events =
          told ++ (logged_in id s.mac ∷ route_set id ∷ users_told id false ∷ address_set id ∷ []);
    })

-- Another session that has the device loses it.
abbrev pub released_at : Pool → DevSession → ℕ → Option ℕ → Outcome (Pool × List Event)
released_at p s id none = ok (p, [])
released_at p s id (some v) = do
  sub ← checked (lookup p.heap v)
  let d = subdevlogout sub p id
  ok (
      if text_same sub.sid s.sid
      then (p, [])
      else (record (d.pool) { heap = insert (d.pool).heap v d.session }, d.events))

-- The device is listed, unless it is.
abbrev pub child_at : Tables → Pool → ℕ → DevSession → ℕ → Text → List Event → Option Text → Stage
child_at t p h s id mac told (some listed) = record {
  session = s;
  tables = record t { pool = p };
  owner = 0;
  events = told;
}
child_at t p h s id mac told none = record {
  session = with_child s id mac;
  tables = record t { pool = record p { sesses = insert p.sesses id h } };
  owner = 0;
  events =
      told
      ++ (published id
          ∷ logged_in id mac
          ∷ address_set id
          ∷ route_set id
          ∷ users_told id false
          ∷ []);
}

unfoldable pub child_login : Tables → ℕ → DevSession → ℕ → Text → Outcome Stage
unfolding subdevlogout
child_login t h s id mac = released_at t.pool s id (lookup (t.pool).sesses id) >>= λ (p, told).
    ok (child_at t p h s id mac told (lookup s.devs id))

-- The same device by another MAC.
abbrev pub same_login : LoginWorld → Tables → DevSession → Stage
same_login w t s = record {
  session = with_mz w s;
  tables = record t { gmz = mz_kept w s t.gmz };
  owner = 0;
  events = address_set s.dev_id ∷ [];
}

abbrev pub known_login : LoginWorld → Tables → ℕ → DevSession → ℕ → Text → Outcome Stage
known_login w t h s id mac =
    if s.dev_id == 0
    then first_login w t h s id
    else (if s.dev_id == id then ok (same_login w t s) else child_login t h s id mac)

abbrev pub staged : Tables → DevSession → Stage
staged t s = record { session = s; tables = t; owner = 0; events = [] }

-- `rep["id"]`.
unfoldable pub id_login : LoginWorld → Tables → ℕ → DevSession → Text → Option ℕ → Outcome Stage
unfolding first_login child_login
id_login w t h s mac none = ok (staged t s)
id_login w t h s mac (some id) =
    known_login w (record t { mac2id = insert t.mac2id mac id }) h s id mac
