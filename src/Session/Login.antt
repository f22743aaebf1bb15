-- ===== src/Session/Login.antt =====
-- `onLogin` of srv/devbusi.go: the login of a device, or of a device behind one.
use erina.Base.{
  ℕ, ◌==◌, not, ◌&&◌, if◌then◌else◌, Bool, Option, none, some, length, replicate, take, drop,
  lookup, insert, nat_key, text_same, [],
}
use erina.Words.{Bytes, hex_encode}
use erina.Outcome.{Outcome, ok, Error, ◌>>=◌, checked, bad_body, not_logged_in}
use erina.Session.Types.{Text, DevSession}
use erina.Session.Login.Stages.{
  LoginWorld, LoginPosted, unanswered, answered, LoginAnswer, Tables, Output, flat, no_output,
  LoginDone, Stage, staged, id_login, pwd_of, tmp_of, code_from, dv_of, dack_http_error,
}
pub mod Stages
pub mod First
pub mod Child
pub mod Refused
pub mod Named

-- Nothing changes.
abbrev pub unchanged : Tables → Option Bytes → Option Error → LoginDone
unchanged t text e = record { text = text; error = e; state = none; tables = t; events = [] }

-- A session keeps the output of its own login.
abbrev pub kept_output : Bool → DevSession → Bytes → DevSession
kept_output first s out = if first then record s { output = out } else s

-- The end of the function, with the session written back.
abbrev pub finished : ℕ → Bool → Stage → Output → LoginDone
finished h first g o = record {
  text = some (flat o);
  error = none;
  state = some o.status;
  tables = record (g.tables) {
    pool = record (g.tables.pool) {
      heap = insert (g.tables.pool).heap h (kept_output first g.session (flat o));
    };
  };
  events = g.events;
}

-- The output when the answer has no status, or another one than zero.
abbrev pub other_output : LoginWorld → DevSession → ℕ → Output
other_output w s status = record no_output {
  status = status;
  timeout = w.timeout;
  code = code_from (w.code_of s.mac);
}

abbrev pub id_or_zero : Option ℕ → ℕ
id_or_zero none = 0
id_or_zero (some id) = id

abbrev pub dv_beside : LoginAnswer → Option ℕ → ℕ
dv_beside a none = 0
dv_beside a (some id) = dv_of a.dv

abbrev pub fine_output : LoginWorld → LoginAnswer → Option ℕ → Stage → Bytes → Output
fine_output w a id g pwd = record {
  status = 0;
  owner = g.owner;
  timeout = w.timeout;
  tmp = tmp_of a.tmp;
  code = code_from (w.code_of (g.session).mac);
  pwd = pwd;
  dv = dv_beside a id;
}

-- With the status 0, by `rep["id"]`.
unfoldable pub on_fine :
    LoginWorld → Tables → ℕ → DevSession → Text → LoginAnswer → Option ℕ → Outcome LoginDone
unfolding id_login
on_fine w t h s mac a id = do
  g ← id_login w t h s mac id
  pwd ← pwd_of w (id_or_zero id) a.ctlpwd
  ok (finished h (s.dev_id == 0) g (fine_output w a id g pwd))

-- By `rep["status"]`.
unfoldable pub on_status :
    LoginWorld → Tables → ℕ → DevSession → Text → LoginAnswer → Option ℕ → Outcome LoginDone
unfolding on_fine
on_status w t h s mac a none =
    ok (finished h (s.dev_id == 0) (staged t s) (other_output w s dack_http_error))
on_status w t h s mac a (some status) =
    if status == 0
    then on_fine w t h s mac a a.id
    else ok (finished h (s.dev_id == 0) (staged t s) (other_output w s status))

abbrev pub on_posted : LoginWorld → Tables → ℕ → DevSession → Text → LoginPosted → Outcome LoginDone
on_posted w t h s mac (unanswered code e) =
    ok (unchanged t (some (flat (record no_output { status = code }))) (some e))
on_posted w t h s mac (answered a) = on_status w t h s mac a a.status

-- A device that logs in again gets the output of its login; one behind a device that has not logged in
-- is refused.
unfoldable pub on_macs : LoginWorld → Tables → ℕ → DevSession → Text → Text → Outcome LoginDone
unfolding on_status
on_macs w t h s mac cookie =
    if not (s.dev_id == 0) && text_same s.mac mac
    then ok (unchanged t (some s.output) none)
    else (if s.dev_id == 0 && not (text_same s.mac mac)
        then ok (unchanged t none (some not_logged_in))
        else on_posted w t h s mac (w.post mac cookie))

-- The length of `output` with nothing in it.
abbrev pub blank : Bytes
blank = replicate 53 0

unfoldable pub on_login : LoginWorld → Tables → ℕ → Bytes → Outcome LoginDone
unfolding on_macs
on_login w t h body = do
  s ← checked (lookup (t.pool).heap h)
  if not (length body == 42)
      then ok (unchanged t (some blank) (some bad_body))
      else on_macs w t h s (hex_encode (take 8 body)) (hex_encode (take 32 (drop 8 body)))
