-- ===== src/Session/Commands.antt =====
-- The switch of `opcode02` of srv/devop.go: which handler a command of a device goes to.
use erina.Base.{
  ◌++◌, true, ℕ, ◌==◌, List, [], ◌∷◌, Option, none, some, insert, lookup, nat_key, if◌then◌else◌,
  replicate,
}
use erina.Words.{Bytes, slice}
use erina.Outcome.{Outcome, ok, err, panic, ◌>>=◌, checked, Error, no_reply, invalid_command}
use erina.Aes.{Cipher}
use erina.Msg.Types.{Msg}
use erina.Session.Types.{Text, DevSession, Pool}
use erina.Session.Pool.{Reply, on_sess}
use erina.Session.Handlers.{Answer, on_log, on_ld2, on_ld2_chain, on_ld2_list}
use erina.Session.Registration.{Registration, Posted, on_register, on_hear_beat}
use erina.Session.Children.{Done, Event, on_sl, on_logout}
use erina.Session.Login.{on_login}
use erina.Session.Login.Stages.{LoginWorld, LoginDone, Tables}
use erina.Session.Dispatch.{World}
pub mod Kept
pub mod Handlers
pub mod Continues
pub mod Served

-- The commands, with their codes in srv/srv.go.
pub data Command : Type 0 where
  cmd_sess : Command
  cmd_register : Command
  cmd_login : Command
  cmd_heart_beat : Command
  cmd_logout : Command
  cmd_log : Command
  cmd_warn : Command
  cmd_stat : Command
  cmd_fail : Command
  cmd_ld2 : Command
  cmd_ld2_list : Command
  cmd_ld2_chain : Command
  cmd_dcm : Command
  cmd_sl : Command
  invalid : Command

abbrev listed_command : List (ℕ × Command) → ℕ → Command
listed_command [] code = invalid
listed_command ((c, command) ∷ rest) code =
    let other = listed_command rest code in if code == c then command else other

abbrev codes : List (ℕ × Command)
codes =
    (0xc1, cmd_sess)
    ∷ (0xc2, cmd_register)
    ∷ (0xc3, cmd_login)
    ∷ (0xc4, cmd_heart_beat)
    ∷ (0xc5, cmd_logout)
    ∷ (0xc6, cmd_log)
    ∷ (0x31, cmd_warn)
    ∷ (0x30, cmd_stat)
    ∷ (0x32, cmd_fail)
    ∷ (0xc8, cmd_ld2)
    ∷ (0xc9, cmd_ld2_list)
    ∷ (0xca, cmd_ld2_chain)
    ∷ (0x34, cmd_dcm)
    ∷ (0xcb, cmd_sl)
    ∷ []

unfoldable pub command_of : ℕ → Command
command_of code = listed_command codes code

-- What surrounds the handlers. `addr` is the peer, `fresh` and `random` the pointer and the bytes of a
-- new session; the functions are what redis and the http server answer; `spare` is what stands behind the
-- text of a message in its array, where a slice of the text is checked against the capacity.
pub record Around : Type 0 where
  pub login : LoginWorld
  pub addr : Text
  pub fresh : ℕ
  pub random : Bytes
  pub seconds : ℕ
  pub id_by_mac : Text → Outcome ℕ
  pub register : Registration → Posted
  pub ld2cfg : ℕ → Outcome Bytes
  pub ld2ds : Bytes → Outcome Bytes
  pub ld2cfg_list : Outcome Bytes
  pub spare : Msg → Bytes

-- What a handler returns, the tables that it leaves, and what it told.
pub record Ran : Type 0 where
  pub text : Option Bytes
  pub error : Option Error
  pub tables : Tables
  pub events : List Event

abbrev pub answered_by : Tables → Answer → Ran
answered_by t a = record { text = a.text; error = a.error; tables = t; events = [] }

abbrev pub text_only : Tables → Bytes → Ran
text_only t text = record { text = some text; error = none; tables = t; events = [] }

-- A session of the table, written back.
abbrev pub written_back : Tables → ℕ → Done → Ran
written_back t h d = record {
  text = d.text;
  error = d.error;
  tables = record t { pool = record (d.pool) { heap = insert (d.pool).heap h d.session } };
  events = d.events;
}

abbrev pub from_login : LoginDone → Ran
from_login d = record { text = d.text; error = d.error; tables = d.tables; events = d.events }

abbrev pub from_sess : Tables → Reply → Ran
from_sess t r = record {
  text = r.text;
  error = r.error;
  tables = record t { pool = r.pool };
  events = [];
}

-- The session that the pointer leads to, nil being a panic.
abbrev pub own : Tables → ℕ → Outcome DevSession
own t h = checked (lookup (t.pool).heap h)

-- The text, as far as a slice of it reaches.
abbrev pub reach : Around → Msg → Bytes
reach a m = m.text ++ a.spare m

-- The switch. `Deal` of the warnings, the statistics and the failures, and `onDcm`, only write to kafka or
-- redis.
unfoldable pub run : Around → Tables → Option ℕ → Msg → Command → Outcome Ran
unfolding on_login on_sl on_logout on_sess on_register on_ld2
run a t sess m cmd_sess =
    checked (on_sess t.pool m.fh_src_mac m.text a.addr a.fresh a.random) >>= λ r. ok (from_sess t r)
run a t sess m cmd_register =
    checked (on_register a.register m.text (a.spare m)) >>= λ r. ok (answered_by t r)
run a t sess m cmd_login = do h ← checked sess; d ← on_login a.login t h m.text; ok (from_login d)
run a t sess m cmd_heart_beat = do
  h ← checked sess
  s ← own t h
  ok (text_only t (on_hear_beat a.seconds s).0)
run a t sess m cmd_logout = do
  h ← checked sess
  s ← own t h
  d ← checked (on_logout s t.pool (reach a m))
  ok (written_back t h d)
run a t sess m cmd_log = checked (on_log m.text) >>= λ r. ok (answered_by t r)
run a t sess m cmd_warn = ok (text_only t (replicate 4 0))
run a t sess m cmd_stat = ok (text_only t (replicate 4 0))
run a t sess m cmd_fail = ok (text_only t (replicate 4 0))
run a t sess m cmd_ld2 = checked (on_ld2 a.ld2cfg m.text) >>= λ r. ok (answered_by t r)
run a t sess m cmd_ld2_list = checked (on_ld2_list a.ld2cfg_list) >>= λ r. ok (answered_by t r)
run a t sess m cmd_ld2_chain =
    checked (on_ld2_chain a.ld2ds (reach a m)) >>= λ r. ok (answered_by t r)
run a t sess m cmd_dcm = err no_reply
run a t sess m cmd_sl = do
  h ← checked sess
  s ← own t h
  d ← checked (on_sl t.mac2id a.id_by_mac s h t.pool (reach a m))
  ok (written_back t h d)
run a t sess m invalid = err invalid_command

abbrev pub reply_of : Ran → Reply
reply_of r = record { text = r.text; error = r.error; pool = r.tables.pool }

-- The switch as `opcode02` runs it, over the table of sessions that it has reached.
abbrev pub handler_of : Around → Tables → Pool → Option ℕ → Msg → Outcome Reply
handler_of a t p sess m =
    run a (record t { pool = p }) sess m (command_of m.dh_msg_id) >>= λ r. ok (reply_of r)

-- A gateway for devices over UDP with these handlers.
abbrev pub udp_world : Around → Tables → ℕ → World
udp_world a t nanos = record {
  cipher = a.login.cipher;
  gmz = t.gmz;
  udp = true;
  handler = handler_of a t;
  seconds = a.seconds;
  nanos = nanos;
}
