-- ===== src/Session/Loop.antt =====
-- `handle` of srv/devudp.go: a datagram, its header and what the opcode says.
pub mod Accepted
pub mod Guarded
use erina.Base.{ℕ, Option, none, some, List, if◌then◌else◌, ◌==◌}
use erina.Words.{Bytes}
use erina.Outcome.{Outcome, ok, err, ◌>>=◌, wrong_opcode}
use erina.Msg.Types.{Msg}
use erina.Msg.Decode.{header}
use erina.Session.Types.{Pool}
use erina.Session.Dispatch.{World, opcode02}
use erina.Session.Forward.{Forwarded, left_by, opcode03, opcode05}

-- A reply with the session's pointer and the table, or a message that goes on to users.
pub data Handled : Type 0 where
  replied : Msg → Option ℕ → Pool → Handled
  passed_on : Forwarded → Handled

-- Redis answers `mz` and `users`. The error of `Header` is not looked at.
unfoldable pub handle :
    World → (ℕ → Outcome (Option Bytes)) → (ℕ → Option (List ℕ × ℕ)) → Pool → Msg → Outcome Handled
unfolding opcode02 opcode03 opcode05
handle w mz users p m = do
  m ← left_by (header w.cipher m)
  if m.fh_opcode == 2
      then (opcode02 w p m >>= λ r. ok (replied r.0 r.1 r.2))
      else (if m.fh_opcode == 3
          then (opcode03 w (mz m.fh_src_id) users p none m >>= λ f. ok (passed_on f))
          else (if m.fh_opcode == 5
              then (opcode05 w (mz m.fh_src_id) users p none m >>= λ f. ok (passed_on f))
              else err wrong_opcode))
