-- ===== src/Sentinel/Commands.antt =====
-- What `LaunchMonitor` of srv/sentinel.go does with a message that another gateway forwarded.
use erina.Base.{◌++◌, ℕ, ◌==◌, ◌&&◌, if◌then◌else◌, Option, none, some, lookup, nat_key}
use erina.Words.{Bytes, of_le, slice}
use erina.Outcome.{Outcome, ok, ◌>>=◌, checked}
use erina.Aes.{Cipher}
use erina.Msg.Types.{Msg, new_msg}
use erina.Msg.Decode.{binary2msg}
use erina.Session.Types.{Pool}
use erina.Session.Forward.{left_by}
use erina.Session.Children.{Done, subdevlogout}
use erina.Session.Push.{Queued, dev_push_msg}

-- A message for the device, the timer of a session that is made to fire, a device that is logged out
-- of a session, or nothing.
pub data Monitored : Type 0 where
  pushed : Queued → Monitored
  timed_out : ℕ → Monitored
  parted : ℕ → Done → Monitored
  ignored : Monitored

-- The command to drop the device `dst`, by the session that its route leads to.
abbrev pub kill_at : Pool → ℕ → Option ℕ → Outcome Monitored
kill_at p dst none = ok ignored
kill_at p dst (some h) = do
  s ← checked (lookup p.heap h)
  ok (if dst == s.dev_id then timed_out h else parted h (subdevlogout s p dst))

-- The branch of a gateway for devices over UDP. `spare` is what stands behind the text of a message in
-- its array, which `m.Text[0:8]` may take in.
unfoldable pub on_forwarded : Cipher → (Msg → Bytes) → ℕ → Pool → ℕ → Bytes → Outcome Monitored
on_forwarded c spare now p id bytes = do
  m ← left_by (binary2msg c (record new_msg { final = bytes }))
  if (m.fh_opcode == 2) && (m.dh_msg_id == 0xc7)
      then (checked (slice (m.text ++ spare m) 0 8) >>= λ front.
          kill_at p (of_le front) (lookup p.sesses (of_le front)))
      else (dev_push_msg c now p id bytes >>= λ q. ok (pushed q))
