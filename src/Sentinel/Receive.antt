-- ===== src/Sentinel/Receive.antt =====
-- The loop that `LaunchMonitor` of srv/sentinel.go runs on a connection.
use erina.Base.{
  Option, ℕ, zero, suc, ◌+◌, ◌==◌, if◌then◌else◌, List, [], ◌∷◌, none, some, length, drop,
}
use erina.Wire.Stream.{Read, read, failed, unfinished, read_full}
use erina.Words.{Bytes, of_le, slice}

-- How the loop ends.
pub data End : Type 0 where
  closed : End
  panicked : End
  spinning : End

-- An id and the message for it.
abbrev pub Push : Type 0
Push = ℕ × Bytes

abbrev pub push_then : Push → List Push × End → List Push × End
push_then p (ps, e) = (p ∷ ps, e)

-- The rest of a round, where `again` is the next one. `data[0:8]` of a shorter frame panics.
abbrev pub on_id : (Bytes → List Push × End) → Bytes → Bytes → Option Bytes → List Push × End
on_id again payload stream none = ([], panicked)
on_id again payload stream (some id) = push_then (of_le id, drop 8 payload) (again stream)

abbrev pub on_payload : (Bytes → List Push × End) → Read Bytes → List Push × End
on_payload again failed = ([], closed)
on_payload again unfinished = ([], spinning)
on_payload again (read payload stream) = on_id again payload stream (slice payload 0 8)

abbrev pub on_head : (Bytes → List Push × End) → Read Bytes → List Push × End
on_head again failed = ([], closed)
on_head again unfinished = ([], spinning)
on_head again (read h4 stream) =
    if of_le h4 == 0 then again stream else on_payload again (read_full (of_le h4) stream)

-- What is passed on, in order, of the bytes that come.
unfoldable pub receive : ℕ → Bytes → List Push × End
receive zero stream = ([], spinning)
receive (suc fuel) stream = on_head (receive fuel) (read_full 4 stream)

-- Each round takes four bytes off the connection at least.
abbrev pub monitor : Bytes → List Push × End
monitor stream = receive (length stream + 1) stream
