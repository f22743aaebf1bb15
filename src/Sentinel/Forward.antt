-- ===== src/Sentinel/Forward.antt =====
-- `Forward` of srv/sentinel.go.
use erina.Sentinel.Types.{Sentinel, Text, SentinelMgr, host_of}
use erina.Base.{
  ℕ, zero, suc, ◌+◌, ltb, if◌then◌else◌, Bool, true, false, ◌≡◌, List, [], ◌∷◌, ◌++◌, Option, none,
  some, length, lookup, insert, text_key,
}
use erina.Words.{Bytes, to_le}

-- What the network does at the attempt of a number, counted through the whole call, to write a frame to
-- an address: whether the write succeeds, and if not, whether the connection is made again.
pub record Line : Type 0 where
  pub writes : Text → ℕ → Bool
  pub dials : Text → ℕ → Bool

-- How the writing of a frame ends, with the number of the next attempt.
pub data Sent : Type 0 where
  delivered : ℕ → Sent
  given_up : ℕ → Sent
  spinning : Sent

-- The loop at `repeat`, with a connection.
unfoldable pub write_frame : Line → ℕ → Text → ℕ → Sent
write_frame line zero adr attempt = spinning
write_frame line (suc fuel) adr attempt =
    let again = write_frame line fuel adr (attempt + 1) in
    if line.writes adr attempt
    then delivered (attempt + 1)
    else (if line.dials adr attempt then again else given_up (attempt + 1))

-- The length, the id and the message.
unfoldable pub sentinel_frame : ℕ → Bytes → Bytes
sentinel_frame id msg = to_le 4 (8 + length msg) ++ (to_le 8 id ++ msg)

-- The frames that were written, each with the address of the sentinel, the table, and the number of the
-- next attempt.
pub record Went : Type 0 where
  pub frames : List (Text × Bytes)
  pub table : SentinelMgr
  pub tries : ℕ

-- How the call ends: it returns, has not ended with the fuel, or panics on the write to a nil connection.
pub data Course : Type 0 where
  went : Went → Course
  unended : Course
  panicked : Course

abbrev pub ahead : Text × Bytes → Course → Course
ahead frame (went d) = went (record d { frames = frame ∷ d.frames })
ahead frame unended = unended
ahead frame panicked = panicked

-- The call on the other ids, from a table and an attempt on.
abbrev pub Onward : Type 0
Onward = SentinelMgr → ℕ → Course

-- A connection that cannot be made again is nil.
abbrev pub without_con : SentinelMgr → Text → Sentinel → SentinelMgr
without_con g host s = record g { sentinels = insert g.sentinels host (record s { con = false }) }

abbrev pub sent_then : Sent → Text → Sentinel → Bytes → Onward → SentinelMgr → Course
sent_then (delivered k) host s frame rest g = ahead (s.adr, frame) (rest g k)
sent_then (given_up k) host s frame rest g = rest (without_con g host s) k
sent_then spinning host s frame rest g = unended

-- One id, whose sentinel was looked up, before the other ids. A message that is too long ends the
-- call at the first id that has a sentinel.
unfoldable pub forward_to :
    Line → ℕ → ℕ → Bytes → Onward → SentinelMgr → ℕ → Option Sentinel → Course
unfolding write_frame sentinel_frame
forward_to line fuel id msg rest g k none = rest g k
forward_to line fuel id msg rest g k (some s) =
    if ltb 1024 (8 + length msg)
    then went (record { frames = []; table = g; tries = k })
    else (if s.con
        then sent_then (write_frame line fuel s.adr k) (host_of g id) s (sentinel_frame id msg) rest
            g
        else panicked)

unfoldable pub forward : Line → ℕ → SentinelMgr → ℕ → List ℕ → Bytes → Course
unfolding forward_to
forward line fuel g k [] msg = went (record { frames = []; table = g; tries = k })
forward line fuel g k (id ∷ ids) msg =
    forward_to line fuel id msg (λ g1 k1. forward line fuel g1 k1 ids msg) g k
      (lookup g.sentinels (host_of g id))

-- Every sentinel has a connection.
abbrev pub Connected : SentinelMgr → Type 0
Connected g = (a : Text) (s : Sentinel) → lookup g.sentinels a ≡ some s → s.con ≡ true
