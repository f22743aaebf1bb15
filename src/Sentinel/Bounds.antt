-- ===== src/Sentinel/Bounds.antt =====
-- What `Forward` writes and when it ends, on any network.
use erina.Base.{◌⊎◌, ℕ, ◌+◌, ◌≤◌, ◌<◌, ◌≡◌, true, false, [], length, text_key, All}
use erina.Sentinel.Forward.{
  given_up, delivered, Line, Sent, Course, went, panicked, Went, Onward, Connected,
}
use erina.Words.{Bytes}
use erina.Sentinel.Types.{Text, Sentinel, SentinelMgr}

-- A frame that the loop of another gateway takes whole.
abbrev pub Fits : Text × Bytes → Type 0
Fits (adr, frame) = (12 ≤ length frame) × (length frame ≤ 1028)

-- From this attempt on the loop at `repeat` ends within the fuel: at some attempt the write succeeds or
-- the connection is not made again.
abbrev pub Settles : Line → ℕ → Text → ℕ → Type 0
Settles line fuel adr first =
    (n : ℕ) × (n < fuel)
    × ((line.writes adr (first + n) ≡ true) ⊎ (line.dials adr (first + n) ≡ false))

-- At some attempt the write fails and the connection cannot be made again.
pub record Unreachable (line : Line) : Type 0 where
  pub adr : Text
  pub attempt : ℕ
  pub refused : line.writes adr attempt ≡ false
  pub fails : line.dials adr attempt ≡ false

abbrev Written : Line → Sent → Type 0
Written line s = ((k : ℕ) × (s ≡ delivered k)) ⊎ ((k : ℕ) × (s ≡ given_up k) × Unreachable line)

-- The call returns, with frames that fit, and none of a message that is too long.
pub record Returns (msg : Bytes) (c : Course) : Type 0 where
  pub end : Went
  pub returns : c ≡ went end
  pub fit : All Fits end.frames
  pub short : (length msg ≤ 1016) ⊎ (end.frames ≡ [])

-- Or it panics, and some connection could not be made again.
abbrev pub Bounded : Line → Bytes → Course → Type 0
Bounded line msg c = Returns msg c ⊎ (c ≡ panicked) × Unreachable line

module _ (line : Line) (fuel : ℕ) (msg : Bytes)
    (settles : (adr : Text) (k : ℕ) → Settles line fuel adr k) where
  -- Where a sentinel has no connection, one could not be made again.
  abbrev Sound : SentinelMgr → Type 0
  Sound g = Connected g ⊎ Unreachable line

  abbrev Onward-Bounded : Onward → Type 0
  Onward-Bounded rest = (g : SentinelMgr) (k : ℕ) → Sound g → Bounded line msg (rest g k)
