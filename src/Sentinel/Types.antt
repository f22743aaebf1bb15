-- ===== src/Sentinel/Types.antt =====
-- `SentinelMgr` and `Sentinel` of srv/sentinel.go. A sentinel is the connection to another gateway.
use erina.Base.{Option, none, some, ℕ, List, [], Bool, Map, lookup, nat_key, text_key}

-- A string, by the codes of its characters.
abbrev pub Text : Type 0
Text = List ℕ

-- `con` tells whether `Con` is not nil, and `queue` whether `Queue` is a channel and not nil.
pub record Sentinel : Type 0 where
  pub adr : Text
  pub kind : ℕ
  pub con : Bool
  pub queue : Bool

pub record SentinelMgr : Type 0 where
  pub sentinels : Map Text Sentinel
  pub usr2sentinel : Map ℕ Text

-- `NewSentinelMgr`.
abbrev pub new_sentinel_mgr : SentinelMgr
new_sentinel_mgr = record { sentinels = []; usr2sentinel = [] }

-- A key that is missing reads as the empty string.
abbrev pub text_of : Option Text → Text
text_of none = []
text_of (some host) = host

-- `usr2sentinel[id]`.
abbrev pub host_of : SentinelMgr → ℕ → Text
host_of g id = text_of (lookup g.usr2sentinel id)
