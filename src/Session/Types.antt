-- ===== src/Session/Types.antt =====
-- `DevSession` and `DevSessionPool` of srv/devsess.go. A `*DevSession` is a number, and what it
-- points to is in `heap`.
use erina.Base.{ℕ, List, [], Option, Map}
use erina.Words.{Bytes}

-- A string, by the codes of its characters.
abbrev pub Text : Type 0
Text = List ℕ

-- The fields that the handlers modelled here read or write.
pub record DevSession : Type 0 where
  pub sid : Text
  pub dev_id : ℕ
  pub udp_adr : Text
  pub owner : ℕ
  pub mac : Text
  pub users : List ℕ
  pub devs : Map ℕ Text
  pub macs : Map Text ℕ
  pub sidx : ℕ
  pub ridx : ℕ
  pub mz : Option Bytes
  pub output : Bytes

pub record Pool : Type 0 where
  pub heap : Map ℕ DevSession
  pub sesses : Map ℕ ℕ
  pub sids : Map Text ℕ
  pub macs : Map Text ℕ
  pub mac_sid : Map Text Text

-- `NewDevSessionPool`.
abbrev pub new_pool : Pool
new_pool = record { heap = []; sesses = []; sids = []; macs = []; mac_sid = [] }
