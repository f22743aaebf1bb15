-- ===== src/Users/Types.antt =====
-- `UsrSession` and `UsrSessionPool` of srv/ms.go. A `*UsrSession` is a number, and what it points to
-- is in `heap`.
use erina.Base.{ℕ, ◌-◌, ◌^◌, List, [], Option, none, some, Map}
use erina.Words.{Bytes}

-- The web socket: nil, open, or closed.
pub data Ws : Type 0 where
  no_ws : Ws
  opened : Ws
  shut : Ws

-- The fields that the operations modelled here read or write.
pub record UsrSession : Type 0 where
  pub uid : ℕ
  pub devs : List ℕ
  pub ws : Ws
  pub mz : Option Bytes

pub record UsrSessionPool : Type 0 where
  pub heap : Map ℕ UsrSession
  pub sesses : Map ℕ ℕ

-- `InitSessionList`.
abbrev pub init_session_list : UsrSessionPool
init_session_list = record { heap = []; sesses = [] }

-- The bit pattern of -1.
abbrev pub minus_one : ℕ
minus_one = 2 ^ 64 - 1

-- `ws.Close()`; `none` is the panic on nil.
abbrev pub close_ws : Ws → Option Ws
close_ws no_ws = none
close_ws opened = some shut
close_ws shut = some shut
