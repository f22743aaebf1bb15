-- ===== src/Users/Readable.antt =====
-- What a user reads of a message that `PushMsg` of srv/ms.go encrypts for it.
use erina.Base.{nat_key}
use erina.Msg.Types.{Msg}
