-- ===== src/Session/Readable.antt =====
-- What a device reads of a message that `PushMsg` of srv/devsess.go encrypts for it.
use erina.Base.{nat_key}
use erina.Msg.Types.{Msg}
