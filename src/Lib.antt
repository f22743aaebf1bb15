-- ===== src/Lib.antt =====
-- Verification of octopus, the gateway between smart devices and their users' applications.
--
-- Devices and applications exchange frames over UDP and web sockets. A frame has a header of 24
-- bytes (40 with the guid of opcode 3), a data header of 16 and a body, which is plain or
-- encrypted as the key level says. The gateway reads the header, finds the session and the
-- device's secret, decodes the rest, dispatches on the message id, and encodes a reply. The table
-- of sessions finds a session by MAC, by session id and by device id; the handlers change it.
--
-- Files, each under its module's name:
-- Base: shared: tests, lists, tables and exclusive or over the native numbers.
-- Words: byte slices: encoding/binary, encoding/hex, indexing and slicing with the runtime's
--   checks.
-- Outcome: a value, an error or a panic. The errors of the source are constructors of `Error`.
-- Crc: `Crc` of src/octopus/common/common.go. Crc/Detection: which changes it detects.
-- Aes: src/octopus/common/aes/aes.go. Aes/RoundTrip: padding and encryption are undone.
-- Msg: src/octopus/msgs/msg.go: Msg/Types the struct, Msg/Mask `MaskContent` and the masking of
--   a frame, Msg/Key `RandomKeyGet`, Msg/Decode `FrameHeader`, `Header` and `Binary2Msg`,
--   Msg/Encode `Msg2Binary`. Msg/Decode/Safety and Msg/Decode/Restore: the decoders on any bytes.
--   Msg/RoundTrip: decoding what was encoded, level by level.
-- Ld2: src/octopus/msgs/ld2cfg.go: `CFGLD2`. Ld2/Laws: what `B2O` needs; Ld2/RoundTrip: `O2B`
--   then `B2O`.
-- Status: src/octopus/msgs/body.go: `MsgStatus`.
-- Session: src/octopus/srv/devsess.go, `Byte2Sess` of src/octopus/srv/util.go and handlers of
--   src/octopus/srv/devbusi.go: Session/Types the structs, Session/Replay `VerifyPack`,
--   Session/Pool the table (its children: the invariant, `onSess`, `delSessionByMac`),
--   Session/Users `CalcDestIds` and `UpdateIds`, Session/Handlers `onLog` and the `onLd2` family,
--   Session/Serving `onLd2` over Ld2, Session/Children `onSL` and the logouts, Session/Dispatch
--   `opcode02`, Session/Forward `opcode03` and `opcode05`, Session/Push `PushMsg` and
--   `PushCommonMsg`, Session/Readable what a device reads; Session/Notices what users are told, of
--   src/octopus/srv/rds.go and src/octopus/srv/sentinel.go; Session/Registration `onRegister` and
--   `onHearBeat`, Session/Loop `handle` of src/octopus/srv/devudp.go, Session/Login `onLogin`, and
--   Session/Commands the switch of `opcode02`, with what its handlers keep.
-- Queue: src/octopus/common/queue.go: Queue/Types the structs, Queue/Ends `Put`, `Poll` and
--   `unlink`, Queue/Search `Remove`, `Contains` and `Next`, Queue/Retrain `Retrain`;
--   Queue/Refinement against a list, Queue/Cursor the cursor; the others what the links are.
-- Wire: src/octopus/srv/ws.go: Wire/Stream a TCP connection, Wire/Gateway `tcpWriter` and
--   `readFrame`, Wire/Resync that it ends, Wire/Delivery what it reads.
-- Sentinel: src/octopus/srv/sentinel.go and `handleOnOff` of src/octopus/srv/rds.go:
--   Sentinel/Forward `Forward`, Sentinel/Receive the loop of `LaunchMonitor`, Sentinel/Commands
--   what it does with a message, Sentinel/Routes the rest; the others their theorems.
-- Users: src/octopus/srv/ms.go: Users/Types the structs, Users/Pool the table, Users/Push what
--   is written to a user; Users/Readable what the user reads, Users/Superseded a second login;
--   Users/Offline `ForceUserOffline` of src/octopus/srv/rds.go, and of src/octopus/srv/mws.go
--   `logout`, Users/Params how a user logs in, Users/Gateway what `mwh` does with a request,
--   Users/Gateway/Entry what it does before its loop; Users/Lifecycle the steps of all of these on
--   the table, and what holds after any of them.
-- Directory: src/octopus/srv/rds.go: `GetUsersByDev` and `GetDevByUsr`; Directory/Bindings
--   `HandleDeviceUsers` and `HandleModifiedPasswd`.
-- Proxy: src/octopus/proxy: Proxy/Comets `updatingCometQue` of zoo.go, Proxy/Server
--   `ChooseAUDPServer` of main.go and the loop of server.go; Proxy/Server/Reply what a device
--   reads, Proxy/Server/Chosen and Proxy/Server/Spinning when the loop ends.
-- Examples: a toy cipher, sample messages and sessions, and the theorems at them.
--
-- A method that changes its receiver takes the struct and returns it. A panic of Go's runtime (an
-- index or a slice out of range) is a value of its own, so that its absence is a theorem. A slice
-- is its bytes; where the code slices a text beyond a test of its length, Go checks the capacity,
-- and the bytes behind the text in its array are an argument (`spare`). Loops run over the bytes
-- of a slice or count down from the number of rounds that the code computes, so no fuel is used;
-- the loops on a connection and the walk along a queue have fuel, with theorems that it is enough,
-- and the proxy's choices are given as a list, with theorems on when they end and when no number
-- of them is enough. Integers of w bits are natural numbers, with the wrap-around written out; an
-- int64 is its bit pattern.
--
-- A `*DevSession` or `*UsrSession` is a number, and a heap maps it to the session, since the
-- table's maps share sessions. Go maps are association lists. What redis answers is an argument of
-- the handler. The locks of the table are left out: each operation is one step.
--
-- The block cipher of crypto/aes is a parameter (`Cipher`), with the laws of `IsCipher` as
-- hypotheses: decryption of a block undoes encryption under the same key, and blocks stay blocks
-- of bytes. The clock, random keys, MD5 and the http server's answers are arguments too. Logging
-- is left out, since nothing reads it.
--
-- Not modelled: the loop on the socket of the devices, the web socket library's copies, the
-- clients of redis, kafka, zookeeper and http, the status counters, the push server and cpm, and
-- the programs' entry points: they are connection I/O or calls of services outside the repository.
pub mod Base
pub mod Words
pub mod Outcome
pub mod Crc
pub mod Aes
pub mod Msg
pub mod Ld2
pub mod Status
pub mod Session
pub mod Queue
pub mod Wire
pub mod Sentinel
pub mod Users
pub mod Directory
pub mod Proxy
mod Examples
