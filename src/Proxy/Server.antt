-- ===== src/Proxy/Server.antt =====
-- `ChooseAUDPServer` of proxy/main.go, `RandomByte32` of proxy/util.go, and what `RunLoop` of
-- proxy/server.go does with a datagram.
use erina.Base.{
  ◌+◌, ◌*◌, ℕ, ◌%◌, ◌^◌, ◌==◌, ltb, ◌&&◌, if◌then◌else◌, Bool, true, false, List, [], ◌∷◌, ◌++◌,
  Option, none, some, length, text_same, take,
}
use erina.Words.{Bytes, index, slice, to_le, of_le, hex_encode, fit}
use erina.Outcome.{Outcome, ok, err, panic, ◌>>=◌, checked}
use erina.Aes.{Cipher, encrypt}
use erina.Msg.Types.{Msg, Exit, done, failed, new_msg}
use erina.Msg.Decode.{binary2msg}
use erina.Msg.Encode.{msg2binary}
use erina.Sentinel.Types.{Text}
use erina.Session.Forward.{left_by}
use erina.Queue.Types.{Queue}
use erina.Queue.Search.{next}
use erina.Proxy.Comets.{udp, tcp}
pub mod Reply
pub mod Asked
pub mod Tried
pub mod Chosen
pub mod Spinning

-- What one call of `ChooseAUDPServer` draws on: the clock's seconds and the nanoseconds behind them,
-- and a uuid.
pub record Draws : Type 0 where
  pub seconds : ℕ
  pub nanos : ℕ
  pub uuid : Bytes

-- `time.Now().UnixNano()`.
abbrev pub unix_nano : Draws → ℕ
unix_nano d = d.seconds * 1000000000 + d.nanos

abbrev pub sealed_or_nil : Outcome Bytes → Bytes
sealed_or_nil (ok b) = b
sealed_or_nil (err e) = []
sealed_or_nil panic = []

unfoldable pub random_byte32 : Cipher → Draws → Bytes
random_byte32 c d =
    sealed_or_nil (
      encrypt c (to_le 8 d.nanos)
        (0 ∷ 1 ∷ 2 ∷ 3 ∷ 4 ∷ 5 ∷ 6 ∷ 7 ∷ 8 ∷ 9 ∷ 10 ∷ 11 ∷ 12 ∷ 13 ∷ 14 ∷ 15 ∷ []))
    ++ d.uuid

-- The text of the reply: a status, a key, and the address.
unfoldable pub naming : Cipher → Draws → Text → Bytes
unfolding random_byte32
naming c d addr = to_le 4 0 ++ (fit 32 (random_byte32 c d) ++ ((length addr % 256) ∷ addr))

abbrev pub reply_msg : Cipher → Draws → Bytes → Text → Msg
reply_msg c d mac addr = record new_msg {
  text = naming c d addr;
  fh_mask = true;
  fh_fin = true;
  dh_ack = true;
  fh_time = d.seconds % 2 ^ 32;
  fh_src_id = 0;
  fh_opcode = 2;
  fh_dst_id = of_le mac;
  dh_msg_id = 0xc0;
  dh_key_level = 1;
  dh_encrypt_type = 2;
}

unfoldable pub reply_to : Cipher → Draws → Bytes → Text → Outcome Bytes
unfolding naming
reply_to c d mac addr =
    left_by (msg2binary c (unix_nano d) (reply_msg c d mac addr)) >>= λ m. ok m.final

-- The queue after `Next`, and the reply and the address; nil and "" when the value is nil.
pub record Choice : Type 0 where
  pub queue : Queue Text
  pub output : Option Bytes
  pub addr : Text

abbrev pub chosen : Cipher → Draws → Bytes → Queue Text → Option Text → Outcome Choice
chosen c d mac q none = ok (record { queue = q; output = none; addr = [] })
chosen c d mac q (some addr) =
    reply_to c d mac addr >>= λ out. ok (record { queue = q; output = some out; addr = addr })

unfoldable pub choose_udp_server : Cipher → Draws → Bytes → Queue Text → Outcome Choice
unfolding reply_to next
choose_udp_server c d mac q = checked (next q) >>= λ r. chosen c d mac r.0 r.1

abbrev pub has_prefix : Text → Text → Bool
has_prefix text [] = true
has_prefix [] (c ∷ prefix) = false
has_prefix (x ∷ text) (c ∷ prefix) = (x == c) && has_prefix text prefix

-- The urls that a device of kind `t` asks for.
abbrev pub wanted : ℕ → Option Text
wanted t = if t == 1 then some udp else (if t == 2 then some tcp else none)

-- How a datagram is done with: a reply is sent, or nothing is; or `goto again` goes on when the
-- draws given are spent.
pub data Served : Type 0 where
  sent : Queue Text → Option Bytes → Text → Served
  dropped : Queue Text → Served
  again : Queue Text → Served

-- After a choice: `rest` is what `goto again` does.
abbrev pub answered : Option Text → Choice → Outcome Served → Outcome Served
answered none r rest = ok (dropped r.queue)
answered (some prefix) r rest =
    if has_prefix r.addr prefix
    then ok (if text_same r.addr [] then dropped r.queue else sent r.queue r.output r.addr)
    else rest

-- One choice for each of the draws.
unfoldable pub choosing : Cipher → List Draws → Bytes → ℕ → Queue Text → Outcome Served
unfolding choose_udp_server
choosing c [] mac t q = ok (again q)
choosing c (d ∷ ds) mac t q = choose_udp_server c d mac q >>= λ r.
    let rest = choosing c ds mac t r.queue in answered (wanted t) r rest

-- The text of a request: the MD5 sum of the MAC, and the kind.
abbrev pub on_text :
    Cipher → (Bytes → Bytes) → List Draws → Queue Text → Bytes → Bytes → Outcome Served
on_text c md5 ds q mac text =
    if ltb (length text) 17
    then ok (dropped q)
    else (if text_same (hex_encode (take 16 text)) (hex_encode (md5 mac))
        then (checked (index text 16) >>= λ t. choosing c ds mac t q)
        else ok (dropped q))

abbrev pub on_decoded : Cipher → (Bytes → Bytes) → List Draws → Queue Text → Exit → Outcome Served
on_decoded c md5 ds q (done m) = on_text c md5 ds q (to_le 8 m.fh_src_id) m.text
on_decoded c md5 ds q (failed e m) = ok (dropped q)
on_decoded c md5 ds q Exit.panic = panic

-- One datagram.
unfoldable pub serve : Cipher → (Bytes → Bytes) → List Draws → Queue Text → Bytes → Outcome Served
unfolding choosing
serve c md5 ds q request =
    if ltb (length request) 56
    then ok (dropped q)
    else on_decoded c md5 ds q (binary2msg c (record new_msg { final = request }))
