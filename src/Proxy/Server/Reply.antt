-- ===== src/Proxy/Server/Reply.antt =====
-- What a device reads from the reply of `ChooseAUDPServer`.
use erina.Base.{
  drop-append, ◌+◌, ◌%◌, ◌^◌, ◌<◌, ◌≡◌, refl, ap, ◌∙◌, arith, [], ◌∷◌, length, Option, none, some,
  All-append, length-append, drop,
}
use erina.Words.{Bytes, IsBytes, IsByte, to_le, of_le, fit}
use erina.Words.Laws.{fit-IsBytes, to_le-IsBytes, length-fit, length-to_le}
use erina.Outcome.{ok}
use erina.Aes.{Cipher, IsCipher}
use erina.Aes.RoundTrip.{decrypt-encrypt}
use erina.Msg.Types.{Msg, Exit, done, failed, panic, new_msg}
use erina.Msg.Decode.{binary2msg}
use erina.Msg.Encode.{msg2binary}
use erina.Msg.Encode.Sessionless.{named, msg2binary-sessionless}
use erina.Msg.RoundTrip.Front.{Encodable}
use erina.Msg.RoundTrip.Random.{random_RoundTrips}
use erina.Sentinel.Types.{Text}
use erina.Session.Forward.{left_by}
use erina.Proxy.Server.{unix_nano, Draws, naming, random_byte32, reply_msg, reply_to}

-- The uuid is bytes, and the time is not zero in its 32 bits.
pub record Usable (d : Draws) : Type 0 where
  pub uuid_bytes : IsBytes d.uuid
  pub time_set : 0 < d.seconds % 2 ^ 32

-- An address that fits in a frame.
pub record Fits (addr : Text) : Type 0 where
  pub bytes : IsBytes addr
  pub short : length addr < 65400

abbrev zeros : Bytes
zeros = 0 ∷ 0 ∷ 0 ∷ 0 ∷ 0 ∷ 0 ∷ 0 ∷ 0 ∷ []

abbrev final_of : Exit → Bytes
final_of (done m) = m.final
final_of (failed e m) = m.final
final_of panic = []

left_by-named :
    (e : Exit) (m : Msg) (s : Option Bytes)
    → named s e ≡ done m
    → (n : Msg) × (left_by e ≡ ok n) × (n.final ≡ m.final)
left_by-named (done n) m s h = (n, refl, ap final_of h)
left_by-named (failed e n) m s h = absurd (ground arith)
left_by-named panic m s h = absurd (ground arith)

module _ (c : Cipher) (law : IsCipher c) (d : Draws) (use_ok : Usable d) where
  random_byte32-IsBytes : IsBytes (random_byte32 c d)
  unfolding random_byte32
  random_byte32-IsBytes =
      let key : Bytes = 0 ∷ 1 ∷ 2 ∷ 3 ∷ 4 ∷ 5 ∷ 6 ∷ 7 ∷ 8 ∷ 9 ∷ 10 ∷ 11 ∷ 12 ∷ 13 ∷ 14 ∷ 15 ∷ [] in
      let (sealed, seals, _, _, bytes) =
        decrypt-encrypt c law (to_le 8 d.nanos) key refl (to_le-IsBytes 8 d.nanos)
          (omega (arith, length-to_le 8 d.nanos)) in
      rw seals (All-append IsByte sealed d.uuid bytes use_ok.uuid_bytes)

  module _ (mac : Bytes) (addr : Text) (id_fits : of_le mac < 2 ^ 64) (fits : Fits addr) where
    naming-IsBytes : IsBytes (naming c d addr)
    unfolding naming
    naming-IsBytes = All-append IsByte (to_le 4 0) _ (to_le-IsBytes 4 0) (
        All-append IsByte (fit 32 (random_byte32 c d)) ((length addr % 256) ∷ addr)
          (fit-IsBytes 32 (random_byte32 c d) random_byte32-IsBytes) (omega arith, fits.bytes))

    length-naming : length (naming c d addr) ≡ 37 + length addr
    unfolding naming
    length-naming = omega (
      arith,
      length-append (fit 32 (random_byte32 c d)) ((length addr % 256) ∷ addr),
      length-fit 32 (random_byte32 c d),
    )

    naming-address : drop 36 (naming c d addr) ≡ (length addr % 256) ∷ addr
    unfolding naming
    naming-address =
        drop-append 32 (fit 32 (random_byte32 c d)) ((length addr % 256) ∷ addr)
          (length-fit 32 (random_byte32 c d))

    abbrev with_zeros : Msg
    with_zeros = record (reply_msg c d mac addr) { dh_session_id = some zeros }

    with_zeros-Encodable : Encodable with_zeros
    with_zeros-Encodable = record {
      opcode_known = refl;
      ver_fits = omega arith;
      sequence_fits = omega arith;
      time_fits = omega arith;
      time_set = use_ok.time_set;
      dst_fits = id_fits;
      src_fits = omega arith;
      format_fits = omega arith;
      encrypt_fits = omega arith;
      msg_id_fits = omega arith;
      session_len = refl;
      session_bytes = fit-IsBytes 8 [] tt;
      text_bytes = naming-IsBytes;
    }

    -- For a cipher with the laws of AES, a uuid of bytes, a time that is set, an id that fits in
    -- 64 bits, and an address that fits in a frame: `ChooseAUDPServer` makes a reply, and a device
    -- that decodes it gets the id that it asked with and a text whose 37th byte is the address's
    -- length modulo 256 and which ends in the address.
    pub reply_to-naming :
        (out : Bytes) × (n : Msg) × (reply_to c d mac addr ≡ ok out)
        × (binary2msg c (record new_msg { final = out }) ≡ done n)
        × (n.fh_dst_id ≡ of_le mac)
        × (drop 36 n.text ≡ (length addr % 256) ∷ addr)
    unfolding reply_to
    reply_to-naming =
        let (m', n, writes, reads, same, _, _) =
          random_RoundTrips c (unix_nano d) with_zeros none with_zeros-Encodable refl refl law
            (omega (arith, length-naming, fits.short)) in
        let (left, leaves, final_same) =
          left_by-named (msg2binary c (unix_nano d) (reply_msg c d mac addr)) m' (some zeros) (
            msg2binary-sessionless c (unix_nano d) (reply_msg c d mac addr) zeros refl refl
            ∙ writes) in
        (
          m'.final,
          n,
          rw leaves (ap ok final_same),
          reads,
          same.same_dst,
          ap (drop 36) same.same_text ∙ naming-address,
        )
