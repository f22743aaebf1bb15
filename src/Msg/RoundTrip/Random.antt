-- ===== src/Msg/RoundTrip/Random.antt =====
-- The round trip at key level 1: the body is encrypted under a key that the frame's own fields give.
use erina.Base.{
  ℕ, ◌+◌, ◌-◌, ◌≤◌, ◌<◌, ◌≡◌, refl, ap, ◌∙◌, arith, ◌++◌, [], length, Option, none, some,
  length-append, true, All-append,
}
use erina.Words.{Bytes, IsBytes, IsByte}
use erina.Aes.{Cipher, IsCipher, encrypt, decrypt, key_fits}
use erina.Aes.RoundTrip.{decrypt-encrypt}
use erina.Outcome.{ok}
use erina.Msg.Types.{Msg, and_then}
use erina.Msg.Mask.{toggle_mask}
use erina.Msg.Key.{random_key_get, length-random_key_get}
use erina.Msg.Encode.{bytes_of, seal, seal_random, seal_body, msg2binary, sealed_len}
use erina.Msg.RoundTrip.Front.{Encodable}
use erina.Msg.RoundTrip.Flags.{data_byte_read}
use erina.Msg.RoundTrip.Body.{open_random_body}
use erina.Msg.RoundTrip.Dispatch.{seal_body-random, open_body-random}
use erina.Msg.RoundTrip.Levels.{
  Same, RoundTrips, prepared, prepare-prepared, Encodable-prepared, Same-prepared,
}
use erina.Msg.RoundTrip.Levels

module _ (c : Cipher) (now : ℕ) (m : Msg) (mz : Option Bytes) (fields : Encodable m)
    (fresh : m.datacrc ≡ []) (level : m.dh_key_level ≡ 1) where
  abbrev body_bytes : Bytes
  body_bytes = bytes_of m.dh_session_id ++ m.text

  abbrev key : Bytes
  key = random_key_get m.fh_sequence m.fh_src_id m.fh_time

  module _ (sealed : Bytes) (seals : encrypt c body_bytes key ≡ ok sealed)
      (opens : decrypt c sealed key ≡ ok body_bytes) (long : 8 ≤ length sealed)
      (short : length sealed - 8 < 65536) where
    abbrev p : Msg
    p = record (prepared m) { rk = some key }

    enc : Encodable p
    enc = Encodable-prepared m p.rk p.rkxormz p.cipher fields

    seal_random_lem : seal_random c (prepared m) ≡ seal p [] (length sealed - 8) sealed
    unfolding seal_random
    seal_random_lem = rw seals (
        ap (λ (n : ℕ). seal p [] n sealed) {x = sealed_len sealed} {y = length sealed - 8}
          (omega arith))

    written : msg2binary c now m ≡ and_then (seal p [] (length sealed - 8) sealed) toggle_mask
    unfolding msg2binary
    written =
        ap (λ r. and_then r toggle_mask)
          (ap (seal_body c) (prepare-prepared now m fields fresh)
            ∙ seal_body-random c (prepared m) level
            ∙ seal_random_lem)

    random_sealed : RoundTrips c now m mz
    random_sealed =
        let d =
          data_byte_read m.dh_read m.dh_ack m.dh_data_format m.dh_key_level m.dh_encrypt_type
            fields.format_fits (omega (arith, level)) fields.encrypt_fits in
        let o = Levels.opening c p enc mz [] sealed (length sealed - 8) long refl short in
        (
          _,
          _,
          written ∙ Levels.sent c p enc mz [] sealed (length sealed - 8) long refl short,
          Levels.arrives c p enc mz [] sealed (length sealed - 8) long refl short (some key) none
              none
              (open_body-random c o (d.level_read ∙ level)
                ∙ open_random_body c o (bytes_of m.dh_session_id) m.text sealed fields.session_len
                    refl refl
                    (Levels.opening-BodyAt c p enc mz [] sealed (length sealed - 8) long refl short)
                    opens),
          Same-prepared m _ p.rk p.rkxormz p.cipher (
              Levels.arrived-Same c p enc mz [] sealed (length sealed - 8) long refl short
                (some key) none none (omega (arith, level))),
          Levels.arrived-Carried c p enc mz [] sealed (length sealed - 8) long refl short (some key)
              none none,
          refl,
        )

  pub random_RoundTrips : IsCipher c → length m.text < 65520 → RoundTrips c now m mz
  random_RoundTrips law short =
      let whole : length body_bytes ≡ 8 + length m.text =
        omega (arith, fields.session_len, length-append (bytes_of m.dh_session_id) m.text) in
      let fits : key_fits key ≡ true =
        ground (arith, length-random_key_get m.fh_sequence m.fh_src_id m.fh_time) in
      let bytes : IsBytes body_bytes =
        All-append IsByte (bytes_of m.dh_session_id) m.text fields.session_bytes
          fields.text_bytes in
      let some_bytes : 0 < length body_bytes = omega (arith, whole) in
      let (sealed, seals, opens, len, _) =
        decrypt-encrypt c law body_bytes key fits bytes some_bytes in
      random_sealed sealed seals opens (omega (arith, len, whole)) (omega (arith, len, whole))
