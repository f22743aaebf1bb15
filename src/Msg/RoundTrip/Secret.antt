-- ===== src/Msg/RoundTrip/Secret.antt =====
-- The round trip at key level 3: the key of level 1 is masked by the device's secret first.
use erina.Base.{
  ℕ, ◌+◌, ◌-◌, ◌≤◌, ◌<◌, ◌≡◌, refl, ap, ◌∙◌, arith, ◌++◌, [], length, some, length-append, true,
  All-append,
}
use erina.Words.{Bytes, IsBytes, IsByte}
use erina.Aes.{Cipher, IsCipher, encrypt, decrypt, key_fits}
use erina.Aes.RoundTrip.{decrypt-encrypt}
use erina.Outcome.{ok}
use erina.Msg.Types.{Msg, and_then}
use erina.Msg.Mask.{toggle_mask}
use erina.Msg.Key.{xor_key, xor_key_lem, random_key_get, length-random_key_get}
use erina.Msg.Encode.{sealed_guid, bytes_of, seal, seal_secret, seal_body, msg2binary, sealed_len}
use erina.Msg.RoundTrip.Front.{Encodable}
use erina.Msg.RoundTrip.Flags.{data_byte_read}
use erina.Msg.RoundTrip.Body.{open_secret_body}
use erina.Msg.RoundTrip.Dispatch.{seal_body-secret, open_body-secret}
use erina.Msg.RoundTrip.Levels.{
  Same, RoundTrips, prepared, prepare-prepared, Encodable-prepared, Same-prepared,
}
use erina.Msg.RoundTrip.Levels

module _ (c : Cipher) (now : ℕ) (m : Msg) (z : Bytes) (fields : Encodable m)
    (fresh : m.datacrc ≡ []) (level : m.dh_key_level ≡ 3) (secret : m.mz ≡ some z) where
  abbrev body_bytes : Bytes
  body_bytes = bytes_of m.dh_session_id ++ m.text

  abbrev random : Bytes
  random = random_key_get m.fh_sequence m.fh_src_id m.fh_time

  module _ (key sealed : Bytes) (masks : xor_key random z ≡ some key)
      (seals : encrypt c body_bytes key ≡ ok sealed) (opens : decrypt c sealed key ≡ ok body_bytes)
      (long : 8 ≤ length sealed) (short : length sealed - 8 < 65536) where
    abbrev p : Msg
    p = record (prepared m) { rk = some random; rkxormz = some key; cipher = some sealed }

    abbrev guid : Bytes
    guid = sealed_guid c (prepared m) key

    enc : Encodable p
    enc = Encodable-prepared m p.rk p.rkxormz p.cipher fields

    seal_secret_lem : seal_secret c (prepared m) (some z) ≡ seal p guid (length sealed - 8) sealed
    unfolding seal_secret
    seal_secret_lem =
        rw (masks, seals)
          (ap (λ (n : ℕ). seal p guid n sealed) {x = sealed_len sealed} {y = length sealed - 8}
            (omega arith))

    written : msg2binary c now m ≡ and_then (seal p guid (length sealed - 8) sealed) toggle_mask
    unfolding msg2binary
    written =
        ap (λ r. and_then r toggle_mask)
          (ap (seal_body c) (prepare-prepared now m fields fresh)
            ∙ seal_body-secret c (prepared m) level
            ∙ ap (seal_secret c (prepared m)) secret
            ∙ seal_secret_lem)

    secret_sealed : RoundTrips c now m (some z)
    secret_sealed =
        let d =
          data_byte_read m.dh_read m.dh_ack m.dh_data_format m.dh_key_level m.dh_encrypt_type
            fields.format_fits (omega (arith, level)) fields.encrypt_fits in
        let o = Levels.opening c p enc (some z) guid sealed (length sealed - 8) long refl short in
        (
          _,
          _,
          written ∙ Levels.sent c p enc (some z) guid sealed (length sealed - 8) long refl short,
          Levels.arrives c p enc (some z) guid sealed (length sealed - 8) long refl short
              (some random) (some key) (some sealed)
              (open_body-secret c o (d.level_read ∙ level)
                ∙ open_secret_body c o z key (bytes_of m.dh_session_id) m.text sealed
                    fields.session_len refl refl
                    (Levels.opening-BodyAt c p enc (some z) guid sealed (length sealed - 8) long
                      refl short)
                    masks opens),
          Same-prepared m _ p.rk p.rkxormz p.cipher (
              Levels.arrived-Same c p enc (some z) guid sealed (length sealed - 8) long refl short
                (some random) (some key) (some sealed) (omega (arith, level))),
          Levels.arrived-Carried c p enc (some z) guid sealed (length sealed - 8) long refl short
              (some random) (some key) (some sealed),
          refl,
        )

  pub secret_RoundTrips :
      IsCipher c → 16 ≤ length z → length m.text < 65520 → RoundTrips c now m (some z)
  secret_RoundTrips law long_secret short =
      let (key, masks, key_len) =
        xor_key_lem random z
          (omega (arith, long_secret, length-random_key_get m.fh_sequence m.fh_src_id m.fh_time)) in
      let whole : length body_bytes ≡ 8 + length m.text =
        omega (arith, fields.session_len, length-append (bytes_of m.dh_session_id) m.text) in
      let fits : key_fits key ≡ true =
        ground (arith, key_len, length-random_key_get m.fh_sequence m.fh_src_id m.fh_time) in
      let bytes : IsBytes body_bytes =
        All-append IsByte (bytes_of m.dh_session_id) m.text fields.session_bytes
          fields.text_bytes in
      let some_bytes : 0 < length body_bytes = omega (arith, whole) in
      let (sealed, seals, opens, len, _) =
        decrypt-encrypt c law body_bytes key fits bytes some_bytes in
      secret_sealed key sealed masks seals opens (omega (arith, len, whole))
        (omega (arith, len, whole))
