-- ===== src/Msg/RoundTrip/Plain.antt =====
-- The round trip at key level 0: the body stands in the frame as it is.
use erina.Msg.Types.{done, Msg, and_then}
use erina.Base.{
  ℕ, ◌+◌, ◌-◌, ◌≤◌, ◌<◌, ◌≡◌, refl, ap, ◌∙◌, arith, [], ◌++◌, length, Option, none, ◌%◌,
  length-append,
}
use erina.Words.{Bytes}
use erina.Words.Laws.{fit_exact, of_le-to_le}
use erina.Aes.{Cipher}
use erina.Msg.Mask.{toggle_mask}
use erina.Msg.Encode.{bytes_of, seal, seal_plain, seal_body, msg2binary}
use erina.Msg.Decode.{binary2msg}
use erina.Msg.RoundTrip.Front.{Encodable, received}
use erina.Msg.RoundTrip.Flags.{data_byte_read}
use erina.Msg.RoundTrip.Body.{open_plain_body}
use erina.Msg.RoundTrip.Levels.{
  Same, Carried, prepared, prepare-prepared, Encodable-prepared, Same-prepared,
}
use erina.Msg.RoundTrip.Dispatch.{seal_body-plain, open_body-plain}
use erina.Msg.RoundTrip.Levels

module _ (c : Cipher) (now : ℕ) (m : Msg) (mz : Option Bytes) (ok : Encodable m)
    (fresh : m.datacrc ≡ []) (level : m.dh_key_level ≡ 0) (short : length m.text < 65536) where
  abbrev behind : Bytes
  behind = bytes_of m.dh_session_id ++ m.text

  abbrev p : Msg
  p = prepared m

  enc : Encodable p
  enc = Encodable-prepared m p.rk p.rkxormz p.cipher ok

  behind_len : length behind ≡ 8 + length m.text
  behind_len = omega (arith, ok.session_len, length-append (bytes_of m.dh_session_id) m.text)

  long : 8 ≤ length behind
  long = omega (arith, behind_len)

  len_is : length m.text ≡ length behind - 8
  len_is = omega (arith, behind_len)

  seal_plain_lem : seal_plain p ≡ seal p [] (length m.text) behind
  unfolding seal_plain
  seal_plain_lem = rw (fit_exact 8 (bytes_of m.dh_session_id) ok.session_len) (
      ap (λ (n : ℕ). seal p [] n behind) {x = length m.text % 65536} {y = length m.text}
        (omega arith))

  written : msg2binary c now m ≡ and_then (seal p [] (length m.text) behind) toggle_mask
  unfolding msg2binary
  written =
      ap (λ r. and_then r toggle_mask)
        (ap (seal_body c) (prepare-prepared now m ok fresh)
          ∙ seal_body-plain c p level
          ∙ seal_plain_lem)

  -- The round trip, and what the receiver has not filled.
  pub plain_read :
      (m' : Msg) × (n : Msg) × (msg2binary c now m ≡ done m')
      × (binary2msg c (received mz m'.final) ≡ done n)
      × Same m n
      × Carried m' n
      × (n.final ≡ m'.final)
      × (n.datacrc ≡ [])
  plain_read =
      let d =
        data_byte_read m.dh_read m.dh_ack m.dh_data_format m.dh_key_level m.dh_encrypt_type
          ok.format_fits (omega (arith, level)) ok.encrypt_fits in
      let o = Levels.opening c p enc mz [] behind (length m.text) long len_is short in
      (
        _,
        _,
        written ∙ Levels.sent c p enc mz [] behind (length m.text) long len_is short,
        Levels.arrives c p enc mz [] behind (length m.text) long len_is short none none none (
            open_body-plain c o (d.level_read ∙ level)
            ∙ open_plain_body o (bytes_of m.dh_session_id) m.text ok.session_len refl refl
                (Levels.opening-BodyAt c p enc mz [] behind (length m.text) long len_is short)
                (of_le-to_le 2 (length m.text) short)),
        Same-prepared m _ p.rk p.rkxormz p.cipher (
            Levels.arrived-Same c p enc mz [] behind (length m.text) long len_is short none none
              none (omega (arith, level))),
        Levels.arrived-Carried c p enc mz [] behind (length m.text) long len_is short none none
            none,
        refl,
        refl,
      )
