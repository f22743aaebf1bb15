-- ===== src/Msg/RoundTrip/Dispatch.antt =====
-- The switches on the key level, in `Msg2Binary` and in `Binary2Msg`.
use erina.Base.{◌≡◌, refl, true, false, ◌==◌, ==_iff, arith}
use erina.Aes.{Cipher}
use erina.Msg.Types.{Msg}
use erina.Msg.Encode.{seal_plain, seal_random, seal_secret, seal_body}
use erina.Msg.Decode.{open_body, open_plain, open_random, open_secret}

module _ (c : Cipher) (m : Msg) where
  pub seal_body-plain : m.dh_key_level ≡ 0 → seal_body c m ≡ seal_plain m
  unfolding seal_body
  seal_body-plain e = let t : (m.dh_key_level == 0) ≡ true = (==_iff _ _).1 e in rw t refl

  pub open_body-plain : m.dh_key_level ≡ 0 → open_body c m ≡ open_plain m
  unfolding open_body
  open_body-plain e = let t : (m.dh_key_level == 0) ≡ true = (==_iff _ _).1 e in rw t refl

  pub seal_body-random : m.dh_key_level ≡ 1 → seal_body c m ≡ seal_random c m
  unfolding seal_body
  seal_body-random e =
      let f : (m.dh_key_level == 0) ≡ false = ground arith in
      let t : (m.dh_key_level == 1) ≡ true = (==_iff _ _).1 e in rw (f, t) refl

  pub open_body-random : m.dh_key_level ≡ 1 → open_body c m ≡ open_random c m
  unfolding open_body
  open_body-random e =
      let f : (m.dh_key_level == 0) ≡ false = ground arith in
      let t : (m.dh_key_level == 1) ≡ true = (==_iff _ _).1 e in rw (f, t) refl

  pub seal_body-secret : m.dh_key_level ≡ 3 → seal_body c m ≡ seal_secret c m m.mz
  unfolding seal_body
  seal_body-secret e =
      let f : (m.dh_key_level == 0) ≡ false = ground arith in
      let g : (m.dh_key_level == 1) ≡ false = ground arith in
      let t : (m.dh_key_level == 3) ≡ true = (==_iff _ _).1 e in rw (f, g, t) refl

  pub open_body-secret : m.dh_key_level ≡ 3 → open_body c m ≡ open_secret c m m.mz
  unfolding open_body
  open_body-secret e =
      let f : (m.dh_key_level == 0) ≡ false = ground arith in
      let g : (m.dh_key_level == 1) ≡ false = ground arith in
      let h : (m.dh_key_level == 2) ≡ false = ground arith in
      let t : (m.dh_key_level == 3) ≡ true = (==_iff _ _).1 e in rw (f, g, h, t) refl
