-- ===== src/Msg/RoundTrip/Body.antt =====
-- Reading the body of a frame, at each key level.
use erina.Base.{
  ◌⊎◌, ◌+◌, ◌≡◌, sym, ap, ◌∙◌, arith, Bool, true, false, ◌||◌, ◌==◌, ==_iff, if◌then◌else◌, [],
  ◌++◌, length, take, drop, some, length-append, take-append, drop-append, nil_of_length, ltb, inl,
  inr,
}
use erina.Words.{Bytes}
use erina.Outcome.{ok}
use erina.Crc.{crc}
use erina.Crc.Detection.{crc_fold, crc_whole}
use erina.Aes.{Cipher, decrypt}
use erina.Msg.Types.{Msg, done, data_offset}
use erina.Msg.Key.{random_key_get, xor_key}
use erina.Msg.RoundTrip.Data.{BodyAt}
use erina.Msg.Decode.{open_plain, open_random, open_secret, open_sealed, unseal, unseal_outcome}

-- A text that may be empty is read under a test that it is not, and starts out empty.
text_read :
    (text x old : Bytes) (b : Bool)
    → x ≡ text
    → old ≡ []
    → ((b ≡ true) ⊎ (length text ≡ 0))
    → (if b then x else old) ≡ text
text_read text x old true e f h = e
text_read text x old false e f (inl h) = cc
text_read text x old false e f (inr h) = f ∙ sym (nil_of_length text h)

module _ (m : Msg) (sid text : Bytes) (sid_len : length sid ≡ 8) (fresh : m.text ≡ [])
    (checked_by : m.dh_check ≡ crc_fold 0 (sid ++ text)) where
  -- Level 0: the session id and the text stand in the frame as they are.
  pub open_plain_body :
      BodyAt m (sid ++ text)
      → m.dh_length ≡ length text
      → open_plain m ≡ done (record m { dh_session_id = some sid; text = text })
  unfolding open_plain
  open_plain_body at l =
      let check : crc (drop (data_offset m.fh_opcode + 8) m.final)
            (length (drop (data_offset m.fh_opcode + 8) m.final))
          ≡ some (crc_fold 0 (sid ++ text)) =
        ap (λ b. crc b (length b)) at.behind_is ∙ crc_whole (sid ++ text) in
      let session : take 8 (sid ++ text) ≡ sid = take-append 8 sid text sid_len in
      let rest : drop (data_offset m.fh_opcode + 16) m.final ≡ text =
        at.rest_is ∙ drop-append 8 sid text sid_len in
      let agrees : (m.dh_check == crc_fold 0 (sid ++ text)) ≡ true = (==_iff _ _).1 checked_by in
      let shown : (if ltb 0 m.dh_length
            then drop (data_offset m.fh_opcode + 16) m.final
            else m.text)
          ≡ text =
        text_read text _ _ (ltb 0 m.dh_length) rest fresh (ground arith) in
      rw (at.session_is, check, session, agrees)
        (ap (λ t. done (record m { dh_session_id = some sid; text = t })) shown)

  -- What was encrypted together is taken apart.
  pub unseal_body :
      (always : Bool)
      → unseal m (sid ++ text) always ≡ done (record m { dh_session_id = some sid; text = text })
  unfolding unseal
  unseal_body always =
      let whole : Bytes = sid ++ text in
      let len : length whole ≡ 8 + length text = omega (arith, length-append sid text) in
      let long : ltb (length whole) 8 ≡ false = ground arith in
      let agrees : (m.dh_check == crc_fold 0 whole) ≡ true = (==_iff _ _).1 checked_by in
      let shown : (if always || ltb 8 (length whole) then drop 8 whole else m.text) ≡ text =
        text_read text _ _ (always || ltb 8 (length whole)) (drop-append 8 sid text sid_len) fresh
          (ground arith) in
      rw (long, crc_whole whole, agrees, take-append 8 sid text sid_len)
        (ap (λ t. done (record m { dh_session_id = some sid; text = t })) shown)

-- Level 1, with the key that the frame's own fields give.
pub open_random_body :
    (c : Cipher) (m : Msg) (sid text sealed : Bytes)
    → length sid ≡ 8
    → m.text ≡ []
    → m.dh_check ≡ crc_fold 0 (sid ++ text)
    → BodyAt m sealed
    → decrypt c sealed (random_key_get m.fh_sequence m.fh_src_id m.fh_time) ≡ ok (sid ++ text)
    → open_random c m
      ≡ done (record m {
        rk = some (random_key_get m.fh_sequence m.fh_src_id m.fh_time);
        dh_session_id = some sid;
        text = text;
      })
unfolding open_random open_sealed unseal_outcome
open_random_body c m sid text sealed sl fresh checked_by at opens =
    rw (at.behind_is, opens)
      (unseal_body (record m { rk = some _ }) sid text sl fresh checked_by true)

-- Level 3, with that key masked by the device's secret.
pub open_secret_body :
    (c : Cipher) (m : Msg) (z key sid text sealed : Bytes)
    → length sid ≡ 8
    → m.text ≡ []
    → m.dh_check ≡ crc_fold 0 (sid ++ text)
    → BodyAt m sealed
    → xor_key (random_key_get m.fh_sequence m.fh_src_id m.fh_time) z ≡ some key
    → decrypt c sealed key ≡ ok (sid ++ text)
    → open_secret c m (some z)
      ≡ done (record m {
        rk = some (random_key_get m.fh_sequence m.fh_src_id m.fh_time);
        rkxormz = some key;
        cipher = some sealed;
        dh_session_id = some sid;
        text = text;
      })
unfolding open_secret open_sealed unseal_outcome
open_secret_body c m z key sid text sealed sl fresh checked_by at masks opens =
    rw (masks, at.behind_is, opens)
      (unseal_body (record m { rk = some _; rkxormz = some key; cipher = some sealed }) sid text sl
        fresh checked_by false)
