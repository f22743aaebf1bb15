-- ===== src/Msg/Decode/Safety.antt =====
-- The decoders never panic, and they leave the buffer as they found it.
use erina.Base.{
  ◌/◌, length-take, ℕ, ◌+◌, ◌-◌, ◌≤◌, ◌≡◌, ◌≢◌, refl, arith, Option, none, some, length, take, drop,
  get_or, true, false, Bool, bit_and, length-drop,
}
use erina.Aes.{decrypt, Cipher}
use erina.Msg.Decode.{
  read_guid, read_msg_id, take_guid, unlock_guid, check_length, with_data_header, unseal_outcome,
  read_flags, read_front, read_ids, unseal, open_sealed, open_plain, open_random, open_secret,
  open_body, check_header, read_data_header, window_guid,
}
use erina.Words.Laws.{index_lem, slice_lem}
use erina.Words.{Bytes}
use erina.Outcome.{Outcome, ok, err}
use erina.Crc.Detection.{crc-take, crc_whole}
use erina.Aes.RoundTrip.{decrypt-ne-panic}
use erina.Msg.Types.{Msg, Exit, done, failed, panic, and_then, data_offset}
use erina.Msg.Key.{random_key_get, xor_key_lem, length-random_key_get}

-- The call ends without a panic, and what it leaves satisfies `P` beside an error or not.
abbrev pub Leaves : (Msg → Type 0) → Exit → Type 0
Leaves P (done m) = P m
Leaves P (failed e m) = P m
Leaves P panic = ⊥

-- The same, where a call that went on also satisfies `Q`.
abbrev pub Reaches : (Msg → Type 0) → (Msg → Type 0) → Exit → Type 0
Reaches P Q (done m) = Q m
Reaches P Q (failed e m) = P m
Reaches P Q panic = ⊥

pub and_then-Leaves :
    (P Q : Msg → Type 0) (x : Exit) (f : Msg → Exit)
    → Reaches P Q x
    → ((m : Msg) → Q m → Leaves P (f m))
    → Leaves P (and_then x f)
and_then-Leaves P Q (done m) f h k = k m h
and_then-Leaves P Q (failed e m) f h k = h
and_then-Leaves P Q panic f h k = h

pub and_then-Reaches :
    (P Q R : Msg → Type 0) (x : Exit) (f : Msg → Exit)
    → Reaches P Q x
    → ((m : Msg) → Q m → Reaches P R (f m))
    → Reaches P R (and_then x f)
and_then-Reaches P Q R (done m) f h k = k m h
and_then-Reaches P Q R (failed e m) f h k = h
and_then-Reaches P Q R panic f h k = h

-- The parts of a message that the steps behind the front do not write.
pub record Keeps (m m' : Msg) : Type 0 where
  pub final_kept : m'.final ≡ m.final
  pub opcode_kept : m'.fh_opcode ≡ m.fh_opcode
  pub mask_kept : m'.fh_mask ≡ m.fh_mask
  pub mz_kept : m'.mz ≡ m.mz

-- A frame that has the length that its opcode asks for.
abbrev pub LongEnough : Msg → Type 0
LongEnough m = data_offset m.fh_opcode + 16 ≤ length m.final

read_flags-Reaches :
    (m : Msg)
    → 8 ≤ length m.final
    → Reaches
        (λ m'. m'.final ≡ m.final)
        (λ m'. (m'.final ≡ m.final) × (m'.fh_opcode ≡ m.fh_opcode) × (m'.mz ≡ m.mz))
        (read_flags m)
unfolding read_flags
read_flags-Reaches m h = ground arith

pub read_ids-Reaches : (m : Msg) → 24 ≤ length m.final → Reaches (Keeps m) (Keeps m) (read_ids m)
unfolding read_ids
read_ids-Reaches m h = ground arith

unseal-Leaves : (m : Msg) (aa : Bytes) (always : Bool) → Leaves (Keeps m) (unseal m aa always)
unfolding unseal
unseal-Leaves m aa always = ground (arith, crc_whole aa)

open_plain-Leaves : (m : Msg) → LongEnough m → Leaves (Keeps m) (open_plain m)
unfolding open_plain
open_plain-Leaves m h = ground (arith, crc_whole (drop (data_offset m.fh_opcode + 8) m.final))

pub Keeps-refl : (m : Msg) → Keeps m m
Keeps-refl m = record { final_kept = refl; opcode_kept = refl; mask_kept = refl; mz_kept = refl }

pub Keeps-trans : (m n o : Msg) → Keeps m n → Keeps n o → Keeps m o
Keeps-trans m n o p q = ground arith

-- A device secret is as long as the key that it masks.
abbrev pub SecretFits : Msg → Type 0
SecretFits m = (mz : Bytes) → m.mz ≡ some mz → 16 ≤ length mz

pub Leaves-mono :
    (P Q : Msg → Type 0) (x : Exit) → ((m : Msg) → P m → Q m) → Leaves P x → Leaves Q x
Leaves-mono P Q (done m) f h = f m h
Leaves-mono P Q (failed e m) f h = f m h
Leaves-mono P Q panic f h = h

unseal_outcome-Leaves :
    (m : Msg) (always : Bool) (r : Outcome Bytes)
    → r ≢ Outcome.panic
    → Leaves (Keeps m) (unseal_outcome m always r)
unfolding unseal_outcome
unseal_outcome-Leaves m always (ok aa) h = unseal-Leaves m aa always
unseal_outcome-Leaves m always (err e) h = Keeps-refl m
unseal_outcome-Leaves m always Outcome.panic h = h refl

open_sealed-Leaves :
    (c : Cipher) (m : Msg) (key : Bytes) (always : Bool)
    → LongEnough m
    → Leaves (Keeps m) (open_sealed c m key always)
unfolding open_sealed
open_sealed-Leaves c m key always h = unseal_outcome-Leaves m always _ (
    decrypt-ne-panic c (drop (data_offset m.fh_opcode + 8) m.final) key
      (omega (arith, length-drop (data_offset m.fh_opcode + 8) m.final)))

open_random-Leaves : (c : Cipher) (m : Msg) → LongEnough m → Leaves (Keeps m) (open_random c m)
unfolding open_random
open_random-Leaves c m h =
    let m1 : Msg = record m { rk = some (random_key_get m.fh_sequence m.fh_src_id m.fh_time) } in
    Leaves-mono (Keeps m1) (Keeps m) _ (λ m' k. ground arith)
      (open_sealed-Leaves c m1 (random_key_get m.fh_sequence m.fh_src_id m.fh_time) true h)

open_secret-Leaves :
    (c : Cipher) (m : Msg) (mz : Option Bytes)
    → LongEnough m
    → ((z : Bytes) → mz ≡ some z → 16 ≤ length z)
    → Leaves (Keeps m) (open_secret c m mz)
unfolding open_secret
open_secret-Leaves c m none h fits = Keeps-refl m
open_secret-Leaves c m (some z) h fits =
    let a : Bytes = random_key_get m.fh_sequence m.fh_src_id m.fh_time in
    let (key, e, l) =
      xor_key_lem a z
        (omega (arith, fits z refl, length-random_key_get m.fh_sequence m.fh_src_id m.fh_time)) in
    let body : Bytes = drop (data_offset m.fh_opcode + 8) m.final in
    let m1 : Msg = record m { rk = some a; rkxormz = some key; cipher = some body } in
    rw e (
      Leaves-mono (Keeps m1) (Keeps m) _ (λ m' k. ground arith)
        (open_sealed-Leaves c m1 key false h))

open_body-Leaves :
    (c : Cipher) (m : Msg) → LongEnough m → SecretFits m → Leaves (Keeps m) (open_body c m)
unfolding open_body
open_body-Leaves c m h fits =
    ground
      (arith, open_plain-Leaves m h, open_random-Leaves c m h, open_secret-Leaves c m m.mz h fits)

check_header-Leaves :
    (c : Cipher) (m : Msg) → LongEnough m → SecretFits m → Leaves (Keeps m) (check_header c m)
unfolding check_header
check_header-Leaves c m h fits =
    let offset : ℕ = data_offset m.fh_opcode in
    let head : ℕ = get_or m.final (offset + 6) 0 in
    let body : ℕ = get_or m.final (offset + 7) 0 in
    let m1 : Msg = record m { dh_head_check = head; dh_check = body } in
    let opened : Leaves (Keeps m) (open_body c m1) =
      Leaves-mono (Keeps m1) (Keeps m) _ (λ m' k. ground arith) (open_body-Leaves c m1 h fits) in
    rw
      (
        index_lem m.final (offset + 6) (omega arith),
        index_lem m.final (offset + 7) (omega arith),
        crc-take m.final (offset + 6) (omega arith),
      )
      (ground (arith, opened))

check_length-Leaves :
    (c : Cipher) (m : Msg) → LongEnough m → SecretFits m → Leaves (Keeps m) (check_length c m)
unfolding check_length
check_length-Leaves c m h fits = ground (arith, Keeps-refl m, check_header-Leaves c m h fits)

pub read_data_header-Leaves :
    (c : Cipher) (m : Msg) → LongEnough m → SecretFits m → Leaves (Keeps m) (read_data_header c m)
unfolding read_data_header
read_data_header-Leaves c m h fits =
    let offset : ℕ = data_offset m.fh_opcode in
    let first : ℕ = get_or m.final offset 0 in
    let seq : ℕ = get_or m.final (offset + 1) 0 in
    let id : Bytes = take (offset + 4 - (offset + 2)) (drop (offset + 2) m.final) in
    let len : Bytes = take (offset + 6 - (offset + 4)) (drop (offset + 4) m.final) in
    let m1 : Msg = with_data_header m first seq id len in
    rw
      (
        index_lem m.final offset (omega arith),
        index_lem m.final (offset + 1) (omega arith),
        slice_lem m.final (offset + 2) (offset + 4) (omega arith) (omega arith),
        slice_lem m.final (offset + 4) (offset + 6) (omega arith) (omega arith),
      )
      (Leaves-mono (Keeps m1) (Keeps m) _ (λ m' k. ground arith) (check_length-Leaves c m1 h fits))

pub window_guid-Reaches : (m : Msg) → LongEnough m → Reaches (Keeps m) (Keeps m) (window_guid m)
window_guid-Reaches m h = ground arith

pub read_front-Reaches :
    (m : Msg)
    → Reaches
        (λ m'. m'.final ≡ m.final)
        (λ m'. (m'.final ≡ m.final) × LongEnough m' × (m'.mz ≡ m.mz))
        (read_front m)
unfolding read_front
read_front-Reaches m =
    let m1 : Msg = record m { fh_opcode = bit_and 0x07 (get_or m.final 0 0) } in
    ground (arith, read_flags-Reaches m1)

Reaches-mono :
    (P Q : Msg → Type 0) (x : Exit) → ((m : Msg) → P m → Q m) → Reaches P P x → Reaches Q Q x
Reaches-mono P Q (done m) f h = f m h
Reaches-mono P Q (failed e m) f h = f m h
Reaches-mono P Q panic f h = h

take_guid-Reaches :
    (m : Msg) (r : Outcome Bytes) → r ≢ Outcome.panic → Reaches (Keeps m) (Keeps m) (take_guid m r)
unfolding take_guid
take_guid-Reaches m (ok aa) h = ground arith
take_guid-Reaches m (err e) h = ground arith
take_guid-Reaches m Outcome.panic h = h refl

unlock_guid-Reaches :
    (c : Cipher) (m : Msg) (mz : Option Bytes)
    → 40 ≤ length m.final
    → ((z : Bytes) → mz ≡ some z → 16 ≤ length z)
    → Reaches (Keeps m) (Keeps m) (unlock_guid c m mz)
unfolding unlock_guid
unlock_guid-Reaches c m none h fits = Keeps-refl m
unlock_guid-Reaches c m (some z) h fits =
    let a : Bytes = random_key_get m.fh_sequence m.fh_src_id m.fh_time in
    let (key, e, l) =
      xor_key_lem a z
        (omega (arith, fits z refl, length-random_key_get m.fh_sequence m.fh_src_id m.fh_time)) in
    let sealed : Bytes = take 16 (drop 24 m.final) in
    let m1 : Msg = record m { rk = some a } in
    rw (e, slice_lem m.final 24 40 (omega arith) h)
      (Reaches-mono (Keeps m1) (Keeps m) _ (λ n k. ground arith)
        (take_guid-Reaches m1 (decrypt c sealed key) (
          decrypt-ne-panic c sealed key
            (omega (arith, length-take 16 (drop 24 m.final), length-drop 24 m.final)))))

pub read_guid-Reaches :
    (c : Cipher) (m : Msg)
    → 56 ≤ length m.final
    → SecretFits m
    → Reaches (Keeps m) (Keeps m) (read_guid c m)
unfolding read_guid
read_guid-Reaches c m h fits =
    let m1 : Msg = record m { dh_key_level = bit_and (get_or m.final 40 0) 0x0c / 4 } in
    rw (index_lem m.final 40 (omega arith)) (
      Reaches-mono (Keeps m1) (Keeps m) _ (λ n k. ground arith)
        (unlock_guid-Reaches c m1 m.mz (omega arith) fits))

pub read_msg_id-Leaves : (m : Msg) → LongEnough m → Leaves (Keeps m) (read_msg_id m)
unfolding read_msg_id
read_msg_id-Leaves m h = ground arith
