-- ===== src/Msg/Mask/Involution.antt =====
-- Masking twice gives back what was there.
use erina.Base.{
  true, ℕ, zero, suc, ◌+◌, ◌%◌, ◌≡◌, refl, ap, ◌∙◌, arith, [], ◌∷◌, some, bit_xor, length, get_or,
  bit_xor_cancel, ltb, lt→ltb,
}
use erina.Words.{Bytes}
use erina.Msg.Mask.{mask_loop, mask_content}
use mathlib.Core.Option

-- What the loop leaves of a payload, under a mask of four bytes.
abbrev pub masked_by : ℕ → ℕ → ℕ → Bytes → Bytes → Bytes
masked_by zero iter desp mask payload = payload
masked_by (suc left) iter desp mask [] = []
masked_by (suc left) iter desp mask (b ∷ payload) =
    bit_xor b (get_or mask ((iter + desp) % 65536 % 4) 0)
    ∷ masked_by left (iter + 1) desp mask payload

pub mask_loop-masked_by :
    (left iter desp : ℕ) (mask payload : Bytes)
    → length mask ≡ 4
    → mask_loop left iter desp mask payload ≡ some (masked_by left iter desp mask payload)
unfolding mask_loop Option.bind
mask_loop-masked_by zero iter desp mask payload h = refl
mask_loop-masked_by (suc left) iter desp mask [] h = refl
mask_loop-masked_by (suc left) iter desp mask (b ∷ payload) h =
    let small : (iter + desp) % 65536 % 4 % 256 ≡ (iter + desp) % 65536 % 4 = omega arith in
    let inside : ltb ((iter + desp) % 65536 % 4) (length mask) ≡ true = lt→ltb _ _ (omega arith) in
    rw (small, inside, mask_loop-masked_by left (iter + 1) desp mask payload h)

pub mask_content-masked_by :
    (payload mask : Bytes)
    → length mask ≡ 4
    → mask_content payload mask
      ≡ some (masked_by (length payload % 65536) 0 (get_or mask 0 0) mask payload)
unfolding mask_content Option.bind
mask_content-masked_by payload mask h =
    let inside : ltb 0 (length mask) ≡ true = lt→ltb _ _ (omega arith) in
    rw (inside, mask_loop-masked_by (length payload % 65536) 0 (get_or mask 0 0) mask payload h)

pub length-masked_by :
    (left iter desp : ℕ) (mask payload : Bytes)
    → length (masked_by left iter desp mask payload) ≡ length payload
length-masked_by zero iter desp mask payload = refl
length-masked_by (suc left) iter desp mask [] = refl
length-masked_by (suc left) iter desp mask (b ∷ payload) =
    ap suc (length-masked_by left (iter + 1) desp mask payload)

pub masked_by_twice :
    (left iter desp : ℕ) (mask payload : Bytes)
    → masked_by left iter desp mask (masked_by left iter desp mask payload) ≡ payload
masked_by_twice zero iter desp mask payload = refl
masked_by_twice (suc left) iter desp mask [] = refl
masked_by_twice (suc left) iter desp mask (b ∷ payload) =
    ap (λ t. t ∷ masked_by left (iter + 1) desp mask (masked_by left (iter + 1) desp mask payload))
      (bit_xor_cancel b (get_or mask ((iter + desp) % 65536 % 4) 0))
    ∙ ap (λ t. b ∷ t) (masked_by_twice left (iter + 1) desp mask payload)

-- With a mask of four bytes the call does not panic, keeps the length, and a second call with the
-- same mask restores every payload.
pub mask_content-mask_content :
    (payload mask : Bytes)
    → length mask ≡ 4
    → (masked : Bytes) × (mask_content payload mask ≡ some masked)
      × (length masked ≡ length payload)
      × (mask_content masked mask ≡ some payload)
mask_content-mask_content payload mask h =
    let n : ℕ = length payload % 65536 in
    let d : ℕ = get_or mask 0 0 in
    let out : Bytes = masked_by n 0 d mask payload in
    let len : length out ≡ length payload = length-masked_by n 0 d mask payload in
    (
      out,
      mask_content-masked_by payload mask h,
      len,
      rw (mask_content-masked_by out mask h, len) (ap some (masked_by_twice n 0 d mask payload)),
    )
