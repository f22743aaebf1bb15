-- ===== src/Msg/Mask.antt =====
-- `MaskContent` of msgs/msg.go, and its use on the ids of a frame.
pub mod Involution
pub mod Buffer
use erina.Base.{
  ℕ, zero, suc, ◌+◌, ◌%◌, ◌≡◌, List, [], ◌∷◌, ◌++◌, Option, none, some, bit_xor, if◌then◌else◌,
  ◌==◌, length, take, drop,
}
use erina.Words.{Bytes, index, slice}
use erina.Msg.Types.{Msg, Exit, done, failed, panic, ◌>>=◌}
use mathlib.Core.Option

-- The loop over `payload` from `iter` on, with `left` rounds left; bytes behind those stay. `iter`
-- and the sum in the index are uint16; `none` is a panic on a mask that is too short.
unfoldable pub mask_loop : ℕ → ℕ → ℕ → Bytes → Bytes → Option Bytes
mask_loop zero iter desp mask payload = some payload
mask_loop (suc left) iter desp mask [] = some []
mask_loop (suc left) iter desp mask (b ∷ payload) =
    Option.bind (index mask ((iter + desp) % 65536 % 4 % 256))
      λ k. Option.map (λ rest. bit_xor b k ∷ rest) (mask_loop left (iter + 1) desp mask payload)

-- The loop runs while `iter` is below the length, taken as a uint16.
unfoldable pub mask_content : Bytes → Bytes → Option Bytes
mask_content payload mask =
    Option.bind (index mask 0) λ desp. mask_loop (length payload % 65536) 0 desp mask payload

-- Where the masked part ends: behind the ids, and behind the guid of opcode 3.
abbrev pub mask_end : ℕ → ℕ
mask_end op = if op == 3 then 40 else 32

-- The masked part is in the message's own buffer; the mask is the frame's time.
unfoldable pub mask_ids : Msg → Exit
mask_ids m = do
  payload ← slice m.final 8 (mask_end m.fh_opcode)
  mask ← slice m.final 4 8
  masked ← mask_content payload mask
  done (record m { final = take 8 m.final ++ (masked ++ drop (mask_end m.fh_opcode) m.final) })

-- `if m.FHMask { … }`.
unfoldable pub toggle_mask : Msg → Exit
toggle_mask m = if m.fh_mask then mask_ids m else done m

-- The deferred call that masks the buffer again, whatever the method returns.
unfoldable pub deferred : Exit → Exit
deferred (done m) = toggle_mask m
deferred (failed e m) = elim (toggle_mask m) [
  | done m' ↦ failed e m'
  | failed e' m' ↦ failed e' m'
  | panic ↦ panic
]
deferred panic = panic
