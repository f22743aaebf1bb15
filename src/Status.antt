-- ===== src/Status.antt =====
-- `MsgStatus` of msgs/body.go: the body of a status message.
use erina.Base.{
  ℕ, ◌+◌, ◌-◌, ◌%◌, ◌≤◌, ◌≡◌, refl, ap, ◌∙◌, arith, [], ◌∷◌, ◌++◌, if◌then◌else◌, ltb, length, true,
  false, length-append,
}
use erina.Words.{Bytes, to_le, fit}
use erina.Words.Laws.{length-to_le}
use erina.Outcome.{Outcome, ok, err, payload_too_long}

pub record MsgStatus : Type 0 where
  pub kind : ℕ
  pub id : ℕ
  pub payload : Bytes

-- The buffer has `10 + n` bytes for a payload of `n`, byte 9 stays zero, the length goes to byte
-- 10, and the copy begins at byte 11.
unfoldable pub marshal : MsgStatus → Outcome Bytes
marshal m =
    let n = length m.payload in
    if ltb 255 n
    then err payload_too_long
    else ok (
        if ltb 0 n
        then m.kind ∷ (to_le 8 m.id ++ (0 ∷ (n % 256) ∷ fit (n - 1) m.payload))
        else m.kind ∷ (to_le 8 m.id ++ (0 ∷ [])))

fit-append : (front : Bytes) (more : Bytes) → fit (length front) (front ++ more) ≡ front
fit-append [] more = refl
fit-append (b ∷ front) more = ap (λ t. b ∷ t) (fit-append front more)

-- For every payload of at most 255 bytes, `Marshal` gives a buffer of ten bytes and as many as the
-- payload has, in which the payload's last byte does not occur: it is the type, the id, a zero, the
-- length, and the payload without its last byte.
pub marshal-drops_last :
    (kind id last : ℕ) (front : Bytes)
    → length front ≤ 254
    → (b : Bytes) × (marshal (record { kind = kind; id = id; payload = front ++ (last ∷ []) })
        ≡ ok b)
      × (b ≡ kind ∷ (to_le 8 id ++ (0 ∷ (length front + 1) ∷ front)))
      × (length b ≡ 10 + length (front ++ (last ∷ [])))
unfolding marshal
marshal-drops_last kind id last front h =
    let payload : Bytes = front ++ (last ∷ []) in
    let n : length payload ≡ length front + 1 = length-append front (last ∷ []) in
    let fits : ltb 255 (length payload) ≡ false = ground (arith, n) in
    let some_bytes : ltb 0 (length payload) ≡ true = ground (arith, n) in
    let count : length payload % 256 ≡ length front + 1 = omega (arith, n) in
    let kept : fit (length payload - 1) payload ≡ front =
      ap (λ (t : ℕ). fit t payload) {x = length payload - 1} {y = length front} (omega (arith, n))
      ∙ fit-append front (last ∷ []) in
    (
      kind ∷ (to_le 8 id ++ (0 ∷ (length front + 1) ∷ front)),
      rw (fits, some_bytes, count, kept) refl,
      refl,
      omega (
        arith,
        n,
        length-append (to_le 8 id) (0 ∷ (length front + 1) ∷ front),
        length-to_le 8 id,
      ),
    )
