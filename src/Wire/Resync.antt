-- ===== src/Wire/Resync.antt =====
-- What `readFrame` reads of what `tcpWriter` wrote, and behind other bytes.
use erina.Base.{
  length-take, leb→le, ltb→lt, Bool-cases, inr, inl, ℕ, zero, suc, ◌+◌, ◌<◌, ◌≤◌, ◌≡◌, arith, leb,
  ltb, ◌++◌, length, drop, length-drop, Option-cases,
}
use erina.Words.{Bytes, of_le}
use erina.Wire.Stream.{Net, Read, Reads, read, failed, unfinished, then_read, read_full, read_some}
use erina.Wire.Gateway.{frame_flag, mismatch, resync, read_body, read_frame}

-- A read that ends with an error, or with what `P` holds of.
abbrev pub Holds {ℓ} : {A : Type ℓ} → (A → Bytes → Type 0) → Read A → Type 0
Holds P (read a rest) = P a rest
Holds P failed = Unit
Holds P unfinished = ⊥

Holds-then_read {ℓ κ} :
    {A : Type ℓ} {B : Type κ} (P : A → Bytes → Type 0) (Q : B → Bytes → Type 0) (r : Read A)
    (f : A → Reads B)
    → Holds P r
    → ((a : A) (rest : Bytes) → P a rest → Holds Q (f a rest))
    → Holds Q (then_read r f)
Holds-then_read P Q (read a rest) f h k = k a rest h
Holds-then_read P Q failed f h k = tt
Holds-then_read P Q unfinished f h k = absurd h

pub Holds-imp {ℓ} :
    {A : Type ℓ} (P Q : A → Bytes → Type 0) (r : Read A)
    → ((a : A) (rest : Bytes) → P a rest → Q a rest)
    → Holds P r
    → Holds Q r
Holds-imp P Q (read a rest) imp h = imp a rest h
Holds-imp P Q failed imp h = tt
Holds-imp P Q unfinished imp h = h

pub Holds-read_full :
    (n : ℕ) (rest : Bytes)
    → Holds (λ a left. (length a ≡ n) × (length a + length left ≡ length rest)) (read_full n rest)
Holds-read_full n rest = elim (Bool-cases (leb n (length rest))) [
  | inl e ↦ rw e (
    omega (arith, leb→le n (length rest) e, length-take n rest),
    omega (arith, leb→le n (length rest) e, length-take n rest, length-drop n rest),
  )
  | inr e ↦ rw e tt
]

Holds-read_some :
    (net : Net) (i : ℕ) (rest : Bytes)
    → Holds (λ a left. length left < length rest) (read_some net (i + 1) rest)
Holds-read_some net i rest = elim (Bool-cases (ltb 0 (length rest))) [
  | inl e ↦ rw e (
      omega (
        arith,
        ltb→lt 0 (length rest) e,
        length-drop (net.got (i + 1) rest) rest,
        net.got_pos (i + 1) rest (omega (arith, ltb→lt 0 (length rest) e)),
        net.got_le (i + 1) rest,
      ))
  | inr e ↦ rw e tt
]

Holds-resync :
    (net : Net) (fuel : ℕ) (head rest : Bytes)
    → length rest < fuel
    → Holds (λ _ left. length left ≤ length rest) (resync net fuel head rest)
unfolding resync
Holds-resync net zero head rest h = absurd (omega arith)
Holds-resync net (suc fuel) head rest h = elim (Option-cases (mismatch frame_flag head)) [
  | inl e ↦ rw e (omega arith)
  | inr (i, e) ↦ rw e (
      Holds-then_read (λ _ left. length left < length rest) (λ _ left. length left ≤ length rest)
        (read_some net (i + 1) rest) (λ one. resync net fuel (drop (i + 1) head ++ one))
        (Holds-read_some net i rest)
        λ one left less.
          Holds-imp (λ _ last. length last ≤ length left) (λ _ last. length last ≤ length rest)
            (resync net fuel (drop (i + 1) head ++ one) left) (λ _ last le. omega arith)
            (Holds-resync net fuel (drop (i + 1) head ++ one) left (omega arith)))
]

Holds-read_body :
    (rest : Bytes) → Holds (λ p left. length p + length left + 2 ≡ length rest) (read_body rest)
unfolding read_body
Holds-read_body rest =
    Holds-then_read (λ a left. (length a ≡ 2) × (length a + length left ≡ length rest)) _
      (read_full 2 rest) (λ bdl. read_full (of_le bdl)) (Holds-read_full 2 rest)
      λ bdl r h.
        Holds-imp (λ a left. (length a ≡ of_le bdl) × (length a + length left ≡ length r)) _
          (read_full (of_le bdl) r) (λ p left k. omega arith) (Holds-read_full (of_le bdl) r)

-- On any connection and whatever is still to come: `readFrame` ends, with an error or with a frame,
-- and then the frame and what is left are at least ten bytes less than what there was.
pub read_frame-Holds :
    (net : Net) (rest : Bytes)
    → Holds (λ p left. length p + length left + 10 ≤ length rest) (read_frame net rest)
unfolding read_frame read_body
read_frame-Holds net rest =
    Holds-then_read (λ a left. (length a ≡ 8) × (length a + length left ≡ length rest)) _
      (read_full 8 rest) _ (Holds-read_full 8 rest)
      λ head r1 h1.
        Holds-then_read (λ _ left. length left ≤ length r1) _ (resync net (length rest + 1) head r1)
          _ (Holds-resync net (length rest + 1) head r1 (omega arith))
          λ _ r2 h2.
            Holds-imp (λ p left. length p + length left + 2 ≡ length r2) _ (read_body r2)
              (λ p left k. omega arith) (Holds-read_body r2)
