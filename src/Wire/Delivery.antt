-- ===== src/Wire/Delivery.antt =====
-- What `readFrame` reads of what `tcpWriter` wrote, behind other bytes too.
use erina.Base.{
  take-append-drop, length-take, lt→ltb, get_or, le→leb, ℕ, zero, suc, ◌+◌, ◌/◌, ◌%◌, ◌^◌, ◌<◌,
  ◌==◌, ◌≡◌, ◌≢◌, refl, ap, sym, ◌∙◌, arith, leb, ltb, [], ◌∷◌, ◌++◌, true, false, none, some,
  length, take, drop, All, length-append, take-append, drop-append, append_assoc,
}
use erina.Words.{Bytes, to_le, of_le}
use erina.Words.Laws.{length-to_le, of_le-to_le}
use erina.Wire.Stream.{Net, Prompt, read, ◌>>=◌, then_read, read_full, read_some}
use erina.Wire.Gateway.{frame_flag, tcp_frame, mismatch, resync, read_body, read_frame}

pub read_full-front :
    (n : ℕ) (xs rest : Bytes) → length xs ≡ n → read_full n (xs ++ rest) ≡ read xs rest
read_full-front n xs rest h =
    let enough : leb n (length (xs ++ rest)) ≡ true =
      le→leb n (length (xs ++ rest)) (omega (arith, length-append xs rest)) in
    rw (enough, take-append n xs rest h, drop-append n xs rest h) refl

read_body-frame :
    (p rest : Bytes)
    → length p < 65536
    → read_body (to_le 2 (length p % 2 ^ 16) ++ (p ++ rest)) ≡ read p rest
unfolding read_body
read_body-frame p rest h =
    let n : of_le (to_le 2 (length p % 2 ^ 16)) ≡ length p % 2 ^ 16 =
      of_le-to_le 2 (length p % 2 ^ 16) (omega arith) in
    ap (λ r. then_read r λ bdl. read_full (of_le bdl))
      (read_full-front 2 (to_le 2 (length p % 2 ^ 16)) (p ++ rest)
        (length-to_le 2 (length p % 2 ^ 16)))
    ∙ read_full-front (of_le (to_le 2 (length p % 2 ^ 16))) p rest (omega (arith, n))

NoFlag : Bytes → Type 0
NoFlag = All λ b. b ≢ 0xfa

read_one : (net : Net) (r : ℕ) (rest : Bytes) → read_some net 1 (r ∷ rest) ≡ read (r ∷ []) rest
read_one net r rest =
    let one : net.got 1 (r ∷ rest) ≡ 1 =
      omega (arith, net.got_le 1 (r ∷ rest), net.got_pos 1 (r ∷ rest) (omega arith)) in
    let there : ltb 0 (length (r ∷ rest)) ≡ true = lt→ltb 0 (length (r ∷ rest)) (omega arith) in
    rw (one, there) refl

resync_step :
    (net : Net) (fuel : ℕ) (head rest : Bytes) (i : ℕ) (one left : Bytes)
    → mismatch frame_flag head ≡ some i
    → read_some net (i + 1) rest ≡ read one left
    → resync net (suc fuel) head rest ≡ resync net fuel (drop (i + 1) head ++ one) left
unfolding resync
resync_step net fuel head rest i one left e f =
    ap
      (λ o. elim o [
        | none ↦ read tt rest
        | some j ↦ (read_some net (j + 1) >>= λ b. resync net fuel (drop (j + 1) head ++ b)) rest
      ])
      e
    ∙ ap (λ r. then_read r λ b. resync net fuel (drop (i + 1) head ++ b)) f

resync-skips :
    (net : Net) (g : Bytes) (fuel : ℕ) (head rest tail : Bytes)
    → All (λ b. b ≢ 0xfa) g
    → length g < fuel
    → length head ≡ 8
    → head ++ rest ≡ g ++ (frame_flag ++ tail)
    → resync net fuel head rest ≡ read tt tail
unfolding resync
resync-skips net g zero head rest tail clean h n e = absurd (omega arith)
resync-skips net [] (suc fuel) head rest tail clean h n e =
    let front : head ≡ frame_flag =
      sym (take-append 8 head rest n) ∙ ap (take 8) e ∙ take-append 8 frame_flag tail refl in
    let back : rest ≡ tail =
      sym (drop-append 8 head rest n) ∙ ap (drop 8) e ∙ drop-append 8 frame_flag tail refl in
    ap (λ h. resync net (suc fuel) h rest) front ∙ ap (read tt) back
resync-skips net (b ∷ g) (suc fuel) [] rest tail clean h n e = absurd (omega arith)
resync-skips net (b ∷ g) (suc fuel) (c ∷ head) [] tail clean h n e = absurd (
    omega (
      arith,
      ap length e,
      length-append head [],
      length-append g (frame_flag ++ tail),
      length-append frame_flag tail,
    ))
resync-skips net (b ∷ g) (suc fuel) (c ∷ head) (r ∷ rest) tail (other, clean) h n e =
    let same : c ≡ b = ap (λ l. get_or l 0 0) e in
    let differs : (0xfa == c) ≡ false = ground arith in
    let shifted : (head ++ (r ∷ [])) ++ rest ≡ g ++ (frame_flag ++ tail) =
      append_assoc head (r ∷ []) rest ∙ ap (drop 1) e in
    let at : mismatch frame_flag (c ∷ head) ≡ some 0 = rw differs refl in
    resync_step net fuel (c ∷ head) (r ∷ rest) 0 (r ∷ []) rest at (read_one net r rest)
    ∙ resync-skips net g fuel (head ++ (r ∷ [])) rest tail clean (omega arith)
        (omega (arith, length-append head (r ∷ []))) shifted

-- After the first eight bytes of a stream.
opened :
    (net : Net) (s g tail : Bytes)
    → All (λ b. b ≢ 0xfa) g
    → s ≡ g ++ (frame_flag ++ tail)
    → read_frame net s ≡ read_body tail
unfolding read_frame
opened net s g tail clean e =
    let long : length s ≡ length g + (8 + length tail) =
      ap length e
      ∙ omega (arith, length-append g (frame_flag ++ tail), length-append frame_flag tail) in
    let first : read_full 8 s ≡ read (take 8 s) (drop 8 s) =
      rw (le→leb 8 (length s) (omega arith)) refl in
    ap (λ r. then_read r (λ head. resync net (length s + 1) head >>= λ _. read_body)) first
    ∙ ap (λ r. then_read r λ _. read_body)
        (resync-skips net g (length s + 1) (take 8 s) (drop 8 s) tail clean (omega arith)
          (omega (arith, length-take 8 s)) (take-append-drop 8 s ∙ e))

-- On any connection, for every payload of less than 65536 bytes: behind any bytes that are not
-- 0xfa, `readFrame` of what `tcpWriter` wrote gives the payload, and leaves what follows.
pub read_frame-tcp_frame :
    (net : Net) (g p rest : Bytes)
    → All (λ b. b ≢ 0xfa) g
    → length p < 65536
    → read_frame net (g ++ (tcp_frame p ++ rest)) ≡ read p rest
unfolding tcp_frame
read_frame-tcp_frame net g p rest clean h =
    opened net (g ++ (tcp_frame p ++ rest)) g (to_le 2 (length p % 2 ^ 16) ++ (p ++ rest)) clean
      refl
    ∙ read_body-frame p rest h

read_two :
    (net : Net) (a b : ℕ) (left : Bytes)
    → Prompt net
    → read_some net 2 (a ∷ (b ∷ left)) ≡ read (a ∷ (b ∷ [])) left
read_two net a b left prompt =
    let two : net.got 2 (a ∷ (b ∷ left)) ≡ 2 = prompt 2 (a ∷ (b ∷ left)) ∙ omega arith in
    let there : ltb 0 (length (a ∷ (b ∷ left))) ≡ true =
      lt→ltb 0 (length (a ∷ (b ∷ left))) (omega arith) in
    rw (two, there) refl

-- On a connection that gives all that is asked for: when a single byte 0xfa stands before a frame
-- whose length and payload have no byte 0xfa, `readFrame` skips that frame and gives the next one,
-- of any payload of less than 65536 bytes.
pub read_frame-lost :
    (net : Net) (p q rest : Bytes)
    → Prompt net
    → All (λ b. b ≢ 0xfa) (to_le 2 (length p % 2 ^ 16) ++ p)
    → length q < 65536
    → read_frame net (0xfa ∷ (tcp_frame p ++ (tcp_frame q ++ rest))) ≡ read q rest
unfolding read_frame tcp_frame
read_frame-lost net p q rest prompt (low, (high, clean)) h =
    let tail : Bytes = to_le 2 (length q % 2 ^ 16) ++ (q ++ rest) in
    let g : Bytes = to_le 2 (length p % 2 ^ 16) ++ p in
    let l0 : ℕ = length p % 2 ^ 16 % 256 in
    let l1 : ℕ = length p % 2 ^ 16 / 256 % 256 in
    let left : Bytes = l1 ∷ (p ++ (frame_flag ++ tail)) in
    let s : Bytes = 0xfa ∷ (frame_flag ++ (l0 ∷ left)) in
    let head : Bytes = 0xfa ∷ take 7 frame_flag in
    let n : ℕ = length s in
    let first : read_full 8 s ≡ read head (0x36 ∷ (l0 ∷ left)) =
      read_full-front 8 head (0x36 ∷ (l0 ∷ left)) refl in
    let more : length (p ++ (frame_flag ++ tail)) ≡ length p + length (frame_flag ++ tail) =
      length-append p (frame_flag ++ tail) in
    let step =
      resync_step net n head (0x36 ∷ (l0 ∷ left)) 1 (0x36 ∷ (l0 ∷ [])) left refl
        (read_two net 0x36 l0 left prompt) in
    let skip =
      resync-skips net (drop 1 frame_flag ++ g) n (drop 1 (take 7 frame_flag) ++ (0x36 ∷ (l0 ∷ [])))
        left tail
        (
          omega arith,
          (
            omega arith,
            (
              omega arith,
              (omega arith, (omega arith, (omega arith, (omega arith, (low, (high, clean)))))),
            ),
          ),
        )
        (omega (arith, more)) refl refl in
    ap (λ r. then_read r (λ head. resync net (n + 1) head >>= λ _. read_body)) first
    ∙ ap (λ (k : ℕ). then_read (resync net k head (0x36 ∷ (l0 ∷ left))) λ _. read_body) {x = n + 1}
        {y = suc n} (omega arith)
    ∙ ap (λ r. then_read r λ _. read_body) (step ∙ skip)
    ∙ read_body-frame q rest h
