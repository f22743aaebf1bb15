-- ===== src/Session/Replay.antt =====
-- `VerifyPack` of srv/devsess.go: the check of a packet's number, a uint16.
use erina.Base.{
  ℕ, ◌+◌, ◌%◌, ◌≤◌, ◌<◌, ◌≡◌, arith, List, [], ◌∷◌, ◌&&◌, ◌||◌, ltb, if◌then◌else◌, All,
}
use erina.Outcome.{Outcome, ok, err, panic, wrong_sequence}

-- The number that the session remembers, and that of the packet; a packet that passes gives the
-- session's new number.
unfoldable pub verify_pack : ℕ → ℕ → Outcome ℕ
verify_pack ridx pack_num =
    if ltb ridx pack_num || (ltb pack_num ridx && (ltb pack_num 10 && ltb 65530 ridx))
    then ok pack_num
    else err wrong_sequence

-- A packet that is refused leaves the number.
unfoldable pub after_pack : ℕ → ℕ → ℕ
after_pack ridx pack_num = elim (verify_pack ridx pack_num) [
  | ok r ↦ r
  | err e ↦ ridx
  | panic ↦ ridx
]

abbrev pub after_packs : ℕ → List ℕ → ℕ
after_packs ridx [] = ridx
after_packs ridx (p ∷ ps) = after_packs (after_pack ridx p) ps

after_pack-grows :
    (ridx p : ℕ)
    → ridx ≤ 65530
    → p ≤ 65530
    → (ridx ≤ after_pack ridx p) × (after_pack ridx p ≤ 65530)
unfolding after_pack verify_pack
after_pack-grows ridx p h k = ground arith

after_packs-grows :
    (ridx : ℕ) (ps : List ℕ)
    → ridx ≤ 65530
    → All (λ p. p ≤ 65530) ps
    → (ridx ≤ after_packs ridx ps) × (after_packs ridx ps ≤ 65530)
after_packs-grows ridx [] h k = (omega arith, h)
after_packs-grows ridx (p ∷ ps) h (q, k) =
    let (grows, bound) = after_pack-grows ridx p h q in
    let (more, below) = after_packs-grows (after_pack ridx p) ps bound k in
    (omega (arith, grows, more), below)

accepted_is : (ridx p r : ℕ) → verify_pack ridx p ≡ ok r → r ≡ p
unfolding verify_pack
accepted_is ridx p r e = ground arith

refused_up_to : (ridx p : ℕ) → p ≤ ridx → ridx ≤ 65530 → verify_pack ridx p ≡ err wrong_sequence
unfolding verify_pack
refused_up_to ridx p h k = ground arith

-- A packet with a number up to 65530 that was accepted is refused when it comes again, after any
-- packets with numbers up to 65530, whether those were accepted or not.
pub verify_pack-replayed :
    (ridx p r : ℕ) (ps : List ℕ)
    → p ≤ 65530
    → All (λ q. q ≤ 65530) ps
    → verify_pack ridx p ≡ ok r
    → verify_pack (after_packs r ps) p ≡ err wrong_sequence
verify_pack-replayed ridx p r ps h k e =
    let same : r ≡ p = accepted_is ridx p r e in
    let (grows, below) = after_packs-grows r ps (omega (arith, same)) k in
    refused_up_to (after_packs r ps) p (omega (arith, same, grows)) below

-- A sender that counts up modulo 65536 and loses at most four packets in a row is never refused.
pub verify_pack-next :
    (ridx d : ℕ)
    → ridx < 65536
    → 1 ≤ d
    → d ≤ 5
    → verify_pack ridx ((ridx + d) % 65536) ≡ ok ((ridx + d) % 65536)
unfolding verify_pack
verify_pack-next ridx d h p q = ground arith
