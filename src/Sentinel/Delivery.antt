-- ===== src/Sentinel/Delivery.antt =====
-- What `Forward` writes, the loop of `LaunchMonitor` passes on.
use erina.Sentinel.Forward.{
  Course, went, Went, Onward, Connected, ahead, forward_to, delivered, Line, write_frame,
  sentinel_frame, forward,
}
use erina.Sentinel.Receive.{on_id, on_payload, on_head, closed, Push, push_then, receive, monitor}
use erina.Base.{
  Bool-cases, inr, inl, ℕ, zero, suc, ◌+◌, ◌^◌, ◌≤◌, ◌<◌, ◌==◌, ◌≡◌, refl, ap, ◌∙◌, arith, ltb,
  if◌then◌else◌, true, false, List, [], ◌∷◌, ◌++◌, Option, none, some, length, lookup, text_key,
  length-append, All,
}
use erina.Words.Laws.{slice_lem, of_le-to_le}
use erina.Words.{Bytes, to_le, of_le, slice}
use erina.Wire.Stream.{read, read_full}
use erina.Wire.Delivery.{read_full-front}
use erina.Sentinel.Types.{Text, Sentinel, SentinelMgr, host_of}

receive-sentinel_frame :
    (fuel id : ℕ) (msg rest : Bytes)
    → id < 2 ^ 64
    → length msg ≤ 1016
    → receive (suc fuel) (sentinel_frame id msg ++ rest) ≡ push_then (id, msg) (receive fuel rest)
unfolding receive sentinel_frame
receive-sentinel_frame fuel id msg rest small short =
    let n : of_le (to_le 4 (8 + length msg)) ≡ 8 + length msg =
      of_le-to_le 4 (8 + length msg) (omega arith) in
    let nonzero : (of_le (to_le 4 (8 + length msg)) == 0) ≡ false = ground (arith, n) in
    let head : read_full 4 ((to_le 4 (8 + length msg) ++ (to_le 8 id ++ msg)) ++ rest)
        ≡ read (to_le 4 (8 + length msg)) ((to_le 8 id ++ msg) ++ rest) =
      read_full-front 4 (to_le 4 (8 + length msg)) ((to_le 8 id ++ msg) ++ rest) refl in
    let payload : read_full (of_le (to_le 4 (8 + length msg))) ((to_le 8 id ++ msg) ++ rest)
        ≡ read (to_le 8 id ++ msg) rest =
      read_full-front (of_le (to_le 4 (8 + length msg))) (to_le 8 id ++ msg) rest
        (length-append (to_le 8 id) msg ∙ omega (arith, n)) in
    let key : of_le (to_le 8 id) ≡ id = of_le-to_le 8 id (omega arith) in
    let front : slice (to_le 8 id ++ msg) 0 8 ≡ some (to_le 8 id) =
      slice_lem (to_le 8 id ++ msg) 0 8 (omega arith)
        (omega (arith, length-append (to_le 8 id) msg)) in
    ap (on_head (receive fuel)) head
    ∙ rw nonzero (ap (on_payload (receive fuel)) payload)
    ∙ ap (on_id (receive fuel) (to_le 8 id ++ msg) rest) front
    ∙ ap (λ (k : ℕ). push_then (k, msg) (receive fuel rest)) key

pub length-sentinel_frame :
    (id : ℕ) (msg : Bytes) → length (sentinel_frame id msg) ≡ 12 + length msg
unfolding sentinel_frame
length-sentinel_frame id msg = omega arith

-- The bytes that go to one address.
abbrev pub bytes_to : Text → List (Text × Bytes) → Bytes
bytes_to adr [] = []
bytes_to adr ((a, frame) ∷ fs) =
    let rest = bytes_to adr fs in if text_key.same a adr then frame ++ rest else rest

-- What is meant for the ids whose sentinel is at the address.
abbrev pub push_at : Text → Push → List Push → Option Sentinel → List Push
push_at adr p rest none = rest
push_at adr p rest (some s) = if text_key.same s.adr adr then p ∷ rest else rest

abbrev pub pushes : SentinelMgr → Text → Bytes → List ℕ → List Push
pushes g adr msg [] = []
pushes g adr msg (id ∷ ids) =
    push_at adr (id, msg) (pushes g adr msg ids) (lookup g.sentinels (host_of g id))

-- Every write succeeds at once.
abbrev pub Works : Line → Type 0
Works line = (adr : Text) (n : ℕ) → line.writes adr n ≡ true

receive-nil : (n : ℕ) → 0 < n → receive n [] ≡ ([], closed)
unfolding receive
receive-nil zero h = absurd (omega arith)
receive-nil (suc n) h = refl

-- `Forward` returns, keeps the table, and what goes to each address is received there.
record Arrives (g : SentinelMgr) (msg : Bytes) (adr : Text) (ps : List Push) (c : Course)
    : Type 0 where
  end : Went
  runs : c ≡ went end
  same : end.table ≡ g
  got :
      (n : ℕ)
      → length (bytes_to adr end.frames) < n
      → receive n (bytes_to adr end.frames) ≡ (ps, closed)

written_at :
    (line : Line) (fuel : ℕ) (adr : Text) (k : ℕ)
    → Works line
    → write_frame line (suc fuel) adr k ≡ delivered (k + 1)
unfolding write_frame
written_at line fuel adr k works = rw (works adr k) refl

fits : (n : ℕ) → n ≤ 1016 → ltb 1024 (8 + n) ≡ false
fits n h = ground arith

received_behind :
    (n id : ℕ) (msg rest : Bytes) (ps : List Push)
    → id < 2 ^ 64
    → length msg ≤ 1016
    → ((m : ℕ) → length rest < m → receive m rest ≡ (ps, closed))
    → length (sentinel_frame id msg ++ rest) < n
    → receive n (sentinel_frame id msg ++ rest) ≡ ((id, msg) ∷ ps, closed)
received_behind zero id msg rest ps small short got h = absurd (omega arith)
received_behind (suc n) id msg rest ps small short got h =
    receive-sentinel_frame n id msg rest small short
    ∙ ap (push_then (id, msg)) (
        got n
          (omega (arith, length-append (sentinel_frame id msg) rest, length-sentinel_frame id msg)))

-- One more id, given its sentinel.
forward_to-Arrives :
    (line : Line) (fuel id : ℕ) (msg : Bytes) (adr : Text) (rest : Onward) (g : SentinelMgr) (k : ℕ)
    (found : Option Sentinel) (ps : List Push)
    → Works line
    → ((s : Sentinel) → found ≡ some s → s.con ≡ true)
    → id < 2 ^ 64
    → length msg ≤ 1016
    → ((j : ℕ) → Arrives g msg adr ps (rest g j))
    → Arrives g msg adr
        (push_at adr (id, msg) ps found)
        (forward_to line (suc fuel) id msg rest g k found)
unfolding forward_to
forward_to-Arrives line fuel id msg adr rest g k none ps works con small short on = on k
forward_to-Arrives line fuel id msg adr rest g k (some s) ps works con small short on =
    let a = on (k + 1) in
    let end : Went = record (a.end) { frames = (s.adr, sentinel_frame id msg) ∷ (a.end).frames } in
    record {
      end = end;
      runs =
          rw (fits (length msg) short, con s refl, written_at line fuel s.adr k works)
            (ap (ahead (s.adr, sentinel_frame id msg)) a.runs);
      same = a.same;
      got = elim (Bool-cases (text_key.same s.adr adr)) [
        | inl e ↦
            rw e λ n. received_behind n id msg (bytes_to adr (a.end).frames) ps small short a.got
        | inr e ↦ rw e a.got
      ];
    }

forward-Arrives :
    (line : Line) (fuel : ℕ) (g : SentinelMgr) (ids : List ℕ) (msg : Bytes) (adr : Text)
    → Works line
    → Connected g
    → All (λ id. id < 2 ^ 64) ids
    → length msg ≤ 1016
    → (k : ℕ) → Arrives g msg adr (pushes g adr msg ids) (forward line (suc fuel) g k ids msg)
unfolding forward
forward-Arrives line fuel g [] msg adr works con small short k = record {
  end = record { frames = []; table = g; tries = k };
  runs = refl;
  same = refl;
  got = receive-nil;
}
forward-Arrives line fuel g (id ∷ ids) msg adr works con (here, small) short k =
    forward_to-Arrives line fuel id msg adr (λ g1 k1. forward line (suc fuel) g1 k1 ids msg) g k
      (lookup g.sentinels (host_of g id)) (pushes g adr msg ids) works (con (host_of g id)) here
      short (forward-Arrives line fuel g ids msg adr works con small short)

-- When every sentinel has a connection and every write succeeds, for ids of 64 bits and a message of at
-- most 1016 bytes: `Forward` returns and keeps the table, and whatever the address, the loop of
-- `LaunchMonitor` on the bytes written to it passes on the message once for each id whose sentinel is
-- there, in the order of the ids, and then waits for more.
pub monitor-forward :
    (line : Line) (fuel : ℕ) (g : SentinelMgr) (k : ℕ) (ids : List ℕ) (msg : Bytes) (adr : Text)
    → Works line
    → Connected g
    → All (λ id. id < 2 ^ 64) ids
    → length msg ≤ 1016
    → (d : Went) × (forward line (suc fuel) g k ids msg ≡ went d)
      × (d.table ≡ g)
      × (monitor (bytes_to adr d.frames) ≡ (pushes g adr msg ids, closed))
monitor-forward line fuel g k ids msg adr works con small short =
    let a = forward-Arrives line fuel g ids msg adr works con small short k in
    (a.end, a.runs, a.same, a.got (length (bytes_to adr (a.end).frames) + 1) (omega arith))
