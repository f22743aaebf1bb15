-- ===== src/Wire/Gateway.antt =====
-- `tcpWriter` and `readFrame` of srv/ws.go.
use erina.Base.{
  ℕ, zero, suc, ◌+◌, ◌%◌, ◌^◌, ◌==◌, if◌then◌else◌, [], ◌∷◌, ◌++◌, Option, none, some, length, drop,
}
use erina.Words.{Bytes, to_le, of_le}
use erina.Wire.Stream.{Net, Reads, read, unfinished, ◌>>=◌, read_full, read_some}

-- `FRAMEFLAG`.
abbrev pub frame_flag : Bytes
frame_flag = 0xfa ∷ 0xc3 ∷ 0xc6 ∷ 0xc9 ∷ 0x05 ∷ 0x3c ∷ 0x39 ∷ 0x36 ∷ []

-- What `tcpWriter` writes for a message.
unfoldable pub tcp_frame : Bytes → Bytes
tcp_frame p = frame_flag ++ (to_le 2 (length p % 2 ^ 16) ++ p)

-- The first place at which `head` differs from the flag.
abbrev pub mismatch : Bytes → Bytes → Option ℕ
mismatch [] head = none
mismatch (f ∷ flag) [] = none
mismatch (f ∷ flag) (h ∷ head) =
    let rest = mismatch flag head in
    if f == h then elim rest [ none ↦ none | some i ↦ some (i + 1) ] else some 0

-- The loop: as many bytes as were looked at are dropped from `head`, and as many are asked for.
unfoldable pub resync : Net → ℕ → Bytes → Reads (Unit {0})
resync net zero head rest = unfinished
resync net (suc fuel) head rest =
    let again = λ (i : ℕ) (one : Bytes). resync net fuel (drop (i + 1) head ++ one) in
    elim (mismatch frame_flag head) [
      | none ↦ read tt rest
      | some i ↦ (read_some net (i + 1) >>= again i) rest
    ]

-- What follows the flag.
unfoldable pub read_body : Reads Bytes
read_body = do bdl ← read_full 2; read_full (of_le bdl)

-- Each round takes a byte off the connection, so there are at most as many as bytes, and one.
unfoldable pub read_frame : Net → Reads Bytes
unfolding resync read_body
read_frame net rest = (do head ← read_full 8; _ ← resync net (length rest + 1) head; read_body) rest
