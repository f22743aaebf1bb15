-- ===== src/Session/Loop/Guarded.antt =====
-- Whatever `handle` of srv/devudp.go does for a datagram, its checks came first.
use erina.Base.{
  ℕ, ◌≡◌, ◌≢◌, Option, none, List, true, ◌==◌, Bool-cases, inl, inr, ◌⊎◌, ==_iff, arith, subst,
}
use erina.Words.{Bytes}
use erina.Outcome.{Outcome, ok, ◌>>=◌}
use erina.Outcome.Laws.{bind_ok, ok_injective}
use erina.Msg.Types.{Msg}
use erina.Msg.Decode.{header, binary2msg}
use erina.Session.Types.{Pool}
use erina.Session.Dispatch.{World, take_mz, exit_outcome, opcode02}
use erina.Session.Dispatch.Checked.{Verified, opcode02-Verified}
use erina.Session.Forward.{left_by, need_mz, opcode03, opcode05}
use erina.Session.Loop.{Handled, replied, passed_on, handle}
use erina.Session.Loop.Accepted.{Accepted, opcode03-Accepted, opcode05-Accepted}

-- A command that was decoded and is CmdSess, or names a session that has logged in if it must.
abbrev pub Answerable : World → Pool → Msg → Type 0
Answerable w p m =
    (secret : Msg) × (n : Msg) × (take_mz w m ≡ ok secret)
    × (exit_outcome (binary2msg w.cipher secret) ≡ ok n)
    × ((n.dh_msg_id ≡ 0xc1)
        ⊎ ((h : ℕ) × (x : Verified p n h) × ((n.dh_msg_id ≡ 0xc2)
              ⊎ (n.dh_msg_id ≡ 0xc3)
              ⊎ ((x.session).dev_id ≢ 0))))

-- A message whose decrypted guid, or whose session id, names a session that accepts its number.
abbrev pub ByGuid : World → (ℕ → Outcome (Option Bytes)) → Pool → Msg → Type 0
ByGuid w mz p m =
    (z : Option Bytes) × (n : Msg) × (mz m.fh_src_id ≡ ok z)
    × (left_by (header w.cipher (record m { mz = z })) ≡ ok n)
    × Accepted p n.fh_guid n.fh_sequence

abbrev pub ById : World → (ℕ → Outcome (Option Bytes)) → Pool → Msg → Type 0
ById w mz p m =
    (secret : Msg) × (n : Msg) × (need_mz (mz m.fh_src_id) m ≡ ok secret)
    × (left_by (binary2msg w.cipher secret) ≡ ok n)
    × Accepted p n.dh_session_id n.fh_sequence

abbrev pub Guarded : World → (ℕ → Outcome (Option Bytes)) → Pool → Msg → Handled → Type 0
Guarded w mz p m (replied ret h left) = (m.fh_opcode ≡ 2) × Answerable w p m
Guarded w mz p m (passed_on f) =
    ((m.fh_opcode ≡ 3) × ByGuid w mz p m) ⊎ ((m.fh_opcode ≡ 5) × ById w mz p m)

module _ (w : World) (mz : ℕ → Outcome (Option Bytes)) (users : ℕ → Option (List ℕ × ℕ)) (p : Pool)
    (udp : w.udp ≡ true) where
  command-Guarded :
      (m : Msg) (out : Handled)
      → m.fh_opcode ≡ 2
      → (opcode02 w p m >>= λ r. ok (replied r.0 r.1 r.2)) ≡ ok out
      → Guarded w mz p m out
  command-Guarded m out two e =
      let (r, served, e1) = bind_ok (opcode02 w p m) (λ r. ok (replied r.0 r.1 r.2)) out e in
      subst (Guarded w mz p m) (ok_injective (replied r.0 r.1 r.2) out e1)
        (two, opcode02-Verified w p m r udp served)

  guid-Guarded :
      (m : Msg) (out : Handled)
      → m.fh_opcode ≡ 3
      → (opcode03 w (mz m.fh_src_id) users p none m >>= λ f. ok (passed_on f)) ≡ ok out
      → Guarded w mz p m out
  guid-Guarded m out three e =
      let (f, passed, e1) =
        bind_ok (opcode03 w (mz m.fh_src_id) users p none m) (λ f. ok (passed_on f)) out e in
      subst (Guarded w mz p m) (ok_injective (passed_on f) out e1)
        (inl (three, opcode03-Accepted w (mz m.fh_src_id) users p m f udp passed))

  id-Guarded :
      (m : Msg) (out : Handled)
      → m.fh_opcode ≡ 5
      → (opcode05 w (mz m.fh_src_id) users p none m >>= λ f. ok (passed_on f)) ≡ ok out
      → Guarded w mz p m out
  id-Guarded m out five e =
      let (f, passed, e1) =
        bind_ok (opcode05 w (mz m.fh_src_id) users p none m) (λ f. ok (passed_on f)) out e in
      subst (Guarded w mz p m) (ok_injective (passed_on f) out e1)
        (inr (five, opcode05-Accepted w (mz m.fh_src_id) users p m f udp passed))

-- Over UDP, whatever `handle` does without an error for a datagram: a reply is given only to a
-- command of opcode 2 that was decoded and that, CmdSess apart, names a session of the table that
-- accepts its packet number and, CmdRegister and CmdLogin apart, has logged in; and a message goes on
-- to users only if it has opcode 3 and its decrypted guid names a session that accepts its packet
-- number, or opcode 5 and its session id does.
pub handle-Guarded :
    (w : World) (mz : ℕ → Outcome (Option Bytes)) (users : ℕ → Option (List ℕ × ℕ)) (p : Pool)
    (m : Msg) (out : Handled)
    → w.udp ≡ true
    → handle w mz users p m ≡ ok out
    → (n : Msg) × (left_by (header w.cipher m) ≡ ok n) × Guarded w mz p n out
unfolding handle
handle-Guarded w mz users p m out udp e =
    let (n, read, e1) = bind_ok (left_by (header w.cipher m)) _ out e in
    (
      n,
      read,
      elim (Bool-cases (n.fh_opcode == 2)) [
        | inl two ↦
            command-Guarded w mz users p udp n out ((==_iff n.fh_opcode 2).0 two) (rw two at e1)
        | inr a ↦ elim (Bool-cases (n.fh_opcode == 3)) [
          | inl three ↦
              guid-Guarded w mz users p udp n out ((==_iff n.fh_opcode 3).0 three)
                (rw (a, three) at e1)
          | inr b ↦ elim (Bool-cases (n.fh_opcode == 5)) [
            | inl five ↦
                id-Guarded w mz users p udp n out ((==_iff n.fh_opcode 5).0 five)
                  (rw (a, b, five) at e1)
            | inr c ↦ absurd (ground arith)
          ]
        ]
      ],
    )
