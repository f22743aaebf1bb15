-- ===== src/Session/Forward.antt =====
-- `opcode03` and `opcode05` of srv/devop.go: a message that goes on to users.
use erina.Base.{
  ℕ, ◌≡◌, ◌⊎◌, refl, Option, none, some, List, lookup, length, if◌then◌else◌, All, nat_key,
}
use erina.Words.{Bytes, slice}
use erina.Outcome.{Outcome, ok, err, panic, ◌>>=◌, checked, no_mz, no_session_key}
use erina.Msg.Types.{Msg, Exit, done, failed, new_msg}
use erina.Msg.Decode.{header, frame_header, binary2msg}
use erina.Msg.Encode.{msg2binary}
use erina.Session.Types.{DevSession, Pool}
use erina.Session.Replay.{verify_pack}
use erina.Session.Pool.{byte2sess}
use erina.Session.Users.{calc_dest_ids, Allowed, calc_dest_ids-Allowed}
use erina.Session.Dispatch.{World}

-- Whom a message goes to, its bytes, and the session that the call leaves.
pub record Forwarded : Type 0 where
  pub session : DevSession
  pub dest_ids : List ℕ
  pub final : Bytes

-- The message that a method leaves; its error is not looked at.
abbrev pub left_by : Exit → Outcome Msg
left_by (done m) = ok m
left_by (failed e m) = ok m
left_by Exit.panic = panic

-- `mz` as redis answers; nil is refused.
unfoldable pub need_mz : Outcome (Option Bytes) → Msg → Outcome Msg
need_mz found m =
    found >>= λ mz. elim mz [ none ↦ err no_mz | some z ↦ ok (record m { mz = some z }) ]

unfoldable pub session_at : Pool → ℕ → Msg → Outcome DevSession
session_at p h m = do
  s ← checked (lookup p.heap h)
  ridx ← verify_pack s.ridx m.fh_sequence
  ok (record s { ridx = ridx })

unfoldable pub forward : (ℕ → Option (List ℕ × ℕ)) → DevSession → ℕ → Bytes → Forwarded
forward users s to final =
    let r = calc_dest_ids (users s.dev_id) s to in
    record { session = r.0; dest_ids = r.1; final = final }

-- Over UDP the session is the one that the decrypted guid names; otherwise that of the connection.
unfoldable pub opcode03 :
    World
    → Outcome (Option Bytes)
    → (ℕ → Option (List ℕ × ℕ))
    → Pool
    → Option ℕ
    → Msg
    → Outcome Forwarded
opcode03 w mz users p sess m = do
  found ← mz
  m ← left_by (header w.cipher (record m { mz = found }))
  have ← need_mz (ok m.mz) m
  h ←
      (if w.udp
        then (elim m.fh_guid [ none ↦ err no_session_key | some g ↦ byte2sess p (some g) ])
        else checked sess)
  s ← session_at p h m
  inner ← checked (slice m.final 40 (length m.final))
  sub ← left_by (frame_header (record new_msg { final = inner }))
  ok (forward users s sub.fh_dst_id m.final)

-- The message goes on decrypted, under key level 0.
unfoldable pub opcode05 :
    World
    → Outcome (Option Bytes)
    → (ℕ → Option (List ℕ × ℕ))
    → Pool
    → Option ℕ
    → Msg
    → Outcome Forwarded
opcode05 w mz users p sess m = do
  m ← need_mz mz m
  m ← left_by (binary2msg w.cipher m)
  s ←
      (if w.udp
        then (byte2sess p m.dh_session_id >>= λ h. session_at p h m)
        else (checked sess >>= λ h. checked (lookup p.heap h)))
  out ← left_by (msg2binary w.cipher w.nanos (record m { dh_key_level = 0 }))
  ok (forward users s m.fh_dst_id out.final)

-- Whoever a forwarded message goes to is a user of the sending device or its owner, as the session
-- left by the call records them, and a message to one user goes to nobody else.
pub forward-Allowed :
    (users : ℕ → Option (List ℕ × ℕ)) (s : DevSession) (to : ℕ) (final : Bytes)
    → All (Allowed (forward users s to final).session) (forward users s to final).dest_ids
      × ((to ≡ 0) ⊎ All (λ id. id ≡ to) (forward users s to final).dest_ids)
      × ((forward users s to final).final ≡ final)
unfolding forward
forward-Allowed users s to final =
    let (allowed, only) = calc_dest_ids-Allowed (users s.dev_id) s to in (allowed, only, refl)
