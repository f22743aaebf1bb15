-- ===== src/Session/Loop/Accepted.antt =====
-- What `handle` of srv/devudp.go passes on to users.
use erina.Base.{
  Bool, ℕ, ◌≡◌, refl, ◌∙◌, sym, Option, none, some, List, lookup, nat_key, true, if◌then◌else◌,
  arith,
}
use erina.Words.{Bytes}
use erina.Outcome.{Outcome, ok, err, ◌>>=◌, checked, no_session_key}
use erina.Msg.Types.{Msg}
use erina.Msg.Decode.{header, binary2msg}
use erina.Session.Types.{DevSession, Pool}
use erina.Session.Replay.{verify_pack}
use erina.Session.Pool.{byte2sess}
use erina.Session.Dispatch.{World}
use erina.Outcome.Laws.{bind_ok, checked-some}
use erina.Session.Forward.{Forwarded, left_by, need_mz, session_at, opcode03, opcode05}

-- A session of the table that a key names, with a packet number that it accepts.
pub record Accepted (p : Pool) (key : Option Bytes) (seq : ℕ) : Type 0 where
  pub pointer : ℕ
  pub session : DevSession
  pub number : ℕ
  pub named : byte2sess p key ≡ ok pointer
  pub stands : lookup p.heap pointer ≡ some session
  pub counted : verify_pack session.ridx seq ≡ ok number

session_at-Accepted :
    (p : Pool) (key : Option Bytes) (h : ℕ) (m : Msg) (s : DevSession)
    → byte2sess p key ≡ ok h
    → session_at p h m ≡ ok s
    → Accepted p key m.fh_sequence
unfolding session_at
session_at-Accepted p key h m s named e =
    let (t, at, e1) =
      bind_ok (checked (lookup p.heap h))
        (λ t. verify_pack t.ridx m.fh_sequence >>= λ ridx. ok (record t { ridx = ridx })) s e in
    let (r, counted, e2) =
      bind_ok (verify_pack t.ridx m.fh_sequence) (λ ridx. ok (record t { ridx = ridx })) s e1 in
    record {
      pointer = h;
      session = t;
      number = r;
      named = named;
      stands = checked-some (lookup p.heap h) t at;
      counted = counted;
    }

if_true : {A : Type 0} (b : Bool) (x y : A) → b ≡ true → (if b then x else y) ≡ x
if_true b x y on = rw on refl

-- A guid that is nil names no session.
guid_named :
    (p : Pool) (guid : Option Bytes) (h : ℕ)
    → (elim guid [ none ↦ err no_session_key | some g ↦ byte2sess p (some g) ]) ≡ ok h
    → byte2sess p guid ≡ ok h
guid_named p none h e = absurd (ground arith)
guid_named p (some g) h e = e

module _ (w : World) (found : Outcome (Option Bytes)) (users : ℕ → Option (List ℕ × ℕ)) (p : Pool)
    (m : Msg) (f : Forwarded) (udp : w.udp ≡ true) where
  -- Over UDP, `opcode05` passes on only what names a session, with a number that it accepts.
  pub opcode05-Accepted :
      opcode05 w found users p none m ≡ ok f
      → (secret : Msg) × (n : Msg) × (need_mz found m ≡ ok secret)
        × (left_by (binary2msg w.cipher secret) ≡ ok n)
        × Accepted p n.dh_session_id n.fh_sequence
  unfolding opcode05
  opcode05-Accepted e =
      let (secret, has, e1) = bind_ok (need_mz found m) _ f e in
      let (n, decoded, e2) = bind_ok (left_by (binary2msg w.cipher secret)) _ f e1 in
      let by_id = byte2sess p n.dh_session_id >>= λ h. session_at p h n in
      let other = checked none >>= λ h. checked (lookup p.heap h) in
      let (s, chosen, _) = bind_ok (if w.udp then by_id else other) _ f e2 in
      let (h, named, e3) =
        bind_ok (byte2sess p n.dh_session_id) (λ h. session_at p h n) s
          (sym (if_true w.udp by_id other udp) ∙ chosen) in
      (secret, n, has, decoded, session_at-Accepted p n.dh_session_id h n s named e3)

  -- The same of `opcode03`, where the decrypted guid names the session.
  pub opcode03-Accepted :
      opcode03 w found users p none m ≡ ok f
      → (mz : Option Bytes) × (n : Msg) × (found ≡ ok mz)
        × (left_by (header w.cipher (record m { mz = mz })) ≡ ok n)
        × Accepted p n.fh_guid n.fh_sequence
  unfolding opcode03
  opcode03-Accepted e =
      let (mz, has, e1) = bind_ok found _ f e in
      let (n, decoded, e2) = bind_ok (left_by (header w.cipher (record m { mz = mz }))) _ f e1 in
      let (secret, _, e3) = bind_ok (need_mz (ok n.mz) n) _ f e2 in
      let by_guid : Outcome ℕ = elim n.fh_guid [
        | none ↦ err no_session_key
        | some g ↦ byte2sess p (some g)
      ] in
      let (h, chosen, e4) = bind_ok (if w.udp then by_guid else checked none) _ f e3 in
      let named =
        guid_named p n.fh_guid h (sym (if_true w.udp by_guid (checked none) udp) ∙ chosen) in
      let (s, at, _) = bind_ok (session_at p h n) _ f e4 in
      (mz, n, has, decoded, session_at-Accepted p n.fh_guid h n s named at)
