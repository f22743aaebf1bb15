-- ===== src/Users/Gateway/Bounded.antt =====
-- Where the requests of an application go.
use erina.Users.Gateway.{
  k_dst_id_end, received, unsealed, killing, on_request, on_short, kill_reply, on_frame, on_sealed,
  quiet, of_le, on_command, slice, Msg, ok, Around, Turn, passed_to, pass_on,
}
use erina.Base.{
  ◌++◌, if◌then◌else◌, length, ltb, text_same, false, Bool, sym, ap, subst, ℕ, ◌==◌, ◌≡◌, ◌⊎◌, inl,
  inr, refl, arith, Bool-cases, true, List, [], ◌∷◌, Option, none, some, All, ==_iff,
}
use erina.Outcome.{Outcome, ok, checked, ◌>>=◌}
use erina.Words.{Bytes, slice, of_le}
use erina.Outcome.Laws.{bind_ok, checked-some, ok_injective}
use erina.Users.Types.{UsrSession}
use erina.Users.Pool.{is_bound, usr_dest_ids, ask_devs}

-- The ids are devices of the session.
abbrev pub Bound : UsrSession → List ℕ → Type 0
Bound s = All (λ id. is_bound s.devs id ≡ true)

is_bound-there :
    (v id : ℕ) (devs : List ℕ) → is_bound devs id ≡ true → is_bound (v ∷ devs) id ≡ true
is_bound-there v id devs h = ground arith

Bound-there :
    (v : ℕ) (devs ids : List ℕ)
    → All (λ id. is_bound devs id ≡ true) ids
    → All (λ id. is_bound (v ∷ devs) id ≡ true) ids
Bound-there v devs [] h = _
Bound-there v devs (id ∷ ids) (here, h) = (is_bound-there v id devs here, Bound-there v devs ids h)

own_devs-Bound : (devs : List ℕ) → All (λ id. is_bound devs id ≡ true) devs
own_devs-Bound [] = _
own_devs-Bound (v ∷ devs) =
    (rw ((==_iff v v).1 refl) refl, Bound-there v devs devs (own_devs-Bound devs))

ask_devs-Bound :
    (found : Option (List ℕ)) (s : UsrSession) (to : ℕ)
    → Bound (ask_devs found s to).0 (ask_devs found s to).1
      × All (λ id. id ≡ to) (ask_devs found s to).1
ask_devs-Bound none s to = (_, _)
ask_devs-Bound (some devs) s to = elim (Bool-cases (is_bound devs to)) [
  | inl e ↦ rw e ((e, _), (refl, _))
  | inr e ↦ rw e (_, _)
]

usr_dest_ids-Bound :
    (found : Option (List ℕ)) (s : UsrSession) (to : ℕ)
    → Bound (usr_dest_ids found s to).0 (usr_dest_ids found s to).1
      × ((to ≡ 0) ⊎ All (λ id. id ≡ to) (usr_dest_ids found s to).1)
unfolding usr_dest_ids
usr_dest_ids-Bound found s to = elim (Bool-cases (to == 0)) [
  | inl e ↦ rw e (own_devs-Bound s.devs, inl ((==_iff to 0).0 e))
  | inr e ↦ elim (Bool-cases (is_bound s.devs to)) [
    | inl b ↦ rw (e, b) ((b, _), inr (refl, _))
    | inr b ↦ rw (e, b) (let (h, k) = ask_devs-Bound found s to in (h, inr k))
  ]
]

-- What is forwarded goes to devices of the session, as the call leaves it.
abbrev pub ToDevices : Turn → Type 0
ToDevices t = All (λ f. Bound t.session f.0) t.forwards

passed_to-Bound :
    (s : UsrSession) (ids : List ℕ) (bytes : Bytes)
    → Bound s ids
    → All (λ f. Bound s f.0) (passed_to ids bytes)
passed_to-Bound s [] bytes h = _
passed_to-Bound s (id ∷ ids) bytes h = (h, _)

pass_on-ToDevices :
    (w : Around) (s : UsrSession) (to : ℕ) (bytes : Bytes) → ToDevices (pass_on w s to bytes)
unfolding pass_on
pass_on-ToDevices w s to bytes =
    passed_to-Bound (usr_dest_ids (some (w.devs_of s.uid)) s to).0
      (usr_dest_ids (some (w.devs_of s.uid)) s to).1 bytes
      (usr_dest_ids-Bound (some (w.devs_of s.uid)) s to).0

-- The command to drop a device, which goes to whatever id its text and the bytes behind it begin with.
pub record Kills (w : Around) (m : Msg) (t : Turn) : Type 0 where
  pub dst : Bytes
  pub is_command : m.fh_opcode ≡ 2
  pub is_kill : m.dh_msg_id ≡ 0xc7
  pub names : slice (m.text ++ w.spare m) 0 8 ≡ some dst
  pub sent : t.forwards ≡ (of_le dst ∷ [], m.final) ∷ []

moved : (t u : Turn) → ok t ≡ ok u → ToDevices t → ToDevices u
moved t u e h = subst ToDevices (ok_injective t u e) h

on_short-ToDevices : (s : UsrSession) (reply : Bytes) → ToDevices (on_short s reply)
on_short-ToDevices s reply = elim (Bool-cases (text_same reply (112 ∷ []))) [
  | inl e ↦ rw e _
  | inr e ↦ rw e _
]

module _ (w : Around) (s : UsrSession) (m : Msg) where
  on_command-cases :
      (t : Turn) → m.fh_opcode ≡ 2 → on_command w s m ≡ ok t → ToDevices t ⊎ Kills w m t
  unfolding on_command
  on_command-cases t two e = elim (Bool-cases (m.dh_msg_id == 0xc7)) [
    | inl kill ↦
        let (dst, names, e1) =
          bind_ok (checked (slice (m.text ++ w.spare m) 0 8))
            (λ dst. kill_reply w m >>= λ r. ok (killing s dst m r)) t (rw kill at e) in
        let (r, _, e2) = bind_ok (kill_reply w m) (λ r. ok (killing s dst m r)) t e1 in
        inr (record {
          dst = dst;
          is_command = two;
          is_kill = (==_iff m.dh_msg_id 0xc7).0 kill;
          names = checked-some (slice (m.text ++ w.spare m) 0 8) dst names;
          sent = ap (λ x. x.forwards) (sym (ok_injective (killing s dst m r) t e2));
        })
    | inr other ↦ inl (moved (quiet s true) t (rw other at e) _)
  ]

  sealed_at : Bool → Option Bytes → Outcome Turn
  sealed_at bad mz = elim mz [
    | none ↦ ok (quiet s false)
    | some z ↦
        if bad
        then ok (quiet s false)
        else (unsealed w m >>= λ out. ok (pass_on w s out.fh_dst_id out.final))
  ]

  sealed_at-ToDevices :
      (bad : Bool) (t : Turn) (mz : Option Bytes) → sealed_at bad mz ≡ ok t → ToDevices t
  unfolding sealed_at
  sealed_at-ToDevices bad t none e = moved (quiet s false) t e _
  sealed_at-ToDevices true t (some z) e = moved (quiet s false) t e _
  sealed_at-ToDevices false t (some z) e =
      let (out, _, e1) =
        bind_ok (unsealed w m) (λ out. ok (pass_on w s out.fh_dst_id out.final)) t e in
      moved (pass_on w s out.fh_dst_id out.final) t e1
        (pass_on-ToDevices w s out.fh_dst_id out.final)

  on_sealed-ToDevices : (bad : Bool) (t : Turn) → on_sealed w s m bad ≡ ok t → ToDevices t
  unfolding on_sealed sealed_at
  on_sealed-ToDevices bad t e = sealed_at-ToDevices bad t m.mz e

  on_frame-cases : (bad : Bool) (t : Turn) → on_frame w s m bad ≡ ok t → ToDevices t ⊎ Kills w m t
  unfolding on_frame
  on_frame-cases bad t e = elim (Bool-cases (m.fh_opcode == 2)) [
    | inl command ↦ on_command-cases t ((==_iff m.fh_opcode 2).0 command) (rw command at e)
    | inr a ↦ inl (elim (Bool-cases (m.fh_opcode == 5)) [
      | inl b ↦ on_sealed-ToDevices bad t (rw (a, b) at e)
      | inr b ↦ elim (Bool-cases (m.fh_opcode == 3)) [
        | inl c ↦
            moved (pass_on w s m.fh_dst_id m.final) t (rw (a, b, c) at e)
              (pass_on-ToDevices w s m.fh_dst_id m.final)
        | inr c ↦ moved (quiet s true) t (rw (a, b, c) at e) _
      ]
    ])
  ]

-- When a request is handled without a panic, everything it makes the gateway forward goes to
-- devices that are bound to the session as the request leaves it; or else the request decodes to a
-- command with the message id 0xc7, which goes as it is, alone, to the id in the first eight bytes
-- of its text and, when the text is shorter, of whatever stands behind it in memory.
pub on_request-ToDevices :
    (w : Around) (s : UsrSession) (reply : Bytes) (t : Turn)
    → on_request w s reply ≡ ok t
    → ToDevices t ⊎ (d : Msg × Bool) × (received w s reply ≡ ok d) × Kills w d.0 t
unfolding on_request
on_request-ToDevices w s reply t e = elim (Bool-cases (ltb 1024 (length reply))) [
  | inl long ↦ inl (moved (quiet s true) t (rw long at e) _)
  | inr a ↦ elim (Bool-cases (ltb (length reply) k_dst_id_end)) [
    | inl short ↦ inl (moved (on_short s reply) t (rw (a, short) at e) (on_short-ToDevices s reply))
    | inr b ↦
        let (d, e1, e2) =
          bind_ok (received w s reply) (λ d. on_frame w s d.0 d.1) t (rw (a, b) at e) in
        elim (on_frame-cases w s d.0 d.1 t e2) [ inl to ↦ inl to | inr kill ↦ inr (d, e1, kill) ]
  ]
]
