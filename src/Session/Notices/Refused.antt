-- ===== src/Session/Notices/Refused.antt =====
-- What becomes of the notices of `PushDevOnlineMsgToUsers` of srv/rds.go after the first.
use erina.Words.{IsByte, Bytes, IsBytes, fit, to_le}
use erina.Base.{
  All-append, sym, subst, ℕ, ◌^◌, ◌<◌, ◌≡◌, ◌≢◌, refl, ap, ◌∙◌, arith, List, [], ◌∷◌, ◌++◌, map,
  none, some, All, length,
}
use erina.Words.Laws.{to_le-IsBytes, fit-IsBytes}
use erina.Crc.Detection.{crc_fold}
use erina.Outcome.{ok, ◌>>=◌, body_check}
use erina.Aes.{Cipher}
use erina.Msg.Types.{Msg, failed}
use erina.Msg.Decode.{binary2msg}
use erina.Msg.RoundTrip.Front.{Encodable, received}
use erina.Msg.RoundTrip.Stale.{sid_of}
use erina.Session.Types.{DevSession}
use erina.Session.Forward.{left_by}
use erina.Session.Notices.{Notices, send_each, notice_msg, notice_text, push_online}
use erina.Msg.RoundTrip.Stale

-- A message that can be used again for a user and a text.
abbrev Reusable : Msg → Type 0
Reusable m =
    Encodable (record m { fh_dst_id = 0; text = []; dh_session_id = some (sid_of m) })
    × (m.dh_key_level ≡ 0)

abbrev addressed : Msg → ℕ → Bytes → Msg
addressed m user text = record m { fh_dst_id = user; text = text }

Encodable-addressed :
    (m : Msg) (user : ℕ) (text : Bytes)
    → Reusable m
    → user < 2 ^ 64
    → IsBytes text
    → Encodable (record (addressed m user text) { dh_session_id = some (sid_of m) })
Encodable-addressed m user text (e, level) fits bytes = ground arith

-- A user and a text that fit into a frame.
abbrev Sendable : ℕ × Bytes → Type 0
Sendable (user, text) = (user < 2 ^ 64) × IsBytes text × (length text < 65536)

module _ (c : Cipher) (now : ℕ) where
  abbrev sent_msg : (m : Msg) (n : ℕ × Bytes) → Reusable m → Sendable n → Msg
  sent_msg m (user, text) r (fits, bytes, short) =
      Stale.out c now (addressed m user text) none (Encodable-addressed m user text r fits bytes)
        r.1 short

  Reusable-sent_msg :
      (m : Msg) (n : ℕ × Bytes) (r : Reusable m) (s : Sendable n) → Reusable (sent_msg m n r s)
  Reusable-sent_msg m (user, text) (e, level) (fits, bytes, short) = (ground arith, level)

  -- One frame before the others.
  sent_then :
      (m : Msg) (user : ℕ) (text : Bytes) (ns : List (ℕ × Bytes)) (fs : Notices) (r : Reusable m)
      (n : Sendable (user, text))
      → send_each c now (sent_msg m (user, text) r n) ns ≡ ok fs
      → send_each c now m ((user, text) ∷ ns)
        ≡ ok ((user, (sent_msg m (user, text) r n).final) ∷ fs)
  unfolding send_each
  sent_then m user text ns fs r (fits, bytes, short) later =
      ap (λ e. left_by e >>= λ m'. send_each c now m' ns >>= λ rest. ok ((user, m'.final) ∷ rest))
        (Stale.sends c now (addressed m user text) none
          (Encodable-addressed m user text r fits bytes) r.1 short)
      ∙ ap
          (λ x. x >>= λ rest.
            ok ((user, (sent_msg m (user, text) r (fits, bytes, short)).final) ∷ rest))
          later

  -- All frames are encoded.
  send_each-ok :
      (m : Msg) (ns : List (ℕ × Bytes))
      → Reusable m
      → All Sendable ns
      → (fs : Notices) × (send_each c now m ns ≡ ok fs)
  unfolding send_each
  send_each-ok m [] r s = ([], refl)
  send_each-ok m ((user, text) ∷ ns) r (n, s) =
      let (fs, later) =
        send_each-ok (sent_msg m (user, text) r n) ns (Reusable-sent_msg m (user, text) r n) s in
      ((user, (sent_msg m (user, text) r n).final) ∷ fs, sent_then m user text ns fs r n later)

  -- Two notices with the same text, and more behind them.
  second_refused :
      (m : Msg) (user other : ℕ) (text : Bytes) (ns : List (ℕ × Bytes))
      → Reusable m
      → m.datacrc ≡ []
      → Sendable (user, text)
      → Sendable (other, text)
      → All Sendable ns
      → crc_fold 0 (sid_of m ++ text) ≢ 0
      → (first : Bytes) × (second : Bytes) × (fs : Notices) × (n : Msg) × (send_each c now m
            ((user, text) ∷ ((other, text) ∷ ns))
          ≡ ok ((user, first) ∷ ((other, second) ∷ fs)))
        × (binary2msg c (received none second) ≡ failed body_check n)
  second_refused m user other text ns r fresh s t more sum =
      let m1 : Msg = sent_msg m (user, text) r s in
      let r1 = Reusable-sent_msg m (user, text) r s in
      let m2 : Msg = sent_msg m1 (other, text) r1 t in
      let (fs, later) = send_each-ok m2 ns (Reusable-sent_msg m1 (other, text) r1 t) more in
      let left : m1.datacrc ≡ sid_of m ++ text = ap (λ old. old ++ (sid_of m ++ text)) fresh in
      let (n, refuses) =
        Stale.refused c now (addressed m1 other text) none
          (Encodable-addressed m1 other text r1 t.0 t.1) r1.1 t.2
          (subst IsBytes (sym left) (All-append IsByte (sid_of m) text r.0.session_bytes s.1))
          (λ e. sum (ap (crc_fold 0) (sym left) ∙ e)) in
      (
        m1.final,
        m2.final,
        fs,
        n,
        sent_then m user text ((other, text) ∷ ns) ((other, m2.final) ∷ fs) r s
            (sent_then m1 other text ns fs r1 t later),
        refuses,
      )

-- The eight bytes of the session id that is nil, and the text: what the first notice is checked by.
abbrev pub first_checked : DevSession → ℕ → Bytes
first_checked s srv_type = fit 8 [] ++ notice_text 9 s.dev_id srv_type

notice_msg-Reusable : (time : ℕ) → 0 < time → time < 2 ^ 32 → Reusable (notice_msg time)
notice_msg-Reusable time set fits = (
  record {
    opcode_known = refl;
    ver_fits = omega arith;
    sequence_fits = omega arith;
    time_fits = fits;
    time_set = set;
    dst_fits = omega arith;
    src_fits = omega arith;
    format_fits = omega arith;
    encrypt_fits = omega arith;
    msg_id_fits = omega arith;
    session_len = refl;
    session_bytes = fit-IsBytes 8 [] tt;
    text_bytes = _;
  },
  refl,
)

All-Sendable :
    (text : Bytes) (users : List ℕ)
    → IsBytes text
    → All (λ id. id < 2 ^ 64) users
    → length text < 65536
    → All Sendable (map (λ id. (id, text)) users)
All-Sendable text [] bytes fits short = _
All-Sendable text (id ∷ users) bytes (here, fits) short =
    ((here, bytes, short), All-Sendable text users bytes fits short)

-- For a session with at least two users, with ids of 64 bits, at a time that is set: if the checksum
-- of eight zeros and the notice is not zero, `PushDevOnlineMsgToUsers` does not panic, and
-- `Binary2Msg` refuses the second user's frame for its body's checksum.
pub push_online-refused :
    (c : Cipher) (now time srv_type : ℕ) (s : DevSession) (user other : ℕ) (users : List ℕ)
    → s.users ≡ user ∷ (other ∷ users)
    → All (λ id. id < 2 ^ 64) (user ∷ (other ∷ users))
    → s.dev_id < 2 ^ 64
    → srv_type < 256
    → 0 < time
    → time < 2 ^ 32
    → crc_fold 0 (first_checked s srv_type) ≢ 0
    → (first : Bytes) × (second : Bytes) × (fs : Notices) × (n : Msg) × (push_online c now time
          srv_type s
        ≡ ok ((user, first) ∷ ((other, second) ∷ fs)))
      × (binary2msg c (received none second) ≡ failed body_check n)
unfolding push_online
push_online-refused c now time srv_type s user other users listed (u, (o, more)) dev kind set fits
      sum =
    let text : Bytes = notice_text 9 s.dev_id srv_type in
    let bytes : IsBytes text = (
      omega arith,
      All-append IsByte (to_le 8 s.dev_id) (1 ∷ (srv_type ∷ [])) (to_le-IsBytes 8 s.dev_id)
          (omega arith, (kind, _)),
    ) in
    let (first, second, fs, n, sends, refuses) =
      second_refused c now (notice_msg time) user other text (map (λ id. (id, text)) users)
        (notice_msg-Reusable time set fits) refl (u, bytes, omega arith) (o, bytes, omega arith)
        (All-Sendable text users bytes more (omega arith)) sum in
    (
      first,
      second,
      fs,
      n,
      ap (λ l. send_each c now (notice_msg time) (map (λ id. (id, text)) l)) listed ∙ sends,
      refuses,
    )
