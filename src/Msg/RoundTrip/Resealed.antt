-- ===== src/Msg/RoundTrip/Resealed.antt =====
-- A plain frame that is read, encrypted for another receiver, and read again.
use erina.Base.{
  ℕ, ◌^◌, ◌≤◌, ◌<◌, ◌≡◌, refl, ap, sym, ◌∙◌, subst, arith, List, [], length, some, none, true,
}
use erina.Words.{Bytes, IsBytes}
use erina.Aes.{Cipher, IsCipher}
use erina.Msg.Types.{Msg, done, known_opcode}
use erina.Msg.Encode.{bytes_of, msg2binary}
use erina.Msg.Decode.{binary2msg}
use erina.Msg.RoundTrip.Front.{Encodable, received}
use erina.Msg.RoundTrip.Levels.{Same}
use erina.Msg.RoundTrip.Plain.{plain_read}
use erina.Msg.RoundTrip.Secret.{secret_RoundTrips}

-- What the pushes to users and devices change before they encode: the receiver, its secret, the mask
-- and the key level.
abbrev pub resealed : Msg → Bytes → ℕ → List ℕ → Msg
resealed n z dst dst_mac = record n {
  mz = some z;
  fh_mask = true;
  dh_key_level = 3;
  fh_dst_id = dst;
  fh_dst_mac = dst_mac;
}

-- What the receiver is to read.
abbrev pub readdressed : Msg → ℕ → Msg
readdressed m dst = record m { fh_mask = true; dh_key_level = 3; fh_dst_id = dst }

Encodable-resealed :
    (m n : Msg) (z : Bytes) (dst : ℕ) (dst_mac : List ℕ)
    → Encodable m
    → Same m n
    → dst < 2 ^ 64
    → Encodable (resealed n z dst dst_mac)
Encodable-resealed m n z dst dst_mac e s fits = record {
  opcode_known = ap known_opcode s.same_opcode ∙ e.opcode_known;
  ver_fits = omega (arith, s.same_ver, e.ver_fits);
  sequence_fits = omega (arith, s.same_sequence, e.sequence_fits);
  time_fits = omega (arith, s.same_time, e.time_fits);
  time_set = omega (arith, s.same_time, e.time_set);
  dst_fits = fits;
  src_fits = omega (arith, s.same_src, e.src_fits);
  format_fits = omega (arith, s.same_format, e.format_fits);
  encrypt_fits = omega (arith, s.same_encrypt, e.encrypt_fits);
  msg_id_fits = omega (arith, s.same_msg_id, e.msg_id_fits);
  session_len = ap (λ o. length (bytes_of o)) s.same_session ∙ e.session_len;
  session_bytes = subst (λ o. IsBytes (bytes_of o)) (sym s.same_session) e.session_bytes;
  text_bytes = subst IsBytes (sym s.same_text) e.text_bytes;
}

Same-resealed :
    (m n n' : Msg) (z : Bytes) (dst : ℕ) (dst_mac : List ℕ)
    → Same m n
    → Same (resealed n z dst dst_mac) n'
    → Same (readdressed m dst) n'
Same-resealed m n n' z dst dst_mac s t = record {
  same_fin = t.same_fin ∙ s.same_fin;
  same_mask = t.same_mask;
  same_ver = t.same_ver ∙ s.same_ver;
  same_short = t.same_short ∙ s.same_short;
  same_opcode = t.same_opcode ∙ s.same_opcode;
  same_reserve = t.same_reserve ∙ s.same_reserve;
  same_sequence = t.same_sequence ∙ s.same_sequence;
  same_time = t.same_time ∙ s.same_time;
  same_dst = t.same_dst;
  same_src = t.same_src ∙ s.same_src;
  same_read = t.same_read ∙ s.same_read;
  same_ack = t.same_ack ∙ s.same_ack;
  same_format = t.same_format ∙ s.same_format;
  same_level = t.same_level;
  same_encrypt = t.same_encrypt ∙ s.same_encrypt;
  same_seq = t.same_seq ∙ s.same_seq;
  same_msg_id = t.same_msg_id ∙ s.same_msg_id;
  same_session = t.same_session ∙ ap (λ o. some (bytes_of o)) s.same_session;
  same_text = t.same_text ∙ s.same_text;
}

-- The two frames and the two readings, for the receiver that the first reading names.
pub record Resealing (c : Cipher) (now later : ℕ) (m : Msg) (z : Bytes) (dst : Msg → ℕ)
    (mac : Msg → List ℕ) : Type 0 where
  pub plain : Msg
  pub between : Msg
  pub secret : Msg
  pub last : Msg
  pub sends : msg2binary c now m ≡ done plain
  pub reads : binary2msg c (received none plain.final) ≡ done between
  pub same : Same m between
  pub seals : msg2binary c later (resealed between z (dst between) (mac between)) ≡ done secret
  pub opens : binary2msg c (received (some z) secret.final) ≡ done last
  pub same_last : Same (readdressed m (dst between)) last

pub resealing :
    (c : Cipher) (now later : ℕ) (m : Msg) (z : Bytes) (dst : Msg → ℕ) (mac : Msg → List ℕ)
    → IsCipher c
    → Encodable m
    → m.datacrc ≡ []
    → m.dh_key_level ≡ 0
    → length m.text < 65520
    → 16 ≤ length z
    → ((n : Msg) → Same m n → dst n < 2 ^ 64)
    → Resealing c now later m z dst mac
resealing c now later m z dst mac law e fresh level short long fits =
    let (plain, n, sends, reads, same, _, kept, none_left) =
      plain_read c now m none e fresh level (omega arith) in
    let (secret, last, seals, opens, same2, _, kept2) =
      secret_RoundTrips c later (resealed n z (dst n) (mac n)) z
        (Encodable-resealed m n z (dst n) (mac n) e same (fits n same)) none_left refl refl law long
        (omega (arith, ap length same.same_text)) in
    record {
      plain = plain;
      between = n;
      secret = secret;
      last = last;
      sends = sends;
      reads = reads;
      same = same;
      seals = seals;
      opens = opens;
      same_last = Same-resealed m n last z (dst n) (mac n) same same2;
    }
