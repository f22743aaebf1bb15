-- ===== src/Proxy/Server/Asked.antt =====
-- Which datagrams the proxy answers, and with what.
use erina.Base.{
  true-ne-false, ◌⊎◌, sym, ◌∙◌, text_same_to, ℕ, ◌≡◌, refl, ap, arith, [], ◌∷◌, Option, none, some,
  true, Bool-cases, inl, inr, List, length, ltb, take, text_same, subst,
}
use erina.Words.{Bytes, to_le, hex_encode, index}
use erina.Outcome.{err, Outcome, ok, ◌>>=◌, checked}
use erina.Outcome.Laws.{some_injective, ok_injective, bind_ok}
use erina.Aes.{Cipher}
use erina.Msg.Types.{Msg, Exit, done, failed, panic, new_msg}
use erina.Msg.Decode.{binary2msg}
use erina.Sentinel.Types.{Text}
use erina.Queue.Types.{Queue}
use erina.Queue.Search.{next}
use erina.Proxy.Server.{
  reply_to, chosen, Draws, Choice, choose_udp_server, has_prefix, wanted, answered, Served, sent,
  dropped, choosing, on_text, on_decoded, serve,
}

abbrev is_sent : Outcome Served → Option (Option Bytes × Text)
is_sent (ok (sent q out addr)) = some (out, addr)
is_sent _ = none

-- The address is of the kind.
pub record OfKind (t : ℕ) (addr : Text) : Type 0 where
  pub prefix : Text
  pub known : wanted t ≡ some prefix
  pub begins : has_prefix addr prefix ≡ true

not_sent : (q : Queue Text) (s : Option Bytes × Text) → ¬ (is_sent (ok (dropped q)) ≡ some s)
not_sent q s e = ground arith

sent_later :
    (o : Outcome Choice) (f : Choice → Outcome Served) (s : Option Bytes × Text)
    → is_sent (o >>= f) ≡ some s
    → (r : Choice) × (o ≡ ok r) × (is_sent (f r) ≡ some s)
sent_later (ok r) f s e = (r, refl, e)
sent_later (err x) f s e = absurd (ground arith)
sent_later Outcome.panic f s e = absurd (ground arith)

sent_checked :
    (o : Option ℕ) (f : ℕ → Outcome Served) (s : Option Bytes × Text)
    → is_sent (checked o >>= f) ≡ some s
    → (t : ℕ) × (o ≡ some t) × (is_sent (f t) ≡ some s)
sent_checked none f s e = absurd (ground arith)
sent_checked (some t) f s e = (t, refl, e)

module _ (c : Cipher) (mac : Bytes) where
  -- The bytes are the reply that names the address to the device.
  pub record Names (s : Option Bytes × Text) : Type 0 where
    pub draws : Draws
    pub bytes : Bytes
    pub is_bytes : s.0 ≡ some bytes
    pub replies : reply_to c draws mac s.1 ≡ ok bytes

  -- What a choice that has an address replies.
  Replied : Choice → Type 0
  Replied r = (r.addr ≡ []) ⊎ Names (r.output, r.addr)

  chosen-Replied :
      (d : Draws) (q : Queue Text) (o : Option Text) (r : Choice)
      → chosen c d mac q o ≡ ok r
      → Replied r
  unfolding Replied
  chosen-Replied d q none r e = inl (sym (ap (λ x. x.addr) (ok_injective _ r e)))
  chosen-Replied d q (some addr) r e =
      let (bytes, replies, e1) =
        bind_ok (reply_to c d mac addr)
          (λ out. ok (record { queue = q; output = some out; addr = addr })) r e in
      let same : record { queue = q; output = some bytes; addr = addr } ≡ r =
        ok_injective (record { queue = q; output = some bytes; addr = addr }) r e1 in
      subst (λ (x : Choice). (x.addr ≡ []) ⊎ Names (x.output, x.addr)) same
        (inr (record { draws = d; bytes = bytes; is_bytes = refl; replies = replies }))

  choose_udp_server-Replied :
      (d : Draws) (q : Queue Text) (r : Choice) → choose_udp_server c d mac q ≡ ok r → Replied r
  unfolding choose_udp_server
  choose_udp_server-Replied d q r e =
      let (found, _, e1) = bind_ok (checked (next q)) (λ x. chosen c d mac x.0 x.1) r e in
      chosen-Replied d found.0 found.1 r e1

  answered-OfKind :
      (t : ℕ) (w : Option Text) (r : Choice) (rest : Outcome Served) (s : Option Bytes × Text)
      → wanted t ≡ w
      → Replied r
      → is_sent (answered w r rest) ≡ some s
      → (is_sent rest ≡ some s → OfKind t s.1 × Names s)
      → OfKind t s.1 × Names s
  unfolding Replied
  answered-OfKind t none r rest s k replied e h = absurd (ground arith)
  answered-OfKind t (some pre) r rest s k replied e h = elim (Bool-cases (has_prefix r.addr pre)) [
    | inr b ↦ h (rw b at e)
    | inl b ↦ elim (Bool-cases (text_same r.addr [])) [
      | inl empty ↦ absurd (not_sent r.queue s (rw (b, empty) at e))
      | inr some_text ↦
          let same : (r.output, r.addr) ≡ s =
            some_injective (r.output, r.addr) s (rw (b, some_text) at e) in
          let kind : OfKind t r.addr = record { prefix = pre; known = k; begins = b } in
          elim replied [
            | inl empty ↦ absurd (true-ne-false (ap (λ a. text_same a []) (sym empty) ∙ some_text))
            | inr names ↦
                subst (λ (x : Option Bytes × Text). OfKind t x.1 × Names x) same (kind, names)
          ]
    ]
  ]

  choosing-OfKind :
      (ds : List Draws) (t : ℕ) (q : Queue Text) (s : Option Bytes × Text)
      → is_sent (choosing c ds mac t q) ≡ some s
      → OfKind t s.1 × Names s
  unfolding choosing
  choosing-OfKind [] t q s e = absurd (ground arith)
  choosing-OfKind (d ∷ ds) t q s e =
      let (r, chooses, f) =
        sent_later (choose_udp_server c d mac q)
          (λ r. answered (wanted t) r (choosing c ds mac t r.queue)) s e in
      answered-OfKind t (wanted t) r (choosing c ds mac t r.queue) s refl
        (choose_udp_server-Replied d q r chooses) f (choosing-OfKind ds t r.queue s)

-- A request that is answered with these bytes and this address.
pub record Asks (c : Cipher) (md5 : Bytes → Bytes) (request : Bytes) (out : Option Bytes)
    (addr : Text) : Type 0 where
  pub decoded : Msg
  pub decodes : binary2msg c (record new_msg { final = request }) ≡ done decoded
  pub signs : hex_encode (take 16 decoded.text) ≡ hex_encode (md5 (to_le 8 decoded.fh_src_id))
  pub kind : ℕ
  pub asks_for : index decoded.text 16 ≡ some kind
  pub of_kind : OfKind kind addr
  pub names : Names c (to_le 8 decoded.fh_src_id) (out, addr)

module _ (c : Cipher) (md5 : Bytes → Bytes) (ds : List Draws) (q : Queue Text) (request : Bytes)
    (out : Option Bytes) (addr : Text) where
  on_text-Asks :
      (m : Msg)
      → binary2msg c (record new_msg { final = request }) ≡ done m
      → is_sent (on_text c md5 ds q (to_le 8 m.fh_src_id) m.text) ≡ some (out, addr)
      → Asks c md5 request out addr
  on_text-Asks m reads e = elim (Bool-cases (ltb (length m.text) 17)) [
    | inl a ↦ absurd (not_sent q (out, addr) (rw a at e))
    | inr a ↦
        let signs =
          text_same (hex_encode (take 16 m.text)) (hex_encode (md5 (to_le 8 m.fh_src_id))) in
        elim (Bool-cases signs) [
          | inr b ↦ absurd (not_sent q (out, addr) (rw (a, b) at e))
          | inl b ↦
              let (t, at, f) =
                sent_checked (index m.text 16) (λ t. choosing c ds (to_le 8 m.fh_src_id) t q)
                  (out, addr) (rw (a, b) at e) in
              let (kind, names) = choosing-OfKind c (to_le 8 m.fh_src_id) ds t q (out, addr) f in
              record {
                decoded = m;
                decodes = reads;
                signs = text_same_to _ _ b;
                kind = t;
                asks_for = at;
                of_kind = kind;
                names = names;
              }
        ]
  ]

  on_decoded-Asks :
      (e : Exit)
      → binary2msg c (record new_msg { final = request }) ≡ e
      → is_sent (on_decoded c md5 ds q e) ≡ some (out, addr)
      → Asks c md5 request out addr
  on_decoded-Asks (done m) reads h = on_text-Asks m reads h
  on_decoded-Asks (failed e m) reads h = absurd (not_sent q (out, addr) h)
  on_decoded-Asks panic reads h = absurd (ground arith)

  -- A datagram is answered only if it decodes, its text begins with the MD5 sum of the id that it came
  -- from, and the byte behind that asks for a known kind; the address chosen is one of that kind, and the
  -- bytes sent are the reply that names this address to that id.
  pub serve-Asks :
      (left : Queue Text)
      → serve c md5 ds q request ≡ ok (sent left out addr)
      → Asks c md5 request out addr
  unfolding serve
  serve-Asks left e = elim (Bool-cases (ltb (length request) 56)) [
    | inl short ↦ absurd (not_sent q (out, addr) (rw short at (ap is_sent e)))
    | inr long ↦
        on_decoded-Asks (binary2msg c (record new_msg { final = request })) refl
          (rw long at (ap is_sent e))
  ]
