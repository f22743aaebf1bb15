-- ===== src/Session/Pool/Opened.antt =====
-- `onSess`: the session id that it hands out is one that `Byte2Sess` accepts.
use erina.Base.{
  ℕ, ◌≡◌, ◌≢◌, refl, sym, ap, ◌∙◌, none, some, lookup, insert, lookup-insert, lookup-insert_other,
  inl, inr, length, Option-cases, nat_key, text_key, ◌==◌, true, ==_iff,
}
use erina.Words.{Bytes, hex_encode}
use erina.Outcome.{ok}
use erina.Session.Types.{Text, DevSession, Pool}
use erina.Session.Pool.{new_dev_session, add, byte2sess, hex_decode, Reply, sess_output, on_sess}
use erina.Session.Pool.Consistent.{
  IsSid, Entry, Consistent, hex_decode-hex_encode, none-ne-some_session, add-Consistent,
  byte2sess-raw, added,
}

-- A device with the MAC `mac` has a session: the reply carries its id twice, and the id finds it.
pub record Opened (mac : Text) (r : Reply) (sid : Bytes) (g : ℕ) : Type 0 where
  pub session : DevSession
  pub no_error : r.error ≡ none
  pub output : r.text ≡ some (sess_output sid)
  pub sid_ok : IsSid sid
  pub found : byte2sess r.pool (some sid) ≡ ok g
  pub by_mac : lookup r.pool.macs mac ≡ some g
  pub at_heap : lookup r.pool.heap g ≡ some session
  pub mac_is : session.mac ≡ mac
  pub sid_is : session.sid ≡ hex_encode sid

-- `onSess` with a body of the right length, a pointer that is not in use and an id that no session
-- has.
module _ (p : Pool) (mac : Text) (body : Bytes) (addr : Text) (h : ℕ) (random : Bytes)
    (old : Consistent p) (long : length body ≡ 48) (fresh : lookup p.heap h ≡ none)
    (unused : lookup p.sids (hex_encode random) ≡ none) (eight : IsSid random) where
  abbrev created : DevSession
  created = record (new_dev_session addr random) { mac = mac }

  -- The heap with one more session shows the others as before.
  allocated : Consistent (record p { heap = insert p.heap h created })
  allocated m g e =
      let x : Entry p m g = old m g e in
      let other : h ≢ g =
        λ same. none-ne-some_session x.session (sym fresh ∙ ap (lookup p.heap) same ∙ x.at_heap) in
      record {
        session = x.session;
        raw = x.raw;
        at_heap = lookup-insert_other p.heap h g created other ∙ x.at_heap;
        mac_is = x.mac_is;
        sid_is = x.sid_is;
        raw_is = x.raw_is;
        by_mac = x.by_mac;
        by_sid = x.by_sid;
      }

  heap_at : lookup (insert p.heap h created) h ≡ some created
  heap_at = lookup-insert p.heap h created

  sid_made : created.sid ≡ hex_encode random
  unfolding new_dev_session
  sid_made = refl

  not_used : lookup p.sids created.sid ≡ none
  not_used = ap (lookup p.sids) sid_made ∙ unused

  abbrev grown : Pool
  grown = record p { heap = insert p.heap h created }

  abbrev reply_new : Reply
  reply_new = record {
    text = some (sess_output (hex_decode created.sid));
    error = none;
    pool = add grown h created;
  }

  abbrev reply_old : DevSession → Reply
  reply_old s = record { text = some (sess_output (hex_decode s.sid)); error = none; pool = p }

  right_length : (length body == 48) ≡ true
  right_length = (==_iff _ _).1 long

  runs_new : lookup p.macs mac ≡ none → on_sess p mac body addr h random ≡ some reply_new
  unfolding on_sess
  runs_new e = rw (right_length, e) refl

  runs_old :
      (g : ℕ) (s : DevSession)
      → lookup p.macs mac ≡ some g
      → lookup p.heap g ≡ some s
      → on_sess p mac body addr h random ≡ some (reply_old s)
  unfolding on_sess
  runs_old g s e f = rw (right_length, e, f) refl

  Opened-new : Opened mac reply_new random h
  unfolding add
  Opened-new =
      let x : Entry (add grown h created) mac h =
        added grown h created random allocated heap_at sid_made eight not_used in
      record {
        session = created;
        no_error = refl;
        output =
            ap (λ b. some (sess_output b))
              (ap hex_decode sid_made ∙ hex_decode-hex_encode random eight.1);
        sid_ok = eight;
        found = byte2sess-raw (add grown h created) random h eight.0 (
            ap (lookup (insert p.sids created.sid h)) (sym sid_made)
            ∙ lookup-insert p.sids created.sid h);
        by_mac = lookup-insert p.macs mac h;
        at_heap = heap_at;
        mac_is = refl;
        sid_is = sid_made;
      }

  Opened-old :
      (g : ℕ) (x : Entry p mac g)
      → lookup p.macs mac ≡ some g
      → Opened mac (reply_old x.session) x.raw g
  Opened-old g x e = record {
    session = x.session;
    no_error = refl;
    output =
        ap (λ b. some (sess_output b))
          (ap hex_decode x.sid_is ∙ hex_decode-hex_encode x.raw x.raw_is.1);
    sid_ok = x.raw_is;
    found = byte2sess-raw p x.raw g x.raw_is.0 (ap (lookup p.sids) (sym x.sid_is) ∙ x.by_sid);
    by_mac = e;
    at_heap = x.at_heap;
    mac_is = x.mac_is;
    sid_is = x.sid_is;
  }

  -- In a consistent table, for a body of 48 bytes, with a pointer that is not in use and eight
  -- random bytes that are no session's id: `onSess` succeeds, replies with an id that `Byte2Sess`
  -- accepts and that leads to a session with the sender's MAC, whether the MAC is new or not, and
  -- the table stays consistent.
  pub on_sess-Opened :
      (r : Reply) × (sid : Bytes) × (g : ℕ) × (on_sess p mac body addr h random ≡ some r)
      × Opened mac r sid g
      × Consistent r.pool
  on_sess-Opened = elim (Option-cases (lookup p.macs mac)) [
    | inl e ↦ (
      reply_new,
      random,
      h,
      runs_new e,
      Opened-new,
      add-Consistent grown h created random allocated heap_at sid_made eight not_used,
    )
    | inr (g, e) ↦
        let x : Entry p mac g = old mac g e in
        (reply_old x.session, x.raw, g, runs_old g x.session e x.at_heap, Opened-old g x e, old)
  ]

again_lem :
    (mac : Text) (r : Reply) (sid : Bytes) (g : ℕ) (x : Opened mac r sid g) (body : Bytes)
    (addr : Text) (h : ℕ) (random : Bytes)
    → length body ≡ 48
    → on_sess r.pool mac body addr h random ≡ some r
unfolding on_sess
again_lem mac r sid g x body addr h random long =
    let right : (length body == 48) ≡ true = (==_iff _ _).1 long in
    let id : hex_decode x.session.sid ≡ sid =
      ap hex_decode x.sid_is ∙ hex_decode-hex_encode sid x.sid_ok.1 in
    let text : some (sess_output (hex_decode x.session.sid)) ≡ r.text =
      ap (λ b. some (sess_output b)) id ∙ sym x.output in
    rw (right, x.by_mac, x.at_heap)
      (λ i. some (record { text = text i; error = sym x.no_error i; pool = r.pool }))

-- In a consistent table, after a successful `onSess` (a body of 48 bytes, a pointer that is not in
-- use, eight random bytes that are no session's id), a second `onSess` with that MAC and a body of
-- 48 bytes, from any address and with any random bytes, gives the same reply and leaves the table
-- as the first one left it.
pub on_sess-again :
    (p : Pool) (mac : Text) (body : Bytes) (addr : Text) (h : ℕ) (random : Bytes)
    → Consistent p
    → length body ≡ 48
    → lookup p.heap h ≡ none
    → lookup p.sids (hex_encode random) ≡ none
    → IsSid random
    → (body' : Bytes) (addr' : Text) (h' : ℕ) (random' : Bytes) → length body' ≡ 48
    → (r : Reply) × (on_sess p mac body addr h random ≡ some r)
      × (on_sess r.pool mac body' addr' h' random' ≡ some r)
on_sess-again p mac body addr h random old long fresh unused eight body' addr' h' random' long' =
    let (r, sid, g, runs, x, _) =
      on_sess-Opened p mac body addr h random old long fresh unused eight in
    (r, runs, again_lem mac r sid g x body' addr' h' random' long')
