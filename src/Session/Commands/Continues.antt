-- ===== src/Session/Commands/Continues.antt =====
-- Over UDP no command loses a session.
use erina.Base.{
  ◌⊎◌, ℕ, ◌≡◌, ◌≢◌, ◌==◌, sym, ap, ◌∙◌, arith, Bool-cases, Option, none, some, Option-cases, lookup,
  insert, lookup-insert_other, inl, inr, nat_key, text_key, length, ltb, take, false, ==_iff, subst,
}
use erina.Words.{Bytes, hex_encode}
use erina.Outcome.{Error, ok, err, checked}
use erina.Outcome.Laws.{some_injective, ok_injective, bind_ok, checked-some}
use erina.Msg.Types.{Msg}
use erina.Session.Types.{Text, DevSession, Pool}
use erina.Session.Pool.{Reply, on_sess, new_dev_session, add, byte2sess}
use erina.Session.Pool.Consistent.{Consistent, IsSid, none-ne-some, none-ne-some_session}
use erina.Session.Pool.Opened.{on_sess-Opened}
use erina.Session.Login.Stages.{Tables}
use erina.Session.Commands.{Command, cmd_sess, Around, Ran, run, from_sess}
use erina.Session.Commands.Handlers.{run-Kept}
use erina.Session.Commands.Kept.{
  Kept, SameName, SameName-refl, SameName-trans, Kept-byte2sess, Kept-Consistent, Kept-refl,
}

-- The table stays consistent, a session id that names a session goes on to name it, and the sessions go
-- by the names they had.
pub record Continues (p q : Pool) : Type 0 where
  pub consistent : Consistent q
  pub found : (adr : Option Bytes) (g : ℕ) → byte2sess p adr ≡ ok g → byte2sess q adr ≡ ok g
  pub named :
      (j : ℕ) (s : DevSession)
      → lookup p.heap j ≡ some s
      → (x : DevSession) × (lookup q.heap j ≡ some x) × SameName s x

pub Kept-Continues : (p q : Pool) → Consistent p → Kept p q → Continues p q
Kept-Continues p q old k = record {
  consistent = Kept-Consistent p q k old;
  found = λ adr g e. Kept-byte2sess p q adr k ∙ e;
  named = k.named;
}

pub Continues-trans : (p q r : Pool) → Continues p q → Continues q r → Continues p r
Continues-trans p q r a b = record {
  consistent = b.consistent;
  found = λ adr g e. b.found adr g (a.found adr g e);
  named = λ j s e.
      let (x, at_x, s_x) = a.named j s e in
      let (y, at_y, x_y) = b.named j x at_x in (y, at_y, SameName-trans s x y s_x x_y);
}

err-ne-ok {ℓ} : {A : Type ℓ} (x : Error) (a : A) → err x ≢ ok a
err-ne-ok x a e = ground arith

-- The pointer of a new session is not in use, and its random bytes are no session's id.
pub record Fresh (p : Pool) (h : ℕ) (random : Bytes) : Type 0 where
  pub no_session : lookup p.heap h ≡ none
  pub unused : lookup p.sids (hex_encode random) ≡ none
  pub eight : IsSid random

module _ (p : Pool) (h : ℕ) (random : Bytes) (addr mac : Text) (body : Bytes) (old : Consistent p)
    (fresh : Fresh p h random) where
  abbrev created : DevSession
  created = record (new_dev_session addr random) { mac = mac }

  abbrev grown : Pool
  grown = add (record p { heap = insert p.heap h created }) h created

  grown-found : (adr : Option Bytes) (g : ℕ) → byte2sess p adr ≡ ok g → byte2sess grown adr ≡ ok g
  unfolding byte2sess add new_dev_session
  grown-found none g e = absurd (ground arith)
  grown-found (some adr) g e = elim (Bool-cases (ltb (length adr) 8)) [
    | inl z ↦ absurd (err-ne-ok _ g (rw z at e))
    | inr z ↦ elim (Option-cases (lookup p.sids (hex_encode (take 8 adr)))) [
      | inl gone ↦ absurd (err-ne-ok _ g (rw (z, gone) at e))
      | inr (v, there) ↦
          let other : hex_encode random ≢ hex_encode (take 8 adr) =
            λ q. none-ne-some v (sym (fresh.unused) ∙ ap (lookup p.sids) q ∙ there) in
          rw (z, lookup-insert_other p.sids (hex_encode random) (hex_encode (take 8 adr)) h other)
            (rw z at e)
    ]
  ]

  grown-named :
      (j : ℕ) (s : DevSession)
      → lookup p.heap j ≡ some s
      → (x : DevSession) × (lookup grown.heap j ≡ some x) × SameName s x
  unfolding add
  grown-named j s e =
      let other : h ≢ j =
        λ q. none-ne-some_session s (sym (fresh.no_session) ∙ ap (lookup p.heap) q ∙ e) in
      (s, lookup-insert_other p.heap h j created other ∙ e, SameName-refl s)

  -- What `onSess` leaves.
  Left : Pool → Type 0
  Left q = (q ≡ p) ⊎ (q ≡ grown)

  on_sess-Left : (r : Reply) → on_sess p mac body addr h random ≡ some r → Left r.pool
  unfolding on_sess Left
  on_sess-Left r e = elim (Bool-cases (length body == 48)) [
    | inr z ↦ inl (sym (ap (λ x. x.pool) (some_injective _ r (rw z at e))))
    | inl z ↦ elim (Option-cases (lookup p.macs mac)) [
      | inl new ↦ inr (sym (ap (λ x. x.pool) (some_injective _ r (rw (z, new) at e))))
      | inr (v, known) ↦ elim (Option-cases (lookup p.heap v)) [
        | inl gone ↦ absurd (ground arith)
        | inr (s, at) ↦ inl (sym (ap (λ x. x.pool) (some_injective _ r (rw (z, known, at) at e))))
      ]
    ]
  ]

  on_sess-Consistent : (r : Reply) → on_sess p mac body addr h random ≡ some r → Consistent r.pool
  unfolding on_sess
  on_sess-Consistent r e = elim (Bool-cases (length body == 48)) [
    | inl z ↦
        let long : length body ≡ 48 = (==_iff (length body) 48).0 z in
        let (r', sid, g, runs, opened, consistent) =
          on_sess-Opened p mac body addr h random old long fresh.no_session fresh.unused
            fresh.eight in
        subst (λ (x : Reply). Consistent x.pool) (some_injective r' r (sym runs ∙ e)) consistent
    | inr z ↦ subst (λ (x : Reply). Consistent x.pool) (some_injective _ r (rw z at e)) old
  ]

  on_sess-Continues : (r : Reply) → on_sess p mac body addr h random ≡ some r → Continues p r.pool
  unfolding Left
  on_sess-Continues r e = elim (on_sess-Left r e) [
    | inl same ↦ subst (Continues p) (sym same) (Kept-Continues p p old (Kept-refl p))
    | inr more ↦ subst (Continues p) (sym more) (record {
      consistent = subst Consistent more (on_sess-Consistent r e);
      found = grown-found;
      named = grown-named;
    })
  ]

-- Whatever the command.
pub run-Continues :
    (a : Around) (t : Tables) (sess : Option ℕ) (m : Msg) (r : Ran) (c : Command)
    → a.login.dw ≡ false
    → Consistent t.pool
    → Fresh t.pool a.fresh a.random
    → run a t sess m c ≡ ok r
    → Continues t.pool r.tables.pool
unfolding run
run-Continues a t sess m r c udp old fresh e = elim (run-Kept a t sess m r c udp e) [
  | inr kept ↦ Kept-Continues t.pool r.tables.pool old kept
  | inl is_sess ↦
      let tried : Option Reply = on_sess t.pool m.fh_src_mac m.text a.addr a.fresh a.random in
      let chain : run a t sess m cmd_sess ≡ ok r = ap (run a t sess m) (sym is_sess) ∙ e in
      let (x, ran, e1) = bind_ok (checked tried) (λ x. ok (from_sess t x)) r chain in
      subst (λ (y : Ran). Continues t.pool y.tables.pool) (ok_injective (from_sess t x) r e1)
        (on_sess-Continues t.pool a.fresh a.random a.addr m.fh_src_mac m.text old fresh x
          (checked-some tried x ran))
]
