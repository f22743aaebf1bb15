-- ===== src/Session/Commands/Kept.antt =====
-- What a handler may change in the table of sessions without losing anyone's session.
use erina.Base.{
  ℕ, ◌≡◌, refl, sym, ap, ◌∙◌, Option, none, some, lookup, insert, remove, Map, key_cases,
  lookup-insert, lookup-insert_other, lookup-remove, lookup-remove_other, inl, inr, subst, nat_key,
  text_key,
}
use erina.Words.{Bytes}
use erina.Outcome.Laws.{some_injective}
use erina.Session.Types.{Text, DevSession, Pool}
use erina.Session.Pool.{byte2sess}
use erina.Session.Pool.Consistent.{Consistent, Entry, none-ne-some}

-- A session that goes by the same MAC and the same id.
pub record SameName (s x : DevSession) : Type 0 where
  pub mac_same : x.mac ≡ s.mac
  pub sid_same : x.sid ≡ s.sid

-- The ids of the sessions stay, their MACs may go, and every session goes by the same names.
pub record Kept (p q : Pool) : Type 0 where
  pub sids_same : q.sids ≡ p.sids
  pub mac_sid_same : q.mac_sid ≡ p.mac_sid
  pub macs_fewer : (mac : Text) (h : ℕ) → lookup q.macs mac ≡ some h → lookup p.macs mac ≡ some h
  pub named :
      (j : ℕ) (s : DevSession)
      → lookup p.heap j ≡ some s
      → (x : DevSession) × (lookup q.heap j ≡ some x) × SameName s x

pub SameName-refl : (s : DevSession) → SameName s s
SameName-refl s = record { mac_same = refl; sid_same = refl }

pub SameName-trans : (s x y : DevSession) → SameName s x → SameName x y → SameName s y
SameName-trans s x y a b = record {
  mac_same = b.mac_same ∙ a.mac_same;
  sid_same = b.sid_same ∙ a.sid_same;
}

pub Kept-refl : (p : Pool) → Kept p p
Kept-refl p = record {
  sids_same = refl;
  mac_sid_same = refl;
  macs_fewer = λ mac h e. e;
  named = λ j s e. (s, e, SameName-refl s);
}

pub Kept-trans : (p q r : Pool) → Kept p q → Kept q r → Kept p r
Kept-trans p q r a b = record {
  sids_same = b.sids_same ∙ a.sids_same;
  mac_sid_same = b.mac_sid_same ∙ a.mac_sid_same;
  macs_fewer = λ mac h e. a.macs_fewer mac h (b.macs_fewer mac h e);
  named = λ j s e.
      let (x, at_x, s_x) = a.named j s e in
      let (y, at_y, x_y) = b.named j x at_x in (y, at_y, SameName-trans s x y s_x x_y);
}

-- Writing a session back under the same names.
pub Kept-write :
    (p : Pool) (h : ℕ) (s x : DevSession)
    → lookup p.heap h ≡ some s
    → SameName s x
    → Kept p (record p { heap = insert p.heap h x })
Kept-write p h s x at same = record {
  sids_same = refl;
  mac_sid_same = refl;
  macs_fewer = λ mac g e. e;
  named = λ j t e. elim (key_cases h j) [
    | inl q ↦
        let one : s ≡ t = some_injective s t (sym at ∙ ap (lookup p.heap) q ∙ e) in
        (
          x,
          ap (lookup (insert p.heap h x)) (sym q) ∙ lookup-insert p.heap h x,
          subst (λ (o : DevSession). SameName o x) one same,
        )
    | inr ne ↦ (t, lookup-insert_other p.heap h j x ne ∙ e, SameName-refl t)
  ];
}

removed_fewer :
    (macs : Map Text ℕ) (mac name : Text) (h : ℕ)
    → lookup (remove macs mac) name ≡ some h
    → lookup macs name ≡ some h
removed_fewer macs mac name h e = elim (key_cases mac name) [
  | inl q ↦
      absurd (none-ne-some h (sym (lookup-remove macs mac) ∙ ap (lookup (remove macs mac)) q ∙ e))
  | inr ne ↦ sym (lookup-remove_other macs mac name ne) ∙ e
]

-- The routes to the devices may change, and a MAC may go.
pub Kept-unnamed :
    (p : Pool) (routes : Map ℕ ℕ) (mac : Text)
    → Kept p (record p { sesses = routes; macs = remove p.macs mac })
Kept-unnamed p routes mac = record {
  sids_same = refl;
  mac_sid_same = refl;
  macs_fewer = removed_fewer p.macs mac;
  named = λ j s e. (s, e, SameName-refl s);
}

pub Kept-routes : (p : Pool) (routes : Map ℕ ℕ) → Kept p (record p { sesses = routes })
Kept-routes p routes = record {
  sids_same = refl;
  mac_sid_same = refl;
  macs_fewer = λ mac h e. e;
  named = λ j s e. (s, e, SameName-refl s);
}

-- Then every session id names the session that it named.
pub Kept-byte2sess :
    (p q : Pool) (adr : Option Bytes) → Kept p q → byte2sess q adr ≡ byte2sess p adr
unfolding byte2sess
Kept-byte2sess p q none k = refl
Kept-byte2sess p q (some adr) k = rw (k.sids_same) refl

pub Kept-Consistent : (p q : Pool) → Kept p q → Consistent p → Consistent q
Kept-Consistent p q k old mac h e =
    let entry : Entry p mac h = old mac h (k.macs_fewer mac h e) in
    let (x, at_x, same) = k.named h entry.session entry.at_heap in
    record {
      session = x;
      raw = entry.raw;
      at_heap = at_x;
      mac_is = same.mac_same ∙ entry.mac_is;
      sid_is = same.sid_same ∙ entry.sid_is;
      raw_is = entry.raw_is;
      by_mac =
          ap (λ t. lookup t mac) (k.mac_sid_same) ∙ entry.by_mac ∙ ap some (sym (same.sid_same));
      by_sid =
          ap (λ t. lookup t x.sid) (k.sids_same)
          ∙ ap (lookup p.sids) (same.sid_same)
          ∙ entry.by_sid;
    }

-- Writing the session back behind another change.
pub Kept-over :
    (p q : Pool) (h : ℕ) (s x : DevSession)
    → Kept p q
    → lookup p.heap h ≡ some s
    → SameName s x
    → Kept p (record q { heap = insert q.heap h x })
Kept-over p q h s x k at same =
    let (y, at_y, s_y) = k.named h s at in
    Kept-trans p q (record q { heap = insert q.heap h x }) k
      (Kept-write q h y x at_y (record {
        mac_same = same.mac_same ∙ sym (s_y.mac_same);
        sid_same = same.sid_same ∙ sym (s_y.sid_same);
      }))
