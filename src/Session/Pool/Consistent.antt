-- ===== src/Session/Pool/Consistent.antt =====
-- The table stays consistent, and what `onSess` hands out is what `Byte2Sess` accepts.
use erina.Base.{
  ℕ, ◌+◌, ◌*◌, ◌/◌, ◌%◌, ◌<◌, ◌≡◌, ◌≢◌, refl, sym, ap, ◌∙◌, arith, [], ◌∷◌, Option, none, some,
  lookup, insert, lookup-insert, key_cases, lookup-insert_other, true, false, inl, inr, ◌==◌,
  ==_iff, all_below, all_below_at, nat_key, text_key, length, take, ltb, Bool, subst, take-append,
  append-nil,
}
use erina.Words.{Bytes, IsBytes, hex_encode, hex_digit}
use erina.Outcome.{ok}
use erina.Session.Types.{new_pool, Text, DevSession, Pool}
use erina.Session.Pool.{add, byte2sess, hex_value, hex_pair, hex_decode}

digit_at : ℕ → Bool
digit_at d = elim (hex_value (hex_digit d)) [ none ↦ false | some v ↦ v == d ]

digit_table : all_below 16 digit_at ≡ true
unfolding all_below digit_at hex_value
digit_table = refl

value_of_digit :
    (o : Option ℕ) (d : ℕ) → (elim o [ none ↦ false | some v ↦ v == d ]) ≡ true → o ≡ some d
value_of_digit none d h = absurd (ground arith)
value_of_digit (some v) d h = ap some ((==_iff v d).0 h)

hex_value-hex_digit : (d : ℕ) → d < 16 → hex_value (hex_digit d) ≡ some d
unfolding digit_at
hex_value-hex_digit d h =
    value_of_digit (hex_value (hex_digit d)) d (all_below_at 16 digit_at digit_table d h)

pub hex_decode-hex_encode : (b : Bytes) → IsBytes b → hex_decode (hex_encode b) ≡ b
hex_decode-hex_encode [] h = refl
hex_decode-hex_encode (x ∷ b) (p, h) =
    let hi : hex_value (hex_digit (x / 16)) ≡ some (x / 16) =
      hex_value-hex_digit (x / 16) (omega arith) in
    let lo : hex_value (hex_digit (x % 16)) ≡ some (x % 16) =
      hex_value-hex_digit (x % 16) (omega arith) in
    let whole : x / 16 * 16 + x % 16 ≡ x = omega arith in
    (λ i. hex_pair (hi i) (lo i) (hex_decode-hex_encode b h i)) ∙ ap (λ t. t ∷ b) whole

-- Eight bytes, as `RandomByte8` gives them.
abbrev pub IsSid : Bytes → Type 0
IsSid raw = (length raw ≡ 8) × IsBytes raw

-- What a MAC in the table leads to.
pub record Entry (p : Pool) (mac : Text) (h : ℕ) : Type 0 where
  pub session : DevSession
  pub raw : Bytes
  pub at_heap : lookup p.heap h ≡ some session
  pub mac_is : session.mac ≡ mac
  pub sid_is : session.sid ≡ hex_encode raw
  pub raw_is : IsSid raw
  pub by_mac : lookup p.mac_sid mac ≡ some session.sid
  pub by_sid : lookup p.sids session.sid ≡ some h

-- Every MAC of the table leads to a session with that MAC, which its session id finds as well.
abbrev pub Consistent : Pool → Type 0
Consistent p = (mac : Text) (h : ℕ) → lookup p.macs mac ≡ some h → Entry p mac h

pub new_pool-Consistent : Consistent new_pool
new_pool-Consistent mac h e = absurd (ground arith)

pub none-ne-some : (h : ℕ) → none ≢ some h
none-ne-some h e = ground arith

pub some_injective : (g h : ℕ) → some g ≡ some h → g ≡ h
some_injective g h e = ground arith

pub none-ne-some_session : (o : DevSession) → none ≢ some o
none-ne-some_session o e = ground arith

-- What `Byte2Sess` makes of an id that is in the table.
pub byte2sess-raw :
    (p : Pool) (raw : Bytes) (h : ℕ)
    → length raw ≡ 8
    → lookup p.sids (hex_encode raw) ≡ some h
    → byte2sess p (some raw) ≡ ok h
unfolding byte2sess
byte2sess-raw p raw h l e =
    let long : ltb (length raw) 8 ≡ false = ground arith in
    let whole : take 8 raw ≡ raw =
      ap (λ t. take 8 t) (sym (append-nil raw)) ∙ take-append 8 raw [] l in
    rw (long, whole, e) refl

module _ (p : Pool) (h : ℕ) (o : DevSession) (raw : Bytes) (old : Consistent p)
    (at_heap : lookup p.heap h ≡ some o) (sid_is : o.sid ≡ hex_encode raw) (raw_is : IsSid raw)
    (new_sid : lookup p.sids o.sid ≡ none) where
  pub added : Entry (add p h o) o.mac h
  unfolding add
  added = record {
    session = o;
    raw = raw;
    at_heap = at_heap;
    mac_is = refl;
    sid_is = sid_is;
    raw_is = raw_is;
    by_mac = lookup-insert p.mac_sid o.mac o.sid;
    by_sid = lookup-insert p.sids o.sid h;
  }

  kept : (mac : Text) (g : ℕ) → o.mac ≢ mac → Entry p mac g → Entry (add p h o) mac g
  unfolding add
  kept mac g ne e =
      let other : o.sid ≢ e.session.sid =
        λ same. none-ne-some g (sym new_sid ∙ ap (lookup p.sids) same ∙ e.by_sid) in
      record {
        session = e.session;
        raw = e.raw;
        at_heap = e.at_heap;
        mac_is = e.mac_is;
        sid_is = e.sid_is;
        raw_is = e.raw_is;
        by_mac = lookup-insert_other p.mac_sid o.mac mac o.sid ne ∙ e.by_mac;
        by_sid = lookup-insert_other p.sids o.sid e.session.sid h other ∙ e.by_sid;
      }

  -- Adding a session with a new id keeps the table consistent, whatever its MAC.
  pub add-Consistent : Consistent (add p h o)
  unfolding add
  add-Consistent mac g e = elim (key_cases o.mac mac) [
    | inl same ↦
        let is_h : h ≡ g =
          some_injective h g
            (sym (lookup-insert p.macs o.mac h) ∙ ap (lookup (insert p.macs o.mac h)) same ∙ e) in
        subst (λ (x : ℕ). Entry (add p h o) mac x) is_h
          (subst (λ (t : Text). Entry (add p h o) t h) same added)
    | inr ne ↦ kept mac g ne (old mac g (sym (lookup-insert_other p.macs o.mac mac h ne) ∙ e))
  ]
