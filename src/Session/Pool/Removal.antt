-- ===== src/Session/Pool/Removal.antt =====
-- `delSessionByMac` takes one session out and leaves the others.
use erina.Base.{
  ℕ, ◌≡◌, ◌≢◌, refl, sym, ap, ◌∙◌, [], Option, none, some, lookup, remove, lookup-remove,
  lookup-remove_other, key_cases, inl, inr, nat_key, text_key,
}
use erina.Session.Types.{Text, DevSession, Pool}
use erina.Session.Pool.{del_session_by_mac, sid_of}
use erina.Session.Pool.Consistent.{Entry, Consistent, some_injective, none-ne-some}

abbrev mac_of : Option DevSession → Text
mac_of none = []
mac_of (some o) = o.mac

-- `del_session_by_mac` of a MAC with the session id `sid`.
abbrev without : Pool → Text → Text → Pool
without p mac sid = record p {
  macs = remove p.macs mac;
  sids = remove p.sids sid;
  mac_sid = remove p.mac_sid mac;
}

module _ (p : Pool) (mac : Text) (g : ℕ) (old : Consistent p) (x : Entry p mac g) where
  removes : del_session_by_mac p mac ≡ without p mac x.session.sid
  unfolding del_session_by_mac
  removes = rw (x.by_mac, sid_of) refl

  -- Two MACs of the table have two session ids.
  other_sid : (m : Text) (k : ℕ) → mac ≢ m → (y : Entry p m k) → x.session.sid ≢ y.session.sid
  other_sid m k ne y same =
      let pointers : some g ≡ some k = sym x.by_sid ∙ ap (lookup p.sids) same ∙ y.by_sid in
      let is_k : g ≡ k = some_injective g k pointers in
      let sessions : some x.session ≡ some y.session =
        sym x.at_heap ∙ ap (lookup p.heap) is_k ∙ y.at_heap in
      ne (sym x.mac_is ∙ ap mac_of sessions ∙ y.mac_is)

  rest_kept : (m : Text) (k : ℕ) → mac ≢ m → Entry p m k → Entry (without p mac x.session.sid) m k
  rest_kept m k ne y = record {
    session = y.session;
    raw = y.raw;
    at_heap = y.at_heap;
    mac_is = y.mac_is;
    sid_is = y.sid_is;
    raw_is = y.raw_is;
    by_mac = lookup-remove_other p.mac_sid mac m ne ∙ y.by_mac;
    by_sid = lookup-remove_other p.sids x.session.sid y.session.sid (other_sid m k ne y) ∙ y.by_sid;
  }

  rest-Consistent : Consistent (without p mac x.session.sid)
  rest-Consistent m k e = elim (key_cases mac m) [
    | inl same ↦
        absurd (
          none-ne-some k
            (sym (lookup-remove p.macs mac) ∙ ap (lookup (remove p.macs mac)) same ∙ e))
    | inr ne ↦ rest_kept m k ne (old m k (sym (lookup-remove_other p.macs mac m ne) ∙ e))
  ]

-- In a consistent table, for a MAC that has a session: after `delSessionByMac` neither the MAC nor
-- the session's id finds anything, every other MAC finds what it found before, and the table is
-- still consistent.
pub del_session_by_mac-Consistent :
    (p : Pool) (mac : Text) (g : ℕ)
    → Consistent p
    → lookup p.macs mac ≡ some g
    → (s : DevSession) × (q : Pool) × (lookup p.heap g ≡ some s)
      × (del_session_by_mac p mac ≡ q)
      × (lookup q.macs mac ≡ none)
      × (lookup q.sids s.sid ≡ none)
      × ((m : Text) → mac ≢ m → lookup q.macs m ≡ lookup p.macs m)
      × Consistent q
del_session_by_mac-Consistent p mac g old there =
    let x : Entry p mac g = old mac g there in
    (
      x.session,
      without p mac x.session.sid,
      x.at_heap,
      removes p mac g old x,
      lookup-remove p.macs mac,
      lookup-remove p.sids x.session.sid,
      λ m ne. lookup-remove_other p.macs mac m ne,
      rest-Consistent p mac g old x,
    )
