-- ===== src/Session/Login/Child.antt =====
-- The login of a device behind a device, which another session lists.
use erina.Base.{
  true-ne-false, lookup-insert_other, sym, lookup-insert, lookup-remove_other, ℕ, ◌==◌, ◌≡◌, ◌≢◌,
  refl, ap, ◌∙◌, false, Option, none, some, length, take, drop, lookup, insert, nat_key, text_key,
  text_same, text_same_refl, ==_iff, same_ne,
}
use erina.Words.{Bytes, hex_encode}
use erina.Outcome.{ok}
use erina.Outcome.Laws.{some_injective}
use erina.Session.Types.{Text, DevSession, Pool}
use erina.Session.Children.{Done, with_child, drop_child, subdevlogout}
use erina.Session.Children.Paired.{Paired, with_child-Paired, subdevlogout-Paired}
use erina.Session.Login.{finished, fine_output, on_fine, on_status, on_posted, on_macs, on_login}
use erina.Session.Login.Stages.{
  LoginWorld, answered, LoginAnswer, Tables, LoginDone, Stage, id_login, child_login, child_at,
  pwd_of,
}

drop_child-sesses_other :
    (s : DevSession) (p : Pool) (id k : ℕ) (o : Option Text)
    → id ≢ k
    → lookup (drop_child s p id o).pool.sesses k ≡ lookup p.sesses k
unfolding drop_child
drop_child-sesses_other s p id k none ne = refl
drop_child-sesses_other s p id k (some mac) ne = lookup-remove_other p.sesses id k ne

subdevlogout-sesses_other :
    (s : DevSession) (p : Pool) (id k : ℕ)
    → id ≢ k
    → lookup (subdevlogout s p id).pool.sesses k ≡ lookup p.sesses k
unfolding subdevlogout
subdevlogout-sesses_other s p id k ne = drop_child-sesses_other s p id k (lookup s.devs id) ne

drop_child-heap :
    (s : DevSession) (p : Pool) (id : ℕ) (o : Option Text)
    → (drop_child s p id o).pool.heap ≡ p.heap
unfolding drop_child
drop_child-heap s p id none = refl
drop_child-heap s p id (some mac) = refl

subdevlogout-heap : (s : DevSession) (p : Pool) (id : ℕ) → (subdevlogout s p id).pool.heap ≡ p.heap
unfolding subdevlogout
subdevlogout-heap s p id = drop_child-heap s p id (lookup s.devs id)

module _ (w : LoginWorld) (t : Tables) (h : ℕ) (s : DevSession) (body : Bytes) where
  abbrev mac : Text
  mac = hex_encode (take 8 body)

  abbrev cookie : Text
  cookie = hex_encode (take 32 (drop 8 body))

  -- The session at `h` has logged in and asks for a device behind it, which the session at `v` lists, and
  -- the http server lets it in.
  pub record Moves (v : ℕ) (sub : DevSession) (a : LoginAnswer) (id : ℕ) (pwd : Bytes)
      : Type 0 where
    pub at_heap : lookup (t.pool).heap h ≡ some s
    pub is_known : s.dev_id ≢ 0
    pub other_mac : text_same s.mac mac ≡ false
    pub whole : length body ≡ 42
    pub posted : w.post mac cookie ≡ answered a
    pub fine : a.status ≡ some 0
    pub named : a.id ≡ some id
    pub is_other : s.dev_id ≢ id
    pub sealed : pwd_of w id a.ctlpwd ≡ ok pwd
    pub routed : lookup (t.pool).sesses id ≡ some v
    pub before : lookup (t.pool).heap v ≡ some sub
    pub other_sid : text_same sub.sid s.sid ≡ false
    pub paired : Paired s
    pub before_paired : Paired sub
    pub free : lookup s.devs id ≡ none
    pub new : lookup s.macs mac ≡ none

  module _ (v : ℕ) (sub : DevSession) (a : LoginAnswer) (id : ℕ) (pwd : Bytes)
      (g : Moves v sub a id pwd) where
    abbrev left : Done
    left = subdevlogout sub t.pool id

    abbrev left_pool : Pool
    left_pool = record (left.pool) { heap = insert (left.pool).heap v left.session }

    abbrev kept : Tables
    kept = record t { mac2id = insert t.mac2id mac id }

    abbrev stage : Stage
    stage = child_at kept left_pool h s id mac left.events none

    child_login_moved : child_login kept h s id mac ≡ ok stage
    unfolding child_login
    child_login_moved = rw (g.routed) (rw (g.before) (rw (g.other_sid) (rw (g.free) refl)))

    is_old : (s.dev_id == 0) ≡ false
    is_old = same_ne ⦃k = nat_key⦄ s.dev_id 0 (g.is_known)

    is_child : (s.dev_id == id) ≡ false
    is_child = same_ne ⦃k = nat_key⦄ s.dev_id id (g.is_other)

    id_login_moved : id_login w t h s mac (some id) ≡ ok stage
    unfolding id_login
    id_login_moved = rw (is_old, is_child) child_login_moved

    abbrev result : LoginDone
    result = finished h false stage (fine_output w a (some id) stage pwd)

    on_fine_moved : on_fine w t h s mac a (some id) ≡ ok result
    unfolding on_fine
    on_fine_moved = rw (id_login_moved) (rw (g.sealed, is_old) refl)

    on_status_moved : on_status w t h s mac a a.status ≡ ok result
    unfolding on_status
    on_status_moved =
        ap (on_status w t h s mac a) (g.fine) ∙ ap (on_fine w t h s mac a) (g.named) ∙ on_fine_moved

    on_macs_moved : on_macs w t h s mac cookie ≡ ok result
    unfolding on_macs
    on_macs_moved =
        rw (is_old, g.other_mac) (ap (on_posted w t h s mac) (g.posted) ∙ on_status_moved)

    on_login_moved : on_login w t h body ≡ ok result
    unfolding on_login
    on_login_moved = rw (g.at_heap) (rw ((==_iff (length body) 42).1 (g.whole)) on_macs_moved)

    apart : h ≢ v
    apart same =
        let one : s ≡ sub =
          some_injective s sub (sym (g.at_heap) ∙ ap (lookup (t.pool).heap) same ∙ g.before) in
        true-ne-false
          (sym (text_same_refl s.sid) ∙ ap (λ x. text_same x.sid s.sid) one ∙ g.other_sid)

    at_before : lookup (result.tables.pool).heap v ≡ some left.session
    at_before =
        lookup-insert_other (left_pool.heap) h v (with_child s id mac) apart
        ∙ lookup-insert (left.pool).heap v left.session

    -- When a session that has logged in sends the body of 42 bytes for the MAC of a device behind it, and
    -- the http server answers with status 0 and the id of that device, which another session, of another
    -- session id, is the route to; both sessions' tables are each other's inverse, the one that asks lists
    -- neither the id nor the MAC, and the encryption of the password, if there is one, does not panic:
    -- `onLogin` succeeds; the other session does not list the device any more, the one that asks does,
    -- the route to the device is the one that asks, the route to any other device is as before, and
    -- both sessions' tables are each other's inverse again.
    pub on_login-Paired :
        (k : ℕ)
        → id ≢ k
        → (d : LoginDone) × (x : DevSession) × (y : DevSession) × (on_login w t h body ≡ ok d)
          × (lookup (d.tables.pool).heap h ≡ some x)
          × (lookup (d.tables.pool).heap v ≡ some y)
          × (lookup x.devs id ≡ some mac)
          × (lookup y.devs id ≡ none)
          × Paired x
          × Paired y
          × (lookup (d.tables.pool).sesses id ≡ some h)
          × (lookup (d.tables.pool).sesses k ≡ lookup (t.pool).sesses k)
    on_login-Paired k ne =
        let (paired, gone) = subdevlogout-Paired sub t.pool id (g.before_paired) in
        (
          result,
          with_child s id mac,
          left.session,
          on_login_moved,
          lookup-insert (left_pool.heap) h (with_child s id mac),
          at_before,
          lookup-insert s.devs id mac,
          gone,
          with_child-Paired s id mac (g.paired) (g.new) (g.free),
          paired,
          lookup-insert (left.pool).sesses id h,
          lookup-insert_other (left.pool).sesses id k h ne
              ∙ subdevlogout-sesses_other sub t.pool id k ne,
        )
