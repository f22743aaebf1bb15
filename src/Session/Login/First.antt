-- ===== src/Session/Login/First.antt =====
-- The first login of a device over UDP, and the ones after it.
use erina.Base.{
  lookup-insert_other, inr, inl, sym, Bool-cases, lookup-insert, List, [], ◌∷◌, ℕ, ◌==◌, ◌≡◌, ◌≢◌,
  refl, ap, ◌∙◌, true, false, Option, none, some, length, take, drop, lookup, insert, nat_key,
  text_key, text_same, text_same_refl, ==_iff,
}
use erina.Session.Login.{
  flat, unchanged, finished, fine_output, on_fine, on_status, on_posted, on_macs, on_login,
}
use erina.Words.{Bytes, hex_encode}
use erina.Outcome.{ok}
use erina.Session.Types.{Text, DevSession}
use erina.Session.Dispatch.{login_of, logged_in as has_logged_in}
use erina.Session.Login.Stages.{
  LoginWorld, answered, LoginAnswer, Tables, Output, LoginDone, Stage, id_login, first_login,
  enter_dw, pwd_of, tmp_of, code_from, dv_of, with_mz, with_users, mz_kept, owner_of,
}
use erina.Session.Children.{logged_in, route_set, users_told, address_set}

module _ (w : LoginWorld) (t : Tables) (h : ℕ) (s : DevSession) (body : Bytes) where
  abbrev mac : Text
  mac = hex_encode (take 8 body)

  abbrev cookie : Text
  cookie = hex_encode (take 32 (drop 8 body))

  -- A session that has not logged in asks for its own device, and the http server lets it in.
  pub record Welcome (a : LoginAnswer) (id : ℕ) (pwd : Bytes) : Type 0 where
    pub at_heap : lookup (t.pool).heap h ≡ some s
    pub is_new : s.dev_id ≡ 0
    pub own_mac : s.mac ≡ mac
    pub whole : length body ≡ 42
    pub over_udp : w.dw ≡ false
    pub posted : w.post mac cookie ≡ answered a
    pub fine : a.status ≡ some 0
    pub named : a.id ≡ some id
    pub is_device : id ≢ 0
    pub sealed : pwd_of w id a.ctlpwd ≡ ok pwd

  module _ (a : LoginAnswer) (id : ℕ) (pwd : Bytes) (g : Welcome a id pwd) where
    abbrev entered : DevSession
    entered = with_users (with_mz w (record s { dev_id = id })) (w.users_of id)

    abbrev pub out : Output
    out = record {
      status = 0;
      owner = owner_of (w.users_of id);
      timeout = w.timeout;
      tmp = tmp_of a.tmp;
      code = code_from (w.code_of s.mac);
      pwd = pwd;
      dv = dv_of a.dv;
    }

    abbrev stage : Stage
    stage = record {
      session = entered;
      tables = record t {
        pool = record (t.pool) { sesses = insert (t.pool).sesses id h };
        mac2id = insert t.mac2id mac id;
        gmz = mz_kept w s t.gmz;
      };
      owner = owner_of (w.users_of id);
      events = logged_in id s.mac ∷ route_set id ∷ users_told id false ∷ address_set id ∷ [];
    }

    new : (s.dev_id == 0) ≡ true
    new = (==_iff s.dev_id 0).1 (g.is_new)

    same_mac : text_same s.mac mac ≡ true
    same_mac = ap (λ m. text_same m mac) (g.own_mac) ∙ text_same_refl mac

    -- The session's part of the first login.
    id_login_first : id_login w t h s mac (some id) ≡ ok stage
    unfolding id_login first_login enter_dw
    id_login_first = rw (new, g.over_udp) refl

    abbrev pub result : LoginDone
    result = finished h true stage out

    with_users_mac : (x : DevSession) (o : Option (List ℕ × ℕ)) → (with_users x o).mac ≡ x.mac
    with_users_mac x none = refl
    with_users_mac x (some ([], owner)) = refl
    with_users_mac x (some (user ∷ users, owner)) = refl

    same_output : fine_output w a (some id) stage pwd ≡ out
    same_output =
        ap (λ m. record out { code = code_from (w.code_of m) })
          (with_users_mac (with_mz w (record s { dev_id = id })) (w.users_of id))

    on_fine_first : on_fine w t h s mac a (some id) ≡ ok result
    unfolding on_fine
    on_fine_first =
        rw (id_login_first)
          (rw (g.sealed, new) (ap (λ o. ok (finished h true stage o)) same_output))

    on_status_first : on_status w t h s mac a a.status ≡ ok result
    unfolding on_status
    on_status_first =
        ap (on_status w t h s mac a) (g.fine) ∙ ap (on_fine w t h s mac a) (g.named) ∙ on_fine_first

    on_macs_first : on_macs w t h s mac cookie ≡ ok result
    unfolding on_macs
    on_macs_first = rw (new, same_mac) (ap (on_posted w t h s mac) (g.posted) ∙ on_status_first)

    pub on_login_first : on_login w t h body ≡ ok result
    unfolding on_login
    on_login_first = rw (g.at_heap) (rw ((==_iff (length body) 42).1 (g.whole)) on_macs_first)

    with_users_dev : (x : DevSession) (o : Option (List ℕ × ℕ)) → (with_users x o).dev_id ≡ x.dev_id
    with_users_dev x none = refl
    with_users_dev x (some ([], owner)) = refl
    with_users_dev x (some (user ∷ users, owner)) = refl

    abbrev pub known : DevSession
    known = record entered { output = flat out }

    not_new : (known.dev_id == 0) ≡ false
    not_new =
        ap (λ n. n == 0) (with_users_dev (with_mz w (record s { dev_id = id })) (w.users_of id))
        ∙ elim (Bool-cases (id == 0)) [
          | inl e ↦ absurd (g.is_device ((==_iff id 0).0 e))
          | inr e ↦ e
        ]

    known_mac : known.mac ≡ s.mac
    known_mac = with_users_mac (with_mz w (record s { dev_id = id })) (w.users_of id)

    at_known : lookup (result.tables.pool).heap h ≡ some known
    at_known = lookup-insert (t.pool).heap h known

    login_of_known : login_of (result.tables.pool) h ≡ ok true
    unfolding login_of has_logged_in
    login_of_known = rw (at_known) (rw (not_new) refl)

    again :
        (w' : LoginWorld) (body' : Bytes)
        → length body' ≡ 42
        → hex_encode (take 8 body') ≡ mac
        → on_login w' result.tables h body' ≡ ok (unchanged result.tables result.text none)
    unfolding on_login on_macs
    again w' body' whole same =
        let own : text_same known.mac (hex_encode (take 8 body')) ≡ true =
          ap (text_same known.mac) (same ∙ sym (g.own_mac) ∙ sym known_mac)
          ∙ text_same_refl known.mac in
        rw at_known (rw ((==_iff (length body') 42).1 whole) (rw (not_new, own) refl))

    -- Over UDP, when a session that has not logged in sends the body of 42 bytes for its own MAC, and the
    -- http server answers with status 0 and the id of a device, and the encryption of the password, if
    -- there is one, does not panic: `onLogin` succeeds; the reply has the owner, the timeout, the code,
    -- the password and the version in their places; the device's route is the session, every other route
    -- and every other session is as before; the session has the secret, the owner and the users that
    -- redis knows; `opcode02` takes it as logged in; and a second login for the same MAC, whatever the
    -- http server would answer, gives the same reply and changes nothing.
    pub on_login-again :
        (k j : ℕ) (w' : LoginWorld) (body' : Bytes)
        → k ≢ id
        → j ≢ h
        → length body' ≡ 42
        → hex_encode (take 8 body') ≡ mac
        → (d : LoginDone) × (on_login w t h body ≡ ok d)
          × (d.text ≡ some (flat out))
          × (lookup (d.tables.pool).sesses id ≡ some h)
          × (lookup (d.tables.pool).sesses k ≡ lookup (t.pool).sesses k)
          × (lookup (d.tables.pool).heap h ≡ some known)
          × (lookup (d.tables.pool).heap j ≡ lookup (t.pool).heap j)
          × (login_of d.tables.pool h ≡ ok true)
          × (on_login w' d.tables h body' ≡ ok (unchanged d.tables d.text none))
    on_login-again k j w' body' k_ne j_ne whole same = (
      result,
      on_login_first,
      refl,
      lookup-insert (t.pool).sesses id h,
      lookup-insert_other (t.pool).sesses id k h (λ e. k_ne (sym e)),
      at_known,
      lookup-insert_other (t.pool).heap h j known (λ e. j_ne (sym e)),
      login_of_known,
      again w' body' whole same,
    )
