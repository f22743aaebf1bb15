-- ===== src/Users/Lifecycle/Steps.antt =====
-- Every step of the users' sessions keeps them orderly, and the steps succeed.
use erina.Base.{
  ℕ, ◌≡◌, inl, inr, refl, ap, ◌∙◌, true, false, Bool, Bool-cases, Option, none, some, [], ◌∷◌,
  lookup, insert, remove, nat_key, if◌then◌else◌,
}
use erina.Base.Partial.{◌>>=◌}
use erina.Sentinel.Types.{Text}
use erina.Users.Types.{UsrSession, UsrSessionPool, shut, minus_one, close_ws}
use erina.Users.Pool.{remove_session, usr_update_ids, rebind_at, rebound, close_if}
use erina.Users.Offline.{Forced, force_user_offline, force_at, cut_off, logout, is_positive}
use erina.Users.Lifecycle.{Life, set_live}
use erina.Users.Lifecycle.Orderly.{Orderly, Changes, touched-Orderly}
use erina.Users.Lifecycle.Adding.{close_ws-some}
use erina.Users.Lifecycle.Going.{idle-Orderly, left, left-Orderly}

-- `logout` of a live session succeeds.
module _ (st : Life) (v : Orderly st) (h : ℕ) (alive : st.live h ≡ true) where
  pub gone :
      (q : UsrSessionPool) × (logout st.pool h ≡ some q)
      × Orderly (record { pool = q; live = set_live st h false })
  unfolding logout remove_session
  gone =
      let (s, found, _) = v.known h alive in
      elim (Bool-cases (is_positive s.uid)) [
        | inl real ↦
            let removes : remove_session st.pool h ≡ some (left st v h s found alive).pool =
              ap
                (λ o. o >>= λ t. some (record {
                  heap = insert (st.pool).heap h (record t { ws = close_if t.ws });
                  sesses = remove (st.pool).sesses t.uid;
                }))
                found in
            (
              (left st v h s found alive).pool,
              ap
                    (λ o. o >>= λ t.
                      if is_positive t.uid then remove_session st.pool h else some st.pool)
                    found
                  ∙ rw real removes,
              left-Orderly st v h s found alive real,
            )
        | inr lost ↦ (
          st.pool,
          ap (λ o. o >>= λ t. if is_positive t.uid then remove_session st.pool h else some st.pool)
                found
              ∙ rw lost refl,
          idle-Orderly st v h s found alive lost,
        )
      ]

module _ (st : Life) (v : Orderly st) where
  -- A session that is listed is cut off.
  cut :
      (uid h : ℕ) (named : Bool) (written : _)
      → lookup (st.pool).sesses uid ≡ some h
      → (f : Forced) × (cut_off st.pool h named written ≡ some f)
        × Orderly (record st { pool = f.pool })
  cut uid h named written listed =
      let (s, found, ws, _) = v.sound uid h listed in
      let t : UsrSession = record s { ws = shut; uid = if named then minus_one else s.uid } in
      let c : Changes s t = record {
        socket = inl refl;
        user = elim (Bool-cases named) [ inl e ↦ rw e (inr refl) | inr e ↦ rw e (inl refl) ];
      } in
      (
        record {
          pool = record (st.pool) { heap = insert (st.pool).heap h t };
          written = written;
          forwarded = [];
        },
        ap
              (λ o. o >>= λ x. close_ws x.ws >>= λ w. some (record {
                pool = record (st.pool) {
                  heap =
                      insert (st.pool).heap h
                        (record x { ws = w; uid = if named then minus_one else x.uid });
                };
                written = written;
                forwarded = [];
              }))
              found
            ∙ ap
                (λ o. o >>= λ w. some (record {
                  pool = record (st.pool) {
                    heap =
                        insert (st.pool).heap h
                          (record s { ws = w; uid = if named then minus_one else s.uid });
                  };
                  written = written;
                  forwarded = [];
                }))
                (close_ws-some s.ws ws),
        touched-Orderly st v h s t found c,
      )

  forced_at :
      (uid : ℕ) (mobile calm : Text) (o : Option ℕ)
      → lookup (st.pool).sesses uid ≡ o
      → (f : Forced) × (force_at st.pool uid mobile calm o ≡ some f)
        × Orderly (record st { pool = f.pool })
  forced_at uid [] calm none e = (record { pool = st.pool; written = []; forwarded = [] }, refl, v)
  forced_at uid [] calm (some h) e = cut uid h false [] e
  forced_at uid (c ∷ mobile) calm none e = (_, refl, v)
  forced_at uid (c ∷ mobile) calm (some h) e = cut uid h true _ e

  -- `ForceUserOffline` succeeds.
  pub forced :
      (uid : ℕ) (mobile calm : Text)
      → (f : Forced) × (force_user_offline st.pool uid mobile calm ≡ some f)
        × Orderly (record st { pool = f.pool })
  unfolding force_user_offline
  forced uid mobile calm = forced_at uid mobile calm (lookup (st.pool).sesses uid) refl

  rebound-Changes : (s : UsrSession) (dev : ℕ) (bind : Bool) → Changes s (rebound s dev bind)
  rebound-Changes s dev true = record { socket = inr (refl, refl); user = inl refl }
  rebound-Changes s dev false = record { socket = inr (refl, refl); user = inl refl }

  bound_at :
      (dev user : ℕ) (bind : Bool) (o : Option ℕ)
      → lookup (st.pool).sesses user ≡ o
      → (q : UsrSessionPool) × (rebind_at st.pool dev bind o ≡ some q)
        × Orderly (record st { pool = q })
  bound_at dev user bind none e = (st.pool, refl, v)
  bound_at dev user bind (some h) e =
      let (s, found, _, _) = v.sound user h e in
      (
        record (st.pool) { heap = insert (st.pool).heap h (rebound s dev bind) },
        ap
            (λ o. o >>= λ x.
              some (record (st.pool) { heap = insert (st.pool).heap h (rebound x dev bind) }))
            found,
        touched-Orderly st v h s (rebound s dev bind) found (rebound-Changes s dev bind),
      )

  -- `UpdateIds` succeeds.
  pub bound :
      (dev user : ℕ) (bind : Bool)
      → (q : UsrSessionPool) × (usr_update_ids st.pool dev user bind ≡ some q)
        × Orderly (record st { pool = q })
  unfolding usr_update_ids
  bound dev user bind = bound_at dev user bind (lookup (st.pool).sesses user) refl
