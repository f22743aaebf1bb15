-- ===== src/Users/Lifecycle.antt =====
-- The life of users' sessions at one gateway: what `mwh` of srv/mws.go, with `AddSession`, `logout`,
-- `ForceUserOffline`, `OffliningUsr` and `UpdateIds`, does to the table, step by step.
use erina.Base.{ℕ, ◌≡◌, ◌==◌, if◌then◌else◌, Bool, true, false, none, some, lookup, insert, nat_key}
use erina.Outcome.{ok}
use erina.Aes.{Cipher}
use erina.Sentinel.Types.{Text}
use erina.Users.Types.{UsrSession, UsrSessionPool, opened, init_session_list}
use erina.Users.Pool.{add_session, usr_update_ids}
use erina.Users.Push.{Written, offlining_usr}
use erina.Users.Offline.{Forced, force_user_offline, logout, is_positive}
pub mod Orderly
pub mod Coming
pub mod Going
pub mod Adding
pub mod Steps
pub mod Reached

-- The table, and the sessions that have been added and have not run `logout` yet.
pub record Life : Type 0 where
  pub pool : UsrSessionPool
  pub live : ℕ → Bool

abbrev pub set_live : Life → ℕ → Bool → ℕ → Bool
set_live st h b k = if k == h then b else st.live k

abbrev pub no_life : Life
no_life = record { pool = init_session_list; live = λ h. false }

-- A new session, at a pointer that is not in use, with an open socket and the id of a user.
abbrev pub arrived : Life → ℕ → UsrSession → UsrSessionPool
arrived st h s = record (st.pool) { heap = insert (st.pool).heap h s }

pub data Step : Life → Life → Type 0 where
  enters :
      (st : Life) (h : ℕ) (s : UsrSession) (q : UsrSessionPool)
      → lookup (st.pool).heap h ≡ none
      → s.ws ≡ opened
      → is_positive s.uid ≡ true
      → add_session (arrived st h s) h ≡ some q
      → Step st (record { pool = q; live = set_live st h true })
  leaves :
      (st : Life) (h : ℕ) (q : UsrSessionPool)
      → st.live h ≡ true
      → logout st.pool h ≡ some q
      → Step st (record { pool = q; live = set_live st h false })
  forces :
      (st : Life) (uid : ℕ) (mobile calm : Text) (f : Forced)
      → force_user_offline st.pool uid mobile calm ≡ some f
      → Step st (record st { pool = f.pool })
  kicks :
      (st : Life) (c : Cipher) (now uid : ℕ) (q : UsrSessionPool) (w : Written)
      → offlining_usr c now st.pool uid ≡ ok (q, w)
      → Step st (record st { pool = q })
  binds :
      (st : Life) (dev user : ℕ) (bind : Bool) (q : UsrSessionPool)
      → usr_update_ids st.pool dev user bind ≡ some q
      → Step st (record st { pool = q })

pub data Reachable : Life → Type 0 where
  starts : Reachable no_life
  goes : (st st' : Life) → Reachable st → Step st st' → Reachable st'
