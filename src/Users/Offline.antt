-- ===== src/Users/Offline.antt =====
-- `ForceUserOffline` of srv/rds.go and `logout` of srv/mws.go.
use erina.Base.{
  ℕ, ◌^◌, ltb, ◌&&◌, if◌then◌else◌, Bool, true, false, List, [], ◌∷◌, Option, none, some, lookup,
  insert, nat_key, text_same,
}
use erina.Base.Partial.{◌>>=◌}
use erina.Words.{Bytes}
use erina.Sentinel.Types.{Text}
use erina.Users.Types.{UsrSessionPool, close_ws, minus_one}
use erina.Users.Pool.{remove_session}

-- The table, what is written to a session, and what is forwarded to other gateways.
pub record Forced : Type 0 where
  pub pool : UsrSessionPool
  pub written : List (ℕ × Bytes)
  pub forwarded : List (ℕ × Bytes)

-- The session at `h` is closed; where redis names a mobile, it loses its user id.
abbrev pub cut_off : UsrSessionPool → ℕ → Bool → List (ℕ × Bytes) → Option Forced
cut_off p h named written = do
  s ← lookup p.heap h
  ws ← close_ws s.ws
  some (record {
    pool = record p {
      heap = insert p.heap h (record s { ws = ws; uid = if named then minus_one else s.uid });
    };
    written = written;
    forwarded = [];
  })

-- `mobile` is what redis knows of the user, empty on an error, and `calm` is the mobile that logs in.
abbrev pub force_at : UsrSessionPool → ℕ → Text → Text → Option ℕ → Option Forced
force_at p uid [] calm none = some (record { pool = p; written = []; forwarded = [] })
force_at p uid [] calm (some h) = cut_off p h false []
force_at p uid (c ∷ mobile) calm none = some (record {
  pool = p;
  written = [];
  forwarded = (uid, (if text_same calm (c ∷ mobile) then 10 else 11) ∷ []) ∷ [];
})
force_at p uid (c ∷ mobile) calm (some h) =
    cut_off p h true (if text_same calm (c ∷ mobile) then [] else (h, 12 ∷ []) ∷ [])

unfoldable pub force_user_offline : UsrSessionPool → ℕ → Text → Text → Option Forced
force_user_offline p uid mobile calm = force_at p uid mobile calm (lookup p.sesses uid)

-- `s.uid > 0` on the bit pattern.
abbrev pub is_positive : ℕ → Bool
is_positive uid = ltb 0 uid && ltb uid (2 ^ 63)

unfoldable pub logout : UsrSessionPool → ℕ → Option UsrSessionPool
unfolding remove_session
logout p h = do s ← lookup p.heap h; if is_positive s.uid then remove_session p h else some p
