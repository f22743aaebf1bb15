-- ===== src/Users/Pool.antt =====
-- `isBinded`, `calcDestIds`, `AddSession`, `RemoveSession` and `UpdateIds` of srv/ms.go. `none` is a
-- panic on a nil pointer.
use erina.Base.{
  ℕ, ◌==◌, if◌then◌else◌, Bool, true, false, List, [], ◌∷◌, ◌++◌, Option, none, some, lookup,
  insert, remove, nat_key,
}
use erina.Base.Partial.{◌>>=◌}
use erina.Session.Users.{unbind}
use erina.Users.Types.{UsrSession, UsrSessionPool, Ws, no_ws, opened, shut, minus_one, close_ws}

abbrev pub is_bound : List ℕ → ℕ → Bool
is_bound [] id = false
is_bound (v ∷ devs) id = if v == id then true else is_bound devs id

-- For a device that the session does not list, `GetDevByUsr` is asked. It answers the devices, which
-- the session keeps, or fails. An empty result stands for nil.
abbrev pub ask_devs : Option (List ℕ) → UsrSession → ℕ → UsrSession × List ℕ
ask_devs none s to = (s, [])
ask_devs (some devs) s to = (record s { devs = devs }, if is_bound devs to then to ∷ [] else [])

unfoldable pub usr_dest_ids : Option (List ℕ) → UsrSession → ℕ → UsrSession × List ℕ
usr_dest_ids found s to =
    if to == 0
    then (s, s.devs)
    else (if is_bound s.devs to then (s, to ∷ []) else ask_devs found s to)

-- The new session takes the place of another one, which is closed and loses its user id.
abbrev pub supersede : UsrSessionPool → ℕ → Option UsrSessionPool
supersede p a = do
  other ← lookup p.heap a
  ws ← close_ws other.ws
  some (record p { heap = insert p.heap a (record other { ws = ws; uid = minus_one }) })

abbrev pub supersede_at : UsrSessionPool → Option ℕ → Option UsrSessionPool
supersede_at p none = some p
supersede_at p (some a) = supersede p a

unfoldable pub add_session : UsrSessionPool → ℕ → Option UsrSessionPool
add_session p h = do
  s ← lookup p.heap h
  p1 ← supersede_at p (lookup p.sesses s.uid)
  entered ← lookup p1.heap h
  some (record p1 { sesses = insert p1.sesses entered.uid h })

abbrev pub close_if : Ws → Ws
close_if no_ws = no_ws
close_if opened = shut
close_if shut = shut

unfoldable pub remove_session : UsrSessionPool → ℕ → Option UsrSessionPool
remove_session p h = do
  s ← lookup p.heap h
  some (record {
    heap = insert p.heap h (record s { ws = close_if s.ws });
    sesses = remove p.sesses s.uid;
  })

-- `UpdateIds`.
abbrev pub rebound : UsrSession → ℕ → Bool → UsrSession
rebound s dev true = record s { devs = s.devs ++ (dev ∷ []) }
rebound s dev false = record s { devs = unbind dev s.devs }

abbrev pub rebind_at : UsrSessionPool → ℕ → Bool → Option ℕ → Option UsrSessionPool
rebind_at p dev bind none = some p
rebind_at p dev bind (some h) = do
  s ← lookup p.heap h
  some (record p { heap = insert p.heap h (rebound s dev bind) })

unfoldable pub usr_update_ids : UsrSessionPool → ℕ → ℕ → Bool → Option UsrSessionPool
usr_update_ids p dev user bind = rebind_at p dev bind (lookup p.sesses user)
