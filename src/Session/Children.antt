-- ===== src/Session/Children.antt =====
-- The devices behind a device: `onSL`, `onLogout`, `subdevlogout` and `devLogout` of
-- srv/devbusi.go. A body comes with what
-- stands behind it in its array, which `body[0:8]` reaches; `none` is the panic on one that is too short.
pub mod Paired
pub mod Routes
use erina.Base.{
  ℕ, ◌==◌, List, [], ◌∷◌, ◌++◌, Option, none, some, Map, lookup, insert, remove, take,
  if◌then◌else◌, nat_key, text_key, Bool,
}
use erina.Base.Partial.{◌>>=◌}
use erina.Words.{Bytes, slice, to_le, hex_encode}
use erina.Outcome.{Outcome, ok, err, panic, Error}
use erina.Session.Types.{Text, DevSession, Pool}

-- What is told to redis, kafka and the users, in order.
pub data Event : Type 0 where
  logged_in : ℕ → Text → Event
  logged_out : ℕ → Text → Event
  route_set : ℕ → Event
  route_dropped : ℕ → Event
  address_set : ℕ → Event
  address_dropped : ℕ → Event
  users_told : ℕ → Bool → Event
  published : ℕ → Event
  session_published : Text → Event
  kill_sent : ℕ → Event

-- A handler's reply, the session and the table that it leaves, and what it told.
pub record Done : Type 0 where
  pub text : Option Bytes
  pub error : Option Error
  pub session : DevSession
  pub pool : Pool
  pub events : List Event

-- `sess.devs[id] = mac` and `sess.macs[mac] = id`.
abbrev pub with_child : DevSession → ℕ → Text → DevSession
with_child s id mac = record s { devs = insert s.devs id mac; macs = insert s.macs mac id }

abbrev pub without_child : DevSession → ℕ → Text → DevSession
without_child s id mac = record s { devs = remove s.devs id; macs = remove s.macs mac }

-- The id of a MAC: from the table `MAC2ID`, or as `getDevIdByMac` answers.
unfoldable pub resolve : Map Text ℕ → (Text → Outcome ℕ) → Text → Outcome ℕ
resolve mac2id asks mac = elim (lookup mac2id mac) [ none ↦ asks mac | some id ↦ ok id ]

-- `onSL` for a device that the session `s`, at the pointer `h`, does not list.
unfoldable pub enlist : DevSession → ℕ → Pool → Text → Bytes → Outcome ℕ → Option Done
enlist s h p mac out panic = none
enlist s h p mac out (err e) =
    some (record { text = none; error = some e; session = s; pool = p; events = [] })
enlist s h p mac out (ok id) = some (record {
  text = some out;
  error = none;
  session = with_child s id mac;
  pool = record p { sesses = insert p.sesses id h };
  events =
      published id
      ∷ logged_in id mac
      ∷ address_set id
      ∷ route_set id
      ∷ users_told id Bool.false
      ∷ [];
})

-- `onSL` behind the reading of the MAC, by what the session lists for it.
unfoldable pub sl_for : DevSession → ℕ → Pool → Bytes → Option ℕ → Outcome ℕ → Option Done
sl_for s h p front none resolved = enlist s h p (hex_encode front) (to_le 4 0 ++ front) resolved
sl_for s h p front (some id) resolved =
    some (record {
      text = some (to_le 4 0 ++ front);
      error = none;
      session = s;
      pool = p;
      events = [];
    })

unfoldable pub on_sl : Map Text ℕ → (Text → Outcome ℕ) → DevSession → ℕ → Pool → Bytes → Option Done
on_sl mac2id asks s h p body = do
  front ← slice body 0 8
  sl_for s h p front (lookup s.macs (hex_encode front)) (resolve mac2id asks (hex_encode front))

-- What `onLogout` and `subdevlogout` tell.
abbrev pub farewell : ℕ → Text → List Event
farewell id mac =
    logged_out id mac ∷ route_dropped id ∷ address_dropped id ∷ users_told id Bool.true ∷ []

-- `onLogout` behind the reading of the MAC. The route to the device in the table's `Sesses` stays.
unfoldable pub logout_for : DevSession → Pool → Bytes → Option ℕ → Done
logout_for s p front none = record {
  text = some (to_le 4 1 ++ front);
  error = none;
  session = s;
  pool = p;
  events = [];
}
logout_for s p front (some id) = record {
  text = some (to_le 4 0 ++ front);
  error = none;
  session = without_child s id (hex_encode front);
  pool = p;
  events = farewell id (hex_encode front);
}

unfoldable pub on_logout : DevSession → Pool → Bytes → Option Done
on_logout s p body = do
  front ← slice body 0 8
  some (logout_for s p front (lookup s.macs (hex_encode front)))

-- `subdevlogout`, by what the session lists for the device.
unfoldable pub drop_child : DevSession → Pool → ℕ → Option Text → Done
drop_child s p id none = record { text = none; error = none; session = s; pool = p; events = [] }
drop_child s p id (some mac) = record {
  text = none;
  error = none;
  session = without_child s id mac;
  pool = record p { sesses = remove p.sesses id; macs = remove p.macs mac };
  events = farewell id mac;
}

unfoldable pub subdevlogout : DevSession → Pool → ℕ → Done
subdevlogout s p id = drop_child s p id (lookup s.devs id)

-- The loop of `devLogout` over the devices listed.
unfoldable pub drop_children : Map ℕ Text → DevSession → Pool → List Event → Done
drop_children [] s p events = record {
  text = none;
  error = none;
  session = s;
  pool = p;
  events = events;
}
drop_children ((id, mac) ∷ devs) s p events =
    drop_children devs (without_child s id mac)
      (record p { sesses = remove p.sesses id; macs = remove p.macs mac })
      (events ++ (logged_out id mac ∷ route_dropped id ∷ []))

-- The last part of `devLogout`; `killed` is `beKilled`.
unfoldable pub drop_device : DevSession → Bool → Done → Done
drop_device s killed d = record d {
  pool = record (d.pool) {
    sesses = remove (d.pool).sesses s.dev_id;
    sids = remove (d.pool).sids s.sid;
    mac_sid = remove (d.pool).mac_sid s.mac;
    macs = remove (d.pool).macs s.mac;
  };
  events =
      d.events
      ++ ((if killed then [] else route_dropped s.dev_id ∷ []) ++ (logged_out s.dev_id s.mac ∷ []));
}

unfoldable pub dev_logout : DevSession → Bool → Pool → Done
dev_logout s killed p =
    if s.dev_id == 0
    then record { text = none; error = none; session = s; pool = p; events = [] }
    else drop_device s killed (drop_children s.devs s p (users_told s.dev_id Bool.true ∷ []))
