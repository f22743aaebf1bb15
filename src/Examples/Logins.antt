-- ===== src/Examples/Logins.antt =====
-- A device and a device behind it that log in, and the theorems at them.
use erina.Base.{
  true, ◌≡◌, refl, arith, [], ◌∷◌, none, some, false, replicate, take, lookup, nat_key, ◌⊎◌,
}
use erina.Examples.{flip_cipher}
use erina.Examples.Children.{gateway, gateway-Paired}
use erina.Words.{Bytes, hex_encode}
use erina.Outcome.{ok}
use erina.Aes.{encrypt_np, blocks}
use erina.Session.Pool.{hex_value}
use erina.Session.Types.{Text, DevSession, Pool, new_pool}
use erina.Session.Children.{with_child}
use erina.Session.Children.Paired.{Paired, with_child-Paired}
use erina.Session.Dispatch.{login_of}
use erina.Session.Login.{unchanged, on_login}
use erina.Session.Login.Stages.{flat, LoginWorld, LoginAnswer, answered, Tables, LoginDone, pwd_of}
use erina.Session.Login.First
use erina.Session.Login.Child
use erina.Session.Login.Refused

-- The answer for the device 5, with a version, a code and a password.
abbrev answer : LoginAnswer
answer = record {
  status = some 0;
  id = some 5;
  dv = some (55 ∷ []);
  tmp = none;
  ctlpwd = some (replicate 32 49);
}

abbrev pub world : LoginWorld
world = record {
  cipher = flip_cipher;
  dw = false;
  timeout = 30;
  random = [];
  post = λ mac cookie. answered answer;
  mz_of = λ mac. replicate 16 9;
  users_of = λ id. some (8 ∷ 9 ∷ [], 8);
  sq = λ id. ok (replicate 16 3);
  code_of = λ mac. 49 ∷ 50 ∷ [];
}

abbrev pub body : Bytes
body = replicate 42 17

abbrev pub mac : Text
mac = hex_encode (take 8 body)

-- A session that has not logged in.
abbrev stranger : DevSession
stranger = record gateway { dev_id = 0; mac = mac }

abbrev tables_with : Pool → Tables
tables_with p = record { pool = p; mac2id = []; gmz = [] }

abbrev tables : Tables
tables = tables_with (record new_pool { heap = (1, stranger) ∷ [] })

abbrev pwd : Bytes
pwd = replicate 16 238

pwd_sealed : pwd_of world 5 answer.ctlpwd ≡ ok pwd
unfolding encrypt_np blocks hex_value
pwd_sealed = refl

abbrev welcome : First.Welcome world tables 1 stranger body answer 5 pwd
welcome = record {
  at_heap = refl;
  is_new = refl;
  own_mac = refl;
  whole = refl;
  over_udp = refl;
  posted = refl;
  fine = refl;
  named = refl;
  is_device = omega arith;
  sealed = pwd_sealed;
}

on_login-again_example :
    (d : LoginDone) × (on_login world tables 1 body ≡ ok d)
    × (d.text ≡ some (flat (First.out world tables 1 stranger body answer 5 pwd welcome)))
    × (lookup (d.tables.pool).sesses 5 ≡ some 1)
    × (lookup (d.tables.pool).sesses 6 ≡ none)
    × (lookup (d.tables.pool).heap 1
        ≡ some (First.known world tables 1 stranger body answer 5 pwd welcome))
    × (lookup (d.tables.pool).heap 2 ≡ none)
    × (login_of d.tables.pool 1 ≡ ok true)
    × (on_login world d.tables 1 body ≡ ok (unchanged d.tables d.text none))
on_login-again_example =
    First.on_login-again world tables 1 stranger body answer 5 pwd welcome 6 2 world body
      (omega arith) (omega arith) refl refl

-- The device 9 and another one, behind which is the device 5.
abbrev asking : DevSession
asking = gateway

abbrev other : DevSession
other = with_child (record gateway { dev_id = 12; sid = 51 ∷ [] }) 5 mac

other-Paired : Paired other
unfolding Paired
other-Paired =
    with_child-Paired (record gateway { dev_id = 12; sid = 51 ∷ [] }) 5 mac gateway-Paired refl refl

abbrev child_tables : Tables
child_tables = tables_with (record new_pool {
  heap = (1, asking) ∷ (2, other) ∷ [];
  sesses = (9, 1) ∷ (12, 2) ∷ (5, 2) ∷ [];
})

abbrev moves : Child.Moves world child_tables 1 asking body 2 other answer 5 pwd
moves = record {
  at_heap = refl;
  is_known = omega arith;
  other_mac = refl;
  whole = refl;
  posted = refl;
  fine = refl;
  named = refl;
  is_other = omega arith;
  sealed = pwd_sealed;
  routed = refl;
  before = refl;
  other_sid = refl;
  paired = gateway-Paired;
  before_paired = other-Paired;
  free = refl;
  new = refl;
}

on_login-Paired_example :
    (d : LoginDone) × (x : DevSession) × (y : DevSession) × (on_login world child_tables 1 body
      ≡ ok d)
    × (lookup (d.tables.pool).heap 1 ≡ some x)
    × (lookup (d.tables.pool).heap 2 ≡ some y)
    × (lookup x.devs 5 ≡ some mac)
    × (lookup y.devs 5 ≡ none)
    × Paired x
    × Paired y
    × (lookup (d.tables.pool).sesses 5 ≡ some 1)
    × (lookup (d.tables.pool).sesses 12 ≡ some 2)
on_login-Paired_example =
    Child.on_login-Paired world child_tables 1 asking body 2 other answer 5 pwd moves 12
      (omega arith)

abbrev first_done : LoginDone
first_done = First.result world tables 1 stranger body answer 5 pwd welcome

on_login-cases_example :
    Refused.Same tables 1 stranger first_done
    ⊎ Refused.Admitted world tables 1 stranger body first_done
on_login-cases_example =
    Refused.on_login-cases world tables 1 stranger first_done body refl
      (First.on_login_first world tables 1 stranger body answer 5 pwd welcome)
