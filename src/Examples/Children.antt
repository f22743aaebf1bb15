-- ===== src/Examples/Children.antt =====
-- A session with a device behind it, and the theorems at it.
use erina.Base.{◌≡◌, inr, arith, [], ◌∷◌, none, false, replicate, nat_key, text_key, lookup}
use erina.Words.{Bytes, hex_encode}
use erina.Session.Types.{Text, DevSession, new_pool}
use erina.Session.Children.{with_child, dev_logout}
use erina.Session.Children.Paired.{Paired}
use erina.Session.Children.Routes

abbrev pub gateway : DevSession
gateway = record {
  sid = 50 ∷ [];
  dev_id = 9;
  udp_adr = [];
  owner = 0;
  mac = 49 ∷ [];
  users = [];
  devs = [];
  macs = [];
  sidx = 0;
  ridx = 0;
  mz = none;
  output = [];
}

pub gateway-Paired : Paired gateway
unfolding Paired
gateway-Paired id mac = (λ e. absurd (ground arith), λ e. absurd (ground arith))

abbrev body : Bytes
body = replicate 8 17

abbrev child : Text
child = hex_encode body

abbrev session : DevSession
session = with_child gateway 4 child

dev_logout-sesses_example :
    (lookup (dev_logout session false new_pool).pool.sesses 4 ≡ none)
    × (lookup (dev_logout session false new_pool).pool.sids session.sid ≡ none)
    × (lookup (dev_logout session false new_pool).pool.macs session.mac ≡ none)
dev_logout-sesses_example =
    Routes.dev_logout-sesses session false new_pool 4 (omega arith) (inr λ e. absurd (ground arith))
