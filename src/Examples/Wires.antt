-- ===== src/Examples/Wires.antt =====
-- Frames on a connection that gives at most five bytes at a time, and between two gateways.
use erina.Base.{
  not, ◌&&◌, text_same, Bool-cases, sym, ℕ, ◌+◌, ◌≤◌, ◌≡◌, refl, arith, min, true, false, [], ◌∷◌,
  ◌++◌, some, length, lookup, inl, inr, nat_key, text_key,
}
use erina.Sentinel.Routes.{update}
use erina.Wire.Stream.{Net, read}
use erina.Wire.Gateway.{tcp_frame, read_frame}
use erina.Wire.Resync.{Holds}
use erina.Sentinel.Types.{Text, Sentinel, SentinelMgr}
use erina.Sentinel.Forward.{Line, forward, Went, went, Connected}
use erina.Sentinel.Receive.{closed, monitor}
use erina.Sentinel.Delivery.{bytes_to}
use erina.Wire.Resync
use erina.Wire.Delivery
use erina.Sentinel.Delivery as Routed
use erina.Sentinel.Bounds
use erina.Sentinel.Updated

abbrev slow : Net
slow = record {
  got = λ want rest. min 5 (min want (length rest));
  got_le = λ want rest. omega arith;
  got_pos = λ want rest h. omega arith;
}

read_frame-tcp_frame_example :
    read_frame slow ((1 ∷ (2 ∷ [])) ++ (tcp_frame (7 ∷ (0xfa ∷ [])) ++ (9 ∷ [])))
    ≡ read (7 ∷ (0xfa ∷ [])) (9 ∷ [])
read_frame-tcp_frame_example =
    Delivery.read_frame-tcp_frame slow (1 ∷ (2 ∷ [])) (7 ∷ (0xfa ∷ [])) (9 ∷ [])
      (omega arith, (omega arith, _)) (omega arith)

read_frame-Holds_example :
    Holds (λ p left. length p + length left + 10 ≤ 3) (read_frame slow (1 ∷ (2 ∷ (3 ∷ []))))
read_frame-Holds_example = Resync.read_frame-Holds slow (1 ∷ (2 ∷ (3 ∷ [])))

-- Two users, on the gateways "a" and "b".
abbrev at : ℕ → Sentinel
at c = record { adr = c ∷ []; kind = 0; con = true; queue = true }

abbrev gateways : SentinelMgr
gateways = record {
  sentinels = (97 ∷ [], at 97) ∷ ((98 ∷ [], at 98) ∷ []);
  usr2sentinel = (5, 97 ∷ []) ∷ ((6, 98 ∷ []) ∷ []);
}

abbrev good : Line
good = record { writes = λ adr n. true; dials = λ adr n. false }

gateways-Connected : Connected gateways
gateways-Connected a s e = elim (Bool-cases (text_same a (97 ∷ []))) [
  | inl h ↦ ground (arith, sym (rw h at e))
  | inr h ↦ ground arith
]

monitor-forward_example :
    (d : Went) × (forward good 1 gateways 0 (5 ∷ (6 ∷ (5 ∷ []))) (1 ∷ []) ≡ went d)
    × (d.table ≡ gateways)
    × (monitor (bytes_to (97 ∷ []) d.frames) ≡ ((5, 1 ∷ []) ∷ ((5, 1 ∷ []) ∷ []), closed))
monitor-forward_example =
    Routed.monitor-forward good 0 gateways 0 (5 ∷ (6 ∷ (5 ∷ []))) (1 ∷ []) (97 ∷ []) (λ adr n. refl)
      gateways-Connected (omega arith, (omega arith, (omega arith, _))) (omega arith)

-- A network on which the gateway "a" is not there any more.
abbrev broken : Line
broken = record { writes = λ adr n. not (text_same adr (97 ∷ [])); dials = λ adr n. false }

gateways_closable :
    (a : Text) (s : Sentinel) → lookup gateways.sentinels a ≡ some s → (s.queue && s.con) ≡ true
gateways_closable a s e = elim (Bool-cases (text_same a (97 ∷ []))) [
  | inl h ↦ ground (arith, sym (rw h at e))
  | inr h ↦ ground arith
]

update-updated_example :
    (g' : SentinelMgr) × (update (λ adr. true) (100 ∷ []) gateways ((97 ∷ []) ∷ ((99 ∷ []) ∷ [])) 0
      ≡ some g')
    × (g'.usr2sentinel ≡ gateways.usr2sentinel)
    × ((a : Text)
        → lookup g'.sentinels a
          ≡ Updated.updated
              (λ adr. true)
              (100 ∷ [])
              0
              ((97 ∷ []) ∷ ((99 ∷ []) ∷ []))
              a
              (lookup gateways.sentinels a))
update-updated_example =
    Updated.update-updated (λ adr. true) (100 ∷ []) 0 gateways ((97 ∷ []) ∷ ((99 ∷ []) ∷ []))
      (refl, (refl, _)) λ a s found dead. gateways_closable a s found
