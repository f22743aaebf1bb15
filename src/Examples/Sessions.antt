-- ===== src/Examples/Sessions.antt =====
-- Sample rules, sessions and tables, and the theorems at them.
use erina.Base.{
  ℕ, ◌+◌, ◌%◌, ◌≡◌, ◌≢◌, ◌⊎◌, refl, arith, [], ◌∷◌, Option, none, some, replicate, All, lookup,
  insert, nat_key, text_key,
}
use erina.Words.{Bytes}
use erina.Outcome.{Outcome, ok, err, wrong_sequence, lookup_failed}
use erina.Ld2.{written, CfgLd2, new_cfg, b2o, o2b}
use erina.Ld2.RoundTrip.{Writable, ReadBack}
use erina.Session.Types.{Text, DevSession, Pool, new_pool}
use erina.Session.Replay.{verify_pack, after_packs}
use erina.Session.Pool.{new_dev_session, add, del_session_by_mac, Reply, on_sess}
use erina.Session.Pool.Consistent.{Consistent, IsSid, add-Consistent, new_pool-Consistent}
use erina.Session.Pool.Opened.{Opened}
use erina.Session.Users.{calc_dest_ids, update_ids, Allowed, count}
use erina.Ld2.RoundTrip
use erina.Session.Replay
use erina.Session.Pool.Opened
use erina.Session.Pool.Removal
use erina.Session.Users

abbrev rule : CfgLd2
rule = record (new_cfg []) {
  version = 3;
  ldtype = 1;
  and_or = 1;
  dev_type = 1 ∷ 2 ∷ 3 ∷ 4 ∷ [];
  alarm = (5 ∷ 6 ∷ []) ∷ (7 ∷ 8 ∷ []) ∷ [];
  action_length = 2;
  action_pre_location = 1;
  action_ctn = 9 ∷ 10 ∷ [];
}

rule-Writable : Writable rule
unfolding written
rule-Writable = ground arith

b2o-o2b_example :
    (m' : CfgLd2) × (n : CfgLd2) × (o2b rule ≡ some m')
    × (b2o (new_cfg m'.final) ≡ some n)
    × ReadBack rule n
    × (n.final ≡ m'.final)
b2o-o2b_example = RoundTrip.b2o-o2b rule rule-Writable

abbrev found : Option CfgLd2 → Outcome Bytes
found none = err lookup_failed
found (some m) = ok m.final

abbrev request : Bytes
request = replicate 6 1

accepted : verify_pack 3 5 ≡ ok 5
unfolding verify_pack
accepted = refl

verify_pack-replayed_example : verify_pack (after_packs 5 (2 ∷ 9 ∷ [])) 5 ≡ err wrong_sequence
verify_pack-replayed_example =
    Replay.verify_pack-replayed 3 5 5 (2 ∷ 9 ∷ []) (omega arith) (ground arith) accepted

verify_pack-next_example : verify_pack 65533 ((65533 + 4) % 65536) ≡ ok ((65533 + 4) % 65536)
verify_pack-next_example = Replay.verify_pack-next 65533 4 (omega arith) (omega arith) (omega arith)

abbrev mac : Text
mac = 49 ∷ 50 ∷ []

abbrev random : Bytes
random = replicate 8 17

abbrev body : Bytes
body = replicate 48 0

random-IsSid : IsSid random
random-IsSid = ground arith

on_sess-Opened_example :
    (r : Reply) × (sid : Bytes) × (g : ℕ) × (on_sess new_pool mac body [] 1 random ≡ some r)
    × Opened mac r sid g
    × Consistent r.pool
on_sess-Opened_example =
    Opened.on_sess-Opened new_pool mac body [] 1 random new_pool-Consistent refl refl refl
      random-IsSid

device : DevSession
unfolding new_dev_session
device = record (new_dev_session [] random) { mac = mac }

abbrev table : Pool
table = record new_pool { heap = insert [] 1 device }

table-Consistent : Consistent table
table-Consistent m h e = absurd (ground arith)

full-Consistent : Consistent (add table 1 device)
unfolding device new_dev_session
full-Consistent = add-Consistent table 1 device random table-Consistent refl refl random-IsSid refl

there : lookup (add table 1 device).macs mac ≡ some 1
unfolding add device
there = refl

del_session_by_mac-Consistent_example :
    (s : DevSession) × (q : Pool) × (lookup (add table 1 device).heap 1 ≡ some s)
    × (del_session_by_mac (add table 1 device) mac ≡ q)
    × (lookup q.macs mac ≡ none)
    × (lookup q.sids s.sid ≡ none)
    × ((m : Text) → mac ≢ m → lookup q.macs m ≡ lookup (add table 1 device).macs m)
    × Consistent q
del_session_by_mac-Consistent_example =
    Removal.del_session_by_mac-Consistent (add table 1 device) mac 1 full-Consistent there

abbrev user : ℕ
user = 5

calc_dest_ids-Allowed_example :
    All
      (Allowed (calc_dest_ids (some (4 ∷ 5 ∷ [], 4)) device user).0)
      (calc_dest_ids (some (4 ∷ 5 ∷ [], 4)) device user).1
    × ((user ≡ 0) ⊎ All (λ id. id ≡ user) (calc_dest_ids (some (4 ∷ 5 ∷ [], 4)) device user).1)
calc_dest_ids-Allowed_example = Users.calc_dest_ids-Allowed (some (4 ∷ 5 ∷ [], 4)) device user
