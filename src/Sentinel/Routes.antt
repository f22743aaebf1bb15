-- ===== src/Sentinel/Routes.antt =====
-- The table of sentinels and the routes of users: `add`, `doesExsist` and `update` of
-- srv/sentinel.go, `handleOnOff` of srv/rds.go.
use erina.Base.{
  zero, suc, ℕ, ◌+◌, ◌-◌, ◌*◌, ◌%◌, ◌^◌, ◌==◌, leb, not, ◌&&◌, if◌then◌else◌, Bool, true, false,
  List, [], ◌∷◌, Option, none, some, Map, lookup, insert, remove, nat_key, text_key, text_same,
}
use erina.Base.Partial.{◌>>=◌}
use erina.Sentinel.Types.{Text, Sentinel, SentinelMgr, host_of}

-- `strings.Split` at one character.
abbrev pub onto_first : ℕ → List Text → List Text
onto_first x [] = (x ∷ []) ∷ []
onto_first x (t ∷ ts) = (x ∷ t) ∷ ts

unfoldable pub split_at : ℕ → Text → List Text
split_at c [] = [] ∷ []
split_at c (x ∷ xs) = let rest = split_at c xs in if x == c then [] ∷ rest else onto_first x rest

-- The value of decimal digits, of which there is at least one.
unfoldable pub digits : ℕ → Text → Option ℕ
digits n [] = some n
digits n (d ∷ ds) =
    let rest = digits (n * 10 + (d - 48)) ds in if leb 48 d && leb d 57 then rest else none

abbrev pub number : Text → Option ℕ
number [] = none
number (d ∷ ds) = digits 0 (d ∷ ds)

-- `strconv.ParseInt(text, 10, 64)`: the value, as its bit pattern, and whether there is no error. An
-- error of syntax gives zero, a number out of range the nearest one.
abbrev pub positive : Option ℕ → ℕ × Bool
positive none = (0, false)
positive (some n) = if leb n (2 ^ 63 - 1) then (n, true) else (2 ^ 63 - 1, false)

abbrev pub negative : Option ℕ → ℕ × Bool
negative none = (0, false)
negative (some n) = if leb n (2 ^ 63) then ((2 ^ 64 - n) % 2 ^ 64, true) else (2 ^ 63, false)

unfoldable pub parse_int : Text → ℕ × Bool
unfolding digits
parse_int [] = (0, false)
parse_int (c ∷ cs) =
    if c == 45
    then negative (number cs)
    else (if c == 43 then positive (number cs) else positive (number (c ∷ cs)))

abbrev pub field_at : List Text → ℕ → Option Text
field_at [] i = none
field_at (t ∷ ts) zero = some t
field_at (t ∷ ts) (suc i) = field_at ts i

-- `usr2sentinel[uid] = host`, or the deletion.
abbrev pub routed : SentinelMgr → ℕ → Text → Text → SentinelMgr
routed g uid host online =
    if text_same online (49 ∷ [])
    then record g { usr2sentinel = insert g.usr2sentinel uid host }
    else record g { usr2sentinel = remove g.usr2sentinel uid }

-- `handleOnOff`; `none` is the panic on a missing field.
unfoldable pub handle_on_off : SentinelMgr → Text → Option SentinelMgr
unfolding split_at parse_int
handle_on_off g bytes = do
  let fields = split_at 124 bytes
  user ← field_at fields 0
  host ← field_at fields 1
  online ← field_at fields 2
  some (routed g (parse_int user).0 host online)

abbrev pub listed : Text → List Text → Bool
listed a [] = false
listed a (b ∷ leaves) = if text_same a b then true else listed a leaves

module _ (dial : Text → Bool) (own : Text) (t : ℕ) where
  abbrev pub dialed : SentinelMgr → Text → Option Sentinel → SentinelMgr
  dialed g leaf (some s) = g
  dialed g leaf none =
      if dial leaf
      then record g {
        sentinels =
            insert g.sentinels leaf (record { adr = leaf; kind = t; con = true; queue = true });
      }
      else g

  -- The first loop of `update`: connections to new addresses, but not to its own.
  unfoldable pub connect : SentinelMgr → Text → SentinelMgr
  connect g leaf = if text_same leaf own then g else dialed g leaf (lookup g.sentinels leaf)

  abbrev pub connect_all : SentinelMgr → List Text → SentinelMgr
  unfolding connect
  connect_all g [] = g
  connect_all g (leaf ∷ leaves) = connect_all (connect g leaf) leaves

-- The second loop: what is not listed any more is closed and deleted. `none` is the panic on closing a
-- nil channel or a nil connection, as `Forward` leaves when it cannot connect again.
unfoldable pub disconnect : ℕ → List Text → Map Text Sentinel → Option (Map Text Sentinel)
disconnect t leaves [] = some []
disconnect t leaves ((a, s) ∷ m) =
    let rest = disconnect t leaves m in
    if (s.kind == t) && not (listed a leaves)
    then (if s.queue && s.con then rest else none)
    else (rest >>= λ kept. some ((a, s) ∷ kept))

unfoldable pub update : (Text → Bool) → Text → SentinelMgr → List Text → ℕ → Option SentinelMgr
unfolding connect disconnect
update dial own g leaves t = do
  let g1 = connect_all dial own t g leaves
  kept ← disconnect t leaves g1.sentinels
  some (record g1 { sentinels = kept })

-- How `doesExsist` ends. It calls `add` with the lock held, which `add` takes again when it has made
-- a connection.
pub data Existing : Type 0 where
  exists : Bool → SentinelMgr → Existing
  deadlock : Existing

-- With the server that redis names for the id, the outcome of the four zero bytes written to its
-- sentinel and of a new connection. The route that is stored is the outer `srv`, which is never set.
abbrev pub exists_at : SentinelMgr → ℕ → Text → Bool → Bool → Option Sentinel → Existing
exists_at g id srv ping dial (some s) =
    if ping
    then exists true (record g { usr2sentinel = insert g.usr2sentinel id [] })
    else (if dial then deadlock else exists false (record g { sentinels = remove g.sentinels srv }))
exists_at g id srv ping dial none = if dial then deadlock else exists false g

abbrev pub exists_unrouted : SentinelMgr → ℕ → Text → Bool → Bool → Existing
exists_unrouted g id [] ping dial = exists false g
exists_unrouted g id (c ∷ srv) ping dial =
    exists_at g id (c ∷ srv) ping dial (lookup g.sentinels (c ∷ srv))

unfoldable pub does_exist : SentinelMgr → ℕ → Text → Bool → Bool → Existing
does_exist g id srv ping dial = elim (lookup g.sentinels (host_of g id)) [
  | none ↦ exists_unrouted g id srv ping dial
  | some peer ↦ if peer.con then exists true g else exists_unrouted g id srv ping dial
]
