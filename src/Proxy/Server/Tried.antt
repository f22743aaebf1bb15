-- ===== src/Proxy/Server/Tried.antt =====
-- One choice of a gateway, and what follows it.
use erina.Base.{
  ℕ, ◌^◌, ◌<◌, ◌≡◌, ◌==◌, refl, ap, ◌∙◌, arith, [], ◌∷◌, ◌++◌, Option, none, some, Bool, true,
  false, Bool-cases, inl, inr, All, List, ◌||◌, text_same, subst,
}
use erina.Words.{Bytes, of_le}
use erina.Outcome.{ok}
use erina.Aes.{Cipher, IsCipher}
use erina.Sentinel.Types.{Text}
use erina.Queue.Types.{Queue}
use erina.Queue.Cells.{Cells, Linked, first, node_at}
use erina.Queue.Cursor.{next_at_node}
use erina.Queue.Search.{cursor_of, next, next_at}
use erina.Proxy.Server.{
  reply_to, Draws, Choice, choose_udp_server, has_prefix, wanted, sent, choosing,
}
use erina.Proxy.Server.Reply.{Usable, Fits, reply_to-naming}

-- The url in a node begins with the prefix.
abbrev pub begins : Text → Option Text → Bool
begins pre none = false
begins pre (some addr) = has_prefix addr pre

abbrev pub any_begins : Text → Cells Text → Bool
any_begins pre [] = false
any_begins pre ((_, v) ∷ xs) = begins pre v || any_begins pre xs

-- Each node holds a url that fits in a frame.
abbrev pub AllFit : Cells Text → Type 0
AllFit = All (λ x. (addr : Text) × (x.1 ≡ some addr) × Fits addr)

-- The cursor is on a node of the row, or on none.
pub record Sits (q : Queue Text) (xs : Cells Text) : Type 0 where
  pub front : Cells Text
  pub back : Cells Text
  pub whole : xs ≡ front ++ back
  pub at : q.cursor ≡ first back none

no_prefix : {x : ℕ} {pre : Text} → ¬ (some (x ∷ pre) ≡ some [])
no_prefix e = ground arith

pub wanted_lem : (t : ℕ) → ¬ (wanted t ≡ some [])
wanted_lem t w = elim (Bool-cases (t == 1)) [
  | inl e ↦ absurd (no_prefix (rw e at w))
  | inr e ↦ elim (Bool-cases (t == 2)) [
    | inl f ↦ absurd (no_prefix (rw (e, f) at w))
    | inr f ↦ absurd (ground arith)
  ]
]

not_empty :
    (t : ℕ) (pre a : Text) → wanted t ≡ some pre → has_prefix a pre ≡ true → text_same a [] ≡ false
not_empty t [] [] w h = absurd (wanted_lem t w)
not_empty t (x ∷ pre) [] w h = absurd (ground arith)
not_empty t pre (y ∷ a) w h = refl

pub All-back : (xs ys : Cells Text) → AllFit (xs ++ ys) → AllFit ys
All-back [] ys h = h
All-back (x ∷ xs) ys (_, h) = All-back xs ys h

module _ (c : Cipher) (law : IsCipher c) (mac : Bytes) (id_fits : of_le mac < 2 ^ 64) (t : ℕ)
    (pre : Text) (w : wanted t ≡ some pre) where
  -- One choice, with the cursor on a node.
  pub chosen_at :
      (d : Draws) (q : Queue Text) (p : ℕ) (prev nxt : Option ℕ) (a : Text)
      → Usable d
      → Fits a
      → cursor_of q.cursor q.head ≡ some p
      → q.cell p ≡ some (node_at prev nxt (some a))
      → (out : Bytes) × (choose_udp_server c d mac q
          ≡ ok (record { queue = record q { cursor = nxt }; output = some out; addr = a }))
        × (reply_to c d mac a ≡ ok out)
  unfolding choose_udp_server
  chosen_at d q p prev nxt a u f at here =
      let (out, _, replies, _, _, _) = reply_to-naming c law d u mac a id_fits f in
      (out, rw (next_at_node q p (node_at prev nxt (some a)) at here) (rw replies refl), replies)

  -- With the cursor on other node of an empty queue.
  pub chosen_none :
      (d : Draws) (q : Queue Text)
      → cursor_of q.cursor q.head ≡ none
      → choose_udp_server c d mac q
        ≡ ok (record { queue = record q { cursor = none }; output = none; addr = [] })
  unfolding choose_udp_server next next_at
  chosen_none d q at = rw at refl

  pub hit :
      (d : Draws) (ds : List Draws) (q q1 : Queue Text) (out : Bytes) (a : Text)
      → choose_udp_server c d mac q ≡ ok (record { queue = q1; output = some out; addr = a })
      → has_prefix a pre ≡ true
      → choosing c (d ∷ ds) mac t q ≡ ok (sent q1 (some out) a)
  unfolding choosing
  hit d ds q q1 out a e h = rw e (rw (w, h, not_empty t pre a w h) refl)

  pub miss :
      (d : Draws) (ds : List Draws) (q : Queue Text) (r : Choice)
      → choose_udp_server c d mac q ≡ ok r
      → has_prefix r.addr pre ≡ false
      → choosing c (d ∷ ds) mac t q ≡ choosing c ds mac t r.queue
  unfolding choosing
  miss d ds q r e h = rw e (rw (w, h) refl)

  -- One node whose url is not wanted.
  pub pass_one :
      (d : Draws) (ds : List Draws) (ys : Cells Text) (q : Queue Text) (prev : Option ℕ) (p : ℕ)
      (v : Option Text)
      → Usable d
      → Linked q.cell prev ((p, v) ∷ ys) none
      → AllFit ((p, v) ∷ ys)
      → cursor_of q.cursor q.head ≡ some p
      → begins pre v ≡ false
      → choosing c (d ∷ ds) mac t q ≡ choosing c ds mac t (record q { cursor = first ys none })
  pass_one d ds ys q prev p v u (here, l) ((a, is, f), fit) at other =
      let (out, chooses, _) =
        chosen_at d q p prev (first ys none) a u f at
          (here ∙ ap (λ o. some (node_at prev (first ys none) o)) is) in
      miss d ds q
        (record { queue = record q { cursor = first ys none }; output = some out; addr = a })
        chooses (subst (λ o. begins pre o ≡ false) is other)
