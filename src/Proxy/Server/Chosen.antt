-- ===== src/Proxy/Server/Chosen.antt =====
-- How often `goto again` of proxy/server.go is taken.
use erina.Base.{
  ◌*◌, ℕ, ◌+◌, ◌^◌, ◌<◌, ◌≤◌, ◌≡◌, refl, ap, ◌∙◌, arith, [], ◌∷◌, length, Option, none, some, true,
  false, Bool-cases, inl, inr, All, List, subst, length-append,
}
use erina.Words.{Bytes, of_le}
use erina.Outcome.{ok}
use erina.Aes.{Cipher, IsCipher}
use erina.Sentinel.Types.{Text}
use erina.Queue.Types.{Queue}
use erina.Queue.Cells.{Cells, Linked, first, node_at, last, Linked-split}
use erina.Queue.Search.{cursor_of}
use erina.Queue.Laws.{Represents}
use erina.Proxy.Server.{reply_to, Draws, has_prefix, wanted, sent, choosing}
use erina.Proxy.Server.Tried.{begins, any_begins, AllFit, Sits, All-back, pass_one, chosen_at, hit}
use erina.Proxy.Server.Reply.{Usable}

-- How a device of kind `t` is answered.
pub record Answers (c : Cipher) (ds : List Draws) (mac : Bytes) (t : ℕ) (pre : Text)
    (q : Queue Text) : Type 0 where
  pub left : Queue Text
  pub out : Bytes
  pub addr : Text
  pub answers : choosing c ds mac t q ≡ ok (sent left (some out) addr)
  pub of_kind : has_prefix addr pre ≡ true
  pub draws : Draws
  pub replies : reply_to c draws mac addr ≡ ok out

cursor_first :
    (pre : Text) (ys : Cells Text) (head : Option ℕ)
    → any_begins pre ys ≡ true
    → cursor_of (first ys none) head ≡ first ys none
cursor_first pre [] head any = absurd (ground arith)
cursor_first pre (y ∷ ys) head any = refl

module _ (c : Cipher) (law : IsCipher c) (mac : Bytes) (id_fits : of_le mac < 2 ^ 64) (t : ℕ)
    (pre : Text) (w : wanted t ≡ some pre) where
  later :
      (d : Draws) (ds : List Draws) (q q1 : Queue Text)
      → choosing c (d ∷ ds) mac t q ≡ choosing c ds mac t q1
      → Answers c ds mac t pre q1
      → Answers c (d ∷ ds) mac t pre q
  later d ds q q1 e r = record {
    left = r.left;
    out = r.out;
    addr = r.addr;
    answers = e ∙ r.answers;
    of_kind = r.of_kind;
    draws = r.draws;
    replies = r.replies;
  }

  found_from :
      (ds : List Draws) (ys : Cells Text) (q : Queue Text) (prev : Option ℕ)
      → All Usable ds
      → length ys ≤ length ds
      → Linked q.cell prev ys none
      → AllFit ys
      → cursor_of q.cursor q.head ≡ first ys none
      → any_begins pre ys ≡ true
      → Answers c ds mac t pre q
  found_from ds [] q prev us long l fit at any = absurd (ground arith)
  found_from [] ((p, v) ∷ ys) q prev us long l fit at any = absurd (omega arith)
  found_from (d ∷ ds) ((p, v) ∷ ys) q prev (u, us) long (here, l) ((a, is, f), fit) at any =
      elim (Bool-cases (begins pre v)) [
        | inl h ↦
            let (out, chooses, replies) =
              chosen_at c law mac id_fits t pre w d q p prev (first ys none) a u f at
                (here ∙ ap (λ o. some (node_at prev (first ys none) o)) is) in
            let kind : has_prefix a pre ≡ true = subst (λ o. begins pre o ≡ true) is h in
            record {
              left = record q { cursor = first ys none };
              out = out;
              addr = a;
              answers =
                  hit c law mac id_fits t pre w d ds q (record q { cursor = first ys none }) out a
                    chooses kind;
              of_kind = kind;
              draws = d;
              replies = replies;
            }
        | inr h ↦
            let behind : any_begins pre ys ≡ true = rw h at any in
            later d ds q (record q { cursor = first ys none })
              (pass_one c law mac id_fits t pre w d ds ys q prev p v u (here, l) ((a, is, f), fit)
                at h)
              (found_from ds ys (record q { cursor = first ys none }) (some p) us (omega arith) l
                fit (cursor_first pre ys q.head behind) behind)
      ]

  -- To the end of the row.
  pass_row :
      (ds : List Draws) (ys : Cells Text) (q : Queue Text) (prev : Option ℕ)
      → All Usable ds
      → length ys ≤ length ds
      → Linked q.cell prev ys none
      → AllFit ys
      → q.cursor ≡ first ys none
      → any_begins pre ys ≡ false
      → (es : List Draws) × All Usable es
        × (length es + length ys ≡ length ds)
        × (choosing c ds mac t q ≡ choosing c es mac t (record q { cursor = none }))
  pass_row ds [] q prev us long l fit at other =
      (ds, us, omega arith, λ i. choosing c ds mac t (record q { cursor = at i }))
  pass_row [] ((p, v) ∷ ys) q prev us long l fit at other = absurd (omega arith)
  pass_row (d ∷ ds) ((p, v) ∷ ys) q prev (u, us) long (here, l) (f, fit) at other =
      let (es, usable, len, rest) =
        pass_row ds ys (record q { cursor = first ys none }) (some p) us (omega arith) l fit refl
          (ground arith) in
      (
        es,
        usable,
        omega (arith, len),
        pass_one c law mac id_fits t pre w d ds ys q prev p v u (here, l) (f, fit)
              (ap (λ o. cursor_of o q.head) at) (ground arith)
            ∙ rest,
      )

  module _ (q : Queue Text) (xs : Cells Text) (r : Represents q xs) (s : Sits q xs)
      (fit : AllFit xs) where
    abbrev linked_back : Linked q.cell (last none s.front) s.back none
    linked_back =
        (Linked-split q.cell none none s.front s.back
          (subst (λ l. Linked q.cell none l none) s.whole r.linked)).1

    abbrev fit_back : AllFit s.back
    fit_back = All-back s.front s.back (subst AllFit s.whole fit)

    back_shorter : length s.back ≤ length xs
    back_shorter = omega (arith, ap length s.whole, length-append s.front s.back)

    -- For a cipher with the laws of AES and a device whose id fits in 64 bits and that asks for a known
    -- kind: when the queue stands for a row of nodes with a url each that fits in a frame, its cursor is
    -- on one of them or on none, one of the urls is of that kind, and each choice draws a uuid of bytes
    -- and a time, as many choices as twice the nodes are enough: one of them gives an address of
    -- that kind, and the reply that names it to the device is sent.
    pub choosing-Answers :
        (ds : List Draws)
        → All Usable ds
        → 2 * length xs ≤ length ds
        → any_begins pre xs ≡ true
        → Answers c ds mac t pre q
    choosing-Answers ds us long any = elim (Bool-cases (any_begins pre s.back)) [
      | inl h ↦
          found_from ds s.back q (last none s.front) us (omega (arith, back_shorter)) linked_back
            fit_back (ap (λ o. cursor_of o q.head) s.at ∙ cursor_first pre s.back q.head h) h
      | inr h ↦
          let (es, usable, len, rest) =
            pass_row ds s.back q (last none s.front) us (omega (arith, back_shorter)) linked_back
              fit_back s.at h in
          let a =
            found_from es xs (record q { cursor = none }) none usable
              (omega (arith, len, back_shorter)) r.linked fit r.head_is any in
          record {
            left = a.left;
            out = a.out;
            addr = a.addr;
            answers = rest ∙ a.answers;
            of_kind = a.of_kind;
            draws = a.draws;
            replies = a.replies;
          }
    ]
