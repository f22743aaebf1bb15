-- ===== src/Proxy/Server/Spinning.antt =====
-- When `goto again` of proxy/server.go is taken for ever.
use erina.Base.{
  ℕ, ◌^◌, ◌<◌, ◌≡◌, refl, ap, ◌∙◌, arith, [], ◌∷◌, ◌++◌, Option, none, some, false, All, List,
  subst,
}
use erina.Words.{Bytes, of_le}
use erina.Outcome.{Outcome, ok}
use erina.Aes.{Cipher, IsCipher}
use erina.Sentinel.Types.{Text}
use erina.Queue.Types.{Queue}
use erina.Queue.Cells.{Cells, Linked, first, last, Linked-split}
use erina.Queue.Search.{cursor_of}
use erina.Queue.Laws.{Represents}
use erina.Proxy.Server.{Served, Draws, has_prefix, wanted, again, choosing}
use erina.Proxy.Server.Reply.{Usable}
use erina.Proxy.Server.Tried.{
  any_begins, AllFit, Sits, All-back, wanted_lem, pass_one, miss, chosen_none,
}

nothing_begins : (t : ℕ) (pre : Text) → wanted t ≡ some pre → has_prefix [] pre ≡ false
nothing_begins t [] w = absurd (wanted_lem t w)
nothing_begins t (x ∷ pre) w = refl

any_begins-back :
    (pre : Text) (xs ys : Cells Text)
    → any_begins pre (xs ++ ys) ≡ false
    → any_begins pre ys ≡ false
any_begins-back pre [] ys h = h
any_begins-back pre (x ∷ xs) ys h = any_begins-back pre xs ys (ground arith)

module _ (c : Cipher) (law : IsCipher c) (mac : Bytes) (id_fits : of_le mac < 2 ^ 64) (t : ℕ)
    (pre : Text) (w : wanted t ≡ some pre) where
  module _ (q : Queue Text) (xs : Cells Text) (r : Represents q xs) (fit : AllFit xs)
      (none_wanted : any_begins pre xs ≡ false) where
    -- The choices with the cursor at `k`.
    abbrev at_cursor : List Draws → Option ℕ → Outcome Served
    at_cursor ds k = choosing c ds mac t (record q { cursor = k })

    -- One choice, on a node whose url is not wanted.
    steps :
        (d : Draws) (ds : List Draws) (p : ℕ) (v : Option Text) (ys : Cells Text)
        (prev k : Option ℕ)
        → Usable d
        → cursor_of k q.head ≡ some p
        → Linked q.cell prev ((p, v) ∷ ys) none
        → AllFit ((p, v) ∷ ys)
        → any_begins pre ((p, v) ∷ ys) ≡ false
        → at_cursor (d ∷ ds) k ≡ at_cursor ds (first ys none)
    steps d ds p v ys prev k u at l fs out =
        pass_one c law mac id_fits t pre w d ds ys (record q { cursor = k }) prev p v u l fs at
          (ground arith)

    -- With the row `ys` before the cursor.
    abbrev Spins : List Draws → Type 0
    Spins ds =
        (ys : Cells Text) (prev k : Option ℕ)
        → k ≡ first ys none
        → Linked q.cell prev ys none
        → AllFit ys
        → any_begins pre ys ≡ false
        → (q' : Queue Text) × (at_cursor ds k ≡ ok (again q'))

    from_head :
        (d : Draws) (ds : List Draws) (k : Option ℕ) (zs : Cells Text)
        → Usable d
        → Spins ds
        → k ≡ none
        → q.head ≡ first zs none
        → Linked q.cell none zs none
        → AllFit zs
        → any_begins pre zs ≡ false
        → (q' : Queue Text) × (at_cursor (d ∷ ds) k ≡ ok (again q'))
    from_head d ds k [] u later at head_is l fs out =
        let (q', rest) = later [] none none refl tt tt refl in
        (
          q',
          miss c law mac id_fits t pre w d ds (record q { cursor = k }) _
                (chosen_none c law mac id_fits t pre w d (record q { cursor = k })
                  (ap (λ o. cursor_of o q.head) at ∙ head_is))
                (nothing_begins t pre w)
              ∙ rest,
        )
    from_head d ds k ((p, v) ∷ zs) u later at head_is l fs out =
        let (q', rest) = later zs (some p) (first zs none) refl l.1 fs.1 (ground arith) in
        (q', steps d ds p v zs none k u (ap (λ o. cursor_of o q.head) at ∙ head_is) l fs out ∙ rest)

    spins : (ds : List Draws) → All Usable ds → Spins ds
    unfolding choosing
    spins [] us ys prev k at l fs out = (record q { cursor = k }, refl)
    spins (d ∷ ds) (u, us) ((p, v) ∷ ys) prev k at l fs out =
        let (q', rest) = spins ds us ys (some p) (first ys none) refl l.1 fs.1 (ground arith) in
        (q', steps d ds p v ys prev k u (ap (λ o. cursor_of o q.head) at) l fs out ∙ rest)
    spins (d ∷ ds) (u, us) [] prev k at l fs out =
        from_head d ds k xs u (spins ds us) at r.head_is r.linked fit none_wanted

    -- For a cipher with the laws of AES and a device whose id fits in 64 bits and that asks for a
    -- known kind: when the queue stands for a row of nodes with a url each that fits in a frame,
    -- its cursor is on one of them or on none, and none of the urls is of that kind, the loop does
    -- not end: however many choices are made, each with a uuid of bytes and a time, the next one
    -- follows, and nothing is sent.
    pub choosing_never_ends :
        (ds : List Draws)
        → All Usable ds
        → Sits q xs
        → (q' : Queue Text) × (choosing c ds mac t q ≡ ok (again q'))
    choosing_never_ends ds us s =
        spins ds us s.back (last none s.front) q.cursor s.at
          (Linked-split q.cell none none s.front s.back
            (subst (λ l. Linked q.cell none l none) s.whole r.linked)).1
          (All-back s.front s.back (subst AllFit s.whole fit))
          (any_begins-back pre s.front s.back
            (subst (λ l. any_begins pre l ≡ false) s.whole none_wanted))
