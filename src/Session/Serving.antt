-- ===== src/Session/Serving.antt =====
-- `onLd2` serves the rules that `O2B` writes.
use erina.Base.{
  ℕ, ◌≤◌, ◌≡◌, refl, ◌∙◌, arith, [], ◌∷◌, none, some, ltb, leb, if◌then◌else◌, length, take, get_or,
  false,
}
use erina.Words.{Bytes, index, slice, to_le, of_le}
use erina.Words.Laws.{index_lem, slice_lem}
use erina.Outcome.{Outcome, ok}
use erina.Ld2.{CfgLd2, new_cfg, b2o, o2b}
use erina.Ld2.RoundTrip.{Writable, b2o-o2b}
use erina.Session.Handlers.{on_ld2, with_config}

none-ne-some_rule : (n : CfgLd2) → b2o (new_cfg []) ≡ some n → ⊥
unfolding b2o
none-ne-some_rule n e = ground arith

served :
    (ld2cfg : ℕ → Outcome Bytes) (body final : Bytes) (n : CfgLd2)
    → 6 ≤ length body
    → ld2cfg (of_le (take 4 body)) ≡ ok final
    → b2o (new_cfg final) ≡ some n
    → on_ld2 ld2cfg body
      ≡ some (record {
        text = some (if leb (get_or body 5 0) n.version then with_config n.final else to_le 4 2009);
        error = none;
      })
unfolding on_ld2
served ld2cfg body [] n long stored read = absurd (none-ne-some_rule n read)
served ld2cfg body (b ∷ bs) n long stored read =
    let enough : ltb (length body) 6 ≡ false = ground arith in
    let version : index body 5 ≡ some (get_or body 5 0) = index_lem body 5 (omega arith) in
    let key : slice body 0 4 ≡ some (take 4 body) =
      slice_lem body 0 4 (omega arith) (omega arith) in
    rw (enough, version, key, stored, read) refl

-- For every rule that can be written and every request of at least six bytes whose key finds the
-- bytes that `O2B` wrote: `onLd2` does not panic, and answers with those bytes if the version asked
-- for is at most that of the rule, and with the code 2009 otherwise.
pub on_ld2-o2b :
    (m : CfgLd2) (ld2cfg : ℕ → Outcome Bytes) (body : Bytes)
    → Writable m
    → 6 ≤ length body
    → ((m' : CfgLd2) → o2b m ≡ some m' → ld2cfg (of_le (take 4 body)) ≡ ok m'.final)
    → (m' : CfgLd2) × (o2b m ≡ some m')
      × (on_ld2 ld2cfg body
          ≡ some (record {
            text =
                some
                  (if leb (get_or body 5 0) m.version then with_config m'.final else to_le 4 2009);
            error = none;
          }))
on_ld2-o2b m ld2cfg body w long stored =
    let (m', n, writes, reads, back, same) = b2o-o2b m w in
    (
      m',
      writes,
      served ld2cfg body m'.final n long (stored m' writes) reads ∙ (λ i. some (record {
        text = some (
            if leb (get_or body 5 0) (back.same_version i)
            then with_config (same i)
            else to_le 4 2009);
        error = none;
      })),
    )
