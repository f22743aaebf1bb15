-- ===== src/Session/Handlers.antt =====
-- Handlers of srv/devbusi.go that look something up and answer. A stored value that is nil is
-- empty. `none` is the panic.
use erina.Base.{
  ℕ, ◌+◌, ◌-◌, ◌*◌, ◌%◌, ◌≡◌, ◌⊎◌, inl, inr, refl, ap, arith, [], ◌∷◌, ◌++◌, Option, none, some,
  ◌==◌, ltb, leb, not, if◌then◌else◌, length, ◌↔◌, nil_of_length,
}
use erina.Base.Partial.{◌>>=◌}
use erina.Words.{Bytes, index, slice, to_le, of_le, fit}
use erina.Outcome.{Error, Outcome, ok, err, bad_body}
use erina.Ld2.{new_cfg, b2o}

pub record Answer : Type 0 where
  pub text : Option Bytes
  pub error : Option Error

-- `onLog`: the first byte is the number of entries of eight bytes. Of no entries the code reads
-- from a negative index.
unfoldable pub on_log : Bytes → Option Answer
on_log text = do
  count ← index text 0
  if not (length text == count * 8 + 1)
      then some (record { text = none; error = some bad_body })
      else (if count == 0 then none else (do
        entry ← slice text ((count - 1) * 8 + 1) ((count - 1) * 8 + 5)
        some (record { text = some (to_le 4 0 ++ fit 4 entry); error = none })))

-- A reply with a configuration: the status 0, the length as a uint16, and the bytes.
abbrev pub with_config : Bytes → Bytes
with_config cfg = to_le 4 0 ++ (to_le 2 (length cfg % 65536) ++ cfg)

-- `onLd2`, with what `ld2cfg` answers for the key in the first four bytes.
unfoldable pub on_ld2 : (ℕ → Outcome Bytes) → Bytes → Option Answer
on_ld2 ld2cfg body =
    if ltb (length body) 6 then some (record { text = none; error = some bad_body }) else (do
      version ← index body 5
      key ← slice body 0 4
      elim (ld2cfg (of_le key)) [
        | err e ↦ some (record { text = some (to_le 4 2007); error = some e })
        | Outcome.panic ↦ none
        | ok [] ↦ some (record { text = some (to_le 4 2008); error = none })
        | ok (b ∷ bs) ↦ (do
          o ← b2o (new_cfg (b ∷ bs))
          some (record {
            text = some (if leb version o.version then with_config o.final else to_le 4 2009);
            error = none;
          }))
      ])

-- `onLd2Chain`, with what `ld2ds` answers for the MAC in the first eight bytes.
unfoldable pub on_ld2_chain : (Bytes → Outcome Bytes) → Bytes → Option Answer
on_ld2_chain ld2ds body = do
  key ← slice body 0 8
  elim (ld2ds key) [
    | err e ↦ some (record { text = some (to_le 4 2010); error = some e })
    | Outcome.panic ↦ none
    | ok [] ↦ some (record { text = some (to_le 4 2010); error = none })
    | ok (b ∷ bs) ↦ some (record { text = some (with_config (b ∷ bs)); error = none })
  ]

-- `onLd2List`; the list is read at its first byte when there was no error.
unfoldable pub on_ld2_list : Outcome Bytes → Option Answer
on_ld2_list (err e) = some (record { text = some (1 ∷ 0 ∷ 0 ∷ 0 ∷ []); error = none })
on_ld2_list Outcome.panic = none
on_ld2_list (ok list) = do
  first ← index list 0
  some (record {
    text = some (if first == 0 then 1 ∷ 0 ∷ 0 ∷ 0 ∷ [] else 0 ∷ 0 ∷ 0 ∷ 0 ∷ list);
    error = none;
  })

-- `onLog` panics on the empty body and on the body of one zero byte, and on no other.
pub on_log_panics : (text : Bytes) → (on_log text ≡ none) ↔ ((text ≡ []) ⊎ (text ≡ 0 ∷ []))
unfolding on_log
on_log_panics [] = (λ h. inl refl, λ e. refl)
on_log_panics (n ∷ rest) = (
  λ h.
      let (zero_count, no_rest) : (n ≡ 0) × (length rest ≡ 0) = ground arith in
      inr λ i. zero_count i ∷ nil_of_length rest no_rest i,
  λ e. elim e [ inl q ↦ absurd (ground arith) | inr q ↦ ap on_log q ],
)
