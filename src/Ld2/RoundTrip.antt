-- ===== src/Ld2/RoundTrip.antt =====
-- `B2O` reads back what `O2B` writes.
use erina.Base.{
  drop-append_add, ℕ, suc, ◌+◌, ◌-◌, ◌*◌, ◌/◌, ◌%◌, ◌<◌, ◌≡◌, refl, sym, ap, ◌∙◌, arith, List, [],
  ◌∷◌, ◌++◌, some, bit_and, Bool, ltb, ◌==◌, ◌&&◌, length, take, drop, true, false, length-append,
  All, all_below, all_below_at, subst, if◌then◌else◌, take-append, drop-append, append_assoc,
}
use erina.Words.{Bytes, index, slice}
use erina.Words.Laws.{slice_lem, index_lem, index-front}
use erina.Crc.Detection.{crc_fold, crc_whole}
use erina.Ld2.{
  CfgLd2, new_cfg, alarms, action, read_action, b2o, o2b, written, flags_of, swap, join, with_rule,
}

abbrev flags_agree : ℕ → ℕ → ℕ → Bool
flags_agree ldtype and_or count =
    let b = flags_of ldtype and_or count in
    (bit_and b 0xe0 / 32 == ldtype)
    && ((bit_and b 0x10 / 16 == and_or) && (bit_and b 0x0f == count))

flags_table : all_below 256 (λ k. flags_agree (k / 32) (k / 16 % 2) (k % 16)) ≡ true
unfolding all_below flags_of
flags_table = refl

-- What `B2O` computes from the third byte.
record FlagsRead (ldtype and_or count b : ℕ) : Type 0 where
  ldtype_read : bit_and b 0xe0 / 32 ≡ ldtype
  and_or_read : bit_and b 0x10 / 16 ≡ and_or
  count_read : bit_and b 0x0f ≡ count

flags_of_agree :
    (ldtype and_or count : ℕ)
    → flags_agree ldtype and_or count ≡ true
    → FlagsRead ldtype and_or count (flags_of ldtype and_or count)
flags_of_agree ldtype and_or count h = ground arith

flags_of_read :
    (ldtype and_or count : ℕ)
    → ldtype < 8
    → and_or < 2
    → count < 16
    → FlagsRead ldtype and_or count (flags_of ldtype and_or count)
flags_of_read ldtype and_or count p q r =
    let k : ℕ = 32 * ldtype + 16 * and_or + count in
    let hi : k / 32 ≡ ldtype = omega arith in
    let mid : k / 16 % 2 ≡ and_or = omega arith in
    let lo : k % 16 ≡ count = omega arith in
    flags_of_agree ldtype and_or count (
      subst (λ (l : ℕ). flags_agree l and_or count ≡ true) hi
        (subst (λ (a : ℕ). flags_agree (k / 32) a count ≡ true) mid
          (subst (λ (c : ℕ). flags_agree (k / 32) (k / 16 % 2) c ≡ true) lo
            (all_below_at 256 _ flags_table k (omega arith)))))

abbrev IsCode : Bytes → Type 0
IsCode code = length code ≡ 2

length-join : (codes : List Bytes) → All IsCode codes → length (join codes) ≡ length codes * 2
length-join [] h = refl
length-join (code ∷ codes) (p, h) =
    omega (arith, length-append code (join codes), length-join codes h)

alarms-join :
    (codes : List Bytes) (front rest : Bytes) (at : ℕ)
    → All IsCode codes
    → length front ≡ at
    → alarms (length codes) at (front ++ (join codes ++ rest)) ≡ some codes
unfolding alarms
alarms-join [] front rest at h e = refl
alarms-join (code ∷ codes) front rest at (p, h) e =
    let final : Bytes = front ++ ((code ++ join codes) ++ rest) in
    let next : Bytes = (front ++ code) ++ (join codes ++ rest) in
    let same : final ≡ next =
      ap (λ t. front ++ t) (append_assoc code (join codes) rest)
      ∙ sym (append_assoc front code (join codes ++ rest)) in
    let two : at + 2 - at ≡ 2 = omega arith in
    let here : slice final at (at + 2) ≡ some code =
      slice_lem final at (at + 2) (omega arith) (
        omega (
          arith,
          length-append front ((code ++ join codes) ++ rest),
          length-append (code ++ join codes) rest,
          length-append code (join codes),
        ))
      ∙ ap some (
          ap (λ (t : ℕ). take t (drop at final)) two
          ∙ ap (take 2) (drop-append at front ((code ++ join codes) ++ rest) e)
          ∙ ap (take 2) (append_assoc code (join codes) rest)
          ∙ take-append 2 code (join codes ++ rest) p) in
    let more : alarms (length codes) (at + 2) final ≡ some codes =
      ap (alarms (length codes) (at + 2)) same
      ∙ alarms-join codes (front ++ code) rest (at + 2) h
          (omega (arith, length-append front code)) in
    rw (here, more) refl

-- A rule whose fields fit their places, short enough for a length of one byte.
pub record Writable (m : CfgLd2) : Type 0 where
  pub ldtype_fits : m.ldtype < 8
  pub and_or_fits : m.and_or < 2
  pub dev_type_len : length m.dev_type ≡ 4
  pub codes_fit : All IsCode m.alarm
  pub count_fits : length m.alarm < 16
  pub short : length (written m) < 255

-- What a reader finds of a rule. Without an action the fields of the action stay zero.
pub record ReadBack (m n : CfgLd2) : Type 0 where
  pub same_checksum : n.checksum ≡ crc_fold 0 (written m)
  pub same_version : n.version ≡ m.version
  pub same_ldtype : n.ldtype ≡ m.ldtype
  pub same_and_or : n.and_or ≡ m.and_or
  pub same_dev_type : n.dev_type ≡ m.dev_type
  pub swapped_dev_type : n.dev_type_rvs ≡ swap m.dev_type
  pub same_alarm : n.alarm ≡ m.alarm
  pub same_action_length : n.action_length ≡ m.action_length
  pub same_pre_location :
      n.action_pre_location ≡ (if ltb 0 m.action_length then m.action_pre_location else 0)
  pub same_action : n.action_ctn ≡ (if ltb 0 m.action_length then m.action_ctn else [])

action-none :
    (m : CfgLd2)
    → length m.final < 256
    → length m.final ≡ 8 + m.alarm_length * 2
    → action m ≡ some m
unfolding action
action-none m h e = ground arith

action-some :
    (m : CfgLd2) (front : Bytes) (len pre : ℕ) (ctn : Bytes)
    → m.final ≡ front ++ (len ∷ pre ∷ ctn)
    → length front ≡ 8 + m.alarm_length * 2
    → length m.final < 256
    → action m
      ≡ some (record m { action_length = len; action_pre_location = pre; action_ctn = ctn })
unfolding action read_action
action-some m front len pre ctn e f short =
    let at : ℕ = 8 + m.alarm_length * 2 in
    let whole : length m.final ≡ length front + suc (suc (length ctn)) =
      ap length e ∙ length-append front (len ∷ pre ∷ ctn) in
    let more : ltb at (length m.final % 256) ≡ true = ground arith in
    let rest : Bytes = len ∷ pre ∷ ctn in
    let at0 : index m.final at ≡ some len =
      ap (λ b. index b at) e
      ∙ ap (index (front ++ rest)) {x = at} {y = length front + 0} (omega arith)
      ∙ index-front front rest 0 (omega arith) in
    let at1 : index m.final (at + 1) ≡ some pre =
      ap (λ b. index b (at + 1)) e
      ∙ ap (index (front ++ rest)) {x = at + 1} {y = length front + 1} (omega arith)
      ∙ index-front front rest 1 (omega arith) in
    let behind : drop (at + 2) m.final ≡ ctn =
      ap (drop (at + 2)) e
      ∙ ap (λ (t : ℕ). drop t (front ++ rest)) {x = at + 2} {y = length front + 2} (omega arith)
      ∙ drop-append_add 2 front rest in
    rw (more, at0, at1, behind) refl

module _ (m : CfgLd2) (w : Writable m) where
  abbrev check : ℕ
  check = crc_fold 0 (written m)

  abbrev flags : ℕ
  flags = flags_of m.ldtype m.and_or (length m.alarm)

  abbrev final : Bytes
  final = check ∷ written m

  abbrev front : Bytes
  front = check ∷ m.version ∷ flags ∷ 0 ∷ m.dev_type

  abbrev tail : Bytes
  tail =
      if ltb 0 m.action_length then m.action_length ∷ m.action_pre_location ∷ m.action_ctn else []

  abbrev rule : CfgLd2
  rule = with_rule (new_cfg final) check m.version flags m.dev_type m.alarm

  final_split : final ≡ front ++ (join m.alarm ++ tail)
  unfolding written
  final_split = refl

  fields : FlagsRead m.ldtype m.and_or (length m.alarm) flags
  fields = flags_of_read m.ldtype m.and_or (length m.alarm) w.ldtype_fits w.and_or_fits w.count_fits

  length-front : length (front ++ join m.alarm) ≡ 8 + rule.alarm_length * 2
  length-front = omega (
    arith,
    length-append front (join m.alarm),
    length-join m.alarm w.codes_fit,
    w.dev_type_len,
    fields.count_read,
  )

  whole : final ≡ (front ++ join m.alarm) ++ tail
  whole = final_split ∙ sym (append_assoc front (join m.alarm) tail)

  length-final : length final ≡ 8 + rule.alarm_length * 2 + length tail
  length-final =
      omega (arith, ap length whole, length-append (front ++ join m.alarm) tail, length-front)

  rule_read : b2o (new_cfg final) ≡ action rule
  unfolding b2o
  rule_read =
      let at0 : index final 0 ≡ some check = index_lem final 0 (omega (arith, length-final)) in
      let at1 : index final 1 ≡ some m.version =
        ap (λ b. index b 1) final_split
        ∙ index_lem (front ++ (join m.alarm ++ tail)) 1 (omega arith) in
      let at2 : index final 2 ≡ some flags =
        ap (λ b. index b 2) final_split
        ∙ index_lem (front ++ (join m.alarm ++ tail)) 2 (omega arith) in
      let dev : slice final 4 8 ≡ some m.dev_type =
        slice_lem final 4 8 (omega arith) (omega (arith, length-final))
        ∙ ap some (
            ap (λ b. take 4 (drop 4 b)) final_split
            ∙ take-append 4 m.dev_type (join m.alarm ++ tail) w.dev_type_len) in
      let codes : alarms (bit_and flags 0x0f) 8 final ≡ some m.alarm =
        (λ i. alarms (fields.count_read i) 8 (final_split i))
        ∙ alarms-join m.alarm front tail 8 w.codes_fit (omega (arith, w.dev_type_len)) in
      rw (at0, at1, at2, dev, codes) refl

  final_short : length final < 256
  final_short = omega (arith, w.short)

  ReadBack-with :
      (b : Bool)
      → ltb 0 m.action_length ≡ b
      → (n : CfgLd2) × (action rule ≡ some n) × ReadBack m n × (n.final ≡ final)
  ReadBack-with true h =
      let t : tail ≡ m.action_length ∷ m.action_pre_location ∷ m.action_ctn = rw h refl in
      (
        _,
        action-some rule (front ++ join m.alarm) m.action_length m.action_pre_location m.action_ctn
            (whole ∙ ap (λ b. (front ++ join m.alarm) ++ b) t) length-front final_short,
        record {
          same_checksum = refl;
          same_version = refl;
          same_ldtype = fields.ldtype_read;
          same_and_or = fields.and_or_read;
          same_dev_type = refl;
          swapped_dev_type = refl;
          same_alarm = refl;
          same_action_length = refl;
          same_pre_location = rw h refl;
          same_action = rw h refl;
        },
        refl,
      )
  ReadBack-with false h =
      let t : tail ≡ [] = rw h refl in
      (
        rule,
        action-none rule final_short (omega (arith, length-final, ap length t)),
        record {
          same_checksum = refl;
          same_version = refl;
          same_ldtype = fields.ldtype_read;
          same_and_or = fields.and_or_read;
          same_dev_type = refl;
          swapped_dev_type = refl;
          same_alarm = refl;
          same_action_length = ground arith;
          same_pre_location = rw h refl;
          same_action = rw h refl;
        },
        refl,
      )

-- For every rule whose fields fit their places and whose binary form is shorter than 256 bytes:
-- `O2B` does not panic, `B2O` of what it wrote does not panic, finds the fields of the rule, its
-- alarms, its action and the checksum of all bytes but the first, and leaves the bytes alone.
pub b2o-o2b :
    (m : CfgLd2)
    → Writable m
    → (m' : CfgLd2) × (n : CfgLd2) × (o2b m ≡ some m')
      × (b2o (new_cfg m'.final) ≡ some n)
      × ReadBack m n
      × (n.final ≡ m'.final)
unfolding o2b
b2o-o2b m w =
    let (n, e, r, f) = ReadBack-with m w (ltb 0 m.action_length) refl in
    (record m { final = final m w }, n, rw (crc_whole (written m)) refl, rule_read m w ∙ e, r, f)
