-- ===== src/Proxy/Comets/Kept.antt =====
-- Which gateways are in the queue after `updatingCometQue` of proxy/zoo.go.
use erina.Base.{
  length-append, append-nil, append_assoc, ◌-◌, suc, ◌+◌, ◌≤◌, ◌<◌, ◌≡◌, refl, ap, sym, ◌∙◌, arith,
  if◌then◌else◌, true, false, List, [], ◌∷◌, ◌++◌, Option, some, length, Bool-cases, inl, inr,
  text_key, subst,
}
use erina.Sentinel.Types.{Text}
use erina.Queue.Types.{Queue, capacity}
use erina.Queue.Cells.{Cells}
use erina.Queue.Search.{holds}
use erina.Queue.Laws.{Represents, put-Represents}
use erina.Queue.Removal.{values, values-append, mem, contains-Represents}
use erina.Queue.Retrain.Counted.{times, self, times_absent, times_present}
use erina.Queue.Retrain.Kept.{retrain-Represents}
use erina.Proxy.Comets.{
  Announced, malformed, live, unknown, put_new, enrol_all, read_all, updating_comet_que,
}

abbrev Urls : Type 0
Urls = List (Option Text)

-- The urls with one more, unless it is there.
abbrev added : Text → Urls → Urls
added url urls = if mem url urls then urls else urls ++ (some url ∷ [])

abbrev stocked : Urls → List Announced → Urls
stocked urls [] = urls
stocked urls (malformed ∷ nodes) = stocked urls nodes
stocked urls (live url ∷ nodes) = stocked (added url urls) nodes
stocked urls (unknown ∷ nodes) = stocked (added [] urls) nodes

-- The urls of the gateways that are announced.
abbrev pub live_urls : List Announced → Urls
live_urls [] = []
live_urls (malformed ∷ nodes) = live_urls nodes
live_urls (live url ∷ nodes) = some url ∷ live_urls nodes
live_urls (unknown ∷ nodes) = live_urls nodes

-- No url is listed twice.
abbrev pub Once : Urls → Type 0
Once urls = (v : Text) → times v urls ≤ 1

module _ (v : Text) where
  times-append : (xs ys : Urls) → times v (xs ++ ys) ≡ times v xs + times v ys
  times-append [] ys = omega arith
  times-append (w ∷ xs) ys = elim (Bool-cases (holds v w)) [
    | inl e ↦ rw e (omega (arith, times-append xs ys))
    | inr e ↦ rw e (times-append xs ys)
  ]

  mem-append : (xs ys : Urls) → mem v xs ≡ true → mem v (xs ++ ys) ≡ true
  mem-append [] ys h = absurd (ground arith)
  mem-append (w ∷ xs) ys h = elim (Bool-cases (holds v w)) [
    | inl e ↦ rw e refl
    | inr e ↦ rw e (mem-append xs ys (ground arith))
  ]

  mem-last : (xs : Urls) → mem v (xs ++ (some v ∷ [])) ≡ true
  mem-last [] = rw (self v) refl
  mem-last (w ∷ xs) = elim (Bool-cases (holds v w)) [
    | inl e ↦ rw e refl
    | inr e ↦ rw e (mem-last xs)
  ]

  mem-added : (url : Text) (xs : Urls) → mem v xs ≡ true → mem v (added url xs) ≡ true
  mem-added url xs h = elim (Bool-cases (mem url xs)) [
    | inl e ↦ rw e h
    | inr e ↦ rw e (mem-append xs (some url ∷ []) h)
  ]

  mem-stocked :
      (nodes : List Announced) (xs : Urls) → mem v xs ≡ true → mem v (stocked xs nodes) ≡ true
  mem-stocked [] xs h = h
  mem-stocked (malformed ∷ nodes) xs h = mem-stocked nodes xs h
  mem-stocked (live url ∷ nodes) xs h = mem-stocked nodes (added url xs) (mem-added url xs h)
  mem-stocked (unknown ∷ nodes) xs h = mem-stocked nodes (added [] xs) (mem-added [] xs h)

added_self : (v : Text) (xs : Urls) → mem v (added v xs) ≡ true
added_self v xs = elim (Bool-cases (mem v xs)) [
  | inl e ↦ rw (e, e) refl
  | inr e ↦ rw e (mem-last v xs)
]

times_one : (v url : Text) → times v (some url ∷ []) ≤ 1
times_one v url = elim (Bool-cases (text_key.same v url)) [
  | inl e ↦ rw e (omega arith)
  | inr e ↦ rw e (omega arith)
]

Once-added : (url : Text) (xs : Urls) → Once xs → Once (added url xs)
Once-added url xs once v = elim (Bool-cases (mem url xs)) [
  | inl e ↦ rw e (once v)
  | inr e ↦ rw e (elim (Bool-cases (text_key.same v url)) [
    | inl s ↦
        let absent : times v xs ≡ 0 =
          times_absent v xs
            (subst (λ u. mem u xs ≡ false) (sym ((text_key.same_iff v url).0 s)) e) in
        omega (arith, times-append v xs (some url ∷ []), absent, times_one v url)
    | inr s ↦
        let none_more : times v (some url ∷ []) ≡ 0 = rw s refl in
        omega (arith, times-append v xs (some url ∷ []), once v, none_more)
  ])
]

Once-stocked : (nodes : List Announced) (xs : Urls) → Once xs → Once (stocked xs nodes)
Once-stocked [] xs once = once
Once-stocked (malformed ∷ nodes) xs once = Once-stocked nodes xs once
Once-stocked (live url ∷ nodes) xs once = Once-stocked nodes (added url xs) (Once-added url xs once)
Once-stocked (unknown ∷ nodes) xs once = Once-stocked nodes (added [] xs) (Once-added [] xs once)

live_mem-stocked :
    (v : Text) (nodes : List Announced) (xs : Urls)
    → mem v (live_urls nodes) ≡ true
    → mem v (stocked xs nodes) ≡ true
live_mem-stocked v [] xs h = absurd (ground arith)
live_mem-stocked v (malformed ∷ nodes) xs h = live_mem-stocked v nodes xs h
live_mem-stocked v (live url ∷ nodes) xs h = elim (Bool-cases (text_key.same v url)) [
  | inl e ↦
      mem-stocked v nodes (added url xs)
        (subst (λ u. mem v (added u xs) ≡ true) ((text_key.same_iff v url).0 e) (added_self v xs))
  | inr e ↦ live_mem-stocked v nodes (added url xs) (rw e at h)
]
live_mem-stocked v (unknown ∷ nodes) xs h = live_mem-stocked v nodes (added [] xs) h

put_new-Represents :
    (q : Queue Text) (url : Text) (xs : Cells Text)
    → Represents q xs
    → length xs < capacity
    → (q' : Queue Text) × (ys : Cells Text) × (put_new q url ≡ some q')
      × Represents q' ys
      × (values ys ≡ added url (values xs))
      × (length ys ≤ length xs + 1)
unfolding put_new
put_new-Represents q url xs r room = elim (Bool-cases (mem url (values xs))) [
  | inl e ↦ (q, xs, rw (contains-Represents q url xs r) (rw e refl), r, rw e refl, omega arith)
  | inr e ↦
      let (q', runs, r') = put-Represents q (some url) xs r room in
      (
        q',
        xs ++ ((q.brk, some url) ∷ []),
        rw (contains-Represents q url xs r) (rw (e, runs) refl),
        r',
        rw e (values-append xs ((q.brk, some url) ∷ [])),
        omega (arith, length-append xs ((q.brk, some url) ∷ [])),
      )
]

enrol_all-Represents :
    (nodes : List Announced) (q : Queue Text) (keep : Urls) (xs : Cells Text)
    → Represents q xs
    → length xs + length nodes ≤ capacity
    → (q' : Queue Text) × (ys : Cells Text) × (enrol_all q keep nodes
        ≡ some (q', keep ++ live_urls nodes))
      × Represents q' ys
      × (values ys ≡ stocked (values xs) nodes)
unfolding enrol_all
enrol_all-Represents [] q keep xs r room =
    (q, xs, ap (λ k. some (q, k)) (sym (append-nil keep)), r, refl)
enrol_all-Represents (malformed ∷ nodes) q keep xs r room =
    enrol_all-Represents nodes q keep xs r (omega arith)
enrol_all-Represents (live url ∷ nodes) q keep xs r room =
    let (q1, ys, e1, r1, same1, few) = put_new-Represents q url xs r (omega arith) in
    let (q2, zs, e2, r2, same2) =
      enrol_all-Represents nodes q1 (keep ++ (some url ∷ [])) ys r1 (omega (arith, few)) in
    (
      q2,
      zs,
      rw e1 (e2 ∙ ap (λ k. some (q2, k)) (append_assoc keep (some url ∷ []) (live_urls nodes))),
      r2,
      same2 ∙ ap (λ l. stocked l nodes) same1,
    )
enrol_all-Represents (unknown ∷ nodes) q keep xs r room =
    let (q1, ys, e1, r1, same1, few) = put_new-Represents q [] xs r (omega arith) in
    let (q2, zs, e2, r2, same2) = enrol_all-Represents nodes q1 keep ys r1 (omega (arith, few)) in
    (q2, zs, rw e1 e2, r2, same2 ∙ ap (λ l. stocked l nodes) same1)

length-read_all : (nodes : List (Option Text)) → length (read_all nodes) ≡ length nodes
length-read_all [] = refl
length-read_all (n ∷ nodes) = ap suc (length-read_all nodes)

-- For a queue that stands for a row of nodes in which no url occurs twice, with room for the nodes of
-- the directory, and any order in which the map of `Retrain` is walked, which lists each url as often
-- as its keys do: `updatingCometQue` does not panic or wait, leaves a queue that stands for a row of
-- nodes, and in it each url that the directory announces once, and no other url.
pub updating_comet_que-times :
    (order : Urls → Urls) (q : Queue Text) (xs : Cells Text) (nodes : List (Option Text))
    → Represents q xs
    → Once (values xs)
    → length xs + length nodes ≤ capacity
    → ((w : Text) (keys : Urls) → times w (order keys) ≡ times w keys)
    → (q' : Queue Text) × (ys : Cells Text) × (updating_comet_que order q nodes ≡ some q')
      × Represents q' ys
      × ((v : Text) → times v (values ys) ≡ (if mem v (live_urls (read_all nodes)) then 1 else 0))
unfolding updating_comet_que
updating_comet_que-times order q xs nodes r once room fair =
    let all = read_all nodes in
    let (q1, ys, e1, r1, same) =
      enrol_all-Represents all q [] xs r (omega (arith, length-read_all nodes)) in
    let (q2, zs, e2, r2, often) = retrain-Represents q1 ys (live_urls all) order r1 fair in
    let few : Once (values ys) = subst Once (sym same) (Once-stocked all (values xs) once) in
    (
      q2,
      zs,
      rw e1 e2,
      r2,
      λ v. elim (Bool-cases (mem v (live_urls all))) [
        | inl e ↦
            let here : mem v (values ys) ≡ true =
              subst (λ l. mem v l ≡ true) (sym same) (live_mem-stocked v all (values xs) e) in
            let all_kept : times v (values zs) ≡ times v (values ys) = rw e at (often v) in
            rw e (omega (arith, all_kept, few v, times_present v (values ys) here))
        | inr e ↦
            let one_less : times v (values zs) ≡ times v (values ys) - 1 = rw e at (often v) in
            rw e (omega (arith, one_less, few v))
      ],
    )
