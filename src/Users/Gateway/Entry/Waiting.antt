-- ===== src/Users/Gateway/Entry/Waiting.antt =====
-- What becomes of the messages that waited for a user.
use erina.Base.{
  suc, ℕ, ◌+◌, ◌≡◌, ◌⊎◌, inl, inr, refl, ap, arith, true, false, Bool-cases, List, [], ◌∷◌, ◌++◌,
  if◌then◌else◌, length, subst,
}
use erina.Words.{Bytes}
use erina.Users.Gateway.Entry.{
  Delivery, deliver, Post, Pop, popped, failed_pop, lost_answer, after_pop,
}

-- Each of the messages was popped and taken, at the attempts from a number on.
abbrev pub Taken : Post → ℕ → List Bytes → Type 0
Taken b k [] = Unit
Taken b k (m ∷ sent) = (b.pops k ≡ popped) × (b.takes k ≡ true) × Taken b (k + 1) sent

-- A message that was popped and that the socket does not take. It is put back behind the others, or
-- lost when `rpush` fails.
pub record Interrupted (b : Post) (k : ℕ) (queue : List Bytes) (d : Delivery) : Type 0 where
  pub message : Bytes
  pub behind : List Bytes
  pub order : queue ≡ d.sent ++ (message ∷ behind)
  pub pops : b.pops (k + length d.sent) ≡ popped
  pub refused : b.takes (k + length d.sent) ≡ false
  pub kept : d.waiting ≡ (if b.puts then behind ++ (message ∷ []) else behind)
  pub stops : d.goes_on ≡ false

-- A message that `lpop` does not give: it waits on at the front, or is lost with the answer.
pub record Unpopped (b : Post) (k : ℕ) (queue : List Bytes) (d : Delivery) : Type 0 where
  pub message : Bytes
  pub behind : List Bytes
  pub order : queue ≡ d.sent ++ (message ∷ behind)
  pub fails :
      (b.pops (k + length d.sent) ≡ failed_pop) × (d.waiting ≡ message ∷ behind)
      ⊎ (b.pops (k + length d.sent) ≡ lost_answer) × (d.waiting ≡ behind)
  pub goes : d.goes_on ≡ true

abbrev pub Ended : Post → ℕ → List Bytes → Delivery → Type 0
Ended b k queue d =
    ((d.sent ≡ queue) × (d.waiting ≡ []) × (d.goes_on ≡ true))
    ⊎ Interrupted b k queue d
    ⊎ Unpopped b k queue d

Pop-cases : (p : Pop) → (p ≡ popped) ⊎ (p ≡ failed_pop) ⊎ (p ≡ lost_answer)
Pop-cases popped = inl refl
Pop-cases failed_pop = inr (inl refl)
Pop-cases lost_answer = inr (inr refl)

-- One more message in front, which was sent.
module _ (b : Post) (k : ℕ) (m : Bytes) (queue : List Bytes) (d : Delivery) where
  abbrev one_more : Delivery
  one_more = record d { sent = m ∷ d.sent }

  later : (n : ℕ) → (k + 1) + n ≡ k + suc n
  later n = omega arith

  Ended-more : Ended b (k + 1) queue d → Ended b k (m ∷ queue) one_more
  Ended-more (inl (same, none_left, on)) = inl (ap (λ q. m ∷ q) same, none_left, on)
  Ended-more (inr (inl i)) = inr (
      inl (record {
        message = i.message;
        behind = i.behind;
        order = ap (λ q. m ∷ q) i.order;
        pops = subst (λ (n : ℕ). b.pops n ≡ popped) (later (length d.sent)) i.pops;
        refused = subst (λ (n : ℕ). b.takes n ≡ false) (later (length d.sent)) i.refused;
        kept = i.kept;
        stops = i.stops;
      }))
  Ended-more (inr (inr u)) = inr (
      inr (record {
        message = u.message;
        behind = u.behind;
        order = ap (λ q. m ∷ q) u.order;
        fails =
            subst
              (λ (n : ℕ).
                (b.pops n ≡ failed_pop) × (d.waiting ≡ u.message ∷ u.behind)
                ⊎ (b.pops n ≡ lost_answer) × (d.waiting ≡ u.behind))
              (later (length d.sent)) u.fails;
        goes = u.goes;
      }))

abbrev Delivered : Post → ℕ → List Bytes → Delivery → Type 0
Delivered b k queue d = Taken b k d.sent × Ended b k queue d

at_first : (k : ℕ) → k ≡ k + 0
at_first k = omega arith

after_pop-Ended :
    (b : Post) (k : ℕ) (m : Bytes) (queue : List Bytes) (rest : Delivery)
    → Delivered b (k + 1) queue rest
    → Delivered b k (m ∷ queue) (after_pop (b.pops k) (b.takes k) b.puts m queue rest)
after_pop-Ended b k m queue rest (taken, ended) = elim (Pop-cases (b.pops k)) [
  | inl p ↦ elim (Bool-cases (b.takes k)) [
    | inl s ↦ rw (p, s) ((p, s, taken), Ended-more b k m queue rest ended)
    | inr s ↦
        rw (p, s)
          (
            _,
            inr (
                inl (record {
                  message = m;
                  behind = queue;
                  order = refl;
                  pops = subst (λ (n : ℕ). b.pops n ≡ popped) (at_first k) p;
                  refused = subst (λ (n : ℕ). b.takes n ≡ false) (at_first k) s;
                  kept = refl;
                  stops = refl;
                })),
          )
  ]
  | inr (inl p) ↦ rw p (
    _,
    inr (
        inr (record {
          message = m;
          behind = queue;
          order = refl;
          fails = inl (subst (λ (n : ℕ). b.pops n ≡ failed_pop) (at_first k) p, refl);
          goes = refl;
        })),
  )
  | inr (inr p) ↦ rw p (
    _,
    inr (
        inr (record {
          message = m;
          behind = queue;
          order = refl;
          fails = inr (subst (λ (n : ℕ). b.pops n ≡ lost_answer) (at_first k) p, refl);
          goes = refl;
        })),
  )
]

-- The messages that are sent were popped and taken, and are the first ones of those that waited, in their
-- order. Either they are all of them, none waits any more, and the login goes on; or the socket did not
-- take the next one: the login stops, those behind it wait on, and it waits behind them, or is lost if
-- `rpush` fails; or `lpop` failed at the next one: the login goes on, and it waits on in front of those
-- behind it, or is lost with the answer of redis.
pub deliver-Interrupted :
    (b : Post) (k : ℕ) (queue : List Bytes)
    → Taken b k (deliver b k queue).sent × Ended b k queue (deliver b k queue)
unfolding deliver
deliver-Interrupted b k [] = (_, inl (refl, refl, refl))
deliver-Interrupted b k (m ∷ queue) =
    after_pop-Ended b k m queue (deliver b (k + 1) queue) (deliver-Interrupted b (k + 1) queue)
