-- ===== src/Users/Gateway/Entry/Granted.antt =====
-- What the http server's answer lets a login by a frame have.
use erina.Base.{
  Option-cases, ◌≡◌, ◌⊎◌, inl, inr, refl, ap, sym, subst, arith, ◌==◌, ==_iff, Bool-cases, [],
  Option, none, some,
}
use erina.Words.{Bytes}
use erina.Outcome.{Outcome, ok, err, panic}
use erina.Outcome.Laws.{ok_injective, some_injective}
use erina.Sentinel.Types.{Text}
use erina.Users.Params.{got_tmpkey}
use erina.Users.Gateway.Entry.{
  AuthAnswer, unreachable, no_data, unknown, status, Gate, decode_string, Keys, keys_or_close,
  keys_of,
}

-- The http server gave a key, which the secret is made with.
pub record Keyed (g : Gate) (a : AuthAnswer) (mz : Option Bytes) : Type 0 where
  pub key : Text
  pub code : Bytes
  pub secret : Bytes × Bytes
  pub answered : a ≡ status 0 (some key)
  pub decoded : decode_string key ≡ some code
  pub derived : got_tmpkey g.cipher g.md5 g.random code ≡ ok secret
  pub is_secret : mz ≡ some secret.1

-- The http server did not refuse: there is no secret when it gave no key or no number.
abbrev pub Granted : Gate → AuthAnswer → Option Bytes → Type 0
Granted g a mz = (((a ≡ unknown) ⊎ (a ≡ status 0 none)) × (mz ≡ none)) ⊎ Keyed g a mz

module _ (g : Gate) where
  nothing : (k : Keys) → ¬ (◌≡◌ {A = Outcome (Option Keys)} (ok none) (ok (some k)))
  nothing k e = ground arith

  keys_or_close-ok :
      (o : Outcome (Bytes × Bytes)) (k : Keys)
      → keys_or_close o ≡ ok (some k)
      → (s : Bytes × Bytes) × (o ≡ ok s) × (k.1 ≡ some s.1)
  keys_or_close-ok (ok s) k e =
      let same : (s.0, some s.1) ≡ k =
        some_injective (s.0, some s.1) k (ok_injective (some (s.0, some s.1)) (some k) e) in
      (s, refl, sym (ap (λ p. p.1) same))
  keys_or_close-ok (err x) k e = absurd (ground arith)
  keys_or_close-ok panic k e = absurd (ground arith)

  -- Neither key nor secret.
  bare :
      (k : Keys) → ◌≡◌ {A = Outcome (Option Keys)} (ok (some ([], none))) (ok (some k)) → k.1 ≡ none
  bare k e = sym (
      ap (λ (p : Keys). p.1)
        (some_injective ([], none) k (ok_injective (some ([], none)) (some k) e)))

  status-Granted :
      (key : Option Text) (k : Keys)
      → keys_of g (status 0 key) ≡ ok (some k)
      → Granted g (status 0 key) k.1
  unfolding keys_of
  status-Granted none k e = inl (inr refl, bare k e)
  status-Granted (some text) k e = elim (Option-cases (decode_string text)) [
    | inl bad ↦ absurd (nothing k (rw bad at e))
    | inr (code, good) ↦
        let (z, derived, is_secret) =
          keys_or_close-ok (got_tmpkey g.cipher g.md5 g.random code) k (rw good at e) in
        inr (record {
          key = text;
          code = code;
          secret = z;
          answered = refl;
          decoded = good;
          derived = derived;
          is_secret = is_secret;
        })
  ]

  pub keys_of-Granted : (a : AuthAnswer) (k : Keys) → keys_of g a ≡ ok (some k) → Granted g a k.1
  unfolding keys_of
  keys_of-Granted unreachable k e = absurd (nothing k e)
  keys_of-Granted no_data k e = absurd (nothing k e)
  keys_of-Granted unknown k e = inl (inl refl, bare k e)
  keys_of-Granted (status n key) k e = elim (Bool-cases (n == 0)) [
    | inl zero_status ↦
        let is_zero : n ≡ 0 = (==_iff n 0).0 zero_status in
        subst (λ m. Granted g (status m key) k.1) (sym is_zero)
          (status-Granted key k (subst (λ m. keys_of g (status m key) ≡ ok (some k)) is_zero e))
    | inr other ↦ absurd (nothing k (rw other at e))
  ]
