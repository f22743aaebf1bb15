-- ===== src/Users/Params/Accepted.antt =====
-- Which texts log in, by `verifyLoginParams` and `isAuth` of srv/mws.go.
use erina.Base.{
  sym, ℕ, ◌+◌, ◌^◌, ◌<◌, ◌≡◌, ◌↔◌, ◌⊎◌, inl, inr, refl, ap, ◌∙◌, arith, [], ◌∷◌, ◌++◌, true, false,
  Bool-cases, text_same, text_same_to, text_same_refl,
}
use erina.Outcome.{ok, ◌>>=◌}
use erina.Sentinel.Types.{Text}
use erina.Sentinel.Routes.{split_at}
use erina.Sentinel.Online.{NoBar, split_at-nil, split_at-cons}
use erina.Users.Params.{
  Params, params_of, verify_login_params, signed, unsigned, to_sign, is_expired, is_auth, not_empty,
  or_wrong, int_or_wrong, parse_uint,
}
use erina.Users.Params.Decimal.{
  parse_int-signed, parse_uint-unsigned, signed-NoBar, unsigned-NoBar, unsigned-not_empty,
}

-- The text that the http server hands to an application.
abbrev pub login_text : Params → Text
login_text p =
    signed p.id
    ++ (124
        ∷ (unsigned p.timestamp
            ++ (124 ∷ (unsigned p.timeout ++ (124 ∷ (p.md5 ++ (124 ∷ p.mobile)))))))

fields_of :
    (p : Params)
    → NoBar p.md5
    → NoBar p.mobile
    → split_at 124 (login_text p)
      ≡ signed p.id ∷ (unsigned p.timestamp ∷ (unsigned p.timeout ∷ (p.md5 ∷ (p.mobile ∷ []))))
fields_of p md5 mobile =
    split_at-cons (signed p.id) _ (signed-NoBar p.id)
    ∙ ap (λ l. signed p.id ∷ l)
        (split_at-cons (unsigned p.timestamp) _ (unsigned-NoBar p.timestamp)
          ∙ ap (λ l. unsigned p.timestamp ∷ l)
              (split_at-cons (unsigned p.timeout) _ (unsigned-NoBar p.timeout)
                ∙ ap (λ l. unsigned p.timeout ∷ l)
                    (split_at-cons p.md5 p.mobile md5
                      ∙ ap (λ l. p.md5 ∷ l) (split_at-nil p.mobile mobile))))

-- For numbers of 64 bits and texts without bars: `verifyLoginParams` reads back what was printed.
pub verify_login_params-login_text :
    (p : Params)
    → p.id < 2 ^ 64
    → p.timestamp < 2 ^ 64
    → p.timeout < 2 ^ 64
    → NoBar p.md5
    → NoBar p.mobile
    → verify_login_params (login_text p) ≡ ok p
unfolding verify_login_params params_of
verify_login_params-login_text p id stamp time md5 mobile =
    ap params_of (fields_of p md5 mobile)
    ∙ ap
        (λ o. int_or_wrong o >>= λ id. not_empty (unsigned p.timestamp) >>= λ stamped.
          or_wrong (parse_uint stamped) >>= λ timestamp. not_empty (unsigned p.timeout) >>= λ timed.
          or_wrong (parse_uint timed) >>= λ timeout. ok (record {
            id = id;
            timestamp = timestamp;
            timeout = timeout;
            md5 = p.md5;
            mobile = p.mobile;
          }))
        (parse_int-signed p.id id)
    ∙ ap
        (λ o. o >>= λ stamped. or_wrong (parse_uint stamped) >>= λ timestamp.
          not_empty (unsigned p.timeout) >>= λ timed. or_wrong (parse_uint timed) >>= λ timeout.
          ok (record {
            id = p.id;
            timestamp = timestamp;
            timeout = timeout;
            md5 = p.md5;
            mobile = p.mobile;
          }))
        (unsigned-not_empty p.timestamp)
    ∙ ap
        (λ o. or_wrong o >>= λ timestamp. not_empty (unsigned p.timeout) >>= λ timed.
          or_wrong (parse_uint timed) >>= λ timeout. ok (record {
            id = p.id;
            timestamp = timestamp;
            timeout = timeout;
            md5 = p.md5;
            mobile = p.mobile;
          }))
        (parse_uint-unsigned p.timestamp stamp)
    ∙ ap
        (λ o. o >>= λ timed. or_wrong (parse_uint timed) >>= λ timeout. ok (record {
          id = p.id;
          timestamp = p.timestamp;
          timeout = timeout;
          md5 = p.md5;
          mobile = p.mobile;
        }))
        (unsigned-not_empty p.timeout)
    ∙ ap
        (λ o. or_wrong o >>= λ timeout. ok (record {
          id = p.id;
          timestamp = p.timestamp;
          timeout = timeout;
          md5 = p.md5;
          mobile = p.mobile;
        }))
        (parse_uint-unsigned p.timeout time)

-- What `isAuth` accepts.
pub is_auth-true :
    (signature : Text → Text) (now : ℕ) (p : Params)
    → (is_auth signature now p ≡ ok true) ↔ (
        (is_expired now p.timestamp ≡ false)
        × (signature (to_sign p.id p.timestamp p.timeout) ≡ p.md5))
unfolding is_auth
is_auth-true signature now p = (
  λ e. elim (Bool-cases (is_expired now p.timestamp)) [
    | inl x ↦ absurd (ground arith)
    | inr x ↦ elim (Bool-cases (text_same (signature (to_sign p.id p.timestamp p.timeout)) p.md5)) [
      | inl y ↦ (x, text_same_to _ _ y)
      | inr y ↦ absurd (ground arith)
    ]
  ],
  λ (x, same). rw (x, same, text_same_refl p.md5) refl,
)

is_expired-false :
    (now timestamp : ℕ)
    → now < 2 ^ 63
    → timestamp < 2 ^ 63
    → (is_expired now timestamp ≡ false) ↔ ((timestamp ≡ 0) ⊎ (now < timestamp + 60))
unfolding is_expired
is_expired-false now timestamp h k = ground arith

-- A timestamp that is not refused is zero, or later than a minute ago.
pub in_time :
    (now timestamp : ℕ)
    → now < 2 ^ 63
    → is_expired now timestamp ≡ false
    → (timestamp ≡ 0) ⊎ (now < timestamp + 60)
unfolding is_expired
in_time now timestamp h e = ground arith

-- For the text printed from numbers of 64 bits and texts without bars, at a time and with a timestamp
-- below 2 ^ 63: `verifyLoginParams` and then `isAuth` accept it exactly if the MD5 text is the
-- signature of the user, the timestamp, the timeout and the shared key, and the timestamp is zero, or
-- later than a minute ago, the future included.
pub login_text-accepted :
    (signature : Text → Text) (now : ℕ) (p : Params)
    → p.id < 2 ^ 64
    → p.timestamp < 2 ^ 63
    → p.timeout < 2 ^ 64
    → NoBar p.md5
    → NoBar p.mobile
    → now < 2 ^ 63
    → ((verify_login_params (login_text p) >>= λ q. is_auth signature now q) ≡ ok true) ↔ (
        ((p.timestamp ≡ 0) ⊎ (now < p.timestamp + 60))
        × (signature (to_sign p.id p.timestamp p.timeout) ≡ p.md5))
login_text-accepted signature now p id stamp time md5 mobile clock =
    let reads : (verify_login_params (login_text p) >>= λ q. is_auth signature now q)
        ≡ is_auth signature now p =
      ap (λ o. o >>= λ q. is_auth signature now q)
        (verify_login_params-login_text p id (omega arith) time md5 mobile) in
    let (front, back) = is_auth-true signature now p in
    let (fresh, old) = is_expired-false now p.timestamp clock stamp in
    (
      λ e. let (x, same) = front (sym reads ∙ e) in (fresh x, same),
      λ (x, same). reads ∙ back (old x, same),
    )
