-- ===== src/Users/Gateway/Entry/Vouched.antt =====
-- On what grounds an application is let in.
use erina.Base.{
  ◌<◌, ◌^◌, ◌+◌, if◌then◌else◌, text_same, ◌≡◌, ◌⊎◌, inl, inr, refl, ap, sym, ◌∙◌, subst, arith,
  Bool, true, false, List, [], ◌∷◌, Option, none, some,
}
use erina.Words.{Bytes}
use erina.Outcome.{expired, not_verified, Outcome, ok, err, panic}
use erina.Outcome.Laws.{bind_ok, ok_injective}
use erina.Msg.Types.{Msg, Exit, done, failed, new_msg}
use erina.Msg.Decode.{binary2msg}
use erina.Msg.Encode.{msg2binary}
use erina.Session.Forward.{left_by}
use erina.Msg.Decode.Restore.{binary2msg-final}
use erina.Msg.Decode.Safety.{Leaves}
use erina.Sentinel.Types.{Text}
use erina.Sentinel.Routes.{split_at}
use erina.Users.Params.{is_expired, to_sign, Params, verify_login_params, is_auth, signed}
use erina.Users.Params.Accepted.{is_auth-true, in_time}
use erina.Users.Gateway.Entry.Granted.{Granted, keys_of-Granted}
use erina.Users.Gateway.Entry.{
  Gate, Visitor, Entrance, closed, admitted, Keys, keys_of, welcomed, on_fields, new_login,
  authorised, on_params, old_login, on_first, log_in,
}

-- A frame names a user and a token, which the http server was asked about.
pub record ByFrame (g : Gate) (reply : Bytes) (v : Visitor) : Type 0 where
  pub frame : Msg
  pub token : Text
  pub decodes : binary2msg g.cipher (record new_msg { final = reply }) ≡ done frame
  pub names : split_at 124 frame.text ≡ token ∷ (v.mobile ∷ [])
  pub is_user : v.uid ≡ frame.fh_src_id
  pub granted : Granted g (g.auth (signed v.uid) token) v.mz

-- A text with the signature of what it says, and a timestamp that is zero or later than a minute ago.
pub record ByText (g : Gate) (reply : Bytes) (v : Visitor) : Type 0 where
  pub params : Params
  pub parses : verify_login_params reply ≡ ok params
  pub signs : g.signature (to_sign params.id params.timestamp params.timeout) ≡ params.md5
  pub fresh : (params.timestamp ≡ 0) ⊎ (g.seconds < params.timestamp + 60)
  pub is_user : v.uid ≡ params.id
  pub no_secret : v.mz ≡ none

abbrev visitor_of : Visitor → Entrance → Visitor
visitor_of d (closed r) = d
visitor_of d (admitted v) = v

admitted_injective : (u v : Visitor) → ok (admitted u) ≡ ok (admitted v) → u ≡ v
admitted_injective u v e = ap (visitor_of u) (ok_injective (admitted u) (admitted v) e)

abbrev text_visitor : Params → Visitor
text_visitor p = record { uid = p.id; mobile = p.mobile; mz = none; replies = [] }

abbrev frame_visitor : Msg → Text → Keys → Msg → Visitor
frame_visitor m mobile k r = record {
  uid = m.fh_src_id;
  mobile = mobile;
  mz = k.1;
  replies = r.final ∷ [];
}

abbrev frame_entrance : Msg → Text → Keys → Msg → Outcome Entrance
frame_entrance m mobile k r = ok (admitted (frame_visitor m mobile k r))

abbrev greeting : Msg → Keys → Msg
greeting m k = record m { fh_dst_id = m.fh_src_id; fh_src_id = 0; text = k.0 }

module _ (g : Gate) where
  -- Where `closed` is told from `admitted`.
  not_closed : (r : List Bytes) (v : Visitor) → ¬ (ok (closed r) ≡ ok (admitted v))
  not_closed r v e = ground arith

  auth_at :
      (x y b : Bool)
      → (if x then err expired else (if y then ok true else err not_verified)) ≡ ok b
      → (if x then err expired else (if y then ok true else err not_verified)) ≡ ok true
  auth_at true y b e = absurd (ground arith)
  auth_at false true b e = refl
  auth_at false false b e = absurd (ground arith)

  is_auth-ok :
      (p : Params) (b : Bool)
      → is_auth g.signature g.seconds p ≡ ok b
      → is_auth g.signature g.seconds p ≡ ok true
  unfolding is_auth
  is_auth-ok p b e =
      auth_at (is_expired g.seconds p.timestamp)
        (text_same (g.signature (to_sign p.id p.timestamp p.timeout)) p.md5) b e

  module _ (reply : Bytes) (v : Visitor) (clock : g.seconds < 2 ^ 63) where
    authorised-ok :
        (p : Params) (o : Outcome Bool)
        → authorised p o ≡ ok (admitted v)
        → (b : Bool) × (o ≡ ok b) × (text_visitor p ≡ v)
    authorised-ok p (ok b) e = (b, refl, admitted_injective (text_visitor p) v e)
    authorised-ok p (err x) e = absurd (not_closed ((2 ∷ []) ∷ []) v e)
    authorised-ok p panic e = absurd (ground arith)

    welcomed-some :
        (m : Msg) (mobile : Text) (keys : Option Keys)
        → welcomed g m mobile keys ≡ ok (admitted v)
        → (k : Keys) × (keys ≡ some k) × (m.fh_src_id ≡ v.uid) × (mobile ≡ v.mobile) × (k.1 ≡ v.mz)
    welcomed-some m mobile none e = absurd (not_closed [] v e)
    welcomed-some m mobile (some k) e =
        let (r, _, e1) =
          bind_ok (left_by (msg2binary g.cipher g.nanos (greeting m k))) (frame_entrance m mobile k)
            (admitted v) e in
        let same = admitted_injective (frame_visitor m mobile k r) v e1 in
        (k, refl, ap (λ x. x.uid) same, ap (λ x. x.mobile) same, ap (λ x. x.mz) same)

    on_params-ByText :
        (o : Outcome Params)
        → verify_login_params reply ≡ o
        → on_params g o ≡ ok (admitted v)
        → ByText g reply v
    on_params-ByText (err x) parses e = absurd (not_closed ((1 ∷ []) ∷ []) v e)
    on_params-ByText panic parses e = absurd (ground arith)
    on_params-ByText (ok p) parses e =
        let (b, signs, same) = authorised-ok p (is_auth g.signature g.seconds p) e in
        let (calm, same_sum) = (is_auth-true g.signature g.seconds p).0 (is_auth-ok p b signs) in
        record {
          params = p;
          parses = parses;
          signs = same_sum;
          fresh = in_time g.seconds p.timestamp clock calm;
          is_user = sym (ap (λ x. x.uid) same);
          no_secret = sym (ap (λ x. x.mz) same);
        }

    on_fields-ByFrame :
        (m : Msg) (fields : List Text)
        → binary2msg g.cipher (record new_msg { final = reply }) ≡ done m
        → split_at 124 m.text ≡ fields
        → on_fields g m fields ≡ ok (admitted v)
        → ByFrame g reply v
    on_fields-ByFrame m [] reads names e = absurd (not_closed [] v e)
    on_fields-ByFrame m (a ∷ []) reads names e = absurd (not_closed [] v e)
    on_fields-ByFrame m (a ∷ b ∷ c ∷ rest) reads names e = absurd (not_closed [] v e)
    on_fields-ByFrame m (token ∷ mobile ∷ []) reads names e =
        let (keys, asked, e1) =
          bind_ok (keys_of g (g.auth (signed m.fh_src_id) token)) (welcomed g m mobile) (admitted v)
            e in
        let (k, some_keys, user, app, secret) = welcomed-some m mobile keys e1 in
        let granted : Granted g (g.auth (signed m.fh_src_id) token) k.1 =
          keys_of-Granted g (g.auth (signed m.fh_src_id) token) k (asked ∙ ap ok some_keys) in
        record {
          frame = m;
          token = token;
          decodes = reads;
          names = names ∙ ap (λ x. token ∷ (x ∷ [])) app;
          is_user = sym user;
          granted =
              subst (λ u. Granted g (g.auth (signed u) token) v.mz) user
                (subst (Granted g (g.auth (signed m.fh_src_id) token)) secret granted);
        }

    on_first-cases :
        (e : Exit)
        → binary2msg g.cipher (record new_msg { final = reply }) ≡ e
        → Leaves (λ n. n.final ≡ reply) e
        → on_first g e ≡ ok (admitted v)
        → ByFrame g reply v ⊎ ByText g reply v
    unfolding new_login old_login
    on_first-cases (done m) reads kept e =
        inl (on_fields-ByFrame m (split_at 124 m.text) reads refl e)
    on_first-cases (failed x m) reads kept e = inr (
        on_params-ByText (verify_login_params reply) refl
          (subst (λ r. on_params g (verify_login_params r) ≡ ok (admitted v)) kept e))
    on_first-cases Exit.panic reads kept e = absurd (ground arith)

    -- At a time below 2 ^ 63, an application is let in on two grounds only: its first message decodes to a
    -- frame whose text is a token and a mobile, and the http server, asked about the frame's sender and the
    -- token, gave a key from which the session's secret is made, or else, and then there is no secret,
    -- answered without a number or with status 0 and no key; or the message parses as a login text, whose
    -- MD5 text is the signature of its user, its timestamp, its timeout and the shared key, and whose
    -- timestamp is zero or later than a minute ago, the future included, and then there is no secret. In
    -- both the user is the one named.
    pub log_in-cases : log_in g reply ≡ ok (admitted v) → ByFrame g reply v ⊎ ByText g reply v
    unfolding log_in
    log_in-cases e =
        on_first-cases (binary2msg g.cipher (record new_msg { final = reply })) refl
          (binary2msg-final g.cipher (record new_msg { final = reply }) (ground arith)) e
