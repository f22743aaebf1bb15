-- ===== src/Session/Login/Refused.antt =====
-- When a login changes anything.
use erina.Base.{
  ℕ, ◌==◌, ◌≡◌, ◌⊎◌, refl, ap, sym, not, ◌&&◌, Bool, true, false, Option, none, some, length, take,
  drop, lookup, insert, nat_key, text_key, text_same, ==_iff, Bool-cases, inl, inr, [],
}
use erina.Words.{Bytes, hex_encode}
use erina.Outcome.{ok, ◌>>=◌, bad_body, not_logged_in, Error}
use erina.Outcome.Laws.{bind_ok, ok_injective}
use erina.Session.Types.{Text, DevSession}
use erina.Session.Login.Stages.{
  LoginWorld, LoginPosted, answered, unanswered, LoginAnswer, Tables, Output, flat, no_output,
  LoginDone, Stage, id_login, staged, pwd_of, dack_http_error,
}
use erina.Session.Login.{
  unchanged, finished, other_output, fine_output, on_fine, on_status, on_posted, on_macs, on_login,
  blank,
}

-- The tables with the session at `h` as it was, but perhaps for the output of its login.
abbrev pub same_but_output : Tables → ℕ → DevSession → Bytes → Tables
same_but_output t h s out = record t {
  pool = record (t.pool) { heap = insert (t.pool).heap h (record s { output = out }) };
}

-- The http server let a device in.
pub record Admitted (w : LoginWorld) (t : Tables) (h : ℕ) (s : DevSession) (body : Bytes)
    (d : LoginDone) : Type 0 where
  pub answer : LoginAnswer
  pub id : ℕ
  pub stage : Stage
  pub posted :
      w.post (hex_encode (take 8 body)) (hex_encode (take 32 (drop 8 body))) ≡ answered answer
  pub fine : answer.status ≡ some 0
  pub named : answer.id ≡ some id
  pub stages : id_login w t h s (hex_encode (take 8 body)) (some id) ≡ ok stage
  pub told : d.events ≡ stage.events
  pub output : Output
  pub written : d.tables ≡ (finished h (s.dev_id == 0) stage output).tables

-- Nothing is told, and nothing changes but the output.
pub record Same (t : Tables) (h : ℕ) (s : DevSession) (d : LoginDone) : Type 0 where
  pub output : Bytes
  pub quiet : d.events ≡ []
  pub tables_kept : (d.tables ≡ t) ⊎ (d.tables ≡ same_but_output t h s output)

module _ (w : LoginWorld) (t : Tables) (h : ℕ) (s : DevSession) (d : LoginDone) where
  unchanged-Same :
      (text : Option Bytes) (e : Option Error) → ok (unchanged t text e) ≡ ok d → Same t h s d
  unchanged-Same text e q =
      let same = ok_injective (unchanged t text e) d q in
      record {
        output = [];
        quiet = sym (ap (λ x. x.events) same);
        tables_kept = inl (sym (ap (λ x. x.tables) same));
      }

  finished-Same :
      (first : Bool) (o : Output) → ok (finished h first (staged t s) o) ≡ ok d → Same t h s d
  finished-Same true o q =
      let same = ok_injective (finished h true (staged t s) o) d q in
      record {
        output = flat o;
        quiet = sym (ap (λ x. x.events) same);
        tables_kept = inr (sym (ap (λ x. x.tables) same));
      }
  finished-Same false o q =
      let same = ok_injective (finished h false (staged t s) o) d q in
      record {
        output = s.output;
        quiet = sym (ap (λ x. x.events) same);
        tables_kept = inr (sym (ap (λ x. x.tables) same));
      }

  -- What the answer with status 0 leads to.
  abbrev Granted : Text → Option ℕ → Type 0
  Granted mac aid =
      (id : ℕ) × (g : Stage) × (aid ≡ some id)
      × (id_login w t h s mac (some id) ≡ ok g)
      × (d.events ≡ g.events)
      × (o : Output) × (d.tables ≡ (finished h (s.dev_id == 0) g o).tables)

  on_fine-cases :
      (mac : Text) (a : LoginAnswer) (aid : Option ℕ)
      → on_fine w t h s mac a aid ≡ ok d
      → Same t h s d ⊎ Granted mac aid
  unfolding on_fine id_login
  on_fine-cases mac a none q =
      let (pwd, _, e) =
        bind_ok (pwd_of w 0 a.ctlpwd)
          (λ pwd.
            ok (finished h (s.dev_id == 0) (staged t s) (fine_output w a none (staged t s) pwd)))
          d q in
      inl (finished-Same (s.dev_id == 0) (fine_output w a none (staged t s) pwd) e)
  on_fine-cases mac a (some id) q =
      let (g, stages, e) =
        bind_ok (id_login w t h s mac (some id))
          (λ g. pwd_of w id a.ctlpwd >>= λ pwd.
            ok (finished h (s.dev_id == 0) g (fine_output w a (some id) g pwd)))
          d q in
      let (pwd, _, f) =
        bind_ok (pwd_of w id a.ctlpwd)
          (λ pwd. ok (finished h (s.dev_id == 0) g (fine_output w a (some id) g pwd))) d e in
      let o : Output = fine_output w a (some id) g pwd in
      let same = ok_injective (finished h (s.dev_id == 0) g o) d f in
      inr (id, g, refl, stages, sym (ap (λ x. x.events) same), o, sym (ap (λ x. x.tables) same))

  on_status-cases :
      (mac : Text) (a : LoginAnswer) (status : Option ℕ)
      → on_status w t h s mac a status ≡ ok d
      → Same t h s d ⊎ (status ≡ some 0) × Granted mac a.id
  unfolding on_status
  on_status-cases mac a none q =
      inl (finished-Same (s.dev_id == 0) (other_output w s dack_http_error) q)
  on_status-cases mac a (some status) q = elim (Bool-cases (status == 0)) [
    | inl z ↦ elim (on_fine-cases mac a a.id (rw z at q)) [
      | inl same ↦ inl same
      | inr granted ↦ inr (ap some ((==_iff status 0).0 z), granted)
    ]
    | inr z ↦ inl (finished-Same (s.dev_id == 0) (other_output w s status) (rw z at q))
  ]

  module _ (body : Bytes) where
    abbrev mac : Text
    mac = hex_encode (take 8 body)

    abbrev cookie : Text
    cookie = hex_encode (take 32 (drop 8 body))

    on_posted-cases :
        (r : LoginPosted)
        → w.post mac cookie ≡ r
        → on_posted w t h s mac r ≡ ok d
        → Same t h s d ⊎ Admitted w t h s body d
    on_posted-cases (unanswered code e) asks q =
        inl (unchanged-Same (some (flat (record no_output { status = code }))) (some e) q)
    on_posted-cases (answered a) asks q = elim (on_status-cases mac a a.status q) [
      | inl same ↦ inl same
      | inr (fine, (id, g, named, stages, told, output, written)) ↦ inr (record {
        answer = a;
        id = id;
        stage = g;
        posted = asks;
        fine = fine;
        named = named;
        stages = stages;
        told = told;
        output = output;
        written = written;
      })
    ]

    on_macs-cases : on_macs w t h s mac cookie ≡ ok d → Same t h s d ⊎ Admitted w t h s body d
    unfolding on_macs
    on_macs-cases q = elim (Bool-cases (not (s.dev_id == 0) && text_same s.mac mac)) [
      | inl e ↦ inl (unchanged-Same (some s.output) none (rw e at q))
      | inr e ↦ elim (Bool-cases (s.dev_id == 0 && not (text_same s.mac mac))) [
        | inl f ↦ inl (unchanged-Same none (some not_logged_in) (rw (e, f) at q))
        | inr f ↦ on_posted-cases (w.post mac cookie) refl (rw (e, f) at q)
      ]
    ]

    -- When `onLogin` returns for a session of the table, with an error or without: it tells nobody
    -- anything, and leaves the tables as they were, but perhaps for the output that the session keeps; or
    -- else the http server has answered, for the MAC and the cookie of the body, with status 0 and an id,
    -- and what is told and left is what a login with that id tells and leaves, with the session at its
    -- pointer written back.
    pub on_login-cases :
        lookup (t.pool).heap h ≡ some s
        → on_login w t h body ≡ ok d
        → Same t h s d ⊎ Admitted w t h s body d
    unfolding on_login
    on_login-cases at q = elim (Bool-cases (not (length body == 42))) [
      | inl e ↦ inl (unchanged-Same (some blank) (some bad_body) (rw (at, e) at q))
      | inr e ↦ on_macs-cases (rw (at, e) at q)
    ]
