-- ===== src/Auth/Codes/Verified.antt =====
-- The writes of VerifyEmail of internal/service/auth.go, whatever statements the server refuses.
use backend_quiz.Common.{
  ℕ, ◌<◌, ◌≤◌, ◌≡◌, refl, sym, ap, ◌∙◌, inl, inr, false, Bool-cases, Option, none, some, List,
  arith, ltb, leb, is_some, select_one, update_where, if◌then◌else◌,
}
use backend_quiz.Common.Text.{Text, text_eq, eq_of_text_eq}
use backend_quiz.Domain.{email_already_verified, otp_invalid, otp_too_many_attempts, Result, ok}
use backend_quiz.Domain.Card.{Time}
use backend_quiz.Domain.Auth.{Account, EmailVerification, AuthTables, email_verified}
use backend_quiz.Db.{World, exec, transact, ◌>>◌}
use backend_quiz.Db.Compose.{bind-ok, raise_if-ok}
use backend_quiz.Db.Rules.{Ensures-transact}
use backend_quiz.Repository.Codes.{
  is_active_of, latest, get_active_code, is_code, consume_code, has_email, get_account_by_email,
  is_unverified, mark_email_verified,
}
use backend_quiz.Repository.Tokens.{create_audit}
use backend_quiz.Auth.{not_found_as, emit_audit, no_meta}
use backend_quiz.Auth.Codes.{
  CodeEnv, normalize_email, accept_code, refuse_code, verify_account, verify_email,
}

-- the two tables that a verification writes
abbrev pub verified_accounts : CodeEnv → Account → List Account → List Account
verified_accounts env user =
    update_where (is_unverified user.id)
      (λ a. record a { email_verified_at = some env.auth.now; updated_at = env.auth.now })

abbrev pub consumed_codes :
    CodeEnv → EmailVerification → List EmailVerification → List EmailVerification
consumed_codes env code =
    update_where (is_code code.id) (λ c. record c { consumed_at = some env.auth.now })

-- what a verification without error has found and written
pub record Verified (env : CodeEnv) (email given : Text) (t t' : AuthTables) (user : Account)
    (code : EmailVerification) : Type 0 where
  pub known : select_one (has_email (normalize_email env email)) t.accounts ≡ some user
  pub unverified : user.email_verified_at ≡ none
  pub active : latest (is_active_of user.id) t.email_verifications ≡ some code
  pub not_expired : env.auth.now ≤ code.expires_at
  pub attempts_left : code.attempts < env.otp_max_attempts
  pub right : code.code_hash ≡ env.auth.hash given
  pub accounts : t'.accounts ≡ verified_accounts env user t.accounts
  pub codes : t'.email_verifications ≡ consumed_codes env code t.email_verifications

module _ (env : CodeEnv) (user : Account) (code : EmailVerification) where
  abbrev Written : AuthTables → AuthTables → Type 0
  Written t t' =
      (t'.accounts ≡ verified_accounts env user t.accounts)
      × (t'.email_verifications ≡ consumed_codes env code t.email_verifications)

  two_rows-ok :
      (w : World AuthTables) (x : Unit {0})
      → ((consume_code code.id env.auth.now >> mark_email_verified user.id env.auth.now) w).0 ≡ ok x
      → Written w.tables
          ((consume_code code.id env.auth.now >> mark_email_verified user.id env.auth.now)
            w).1.tables
  unfolding consume_code mark_email_verified exec
  two_rows-ok w x h = ground arith

  audit-same :
      (w : World AuthTables)
      → ((emit_audit env.auth email_verified user.id no_meta w).1.tables.accounts
          ≡ w.tables.accounts)
        × ((emit_audit env.auth email_verified user.id no_meta w).1.tables.email_verifications
            ≡ w.tables.email_verifications)
  unfolding emit_audit create_audit exec
  audit-same w = ground arith

  accept_code-ok :
      (w : World AuthTables) (x : Unit {0})
      → (accept_code env user code w).0 ≡ ok x
      → Written w.tables (accept_code env user code w).1.tables
  unfolding accept_code
  accept_code-ok w x h =
      let body = consume_code code.id env.auth.now >> mark_email_verified user.id env.auth.now in
      let (y, h1, h2, e) =
        bind-ok (transact body) (λ _. emit_audit env.auth email_verified user.id no_meta) w x h in
      let w1 = (transact body w).1 in
      let done =
        (Ensures-transact {P = λ t. t ≡ w.tables} {Q = λ _ t. Written w.tables t} (record {
          at = λ v z p g.
              let (a, c) = two_rows-ok v z g in
              (
                a ∙ ap (λ (t : AuthTables). verified_accounts env user t.accounts) p,
                c ∙ ap (λ (t : AuthTables). consumed_codes env code t.email_verifications) p,
              );
        })).at
          w y refl h1 in
      let (s1, s2) = audit-same w1 in
      (
        ap (λ (r : Result Unit × World AuthTables). r.1.tables.accounts) e ∙ s1 ∙ done.0,
        ap (λ (r : Result Unit × World AuthTables). r.1.tables.email_verifications) e ∙ s2 ∙ done.1,
      )

  right_code :
      (given : Text) (w : World AuthTables) (x : Unit {0})
      → ((if text_eq code.code_hash (env.auth.hash given)
            then accept_code env user code
            else refuse_code code)
          w).0
        ≡ ok x
      → (code.code_hash ≡ env.auth.hash given)
        × Written w.tables
            ((if text_eq code.code_hash (env.auth.hash given)
                then accept_code env user code
                else refuse_code code)
              w).1.tables
  unfolding refuse_code
  right_code given w x h = elim (Bool-cases (text_eq code.code_hash (env.auth.hash given))) [
    | inl e ↦ (
      eq_of_text_eq _ _ e,
      rw e (
          accept_code-ok w x (
            ap (λ b. ((if b then accept_code env user code else refuse_code code) w).0) (sym e)
            ∙ h)),
    )
    | inr e ↦ absurd (ground (arith, h, e))
  ]

find_account-ok :
    (e : Text) (w : World AuthTables) (a : Account)
    → (not_found_as otp_invalid (get_account_by_email e) w).0 ≡ ok a
    → (select_one (has_email e) w.tables.accounts ≡ some a)
      × ((not_found_as otp_invalid (get_account_by_email e) w).1.tables ≡ w.tables)
unfolding not_found_as get_account_by_email exec
find_account-ok e w a h = ground arith

find_code-ok :
    (u : ℕ) (w : World AuthTables) (c : EmailVerification)
    → (not_found_as otp_invalid (get_active_code u) w).0 ≡ ok c
    → (latest (is_active_of u) w.tables.email_verifications ≡ some c)
      × ((not_found_as otp_invalid (get_active_code u) w).1.tables ≡ w.tables)
unfolding not_found_as get_active_code exec
find_code-ok u w c h = ground arith

no_value : (o : Option Time) → is_some o ≡ false → o ≡ none
no_value none h = refl
no_value (some x) h = ground arith

in_time : (a b : ℕ) → ltb a b ≡ false → b ≤ a
in_time a b h = ground arith

some_left : (max n : ℕ) → leb max n ≡ false → n < max
some_left max n h = ground arith

-- A verification that returns no error was made with the latest unconsumed code of a stored account
-- with the email, which was not verified; the code had not expired, had attempts left, and has the
-- hash of the code that was given. It has marked the account as verified and that code as consumed,
-- and changed no other account or code.
pub verify_email_effect :
    (env : CodeEnv) (email given : Text) (w : World AuthTables) (x : Unit {0})
    → (verify_email env email given w).0 ≡ ok x
    → (user : Account) × (code : EmailVerification) × Verified env email given w.tables
        (verify_email env email given w).1.tables
        user
        code
unfolding verify_email verify_account
verify_email_effect env email given w x h =
    let find = not_found_as otp_invalid (get_account_by_email (normalize_email env email)) in
    let (user, a1, h1, e1) = bind-ok find (verify_account env given) w x h in
    let w1 = (find w).1 in
    let (known, t1) = find_account-ok (normalize_email env email) w user a1 in
    let (c2, h2, e2) =
      raise_if-ok (is_some user.email_verified_at) email_already_verified _ w1 x h1 in
    let read = not_found_as otp_invalid (get_active_code user.id) in
    let (code, a3, h3, e3) = bind-ok read _ w1 x h2 in
    let w3 = (read w1).1 in
    let (active, t3) = find_code-ok user.id w1 code a3 in
    let (c4, h4, e4) = raise_if-ok (ltb code.expires_at env.auth.now) otp_invalid _ w3 x h3 in
    let (c5, h5, e5) =
      raise_if-ok (leb env.otp_max_attempts code.attempts) otp_too_many_attempts _ w3 x h4 in
    let (right, (accounts, codes)) = right_code env user code given w3 x h5 in
    let end = e1 ∙ e2 ∙ e3 ∙ e4 ∙ e5 in
    (
      user,
      code,
      record {
        known = known;
        unverified = no_value user.email_verified_at c2;
        active =
            ap (λ (t : AuthTables). latest (is_active_of user.id) t.email_verifications) (sym t1)
            ∙ active;
        not_expired = in_time code.expires_at env.auth.now c4;
        attempts_left = some_left env.otp_max_attempts code.attempts c5;
        right = right;
        accounts =
            ap (λ (r : Result Unit × World AuthTables). r.1.tables.accounts) end
            ∙ accounts
            ∙ ap (λ (t : AuthTables). verified_accounts env user t.accounts) (t3 ∙ t1);
        codes =
            ap (λ (r : Result Unit × World AuthTables). r.1.tables.email_verifications) end
            ∙ codes
            ∙ ap (λ (t : AuthTables). consumed_codes env code t.email_verifications) (t3 ∙ t1);
      },
    )
