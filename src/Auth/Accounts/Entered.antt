-- ===== src/Auth/Accounts/Entered.antt =====
-- What a login of internal/service/auth.go that returns tokens has checked and done.
use mathlib.Core.Path.{subst, subst₂, ap₂}
use backend_quiz.Common.{◌+◌}
use backend_quiz.Common.{
  ℕ, ◌<◌, ◌≡◌, ◌≢◌, ◌⊎◌, refl, sym, ap, ◌∙◌, true, false, Bool, not, ◌&&◌, Option, none, some, List,
  [], ◌∷◌, ◌++◌, arith, is_some, select_one,
}
use backend_quiz.Common.Text.{Text}
use backend_quiz.Domain.{Error, not_found, invalid_credentials, email_not_verified, Result, ok, err}
use backend_quiz.Domain.Auth.{
  Account, RefreshToken, RequestMeta, TokenPair, AuthTables, login_success,
}
use backend_quiz.Db.{World, exec, pure, ◌>>◌}
use backend_quiz.Db.Compose.{bind-ok, if-ok}
use backend_quiz.Repository.Tokens.{create_token, create_audit}
use backend_quiz.Repository.Codes.{has_email, get_account_by_email}
use backend_quiz.Repository.Accounts.{count_recent_failures, create_login_attempt, device_seen}
use backend_quiz.Auth.{issue_token_pair, emit_audit}
use backend_quiz.Auth.Codes.{normalize_email}
use backend_quiz.Auth.Accounts.{
  AccountEnv, auth_of, now_of, is_empty, check_lockout, refuse_locked, refuse_login, record_login,
  check_device, enter, login_found, login_unlocked, login,
}
use backend_quiz.Auth.Accounts.Lockout.{recent}

-- rows with the same accounts and refresh tokens
abbrev Same : AuthTables → AuthTables → Type 0
Same t t' = (t'.accounts ≡ t.accounts) × (t'.refresh_tokens ≡ t.refresh_tokens)

module _ (env : AccountEnv) (name : Text) (meta : RequestMeta) where
  check_lockout-ok :
      (w : World AuthTables) (x : Unit {0})
      → (check_lockout env name meta w).0 ≡ ok x
      → ((env.lockout_max_fails ≡ 0) ⊎ (recent env name w.tables < env.lockout_max_fails))
        × ((check_lockout env name meta w).1.tables ≡ w.tables)
  unfolding check_lockout count_recent_failures refuse_locked exec
  check_lockout-ok w x h = ground arith

  check_device-Same :
      (user : Account) (w : World AuthTables) → Same w.tables (check_device user meta w).1.tables
  unfolding check_device device_seen exec
  check_device-Same user w = ground arith

  record_login-Same :
      (b : Bool) (w : World AuthTables) → Same w.tables (record_login env name meta b w).1.tables
  unfolding record_login create_login_attempt exec
  record_login-Same b w = ground arith

  emit_audit-Same :
      (id : ℕ) (w : World AuthTables)
      → Same w.tables (emit_audit (auth_of env) login_success id meta w).1.tables
  unfolding emit_audit create_audit exec
  emit_audit-Same id w = ground arith

  -- the first token of a family
  abbrev pub first_token : ℕ → Text → ℕ → RefreshToken
  first_token user_id raw i = record {
    id = i;
    user_id = user_id;
    token_hash = (auth_of env).hash raw;
    parent_id = none;
    user_agent = meta.user_agent;
    ip_address = meta.ip_address;
    revoked_at = none;
    expires_at = now_of env + (auth_of env).refresh_duration;
    created_at = now_of env;
  }

  -- one more token of the user
  abbrev pub Issued : ℕ → TokenPair → AuthTables → AuthTables → Type 0
  Issued id p t t' =
      (t'.accounts ≡ t.accounts)
      × ((i : ℕ) × (t'.refresh_tokens ≡ t.refresh_tokens ++ first_token id p.refresh_token i ∷ []))

  issue_token_pair-ok :
      (id : ℕ) (w : World AuthTables) (p : TokenPair)
      → (issue_token_pair (auth_of env) id meta none w).0 ≡ ok p
      → Issued id p w.tables (issue_token_pair (auth_of env) id meta none w).1.tables
  unfolding issue_token_pair create_token exec
  issue_token_pair-ok id w p h = (ground arith, (w.tables.fresh_id, ground arith))

  -- credentials that are accepted
  pub record IsAccepted (password : Text) (user : Account) : Type 0 where
    pub has_password : is_empty user.password_hash ≡ false
    pub right : env.compare user.password_hash password ≡ true
    pub verified : (env.require_email_verified && not (is_some user.email_verified_at)) ≡ false

  refuse_login-fails :
      (id : Option ℕ) (e : Error) (w : World AuthTables) (r : TokenPair × Account)
      → (refuse_login env name meta id e w).0 ≡ ok r
      → ⊥
  unfolding refuse_login record_login create_login_attempt create_audit exec
  refuse_login-fails id e w r h = ground arith

  login_user-ok :
      (password : Text) (user : Account) (w : World AuthTables) (r : TokenPair × Account)
      → (login_found env name password meta (ok user) w).0 ≡ ok r
      → IsAccepted password user
        × (login_found env name password meta (ok user) w ≡ enter env name meta user w)
  unfolding login_found
  login_user-ok password user w r h =
      let fails = λ (e : Error). refuse_login-fails (some user.id) e w r in
      let (a, h1, e1) = if-ok (is_empty user.password_hash) _ _ w r h (fails invalid_credentials) in
      let (b, h2, e2) =
        if-ok (not (env.compare user.password_hash password)) _ _ w r h1
          (fails invalid_credentials) in
      let (c, h3, e3) =
        if-ok (env.require_email_verified && not (is_some user.email_verified_at)) _ _ w r h2
          (fails email_not_verified) in
      (record { has_password = a; right = ground arith; verified = c }, e1 ∙ e2 ∙ e3)

  unknown_user-fails :
      (password : Text) (e : Error) (w : World AuthTables) (r : TokenPair × Account)
      → (login_found env name password meta (err e) w).0 ≢ ok r
  unfolding login_found
  unknown_user-fails password not_found w r h = refuse_login-fails none invalid_credentials w r h
  unknown_user-fails password e w r h = cc

  login_found-ok :
      (password : Text) (found : Result Account) (w : World AuthTables) (r : TokenPair × Account)
      → (login_found env name password meta found w).0 ≡ ok r
      → (user : Account) × (found ≡ ok user)
        × IsAccepted password user
        × (login_found env name password meta found w ≡ enter env name meta user w)
  login_found-ok password (ok user) w r h =
      let (a, e) = login_user-ok password user w r h in (user, refl, a, e)
  login_found-ok password (err e) w r h = absurd (unknown_user-fails password e w r h)

  enter-ok :
      (user : Account) (w : World AuthTables) (r : TokenPair × Account)
      → (enter env name meta user w).0 ≡ ok r
      → (r.1 ≡ user) × Issued user.id r.0 w.tables (enter env name meta user w).1.tables
  unfolding enter
  enter-ok user w r h =
      let (x, _, h1, e1) = bind-ok (check_device user meta) _ w r h in
      let w1 = (check_device user meta w).1 in
      let (accounts1, tokens1) = check_device-Same user w in
      let issue = issue_token_pair (auth_of env) user.id meta none in
      let (p, a2, h2, e2) = bind-ok issue _ w1 r h1 in
      let w2 = (issue w1).1 in
      let (accounts2, (i, tokens2)) = issue_token_pair-ok user.id w1 p a2 in
      let (y, _, h3, e3) =
        bind-ok (record_login env name meta true)
          (λ _. emit_audit (auth_of env) login_success user.id meta >> pure (p, user)) w2 r h2 in
      let w3 = (record_login env name meta true w2).1 in
      let (accounts3, tokens3) = record_login-Same true w2 in
      let (z, _, h4, e4) =
        bind-ok (emit_audit (auth_of env) login_success user.id meta) (λ _. pure (p, user)) w3 r
          h3 in
      let (accounts4, tokens4) = emit_audit-Same user.id w3 in
      let all = e1 ∙ e2 ∙ e3 ∙ e4 in
      let same : r ≡ (p, user) = cc in
      (
        ap (λ (x : TokenPair × Account). x.1) same,
        (
          ap (λ (x : Result (TokenPair × Account) × World AuthTables). x.1.tables.accounts) all
              ∙ accounts4
              ∙ accounts3
              ∙ accounts2
              ∙ accounts1,
          (
            i,
            ap (λ (x : Result (TokenPair × Account) × World AuthTables). x.1.tables.refresh_tokens)
                  all
                ∙ tokens4
                ∙ tokens3
                ∙ tokens2
                ∙ ap₂
                    (λ (ts : List RefreshToken) (q : TokenPair).
                      ts ++ first_token user.id q.refresh_token i ∷ [])
                    tokens1 (ap (λ (x : TokenPair × Account). x.0) (sym same)),
          ),
        ),
      )

get_account_by_email-ok :
    (name : Text) (w : World AuthTables) (user : Account)
    → (get_account_by_email name w).0 ≡ ok user
    → (select_one (has_email name) w.tables.accounts ≡ some user)
      × ((get_account_by_email name w).1.tables ≡ w.tables)
unfolding get_account_by_email exec
get_account_by_email-ok name w user h = ground arith

-- What a login that is not refused was made with, and what it has done.
pub record LoginEffect (env : AccountEnv) (name password : Text) (meta : RequestMeta)
    (t t' : AuthTables) (p : TokenPair) (user : Account) : Type 0 where
  pub unlocked : (env.lockout_max_fails ≡ 0) ⊎ (recent env name t < env.lockout_max_fails)
  pub known : select_one (has_email name) t.accounts ≡ some user
  pub accepted : IsAccepted env name meta password user
  pub issued : Issued env name meta user.id p t t'

-- A login that returns tokens was made, whatever statements the server refuses, for an email that
-- is not locked and the stored account of it, which has a password that is the one given, and is
-- verified if the policy asks for it. It has changed no account and has added one refresh token.
pub login_effect :
    (env : AccountEnv) (email password : Text) (meta : RequestMeta) (w : World AuthTables)
    (p : TokenPair) (user : Account)
    → (login env email password meta w).0 ≡ ok (p, user)
    → LoginEffect env
        (normalize_email env.codes email)
        password
        meta
        w.tables
        (login env email password meta w).1.tables
        p
        user
unfolding login login_unlocked
login_effect env email password meta w p user h =
    let name = normalize_email env.codes email in
    let (x, a1, h1, e1) =
      bind-ok (check_lockout env name meta) (λ _. login_unlocked env name password meta) w (p, user)
        h in
    let w1 = (check_lockout env name meta w).1 in
    let (unlocked, t1) = check_lockout-ok env name meta w x a1 in
    let w2 = (get_account_by_email name w1).1 in
    let (found, known, accepted, e2) =
      login_found-ok env name meta password (get_account_by_email name w1).0 w2 (p, user) h1 in
    let (stored, t2) = get_account_by_email-ok name w1 found known in
    let h2 = ap (λ (x : Result (TokenPair × Account) × World AuthTables). x.0) (sym e2) ∙ h1 in
    let (same, issued) = enter-ok env name meta found w2 (p, user) h2 in
    let rows = ap (λ (x : Result (TokenPair × Account) × World AuthTables). x.1.tables) (e1 ∙ e2) in
    record {
      unlocked = unlocked;
      known =
          ap (λ (t : AuthTables). select_one (has_email name) t.accounts) (sym t1)
          ∙ stored
          ∙ ap some (sym same);
      accepted = subst (IsAccepted env name meta password) (sym same) accepted;
      issued =
          let base =
            subst
              (λ u. Issued env name meta u.id p w2.tables (enter env name meta found w2).1.tables)
              (sym same) issued in
          subst₂ (λ t t'. Issued env name meta user.id p t t') (t2 ∙ t1) (sym rows) base;
    }
