-- ===== src/Auth/Accounts.antt =====
-- internal/service/auth.go: registration, login and the link to an OAuth provider. The mails, whose
-- errors are only logged, are left out.
pub mod Lockout
pub mod Entered
use backend_quiz.Common.{
  ℕ, ◌+◌, Bool, true, false, not, ◌&&◌, ◌||◌, Option, none, some, List, [], ◌∷◌, ◌==◌, ltb, leb,
  is_some, if◌then◌else◌,
}
use backend_quiz.Common.{ℤ}
use backend_quiz.Common.Text.{Text}
use backend_quiz.Domain.{
  Error, not_found, email_taken, account_locked, invalid_credentials, email_not_verified, Result,
  ok, err,
}
use backend_quiz.Domain.Card.{Time}
use backend_quiz.Domain.Auth.{
  Account, OauthAccount, LoginAttempt, RequestMeta, TokenPair, AuthTables, register, login_success,
  login_failed, oauth_login, oauth_linked,
}
use backend_quiz.Db.{World, M, pure, raise, lift, ignore, ◌>>=◌, ◌>>◌, raise_if, transact}
use backend_quiz.Repository.Tokens.{get_account}
use backend_quiz.Repository.Codes.{get_account_by_email, mark_email_verified}
use backend_quiz.Repository.Accounts.{
  create_account, get_oauth_account, create_oauth_account, create_login_attempt,
  count_recent_failures, device_seen,
}
use backend_quiz.Auth.{AuthEnv, or_fail, emit_audit, emit_audit_for, issue_token_pair}
use backend_quiz.Auth.Codes.{CodeEnv, normalize_email, issue_verification_code}
use backend_quiz.Auth.Passwords.{PasswordPolicy, validate_password}

-- What the methods on accounts use besides: bcrypt, the policies, and whether the mailer sends.
pub record AccountEnv : Type 0 where
  pub codes : CodeEnv
  pub passwords : PasswordPolicy
  -- bcrypt.GenerateFromPassword; none is an error
  pub hash_password : Text → Option Text
  -- bcrypt.CompareHashAndPassword without error
  pub compare : Text → Text → Bool
  pub require_email_verified : Bool
  pub lockout_window : ℕ
  pub lockout_max_fails : ℕ
  pub reset_ttl : ℕ
  pub deletion_grace : ℕ
  pub mail_sent : Bool

abbrev pub auth_of : AccountEnv → AuthEnv
auth_of env = env.codes.auth

abbrev pub now_of : AccountEnv → Time
now_of env = env.codes.auth.now

-- an account before it is stored
abbrev pub account_of : Text → Text → Text → Account
account_of email password_hash display_name = record {
  id = 0;
  email = email;
  password_hash = password_hash;
  display_name = display_name;
  email_verified_at = none;
  deletion_requested_at = none;
  updated_at = 0;
}

-- `existing, err := GetByEmail(...)`: not found is no error
abbrev pub refuse_taken : Result Account → M AuthTables (Unit {0})
refuse_taken (err not_found) = pure tt
refuse_taken (err e) = raise e
refuse_taken (ok user) = raise email_taken

unfoldable pub check_email_free : Text → M AuthTables (Unit {0})
check_email_free email w = let (r, w') = get_account_by_email email w in refuse_taken r w'

-- the transaction of RegisterWithMeta
unfoldable pub register_body :
    AccountEnv → Account → RequestMeta → M AuthTables (TokenPair × Account)
register_body env new meta = do
  user ← create_account (now_of env) new
  issue_verification_code env.codes user
  tokens ← issue_token_pair (auth_of env) user.id meta none
  pure (tokens, user)

-- RegisterWithMeta
unfoldable pub register_account :
    AccountEnv → Text → Text → Text → RequestMeta → M AuthTables (TokenPair × Account)
unfolding check_email_free register_body
register_account env email password display_name meta = do
  lift (validate_password env.passwords password)
  check_email_free (normalize_email env.codes email)
  hash ← lift (or_fail (env.hash_password password))
  (tokens, user) ←
      transact
        (register_body env (account_of (normalize_email env.codes email) hash display_name) meta)
  emit_audit (auth_of env) register user.id meta
  pure (tokens, user)

-- recordLogin, whose error is only logged
unfoldable pub record_login : AccountEnv → Text → RequestMeta → Bool → M AuthTables (Unit {0})
record_login env email meta successful = ignore (
    create_login_attempt (now_of env) (record {
      id = 0;
      email = email;
      ip_address = meta.ip_address;
      successful = successful;
      created_at = 0;
    }))

-- a login that is refused for its credentials
unfoldable pub refuse_login :
    AccountEnv → Text → RequestMeta → Option ℕ → Error → M AuthTables (TokenPair × Account)
unfolding record_login
refuse_login env email meta user_id e = do
  record_login env email meta false
  emit_audit_for (auth_of env) login_failed user_id meta
  raise e

-- the refusal of a locked email, with no attempt recorded
unfoldable pub refuse_locked : AccountEnv → RequestMeta → Bool → M AuthTables (Unit {0})
refuse_locked env meta false = pure tt
refuse_locked env meta true = do
  emit_audit_for (auth_of env) login_failed none meta
  raise account_locked

unfoldable pub check_lockout : AccountEnv → Text → RequestMeta → M AuthTables (Unit {0})
unfolding refuse_locked
check_lockout env email meta =
    if ltb 0 env.lockout_max_fails
    then (do
      failures ← count_recent_failures email (now_of env) env.lockout_window
      refuse_locked env meta (leb env.lockout_max_fails failures))
    else pure tt

abbrev pub is_empty : Text → Bool
is_empty [] = true
is_empty (c ∷ s) = false

-- isNewDevice, of which only the mail and the log's metadata depend
unfoldable pub check_device : Account → RequestMeta → M AuthTables (Unit {0})
check_device user meta =
    if is_empty meta.user_agent && is_empty meta.ip_address
    then pure tt
    else ignore (device_seen user.id meta.user_agent meta.ip_address)

-- the end of LoginWithMeta, with the right credentials
unfoldable pub enter :
    AccountEnv → Text → RequestMeta → Account → M AuthTables (TokenPair × Account)
unfolding check_device record_login
enter env email meta user = do
  check_device user meta
  tokens ← issue_token_pair (auth_of env) user.id meta none
  record_login env email meta true
  emit_audit (auth_of env) login_success user.id meta
  pure (tokens, user)

-- LoginWithMeta, once the account is read
unfoldable pub login_found :
    AccountEnv → Text → Text → RequestMeta → Result Account → M AuthTables (TokenPair × Account)
unfolding refuse_login enter
login_found env email password meta (err not_found) =
    refuse_login env email meta none invalid_credentials
login_found env email password meta (err e) = raise e
login_found env email password meta (ok user) =
    if is_empty user.password_hash
    then refuse_login env email meta (some user.id) invalid_credentials
    else if not (env.compare user.password_hash password)
    then refuse_login env email meta (some user.id) invalid_credentials
    else if env.require_email_verified && not (is_some user.email_verified_at)
    then refuse_login env email meta (some user.id) email_not_verified
    else enter env email meta user

unfoldable pub login_unlocked :
    AccountEnv → Text → Text → RequestMeta → M AuthTables (TokenPair × Account)
unfolding login_found
login_unlocked env email password meta w =
    let (r, w') = get_account_by_email email w in login_found env email password meta r w'

-- LoginWithMeta
unfoldable pub login : AccountEnv → Text → Text → RequestMeta → M AuthTables (TokenPair × Account)
unfolding login_unlocked check_lockout
login env raw_email password meta = do
  check_lockout env (normalize_email env.codes raw_email) meta
  login_unlocked env (normalize_email env.codes raw_email) password meta

-- the account to link: the stored one of the email, or a new one
abbrev pub or_new_account : Text → Text → Result Account → M AuthTables (Option Account)
or_new_account email display_name (err not_found) = pure none
or_new_account email display_name (err e) = raise e
or_new_account email display_name (ok user) = pure (some user)

-- `if user.ID == uuid.Nil`
unfoldable pub stored_or_created : Time → Text → Text → Option Account → M AuthTables Account
stored_or_created now email display_name none =
    create_account now (account_of email [] display_name)
stored_or_created now email display_name (some user) = pure user

-- a provider's email is verified
unfoldable pub verify_linked : Time → Account → M AuthTables Account
verify_linked now user = elim user.email_verified_at [
  | none ↦ (do mark_email_verified user.id now; pure (record user { email_verified_at = some now }))
  | some t ↦ pure user
]

-- the transaction of FindOrCreateOAuthUserWithMeta
unfoldable pub link_body :
    AccountEnv
    → Text
    → Text
    → Text
    → Text
    → RequestMeta
    → Option Account
    → M AuthTables (TokenPair × Account)
unfolding stored_or_created verify_linked
link_body env provider provider_id email display_name meta found = do
  stored ← stored_or_created (now_of env) email display_name found
  user ← verify_linked (now_of env) stored
  create_oauth_account (record {
    id = 0;
    user_id = user.id;
    provider = provider;
    provider_id = provider_id;
    email = email;
  })
  tokens ← issue_token_pair (auth_of env) user.id meta none
  pure (tokens, user)

-- FindOrCreateOAuthUserWithMeta, once the link is read
unfoldable pub oauth_found :
    AccountEnv
    → Text
    → Text
    → Text
    → Text
    → RequestMeta
    → Result OauthAccount
    → M AuthTables (TokenPair × Account)
unfolding link_body
oauth_found env provider provider_id email display_name meta (err not_found) w =
    let (r, w') = get_account_by_email email w in
    (do
      found ← or_new_account email display_name r
      (tokens, user) ← transact (link_body env provider provider_id email display_name meta found)
      emit_audit (auth_of env) oauth_linked user.id meta
      pure (tokens, user))
      w'
oauth_found env provider provider_id email display_name meta (err e) w = raise e w
oauth_found env provider provider_id email display_name meta (ok link) w =
    (do
      user ← get_account link.user_id
      tokens ← issue_token_pair (auth_of env) user.id meta none
      emit_audit (auth_of env) oauth_login user.id meta
      pure (tokens, user))
      w

-- FindOrCreateOAuthUserWithMeta
unfoldable pub find_or_create_oauth_user :
    AccountEnv → Text → Text → Text → Text → RequestMeta → M AuthTables (TokenPair × Account)
unfolding oauth_found
find_or_create_oauth_user env provider provider_id raw_email display_name meta w =
    let (r, w') = get_oauth_account provider provider_id w in
    oauth_found env provider provider_id (normalize_email env.codes raw_email) display_name meta r
      w'
