-- ===== src/Auth.antt =====
-- internal/service/auth.go, the sessions of a user: RefreshToken, Logout, LogoutAll, RevokeSession
-- and the issue of tokens. SHA-256, the signature of an access token and the random source are
-- parameters, in `AuthEnv`.
pub mod Rotation
pub mod Reuse
pub mod Revoked
pub mod Codes
pub mod Passwords
pub mod Accounts
pub mod Reset
pub mod Deletion
use backend_quiz.Common.{
  ℕ, ◌+◌, ◌/◌, ◌*◌, Bool, true, false, not, Option, none, some, List, [], ◌∷◌, ◌==◌, ltb, is_some,
  if◌then◌else◌,
}
use backend_quiz.Common.Text.{Text}
use backend_quiz.Domain.{
  Error, not_found, database, forbidden, refresh_token_invalid, refresh_token_reuse,
  session_not_found, Result, ok, err,
}
use backend_quiz.Domain.Card.{Time}
use backend_quiz.Domain.Auth.{
  RefreshToken, AuthAuditEvent, logout, logout_all, refresh_reuse_detected, AuthAuditLog, Account,
  RequestMeta, TokenPair, AuthTables,
}
use backend_quiz.Db.{World, M, pure, raise, lift, ignore, ◌>>=◌, ◌>>◌, raise_if, transact}
use backend_quiz.Repository.Tokens.{
  create_token, get_token_by_hash, get_token, revoke_token, revoke_all, get_account, create_audit,
}

-- What a request finds outside the database. `has_audit` is `s.auditRepo != nil`.
pub record AuthEnv : Type 0 where
  pub now : Time
  -- sha256.Sum256 in hexadecimal
  pub hash : Text → Text
  -- the signed access token of a user; none is an error
  pub sign : ℕ → Option Text
  -- randomURLToken; none is an error of the random source
  pub random_token : Option Text
  pub access_duration : ℕ
  pub refresh_duration : ℕ
  pub has_audit : Bool

-- `errors.Is(err, domain.ErrNotFound)`
abbrev rename : {A : Type 0} → Error → Result A → Result A
rename e (err not_found) = err e
rename e r = r

unfoldable pub not_found_as : {A : Type 0} → Error → M AuthTables A → M AuthTables A
not_found_as e m w = let (r, w') = m w in (rename e r, w')

abbrev any_error : {A : Type 0} → Error → Result A → Result A
any_error e (err e') = err e
any_error e (ok a) = ok a

-- `if _, err := call(); err != nil { return e }`
unfoldable pub any_error_as : {A : Type 0} → Error → M AuthTables A → M AuthTables A
any_error_as e m w = let (r, w') = m w in (any_error e r, w')

abbrev pub or_fail : {A : Type 0} → Option A → Result A
or_fail none = err database
or_fail (some a) = ok a

-- emitAudit, whose error is only logged; a nil user is `none`
abbrev pub emit_audit_for :
    AuthEnv → AuthAuditEvent → Option ℕ → RequestMeta → M AuthTables (Unit {0})
emit_audit_for env event user_id meta =
    if env.has_audit
    then ignore (
        create_audit (record {
          id = 0;
          user_id = user_id;
          event = event;
          ip_address = meta.ip_address;
          user_agent = meta.user_agent;
        }))
    else pure tt

-- emitAudit of a user
unfoldable pub emit_audit : AuthEnv → AuthAuditEvent → ℕ → RequestMeta → M AuthTables (Unit {0})
emit_audit env event user_id meta = emit_audit_for env event (some user_id) meta

-- the token that issueTokenPairChild stores
abbrev pub child_token : AuthEnv → ℕ → RequestMeta → Option ℕ → Text → RefreshToken
child_token env user_id meta parent_id raw = record {
  id = 0;
  user_id = user_id;
  token_hash = env.hash raw;
  parent_id = parent_id;
  user_agent = meta.user_agent;
  ip_address = meta.ip_address;
  revoked_at = none;
  expires_at = env.now + env.refresh_duration;
  created_at = 0;
}

-- issueTokenPairChild
unfoldable pub issue_token_pair : AuthEnv → ℕ → RequestMeta → Option ℕ → M AuthTables TokenPair
issue_token_pair env user_id meta parent_id = do
  access ← lift (or_fail (env.sign user_id))
  raw ← lift (or_fail env.random_token)
  create_token env.now (child_token env user_id meta parent_id raw)
  pure (record {
    access_token = access;
    refresh_token = raw;
    expires_at = (env.now + env.access_duration) / 1000;
  })

-- the reuse of a token that has been revoked
unfoldable pub refuse_reuse : AuthEnv → RequestMeta → RefreshToken → M AuthTables TokenPair
unfolding emit_audit
refuse_reuse env meta stored = do
  ignore (revoke_all stored.user_id env.now)
  emit_audit env refresh_reuse_detected stored.user_id meta
  raise refresh_token_reuse

-- the transaction of RefreshTokenWithMeta
unfoldable pub rotate : AuthEnv → RequestMeta → RefreshToken → M AuthTables TokenPair
unfolding issue_token_pair
rotate env meta stored = do
  revoke_token stored.id env.now
  issue_token_pair env stored.user_id meta (some stored.id)

-- RefreshTokenWithMeta, of a token that is not revoked
unfoldable pub refresh_live : AuthEnv → RequestMeta → RefreshToken → M AuthTables TokenPair
unfolding rotate any_error_as
refresh_live env meta stored = do
  raise_if (ltb stored.expires_at env.now) refresh_token_invalid
  any_error_as refresh_token_invalid (get_account stored.user_id)
  transact (rotate env meta stored)

unfoldable pub refresh_stored : AuthEnv → RequestMeta → RefreshToken → M AuthTables TokenPair
unfolding refresh_live refuse_reuse
refresh_stored env meta stored =
    if is_some stored.revoked_at then refuse_reuse env meta stored else refresh_live env meta stored

-- RefreshTokenWithMeta
unfoldable pub refresh_token : AuthEnv → Text → RequestMeta → M AuthTables TokenPair
unfolding refresh_stored not_found_as
refresh_token env raw meta = do
  stored ← not_found_as refresh_token_invalid (get_token_by_hash (env.hash raw))
  refresh_stored env meta stored

abbrev pub no_meta : RequestMeta
no_meta = record { user_agent = []; ip_address = [] }

-- Logout, once the token is read: a token that is not stored is no error
unfoldable pub logout_found : AuthEnv → Result RefreshToken → M AuthTables (Unit {0})
unfolding emit_audit
logout_found env (err not_found) = pure tt
logout_found env (err e) = raise e
logout_found env (ok stored) = do
  revoke_token stored.id env.now
  emit_audit env logout stored.user_id no_meta

-- Logout
unfoldable pub log_out : AuthEnv → Text → M AuthTables (Unit {0})
unfolding logout_found
log_out env raw w = let (r, w') = get_token_by_hash (env.hash raw) w in logout_found env r w'

-- LogoutAll
unfoldable pub log_out_all : AuthEnv → ℕ → M AuthTables (Unit {0})
unfolding emit_audit
log_out_all env user_id = do revoke_all user_id env.now; emit_audit env logout_all user_id no_meta

-- RevokeSession
unfoldable pub revoke_session : AuthEnv → ℕ → ℕ → M AuthTables (Unit {0})
unfolding not_found_as
revoke_session env user_id session_id = do
  session ← not_found_as session_not_found (get_token session_id)
  raise_if (not (session.user_id == user_id)) forbidden
  if is_some session.revoked_at then pure tt else revoke_token session_id env.now
