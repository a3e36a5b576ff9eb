-- ===== src/Auth/Reset.antt =====
-- internal/service/auth.go: ForgotPassword, ResetPassword and ChangePassword.
pub mod Once
use backend_quiz.Common.{
  ℕ, ◌+◌, Bool, true, false, not, ◌||◌, Option, none, some, List, [], ltb, is_some, if◌then◌else◌,
}
use backend_quiz.Common.Text.{Text, text_eq}
use backend_quiz.Domain.{
  Error, not_found, database, invalid_credentials, password_same_as_old, reset_token_invalid,
  Result, ok, err,
}
use backend_quiz.Domain.Auth.{
  Account, PasswordResetToken, AuthTables, password_changed, password_reset_requested,
  password_reset_completed,
}
use backend_quiz.Db.{World, M, pure, raise, lift, ◌>>=◌, ◌>>◌, raise_if, transact}
use backend_quiz.Repository.Tokens.{get_account, revoke_all}
use backend_quiz.Repository.Codes.{get_account_by_email}
use backend_quiz.Repository.Accounts.{
  update_password, get_reset_token, create_reset_token, consume_reset_token, delete_reset_tokens,
}
use backend_quiz.Auth.{or_fail, not_found_as, emit_audit, no_meta}
use backend_quiz.Auth.Codes.{normalize_email}
use backend_quiz.Auth.Passwords.{validate_password}
use backend_quiz.Auth.Accounts.{AccountEnv, auth_of, now_of, is_empty}

-- ForgotPassword, once the account is read; an error of the mail is returned
unfoldable pub forgot_found : AccountEnv → Result Account → M AuthTables (Unit {0})
forgot_found env (err not_found) = pure tt
forgot_found env (err e) = raise e
forgot_found env (ok user) = do
  delete_reset_tokens user.id
  raw ← lift (or_fail (auth_of env).random_token)
  create_reset_token (now_of env) (record {
    id = 0;
    user_id = user.id;
    token_hash = (auth_of env).hash raw;
    expires_at = now_of env + env.reset_ttl;
    consumed_at = none;
    created_at = 0;
  })
  raise_if (not env.mail_sent) database
  emit_audit (auth_of env) password_reset_requested user.id no_meta

-- ForgotPassword
unfoldable pub forgot_password : AccountEnv → Text → M AuthTables (Unit {0})
unfolding forgot_found
forgot_password env email w =
    let (r, w') = get_account_by_email (normalize_email env.codes email) w in forgot_found env r w'

-- the transaction of ResetPassword
unfoldable pub reset_body : AccountEnv → PasswordResetToken → Text → M AuthTables (Unit {0})
reset_body env token hash = do
  update_password token.user_id hash (now_of env)
  consume_reset_token token.id (now_of env)
  revoke_all token.user_id (now_of env)

-- ResetPassword, with a token that is stored
unfoldable pub reset_found : AccountEnv → Text → PasswordResetToken → M AuthTables (Unit {0})
unfolding reset_body
reset_found env new_password token = do
  raise_if (is_some token.consumed_at || ltb token.expires_at (now_of env)) reset_token_invalid
  hash ← lift (or_fail (env.hash_password new_password))
  transact (reset_body env token hash)
  emit_audit (auth_of env) password_reset_completed token.user_id no_meta

-- ResetPassword
unfoldable pub reset_password : AccountEnv → Text → Text → M AuthTables (Unit {0})
unfolding reset_found not_found_as
reset_password env raw new_password = do
  lift (validate_password env.passwords new_password)
  token ← not_found_as reset_token_invalid (get_reset_token ((auth_of env).hash raw))
  reset_found env new_password token

-- ChangePassword; the mail, whose error is only logged, is left out
unfoldable pub change_password : AccountEnv → ℕ → Text → Text → M AuthTables (Unit {0})
change_password env user_id old_password new_password = do
  user ← get_account user_id
  raise_if (is_empty user.password_hash) invalid_credentials
  raise_if (not (env.compare user.password_hash old_password)) invalid_credentials
  raise_if (text_eq old_password new_password) password_same_as_old
  lift (validate_password env.passwords new_password)
  hash ← lift (or_fail (env.hash_password new_password))
  transact (update_password user_id hash (now_of env) >> revoke_all user_id (now_of env))
  emit_audit (auth_of env) password_changed user_id no_meta
