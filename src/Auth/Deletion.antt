-- ===== src/Auth/Deletion.antt =====
-- internal/service/auth.go: RequestAccountDeletion, CancelAccountDeletion and PurgeExpiredAccounts.
-- The mails, whose errors are only logged, are left out.
pub mod Spared
pub mod Undone
use backend_quiz.Common.{
  ℕ, ◌+◌, Bool, true, false, not, Option, none, some, List, [], ◌∷◌, ltb, is_some, if◌then◌else◌,
  length,
}
use backend_quiz.Common.{ℤ, sub_ℕ}
use backend_quiz.Domain.{Error, deletion_pending, deletion_not_pending, Result, ok, err}
use backend_quiz.Domain.Auth.{
  Account, RequestMeta, AuthTables, account_deletion_requested, account_deletion_cancelled,
  account_deleted,
}
use backend_quiz.Db.{World, M, pure, raise, ◌>>=◌, ◌>>◌, raise_if, transact}
use backend_quiz.Repository.Tokens.{get_account, revoke_all}
use backend_quiz.Repository.Accounts.{
  request_deletion, cancel_deletion, list_expired_deletions, delete_account,
}
use backend_quiz.Auth.{emit_audit, no_meta}
use backend_quiz.Auth.Accounts.{AccountEnv, auth_of, now_of}

-- RequestAccountDeletion
unfoldable pub request_account_deletion : AccountEnv → ℕ → RequestMeta → M AuthTables Account
request_account_deletion env user_id meta = do
  user ← get_account user_id
  raise_if (is_some user.deletion_requested_at) deletion_pending
  transact (request_deletion user_id (now_of env) >> revoke_all user_id (now_of env))
  emit_audit (auth_of env) account_deletion_requested user_id meta
  pure (record user { deletion_requested_at = some (now_of env) })

-- CancelAccountDeletion
unfoldable pub cancel_account_deletion : AccountEnv → ℕ → RequestMeta → M AuthTables Account
cancel_account_deletion env user_id meta = do
  user ← get_account user_id
  raise_if (not (is_some user.deletion_requested_at)) deletion_not_pending
  cancel_deletion user_id (now_of env)
  emit_audit (auth_of env) account_deletion_cancelled user_id meta
  pure (record user { deletion_requested_at = none })

-- one round of the loop of PurgeExpiredAccounts; an error of Delete is only logged
abbrev pub log_deleted : AccountEnv → ℕ → Result (Unit {0}) → M AuthTables (Unit {0})
log_deleted env id (err e) = pure tt
log_deleted env id (ok x) = emit_audit (auth_of env) account_deleted id no_meta

unfoldable pub purge_one : AccountEnv → ℕ → M AuthTables (Unit {0})
purge_one env id w = let (r, w') = delete_account id w in log_deleted env id r w'

unfoldable pub purge_all : AccountEnv → List ℕ → M AuthTables (Unit {0})
unfolding purge_one
purge_all env [] = pure tt
purge_all env (id ∷ ids) = purge_one env id >> purge_all env ids

-- PurgeExpiredAccounts; the result counts the accounts that were listed
unfoldable pub purge_expired_accounts : AccountEnv → ℤ → M AuthTables ℕ
unfolding purge_all
purge_expired_accounts env batch = if not (ltb 0 env.deletion_grace) then pure 0 else (do
  ids ← list_expired_deletions (sub_ℕ (now_of env) env.deletion_grace) batch
  purge_all env ids
  pure (length ids))
