-- ===== src/Repository/Accounts.antt =====
-- internal/repository/user.go beside the reads of Repository.Tokens and Repository.Codes, and
-- login_attempt.go and password_reset_token.go.
use backend_quiz.Common.{
  ℕ, suc, ◌+◌, Bool, true, false, not, ◌&&◌, Option, none, some, List, [], ◌∷◌, ◌++◌, ◌==◌, leb,
  is_some, if◌then◌else◌, map, take, select_one, select_where, update_where, delete_where,
  count_where,
}
use backend_quiz.Common.{ℤ, pos, negsuc}
use backend_quiz.Common.Text.{Text, text_eq}
use backend_quiz.Domain.{deletion_pending, deletion_not_pending}
use backend_quiz.Domain.Card.{Time}
use backend_quiz.Domain.Auth.{
  Account, PasswordResetToken, LoginAttempt, OauthAccount, AuthAuditLog, RefreshToken, AuthTables,
}
use backend_quiz.Db.{M, pure, raise, exec, query, modify, ◌>>=◌, ◌>>◌}
use backend_quiz.Repository.Tables.{or_not_found}
use backend_quiz.Repository.Tokens.{get_account}

abbrev pub is_account : ℕ → Account → Bool
is_account id a = a.id == id

-- UserRepository.Create: the row that is returned has the defaults of the table
unfoldable pub create_account : Time → Account → M AuthTables Account
create_account now user = exec λ s.
    let row = record user {
      id = s.fresh_id;
      email_verified_at = none;
      deletion_requested_at = none;
      updated_at = now;
    } in
    (row, record s { accounts = s.accounts ++ row ∷ []; fresh_id = s.fresh_id + 1 })

-- UserRepository.UpdatePassword
unfoldable pub update_password : ℕ → Text → Time → M AuthTables (Unit {0})
update_password id hash now = modify λ s. record s {
  accounts =
      update_where (is_account id) (λ a. record a { password_hash = hash; updated_at = now })
        s.accounts;
}

abbrev pub may_request : ℕ → Account → Bool
may_request id a = (a.id == id) && not (is_some a.deletion_requested_at)

-- UserRepository.RequestDeletion; the statement gives the number of its rows
unfoldable pub request_deletion : ℕ → Time → M AuthTables (Unit {0})
request_deletion id now = do
  found ← exec λ s. (
    select_one (may_request id) s.accounts,
    record s {
      accounts =
          update_where (may_request id)
            (λ a. record a { deletion_requested_at = some now; updated_at = now }) s.accounts;
    },
  )
  if is_some found then pure tt else (get_account id >> raise deletion_pending)

abbrev pub may_cancel : ℕ → Account → Bool
may_cancel id a = (a.id == id) && is_some a.deletion_requested_at

-- UserRepository.CancelDeletion
unfoldable pub cancel_deletion : ℕ → Time → M AuthTables (Unit {0})
cancel_deletion id now = do
  found ← exec λ s. (
    select_one (may_cancel id) s.accounts,
    record s {
      accounts =
          update_where (may_cancel id)
            (λ a. record a { deletion_requested_at = none; updated_at = now }) s.accounts;
    },
  )
  if is_some found then pure tt else (get_account id >> raise deletion_not_pending)

-- the WHERE of ListExpiredDeletions; `before` is a time before the epoch where it is negative
abbrev pub is_expired : ℤ → Account → Bool
is_expired (negsuc n) a = false
is_expired (pos cutoff) a = elim a.deletion_requested_at [ none ↦ false | some t ↦ leb t cutoff ]

abbrev requested_before : Option Time → Option Time → Bool
requested_before (some s) (some t) = leb s t
requested_before _ _ = true

abbrev pub insert_account : Account → List Account → List Account
insert_account a [] = a ∷ []
insert_account a (b ∷ bs) =
    if requested_before a.deletion_requested_at b.deletion_requested_at
    then a ∷ b ∷ bs
    else b ∷ insert_account a bs

-- ORDER BY deletion_requested_at ASC
unfoldable pub order_accounts : List Account → List Account
order_accounts [] = []
order_accounts (a ∷ as_) = insert_account a (order_accounts as_)

-- `if limit <= 0 { limit = 100 }`
abbrev pub or_hundred : ℤ → ℕ
or_hundred (pos (suc n)) = suc n
or_hundred _ = 100

-- UserRepository.ListExpiredDeletions
unfoldable pub list_expired_deletions : ℤ → ℤ → M AuthTables (List ℕ)
unfolding order_accounts
list_expired_deletions cutoff limit = query λ s.
    map (λ (a : Account). a.id)
      (take (or_hundred limit) (order_accounts (select_where (is_expired cutoff) s.accounts)))

-- a log of an account that is deleted stays, without its user
abbrev pub forget_user : ℕ → AuthAuditLog → AuthAuditLog
forget_user id l = elim l.user_id [
  | none ↦ l
  | some u ↦ if u == id then record l { user_id = none } else l
]

-- UserRepository.Delete, with ON DELETE CASCADE and, for the audit log, ON DELETE SET NULL
unfoldable pub delete_account : ℕ → M AuthTables (Unit {0})
delete_account id = modify λ s. record s {
  accounts = delete_where (is_account id) s.accounts;
  refresh_tokens = delete_where (λ (t : RefreshToken). t.user_id == id) s.refresh_tokens;
  email_verifications = delete_where (λ c. c.user_id == id) s.email_verifications;
  password_reset_tokens = delete_where (λ t. t.user_id == id) s.password_reset_tokens;
  oauth_accounts = delete_where (λ o. o.user_id == id) s.oauth_accounts;
  audit_logs = map (forget_user id) s.audit_logs;
}

abbrev pub is_linked : Text → Text → OauthAccount → Bool
is_linked provider provider_id o = text_eq o.provider provider && text_eq o.provider_id provider_id

-- UserRepository.GetOAuthAccount
unfoldable pub get_oauth_account : Text → Text → M AuthTables OauthAccount
get_oauth_account provider provider_id = do
  row ← query (λ s. select_one (is_linked provider provider_id) s.oauth_accounts)
  or_not_found row

-- UserRepository.CreateOAuthAccount
unfoldable pub create_oauth_account : OauthAccount → M AuthTables (Unit {0})
create_oauth_account o = modify λ s. record s {
  oauth_accounts = s.oauth_accounts ++ record o { id = s.fresh_id } ∷ [];
  fresh_id = s.fresh_id + 1;
}

-- LoginAttemptRepository.Create
unfoldable pub create_login_attempt : Time → LoginAttempt → M AuthTables (Unit {0})
create_login_attempt now a = modify λ s. record s {
  login_attempts = s.login_attempts ++ record a { id = s.fresh_id; created_at = now } ∷ [];
  fresh_id = s.fresh_id + 1;
}

-- the WHERE of CountRecentFailures, whose `since` is `now - window`
unfoldable pub is_recent_failure : Text → Time → ℕ → LoginAttempt → Bool
is_recent_failure email now window a =
    text_eq a.email email && (not a.successful && leb now (a.created_at + window))

-- LoginAttemptRepository.CountRecentFailures
unfoldable pub count_recent_failures : Text → Time → ℕ → M AuthTables ℕ
unfolding is_recent_failure
count_recent_failures email now window =
    query (λ s. count_where (is_recent_failure email now window) s.login_attempts)

abbrev pub is_reset_token : Text → PasswordResetToken → Bool
is_reset_token hash t = text_eq t.token_hash hash

-- PasswordResetTokenRepository.GetByHash
unfoldable pub get_reset_token : Text → M AuthTables PasswordResetToken
get_reset_token hash = do
  row ← query (λ s. select_one (is_reset_token hash) s.password_reset_tokens)
  or_not_found row

-- PasswordResetTokenRepository.Create
unfoldable pub create_reset_token : Time → PasswordResetToken → M AuthTables (Unit {0})
create_reset_token now t = modify λ s. record s {
  password_reset_tokens =
      s.password_reset_tokens
      ++ record t { id = s.fresh_id; consumed_at = none; created_at = now } ∷ [];
  fresh_id = s.fresh_id + 1;
}

-- PasswordResetTokenRepository.Consume
unfoldable pub consume_reset_token : ℕ → Time → M AuthTables (Unit {0})
consume_reset_token id now = modify λ s. record s {
  password_reset_tokens =
      update_where (λ t. t.id == id) (λ t. record t { consumed_at = some now })
        s.password_reset_tokens;
}

-- PasswordResetTokenRepository.DeleteByUserID
unfoldable pub delete_reset_tokens : ℕ → M AuthTables (Unit {0})
delete_reset_tokens user_id = modify λ s. record s {
  password_reset_tokens = delete_where (λ t. t.user_id == user_id) s.password_reset_tokens;
}

-- RefreshTokenRepository.DeviceSeen
unfoldable pub device_seen : ℕ → Text → Text → M AuthTables Bool
device_seen user_id user_agent ip_address = query λ s. is_some (
    select_one
      (λ (t : RefreshToken).
        (t.user_id == user_id)
        && (text_eq t.user_agent user_agent && text_eq t.ip_address ip_address))
      s.refresh_tokens)
