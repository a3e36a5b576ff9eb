-- ===== src/Repository/Tokens.antt =====
-- internal/repository/refresh_token.go, the insert of auth_audit_log.go, and the existence of a user
-- that user.go's GetByID finds.
use backend_quiz.Common.{
  ℕ, ◌+◌, Bool, not, ◌&&◌, none, some, [], ◌∷◌, ◌++◌, ◌==◌, is_some, select_one, update_where,
}
use backend_quiz.Common.Text.{Text, text_eq}
use backend_quiz.Domain.Card.{Time}
use backend_quiz.Domain.Auth.{RefreshToken, AuthAuditLog, Account, AuthTables}
use backend_quiz.Db.{M, exec, query, modify, ◌>>=◌}
use backend_quiz.Repository.Tables.{or_not_found}

abbrev pub has_hash : Text → RefreshToken → Bool
has_hash h t = text_eq t.token_hash h

abbrev pub is_live : ℕ → RefreshToken → Bool
is_live id t = (t.id == id) && not (is_some t.revoked_at)

abbrev pub is_live_of : ℕ → RefreshToken → Bool
is_live_of user_id t = (t.user_id == user_id) && not (is_some t.revoked_at)

-- the column that Revoke and RevokeAllForUser write
abbrev pub revoked : Time → RefreshToken → RefreshToken
revoked at_ t = record t { revoked_at = some at_ }

-- RefreshTokenRepository.Create, with the id and the time that it writes into the caller's token
unfoldable pub create_token : Time → RefreshToken → M AuthTables RefreshToken
create_token now t = exec λ s.
    let row = record t { id = s.fresh_id; revoked_at = none; created_at = now } in
    (row, record s { refresh_tokens = s.refresh_tokens ++ row ∷ []; fresh_id = s.fresh_id + 1 })

-- RefreshTokenRepository.GetByHash
unfoldable pub get_token_by_hash : Text → M AuthTables RefreshToken
get_token_by_hash h = do
  row ← query (λ s. select_one (has_hash h) s.refresh_tokens)
  or_not_found row

-- RefreshTokenRepository.GetByID
unfoldable pub get_token : ℕ → M AuthTables RefreshToken
get_token id = do
  row ← query (λ s. select_one (λ (t : RefreshToken). t.id == id) s.refresh_tokens)
  or_not_found row

-- RefreshTokenRepository.Revoke
unfoldable pub revoke_token : ℕ → Time → M AuthTables (Unit {0})
revoke_token id now =
    modify
      λ s. record s { refresh_tokens = update_where (is_live id) (revoked now) s.refresh_tokens }

-- RefreshTokenRepository.RevokeAllForUser
unfoldable pub revoke_all : ℕ → Time → M AuthTables (Unit {0})
revoke_all user_id now = modify λ s. record s {
  refresh_tokens = update_where (is_live_of user_id) (revoked now) s.refresh_tokens;
}

-- UserRepository.GetByID
unfoldable pub get_account : ℕ → M AuthTables Account
get_account id = do
  row ← query (λ s. select_one (λ (a : Account). a.id == id) s.accounts)
  or_not_found row

-- AuthAuditLogRepository.Create
unfoldable pub create_audit : AuthAuditLog → M AuthTables (Unit {0})
create_audit log = modify λ s. record s {
  audit_logs = s.audit_logs ++ record log { id = s.fresh_id } ∷ [];
  fresh_id = s.fresh_id + 1;
}
