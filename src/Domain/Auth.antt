-- ===== src/Domain/Auth.antt =====
-- internal/domain/auth.go: refresh tokens, codes that verify an email, tokens that reset a password,
-- attempts to log in and the audit log; of internal/domain/user.go the OAuth accounts and, of a
-- user, what the auth service reads or decides by (the profile is left out).
use backend_quiz.Common.{ℕ, Bool, Option, List}
use backend_quiz.Common.Text.{Text}
use backend_quiz.Domain.Card.{Time}

pub record RefreshToken : Type 0 where
  pub id : ℕ
  pub user_id : ℕ
  pub token_hash : Text
  pub parent_id : Option ℕ
  pub user_agent : Text
  pub ip_address : Text
  pub revoked_at : Option Time
  pub expires_at : Time
  pub created_at : Time

-- the events of AuthAuditEvent that the modelled methods emit
pub data AuthAuditEvent : Type 0 where
  logout logout_all refresh_reuse_detected email_verified : AuthAuditEvent
  register login_success login_failed password_changed : AuthAuditEvent
  password_reset_requested password_reset_completed : AuthAuditEvent
  oauth_login oauth_linked account_deletion_requested : AuthAuditEvent
  account_deletion_cancelled account_deleted : AuthAuditEvent

pub record AuthAuditLog : Type 0 where
  pub id : ℕ
  pub user_id : Option ℕ
  pub event : AuthAuditEvent
  pub ip_address : Text
  pub user_agent : Text

pub record Account : Type 0 where
  pub id : ℕ
  pub email : Text
  pub password_hash : Text
  pub display_name : Text
  pub email_verified_at : Option Time
  pub deletion_requested_at : Option Time
  pub updated_at : Time

-- consumed codes stay in the table
pub record EmailVerification : Type 0 where
  pub id : ℕ
  pub user_id : ℕ
  pub code_hash : Text
  pub attempts : ℕ
  pub expires_at : Time
  pub consumed_at : Option Time
  pub created_at : Time

pub record PasswordResetToken : Type 0 where
  pub id : ℕ
  pub user_id : ℕ
  pub token_hash : Text
  pub expires_at : Time
  pub consumed_at : Option Time
  pub created_at : Time

pub record LoginAttempt : Type 0 where
  pub id : ℕ
  pub email : Text
  pub ip_address : Text
  pub successful : Bool
  pub created_at : Time

pub record OauthAccount : Type 0 where
  pub id : ℕ
  pub user_id : ℕ
  pub provider : Text
  pub provider_id : Text
  pub email : Text

-- RequestMeta of internal/service/auth.go
pub record RequestMeta : Type 0 where
  pub user_agent : Text
  pub ip_address : Text

-- TokenPair of internal/dto/auth.go; `expires_at` is in seconds
pub record TokenPair : Type 0 where
  pub access_token : Text
  pub refresh_token : Text
  pub expires_at : ℕ

pub record AuthTables : Type 0 where
  pub accounts : List Account
  pub refresh_tokens : List RefreshToken
  pub email_verifications : List EmailVerification
  pub password_reset_tokens : List PasswordResetToken
  pub login_attempts : List LoginAttempt
  pub oauth_accounts : List OauthAccount
  pub audit_logs : List AuthAuditLog
  pub fresh_id : ℕ
