-- ===== src/Auth/Codes.antt =====
-- internal/service/auth.go, the verification of an email by a one-time code: issueVerificationCode,
-- ResendVerification and VerifyEmail. The mail, whose error is only logged, is left out.
pub mod Lock
pub mod Verified
use backend_quiz.Common.{
  ℕ, ◌+◌, Bool, true, false, not, Option, none, some, List, [], ◌∷◌, map, ltb, leb, is_some,
  if◌then◌else◌,
}
use backend_quiz.Common.Text.{Text, text_eq, trim_space}
use backend_quiz.Domain.{
  Error, not_found, email_already_verified, otp_invalid, otp_too_many_attempts, Result, ok, err,
}
use backend_quiz.Domain.Card.{Time}
use backend_quiz.Domain.Auth.{Account, EmailVerification, AuthTables, email_verified}
use backend_quiz.Db.{World, M, pure, raise, ignore, ◌>>=◌, ◌>>◌, raise_if, transact}
use backend_quiz.Repository.Codes.{
  get_active_code, increment_attempts, consume_code, delete_codes, create_code,
  get_account_by_email, mark_email_verified,
}
use backend_quiz.Auth.{AuthEnv, not_found_as, emit_audit, no_meta}

-- What the methods on codes use besides: the policy, the code that randomNumericCode gives, and
-- unicode.ToLower.
pub record CodeEnv : Type 0 where
  pub auth : AuthEnv
  pub otp_max_attempts : ℕ
  pub otp_ttl : ℕ
  pub random_code : Text
  pub lower : ℕ → ℕ

-- normalizeEmail
abbrev pub normalize_email : CodeEnv → Text → Text
normalize_email env email = map env.lower (trim_space email)

-- issueVerificationCode
unfoldable pub issue_verification_code : CodeEnv → Account → M AuthTables (Unit {0})
issue_verification_code env user = do
  delete_codes user.id
  create_code env.auth.now (record {
    id = 0;
    user_id = user.id;
    code_hash = env.auth.hash env.random_code;
    attempts = 0;
    expires_at = env.auth.now + env.otp_ttl;
    consumed_at = none;
    created_at = 0;
  })

-- ResendVerification, once the account is read: an email that is not known is no error
unfoldable pub resend_found : CodeEnv → Result Account → M AuthTables (Unit {0})
unfolding issue_verification_code
resend_found env (err not_found) = pure tt
resend_found env (err e) = raise e
resend_found env (ok user) = do
  raise_if (is_some user.email_verified_at) email_already_verified
  issue_verification_code env user

-- ResendVerification
unfoldable pub resend_verification : CodeEnv → Text → M AuthTables (Unit {0})
unfolding resend_found
resend_verification env email w =
    let (r, w') = get_account_by_email (normalize_email env email) w in resend_found env r w'

-- the end of VerifyEmail, with the right code
unfoldable pub accept_code : CodeEnv → Account → EmailVerification → M AuthTables (Unit {0})
unfolding emit_audit
accept_code env user code = do
  transact (consume_code code.id env.auth.now >> mark_email_verified user.id env.auth.now)
  emit_audit env.auth email_verified user.id no_meta

-- a wrong code; the error of the increment is only logged
unfoldable pub refuse_code : EmailVerification → M AuthTables (Unit {0})
refuse_code code = do ignore (increment_attempts code.id); raise otp_invalid

-- VerifyEmail, once the account is read
unfoldable pub verify_account : CodeEnv → Text → Account → M AuthTables (Unit {0})
unfolding accept_code refuse_code not_found_as
verify_account env given user = do
  raise_if (is_some user.email_verified_at) email_already_verified
  code ← not_found_as otp_invalid (get_active_code user.id)
  raise_if (ltb code.expires_at env.auth.now) otp_invalid
  raise_if (leb env.otp_max_attempts code.attempts) otp_too_many_attempts
  if text_eq code.code_hash (env.auth.hash given)
      then accept_code env user code
      else refuse_code code

-- VerifyEmail
unfoldable pub verify_email : CodeEnv → Text → Text → M AuthTables (Unit {0})
unfolding verify_account
verify_email env email given = do
  user ← not_found_as otp_invalid (get_account_by_email (normalize_email env email))
  verify_account env given user
