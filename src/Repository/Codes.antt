-- ===== src/Repository/Codes.antt =====
-- internal/repository/email_verification.go, and the reads and writes of user.go for the
-- verification of an email.
use backend_quiz.Common.{
  ℕ, ◌+◌, Bool, not, ◌&&◌, Option, none, some, List, [], ◌∷◌, ◌++◌, ◌==◌, ltb, is_some,
  if◌then◌else◌, select_one, update_where, delete_where,
}
use backend_quiz.Common.Text.{Text, text_eq}
use backend_quiz.Domain.Card.{Time}
use backend_quiz.Domain.Auth.{EmailVerification, Account, AuthTables}
use backend_quiz.Db.{M, query, modify, ◌>>=◌}
use backend_quiz.Repository.Tables.{or_not_found}

abbrev pub is_active_of : ℕ → EmailVerification → Bool
is_active_of user_id c = (c.user_id == user_id) && not (is_some c.consumed_at)

abbrev newer : EmailVerification → Option EmailVerification → Option EmailVerification
newer c none = some c
newer c (some d) = if ltb c.created_at d.created_at then some d else some c

-- ORDER BY created_at DESC LIMIT 1
abbrev pub latest : (EmailVerification → Bool) → List EmailVerification → Option EmailVerification
latest p [] = none
latest p (c ∷ cs) = let rest = latest p cs in if p c then newer c rest else rest

-- EmailVerificationRepository.GetActiveByUserID
unfoldable pub get_active_code : ℕ → M AuthTables EmailVerification
get_active_code user_id = do
  row ← query (λ s. latest (is_active_of user_id) s.email_verifications)
  or_not_found row

abbrev pub is_code : ℕ → EmailVerification → Bool
is_code id c = c.id == id

abbrev pub one_more_attempt : EmailVerification → EmailVerification
one_more_attempt c = record c { attempts = c.attempts + 1 }

-- EmailVerificationRepository.IncrementAttempts
unfoldable pub increment_attempts : ℕ → M AuthTables (Unit {0})
increment_attempts id = modify λ s. record s {
  email_verifications = update_where (is_code id) one_more_attempt s.email_verifications;
}

-- EmailVerificationRepository.Consume
unfoldable pub consume_code : ℕ → Time → M AuthTables (Unit {0})
consume_code id now = modify λ s. record s {
  email_verifications =
      update_where (is_code id) (λ c. record c { consumed_at = some now }) s.email_verifications;
}

-- EmailVerificationRepository.DeleteByUserID
unfoldable pub delete_codes : ℕ → M AuthTables (Unit {0})
delete_codes user_id = modify λ s. record s {
  email_verifications = delete_where (λ c. c.user_id == user_id) s.email_verifications;
}

-- EmailVerificationRepository.Create
unfoldable pub create_code : Time → EmailVerification → M AuthTables (Unit {0})
create_code now c = modify λ s. record s {
  email_verifications =
      s.email_verifications
      ++ record c { id = s.fresh_id; attempts = 0; consumed_at = none; created_at = now } ∷ [];
  fresh_id = s.fresh_id + 1;
}

abbrev pub has_email : Text → Account → Bool
has_email email a = text_eq a.email email

-- UserRepository.GetByEmail
unfoldable pub get_account_by_email : Text → M AuthTables Account
get_account_by_email email = do
  row ← query (λ s. select_one (has_email email) s.accounts)
  or_not_found row

abbrev pub is_unverified : ℕ → Account → Bool
is_unverified id a = (a.id == id) && not (is_some a.email_verified_at)

-- UserRepository.MarkEmailVerified
unfoldable pub mark_email_verified : ℕ → Time → M AuthTables (Unit {0})
mark_email_verified id now = modify λ s. record s {
  accounts =
      update_where (is_unverified id)
        (λ a. record a { email_verified_at = some now; updated_at = now }) s.accounts;
}
