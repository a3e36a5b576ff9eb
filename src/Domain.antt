-- ===== src/Domain.antt =====
-- internal/domain: the sentinel errors (errors.go), and in the children the entities.

pub mod Card
pub mod Study
pub mod Deck
pub mod Quiz
pub mod Auth
use backend_quiz.Common.{◌≡◌, refl, ◌⊎◌, inl, inr}

-- `database` is any error that is none of the sentinels: what pgx returns when a statement fails
pub data Error : Type 0 where
  not_found already_exists unauthorized forbidden invalid_input invalid_credentials : Error
  email_taken deck_name_taken session_ended card_not_in_deck card_suspended : Error
  daily_limit_reached rag_daily_limit_reached file_too_large unsupported_media : Error
  attempt_completed question_not_in_quiz already_answered quiz_not_published : Error
  insufficient_cards email_not_verified email_already_verified otp_invalid : Error
  otp_too_many_attempts reset_token_invalid refresh_token_invalid refresh_token_reuse : Error
  account_locked password_same_as_old password_too_weak password_compromised : Error
  oauth_state_invalid session_not_found deletion_pending deletion_not_pending : Error
  database : Error

-- `(T, error)`
pub data Result {ℓ} (A : Type ℓ) : Type ℓ where
  ok : A → Result A
  err : Error → Result A

pub Result-cases :
    {A : Type 0} (r : Result A) → ((e : Error) × (r ≡ err e)) ⊎ ((a : A) × (r ≡ ok a))
Result-cases (ok a) = inr (a, refl)
Result-cases (err e) = inl (e, refl)
