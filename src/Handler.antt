-- ===== src/Handler.antt =====
-- internal/handler/response.go: the answer to an error, and the page of a request
-- (pkg/pagination/pagination.go).
use mathlib.Core.Path.{subst}
use backend_quiz.Common.{
  ℕ, ◌≡◌, inl, inr, refl, sym, ap, ◌∙◌, arith, Bool, Bool-cases, ltb, leb, ◌||◌, if◌then◌else◌, ◌≤◌,
  ◌<◌, true, false,
}
use backend_quiz.Common.{ℤ, pos, negsuc}
use backend_quiz.Common.Text.{Text}
use backend_quiz.Domain.{Error}

-- ErrorCode; a code that is none of the constants is `code_other`
pub data ErrorCode : Type 0 where
  code_not_found code_already_exists code_unauthorized code_forbidden : ErrorCode
  code_invalid_input code_invalid_credentials code_conflict code_too_many_requests : ErrorCode
  code_other : ErrorCode

-- what a service returns: an AppError with its code and message, or an error that is none
pub data Failure : Type 0 where
  app_error : ErrorCode → Text → Failure
  plain : Error → Failure

-- the text of the body: a message, the text of an error, or "internal server error"
pub data Message : Type 0 where
  message : Text → Message
  text_of : Error → Message
  internal_server_error : Message

-- codeToHTTPStatus
unfoldable pub code_to_http_status : ErrorCode → ℕ
code_to_http_status code_not_found = 404
code_to_http_status code_already_exists = 409
code_to_http_status code_conflict = 409
code_to_http_status code_unauthorized = 401
code_to_http_status code_invalid_credentials = 401
code_to_http_status code_forbidden = 403
code_to_http_status code_invalid_input = 400
code_to_http_status code_too_many_requests = 429
code_to_http_status code_other = 500

-- the switch on the sentinels
unfoldable pub status_of : Error → ℕ
status_of Error.not_found = 404
status_of Error.already_exists = 409
status_of Error.email_taken = 409
status_of Error.deck_name_taken = 409
status_of Error.unauthorized = 401
status_of Error.invalid_credentials = 401
status_of Error.refresh_token_invalid = 401
status_of Error.refresh_token_reuse = 401
status_of Error.reset_token_invalid = 401
status_of Error.otp_invalid = 401
status_of Error.otp_too_many_attempts = 401
status_of Error.email_not_verified = 401
status_of Error.account_locked = 429
status_of Error.email_already_verified = 400
status_of Error.password_same_as_old = 400
status_of Error.password_too_weak = 400
status_of Error.password_compromised = 400
status_of Error.oauth_state_invalid = 400
status_of Error.deletion_pending = 400
status_of Error.deletion_not_pending = 400
status_of Error.session_not_found = 404
status_of Error.forbidden = 403
status_of Error.invalid_input = 400
status_of Error.card_suspended = 400
status_of Error.session_ended = 400
status_of Error.file_too_large = 400
status_of Error.unsupported_media = 400
status_of Error.attempt_completed = 400
status_of Error.question_not_in_quiz = 400
status_of Error.already_answered = 400
status_of Error.quiz_not_published = 400
status_of Error.insufficient_cards = 400
status_of Error.daily_limit_reached = 429
status_of Error.rag_daily_limit_reached = 429
status_of Error.card_not_in_deck = 500
status_of Error.database = 500

-- the body's text of an error with that status
abbrev shown : ℕ → Error → Message
shown status e = if leb 500 status then internal_server_error else text_of e

-- HandleError
unfoldable pub handle_error : Failure → ℕ × Message
unfolding code_to_http_status status_of
handle_error (app_error code text) = (code_to_http_status code, message text)
handle_error (plain e) = (status_of e, shown (status_of e) e)

abbrev IsInternal : Message → Type 0
IsInternal internal_server_error = Unit
IsInternal _ = ⊥

internal_is_no_text : (f : Error) → ¬ (internal_server_error ≡ text_of f)
internal_is_no_text f h = subst IsInternal h tt

-- An error that is shown is shown with a status below 500: what a failed statement says of itself
-- stays inside.
shown-below : (n : ℕ) (e f : Error) → shown n e ≡ text_of f → n < 500
shown-below n e f h = elim (Bool-cases (leb 500 n)) [
  | inl b ↦ absurd (
      internal_is_no_text f
        (ap (λ (c : Bool). if c then internal_server_error else text_of e) (sym b) ∙ h))
  | inr b ↦ ground arith
]

-- Params
pub record Params : Type 0 where
  pub limit : ℤ
  pub offset : ℤ

abbrev limit_of : ℤ → ℤ
limit_of (pos l) = if leb l 0 || ltb 100 l then pos 20 else pos l
limit_of (negsuc l) = pos 20

abbrev offset_of : ℤ → ℤ
offset_of (pos o) = pos o
offset_of (negsuc o) = pos 0

-- NewParams
unfoldable pub new_params : ℤ → ℤ → Params
new_params limit offset = record { limit = limit_of limit; offset = offset_of offset }

-- between 1 and 100
abbrev IsLimit : ℤ → Type 0
IsLimit (pos l) = (1 ≤ l) × (l ≤ 100)
IsLimit (negsuc l) = ⊥

abbrev IsOffset : ℤ → Type 0
IsOffset (pos o) = Unit
IsOffset (negsuc o) = ⊥

if_IsLimit :
    (b : Bool) (l : ℕ) → (b ≡ false → (1 ≤ l) × (l ≤ 100)) → IsLimit (if b then pos 20 else pos l)
if_IsLimit true l h = (omega arith, omega arith)
if_IsLimit false l h = h refl

limit_of-IsLimit : (limit : ℤ) → IsLimit (limit_of limit)
limit_of-IsLimit (negsuc l) = (omega arith, omega arith)
limit_of-IsLimit (pos l) = if_IsLimit (leb l 0 || ltb 100 l) l (λ e. ground arith)

offset_of-IsOffset : (offset : ℤ) → IsOffset (offset_of offset)
offset_of-IsOffset (pos o) = tt
offset_of-IsOffset (negsuc o) = tt

-- Whatever numbers a request has, its page has between 1 and 100 rows and does not start below 0.
new_params-bounds :
    (limit offset : ℤ)
    → IsLimit (new_params limit offset).limit × IsOffset (new_params limit offset).offset
unfolding new_params
new_params-bounds limit offset = (limit_of-IsLimit limit, offset_of-IsOffset offset)
