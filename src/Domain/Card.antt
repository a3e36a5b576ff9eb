-- ===== src/Domain/Card.antt =====
-- internal/domain/card.go and review.go: cards with their FSRS state, review logs; and the FSRS
-- state that a client sends (internal/dto/study.go).
--
-- A time.Time is its number of milliseconds since the epoch. A float64 is its number of
-- millionths: the program only compares and copies it. Its rounding to the REAL of a column is
-- the field `float32` of `Env`.
use backend_quiz.Common.{ℕ, ◌*◌, Bool, Option, List, [], ◌∷◌}
use backend_quiz.Common.{ℤ, pos}
use backend_quiz.Common.Text.{Text}

abbrev pub Time : Type 0
Time = ℕ

abbrev pub Real : Type 0
Real = ℤ

abbrev pub real : ℕ → Real
real n = pos (n * 1000000)

-- What a request finds outside the database: the clock and the rounding of the columns.
pub record Env : Type 0 where
  pub now : Time
  pub float32 : Real → Real

-- `type CardState int8` and its constants
abbrev pub CardState : Type 0
CardState = ℤ

abbrev pub card_state_new : CardState
card_state_new = pos 0

abbrev pub card_state_learning : CardState
card_state_learning = pos 1

abbrev pub card_state_review : CardState
card_state_review = pos 2

abbrev pub card_state_relearning : CardState
card_state_relearning = pos 3

-- `type Rating int8` and its constants
abbrev pub Rating : Type 0
Rating = ℤ

abbrev pub rating_again : Rating
rating_again = pos 1

abbrev pub rating_good : Rating
rating_good = pos 3

pub record Card : Type 0 where
  pub id : ℕ
  pub deck_id : ℕ
  pub front : Text
  pub back : Text
  pub content_type : Text
  pub tags : List Text
  pub is_suspended : Bool
  pub position : ℤ
  pub created_at : Time
  pub updated_at : Time
  pub due : Time
  pub stability : Real
  pub difficulty : Real
  pub elapsed_days : ℤ
  pub scheduled_days : ℤ
  pub reps : ℤ
  pub lapses : ℤ
  pub state : CardState
  pub last_review : Option Time

-- ContentTypePlain
abbrev pub content_type_plain : Text
content_type_plain = b'p' ∷ b'l' ∷ b'a' ∷ b'i' ∷ b'n' ∷ []

pub record CardFilter : Type 0 where
  pub state : Option CardState
  pub tag : Text
  pub query : Text

pub record FsrsCardState : Type 0 where
  pub due : Time
  pub stability : Real
  pub difficulty : Real
  pub elapsed_days : ℤ
  pub scheduled_days : ℤ
  pub reps : ℤ
  pub lapses : ℤ
  pub state : ℤ
  pub last_review : Time

pub record FsrsLogState : Type 0 where
  pub scheduled_days : ℤ
  pub elapsed_days : ℤ
  pub stability : Real
  pub difficulty : Real

-- ReviewSourceFlashcard, ReviewSourceQuiz
pub data ReviewSource : Type 0 where
  flashcard quiz : ReviewSource

pub record ReviewLog : Type 0 where
  pub id : ℕ
  pub card_id : ℕ
  pub user_id : ℕ
  pub rating : Rating
  pub state : CardState
  pub scheduled_days : ℤ
  pub elapsed_days : ℤ
  pub stability : Real
  pub difficulty : Real
  pub duration_ms : ℤ
  pub source : ReviewSource
  pub reviewed_at : Time
