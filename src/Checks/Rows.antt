-- ===== src/Checks/Rows.antt =====
-- The rows, the requests and the parameters of the tests.
use backend_quiz.Common.{true, false, Option, none, some, List, [], ◌∷◌, ◌==◌, if◌then◌else◌}
use backend_quiz.Common.{pos}
use backend_quiz.Common.Text.{Text}
use backend_quiz.Domain.Card.{Env, Card, FsrsCardState, FsrsLogState, real}
use backend_quiz.Domain.Study.{StudySession, StudyUser, SubmitReviewRequest, BatchReviewItem}
use backend_quiz.Domain.Quiz.{
  Quiz, McqOption, QuizQuestion, QuizAttempt, SubmitAnswerRequest, AddQuestionRequest, mcq, mixed,
}
use backend_quiz.Repository.Tables.{Tables, no_rows}
use backend_quiz.Quiz.Grading.{Runtime}

abbrev pub env : Env
env = record { now = 5000; float32 = λ x. x }

abbrev pub card_row : Card
card_row = record {
  id = 3;
  deck_id = 2;
  front = [];
  back = [];
  content_type = [];
  tags = [];
  is_suspended = false;
  position = pos 0;
  created_at = 0;
  updated_at = 0;
  due = 4000;
  stability = pos 0;
  difficulty = pos 0;
  elapsed_days = pos 0;
  scheduled_days = pos 0;
  reps = pos 0;
  lapses = pos 0;
  state = pos 0;
  last_review = none;
}

abbrev pub session_row : StudySession
session_row = record {
  id = 4;
  user_id = 1;
  deck_id = some 2;
  started_at = 3000;
  ended_at = none;
  new_count = pos 0;
  review_count = pos 0;
  relearn_count = pos 0;
  total_duration_ms = pos 0;
}

abbrev pub ended_row : StudySession
ended_row = record session_row { id = 5; ended_at = some 3500 }

abbrev pub fsrs_card : FsrsCardState
fsrs_card = record {
  due = 90000;
  stability = real 2;
  difficulty = real 5;
  elapsed_days = pos 0;
  scheduled_days = pos 1;
  reps = pos 1;
  lapses = pos 0;
  state = pos 1;
  last_review = 5000;
}

abbrev pub fsrs_log : FsrsLogState
fsrs_log = record {
  scheduled_days = pos 1;
  elapsed_days = pos 0;
  stability = real 2;
  difficulty = real 5;
}

abbrev pub review_request : SubmitReviewRequest
review_request = record {
  card_id = 3;
  rating = pos 3;
  duration_ms = pos 700;
  card = fsrs_card;
  log = fsrs_log;
}

abbrev pub review_item_3 : BatchReviewItem
review_item_3 = record {
  card_id = 3;
  rating = pos 3;
  duration_ms = pos 700;
  reviewed_at = 4500;
  card = fsrs_card;
  log = fsrs_log;
}

-- a review of a card that is not stored
abbrev pub review_item_9 : BatchReviewItem
review_item_9 = record review_item_3 { card_id = 9 }

abbrev pub right_option : McqOption
right_option = record { text = b'a' ∷ []; is_correct = true }

abbrev pub wrong_option : McqOption
wrong_option = record { text = b'b' ∷ []; is_correct = false }

-- JSON in which the text "m" is the two options, "n" the two with the other one marked, and every
-- other text is an error
abbrev options_of : Text → Option (List McqOption)
options_of [] = none
options_of (c ∷ s) = elim s [
  | [] ↦
      if c == b'm'
      then some (right_option ∷ wrong_option ∷ [])
      else if c == b'n'
      then some (
          record right_option { is_correct = false }
          ∷ record wrong_option { is_correct = true }
          ∷ [])
      else none
  | d ∷ t ↦ none
]

abbrev pub rt : Runtime
rt = record {
  unmarshal_options = options_of;
  unmarshal_strings = λ s. none;
  marshal_options = λ os. b'm' ∷ [];
  marshal_texts = λ ts. b'x' ∷ [];
  fold = λ c. c;
  lower = λ c. c;
}

abbrev pub quiz_row : Quiz
quiz_row = record {
  id = 10;
  user_id = 1;
  deck_id = none;
  title = [];
  description = [];
  quiz_type = mixed;
  time_limit_seconds = none;
  shuffle_questions = true;
  is_published = true;
  created_at = 0;
  updated_at = 0;
}

abbrev pub question_row_11 : QuizQuestion
question_row_11 = record {
  id = 11;
  quiz_id = 10;
  card_id = some 3;
  question_type = mcq;
  question_text = b'q' ∷ [];
  options = b'm' ∷ [];
  correct_answer = b'a' ∷ [];
  explanation = [];
  position = pos 0;
  points = pos 5;
  created_at = 0;
  updated_at = 0;
}

-- the same question with its other option marked as correct
abbrev pub question_row_other : QuizQuestion
question_row_other = record question_row_11 { options = b'n' ∷ []; correct_answer = b'b' ∷ [] }

abbrev pub attempt_row_12 : QuizAttempt
attempt_row_12 = record {
  id = 12;
  quiz_id = 10;
  user_id = 1;
  started_at = 4000;
  completed_at = none;
  score = pos 0;
  total_points = pos 5;
  total_questions = pos 1;
  correct_count = pos 0;
  duration_ms = pos 0;
  created_at = 4000;
}

abbrev pub completed_row : QuizAttempt
completed_row = record attempt_row_12 { id = 13; completed_at = some 4500; duration_ms = pos 500 }

-- the correct answer between spaces, with a review of the linked card
abbrev pub answer_request : SubmitAnswerRequest
answer_request = record {
  question_id = 11;
  answer = b' ' ∷ b'a' ∷ b' ' ∷ [];
  duration_ms = pos 300;
  fsrs_card = some fsrs_card;
  fsrs_log = some fsrs_log;
  rating = none;
}

abbrev pub add_request : AddQuestionRequest
add_request = record {
  card_id = none;
  question_type = mcq;
  question_text = [];
  options = b'm' ∷ [];
  correct_answer = b'a' ∷ [];
  explanation = [];
  points = none;
}

abbrev pub user_row : StudyUser
user_row = record { id = 1; daily_new_limit = pos 20; daily_review_limit = pos 200 }

abbrev pub rows : Tables
rows = record no_rows {
  users = user_row ∷ [];
  cards = card_row ∷ [];
  study_sessions = session_row ∷ ended_row ∷ [];
  quizzes = quiz_row ∷ [];
  quiz_questions = question_row_11 ∷ [];
  quiz_attempts = attempt_row_12 ∷ completed_row ∷ [];
  fresh_id = 20;
}
