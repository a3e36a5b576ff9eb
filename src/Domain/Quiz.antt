-- ===== src/Domain/Quiz.antt =====
-- internal/domain/quiz.go: quizzes, questions, attempts, answers; internal/dto/quiz.go: requests.
use backend_quiz.Common.{ℕ, Bool, true, false, Option, List}
use backend_quiz.Common.{ℤ}
use backend_quiz.Common.Text.{Text}
use backend_quiz.Domain.Card.{Time, FsrsCardState, FsrsLogState}

-- The strings of QuestionType* and QuizType*; `other` is any other string.
pub data QuestionType : Type 0 where
  mcq true_false fill_blank ayat_cloze ayat_continuation surah_id ordering : QuestionType
  mixed mixed_ayat pretest posttest : QuestionType
  other : Text → QuestionType

abbrev pub is_mcq : QuestionType → Bool
is_mcq mcq = true
is_mcq _ = false

pub record Quiz : Type 0 where
  pub id : ℕ
  pub user_id : ℕ
  pub deck_id : Option ℕ
  pub title : Text
  pub description : Text
  pub quiz_type : QuestionType
  pub time_limit_seconds : Option ℤ
  pub shuffle_questions : Bool
  pub is_published : Bool
  pub created_at : Time
  pub updated_at : Time

pub record McqOption : Type 0 where
  pub text : Text
  pub is_correct : Bool

-- `options` is the raw JSON of the column.
pub record QuizQuestion : Type 0 where
  pub id : ℕ
  pub quiz_id : ℕ
  pub card_id : Option ℕ
  pub question_type : QuestionType
  pub question_text : Text
  pub options : Text
  pub correct_answer : Text
  pub explanation : Text
  pub position : ℤ
  pub points : ℤ
  pub created_at : Time
  pub updated_at : Time

pub record QuizAttempt : Type 0 where
  pub id : ℕ
  pub quiz_id : ℕ
  pub user_id : ℕ
  pub started_at : Time
  pub completed_at : Option Time
  pub score : ℤ
  pub total_points : ℤ
  pub total_questions : ℤ
  pub correct_count : ℤ
  pub duration_ms : ℤ
  pub created_at : Time

pub record QuizAnswer : Type 0 where
  pub id : ℕ
  pub attempt_id : ℕ
  pub question_id : ℕ
  pub user_answer : Text
  pub is_correct : Bool
  pub points_earned : ℤ
  pub duration_ms : ℤ
  pub answered_at : Time

pub record SubmitAnswerRequest : Type 0 where
  pub question_id : ℕ
  pub answer : Text
  pub duration_ms : ℤ
  pub fsrs_card : Option FsrsCardState
  pub fsrs_log : Option FsrsLogState
  pub rating : Option ℤ

pub record AnswerResult : Type 0 where
  pub answer : QuizAnswer
  pub is_correct : Bool
  pub explanation : Text
  pub correct_answer : Text
  pub card_updated : Bool
  pub next_due : Option Time

-- The question as the taker of an attempt sees it.
pub record QuestionForAttempt : Type 0 where
  pub id : ℕ
  pub quiz_id : ℕ
  pub question_type : QuestionType
  pub question_text : Text
  pub options : Text
  pub position : ℤ
  pub points : ℤ

pub record StartAttemptResponse : Type 0 where
  pub attempt : QuizAttempt
  pub questions : List QuestionForAttempt

-- AddQuestionRequest; a pointer that may be nil is an Option
pub record AddQuestionRequest : Type 0 where
  pub card_id : Option ℕ
  pub question_type : QuestionType
  pub question_text : Text
  pub options : Text
  pub correct_answer : Text
  pub explanation : Text
  pub points : Option ℤ

pub record UpdateQuestionRequest : Type 0 where
  pub question_type : Option QuestionType
  pub question_text : Option Text
  pub options : Option Text
  pub correct_answer : Option Text
  pub explanation : Option Text
  pub points : Option ℤ

pub record CreateQuizRequest : Type 0 where
  pub deck_id : Option ℕ
  pub title : Text
  pub description : Text
  pub quiz_type : QuestionType
  pub time_limit_seconds : Option ℤ
  pub shuffle_questions : Option Bool

pub record UpdateQuizRequest : Type 0 where
  pub title : Option Text
  pub description : Option Text
  pub quiz_type : Option QuestionType
  pub time_limit_seconds : Option ℤ
  pub shuffle_questions : Option Bool
  pub is_published : Option Bool
