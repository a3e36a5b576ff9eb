-- ===== src/Repository/Tables.antt =====
-- The rows of the tables that the services of study, decks, cards and quizzes use. `fresh_id` is
-- the next value of gen_random_uuid(): all that the program uses of it is that it is new.
use backend_quiz.Common.{ℕ, List, [], Option, none, some}
use backend_quiz.Domain.Card.{Card, ReviewLog}
use backend_quiz.Domain.Study.{StudySession, StudyUser}
use backend_quiz.Domain.Deck.{Deck, DeckShare}
use backend_quiz.Domain.Quiz.{Quiz, QuizQuestion, QuizAttempt, QuizAnswer}
use backend_quiz.Domain.{not_found}
use backend_quiz.Db.{M, pure, raise}

pub record Tables : Type 0 where
  pub users : List StudyUser
  pub decks : List Deck
  pub deck_shares : List DeckShare
  pub cards : List Card
  pub study_sessions : List StudySession
  pub review_logs : List ReviewLog
  pub quizzes : List Quiz
  pub quiz_questions : List QuizQuestion
  pub quiz_attempts : List QuizAttempt
  pub quiz_answers : List QuizAnswer
  pub fresh_id : ℕ

abbrev pub no_rows : Tables
no_rows = record {
  users = [];
  decks = [];
  deck_shares = [];
  cards = [];
  study_sessions = [];
  review_logs = [];
  quizzes = [];
  quiz_questions = [];
  quiz_attempts = [];
  quiz_answers = [];
  fresh_id = 1;
}

-- `if err == pgx.ErrNoRows { return nil, domain.ErrNotFound }`
abbrev pub or_not_found : {T A : Type 0} → Option A → M T A
or_not_found none = raise not_found
or_not_found (some a) = pure a
