-- ===== src/Repository/Attempts.antt =====
-- internal/repository/quiz_attempt.go and db/queries/quiz_attempts.sql: attempts and answers.
use backend_quiz.Common.{
  ℕ, ◌+◌, Bool, ◌&&◌, none, List, [], ◌∷◌, ◌++◌, ◌==◌, select_one, select_where, update_where,
}
use backend_quiz.Common.{ℤ, pos, int32}
use backend_quiz.Domain.Card.{Env}
use backend_quiz.Domain.Quiz.{QuizAttempt, QuizAnswer}
use backend_quiz.Db.{M, exec, query, modify, ◌>>=◌}
use backend_quiz.Repository.Tables.{Tables, or_not_found}

abbrev pub is_attempt : ℕ → QuizAttempt → Bool
is_attempt id a = a.id == id

-- the row that CreateQuizAttempt inserts and returns
abbrev pub new_attempt : Env → ℕ → ℕ → ℕ → ℤ → ℤ → QuizAttempt
new_attempt env id quiz_id user_id total_points total_questions = record {
  id = id;
  quiz_id = quiz_id;
  user_id = user_id;
  started_at = env.now;
  completed_at = none;
  score = pos 0;
  total_points = int32 total_points;
  total_questions = int32 total_questions;
  correct_count = pos 0;
  duration_ms = pos 0;
  created_at = env.now;
}

-- QuizAttemptRepository.Create
unfoldable pub create_attempt : Env → ℕ → ℕ → ℤ → ℤ → M Tables QuizAttempt
create_attempt env quiz_id user_id total_points total_questions = exec λ t.
    let row = new_attempt env t.fresh_id quiz_id user_id total_points total_questions in
    (row, record t { quiz_attempts = t.quiz_attempts ++ row ∷ []; fresh_id = t.fresh_id + 1 })

-- QuizAttemptRepository.GetByID
unfoldable pub get_attempt_row : ℕ → M Tables QuizAttempt
get_attempt_row id = do
  row ← query (λ t. select_one (is_attempt id) t.quiz_attempts)
  or_not_found row

-- the columns that UpdateQuizAttempt writes
abbrev pub write_attempt : QuizAttempt → QuizAttempt → QuizAttempt
write_attempt attempt row = record row {
  completed_at = attempt.completed_at;
  score = int32 attempt.score;
  correct_count = int32 attempt.correct_count;
  duration_ms = int32 attempt.duration_ms;
}

-- QuizAttemptRepository.Update
unfoldable pub update_attempt : QuizAttempt → M Tables (Unit {0})
update_attempt attempt = modify λ t. record t {
  quiz_attempts = update_where (is_attempt attempt.id) (write_attempt attempt) t.quiz_attempts;
}

-- the row that CreateQuizAnswer inserts and returns
abbrev pub answer_row : Env → ℕ → QuizAnswer → QuizAnswer
answer_row env id a = record a {
  id = id;
  points_earned = int32 a.points_earned;
  duration_ms = int32 a.duration_ms;
  answered_at = env.now;
}

-- QuizAttemptRepository.CreateAnswer
unfoldable pub create_answer : Env → QuizAnswer → M Tables QuizAnswer
create_answer env a = exec λ t.
    let row = answer_row env t.fresh_id a in
    (row, record t { quiz_answers = t.quiz_answers ++ row ∷ []; fresh_id = t.fresh_id + 1 })

abbrev pub is_answer_to : ℕ → ℕ → QuizAnswer → Bool
is_answer_to attempt_id question_id a =
    (a.attempt_id == attempt_id) && (a.question_id == question_id)

-- QuizAttemptRepository.GetAnswerByAttemptAndQuestion
unfoldable pub get_answer : ℕ → ℕ → M Tables QuizAnswer
get_answer attempt_id question_id = do
  row ← query (λ t. select_one (is_answer_to attempt_id question_id) t.quiz_answers)
  or_not_found row

-- QuizAttemptRepository.ListAnswersByAttemptID, in the order in which they were inserted
unfoldable pub list_answers : ℕ → M Tables (List QuizAnswer)
list_answers attempt_id = query (λ t. select_where (λ a. a.attempt_id == attempt_id) t.quiz_answers)
