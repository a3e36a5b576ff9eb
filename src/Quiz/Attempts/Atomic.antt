-- ===== src/Quiz/Attempts/Atomic.antt =====
-- The methods of internal/service/quiz.go on attempts: which only read, and which are all or nothing
-- when the server refuses a statement.
use backend_quiz.Common.{ℕ, List, [], ◌∷◌}
use backend_quiz.Domain.Card.{Env}
use backend_quiz.Domain.Quiz.{QuizAttempt, QuizAnswer, QuizQuestion, SubmitAnswerRequest}
use backend_quiz.Db.Rules.{IsReadOnly, IsAtomic, IsAtomic-exec, IsAtomic-transact, IsReadOnly-query}
use backend_quiz.Db.Compose.{
  IsReadOnly-pure, IsReadOnly-raise_if, IsReadOnly-bind, IsAtomic-bind, IsAtomic-map,
}
use backend_quiz.Repository.Sessions.Laws.{IsReadOnly-or_not_found}
use backend_quiz.Repository.Quizzes.{get_quiz, list_questions, get_question}
use backend_quiz.Repository.Attempts.{
  create_attempt, get_attempt_row, update_attempt, get_answer, list_answers,
}
use backend_quiz.Quiz.Grading.{Runtime}
use backend_quiz.Quiz.Attempts.{
  open_attempt, start_attempt, own_attempt, open_attempt_of, already_there, submit_answer,
  complete_attempt, answer_details, get_attempt,
}

ruleset rows = (IsReadOnly-or_not_found, IsReadOnly-query, IsReadOnly-bind)

pub IsReadOnly-get_quiz : (id : ℕ) → IsReadOnly (get_quiz id)
unfolding get_quiz
IsReadOnly-get_quiz id = search rows

pub IsReadOnly-list_questions : (id : ℕ) → IsReadOnly (list_questions id)
unfolding list_questions
IsReadOnly-list_questions id = search rows

pub IsReadOnly-get_question : (id : ℕ) → IsReadOnly (get_question id)
unfolding get_question
IsReadOnly-get_question id = search rows

IsReadOnly-get_attempt_row : (id : ℕ) → IsReadOnly (get_attempt_row id)
unfolding get_attempt_row
IsReadOnly-get_attempt_row id = search rows

IsReadOnly-get_answer :
    (attempt_id question_id : ℕ) → IsReadOnly (get_answer attempt_id question_id)
unfolding get_answer
IsReadOnly-get_answer attempt_id question_id = search rows

IsReadOnly-list_answers : (id : ℕ) → IsReadOnly (list_answers id)
unfolding list_answers
IsReadOnly-list_answers id = search rows

-- reading whether there is an answer, with the error dropped
pub IsReadOnly-already_there :
    (attempt_id question_id : ℕ) → IsReadOnly (already_there attempt_id question_id)
unfolding already_there
IsReadOnly-already_there attempt_id question_id =
    let r = IsReadOnly-get_answer attempt_id question_id in record { tables = r.tables; tx = r.tx }

ruleset reads = (
  IsReadOnly-pure, IsReadOnly-raise_if, IsReadOnly-bind, IsReadOnly-get_quiz,
  IsReadOnly-list_questions, IsReadOnly-get_question, IsReadOnly-get_attempt_row,
  IsReadOnly-already_there, IsReadOnly-list_answers,
)

IsReadOnly-own_attempt : (user_id attempt_id : ℕ) → IsReadOnly (own_attempt user_id attempt_id)
unfolding own_attempt
IsReadOnly-own_attempt user_id attempt_id = search reads

pub IsReadOnly-open_attempt_of :
    (user_id attempt_id : ℕ) → IsReadOnly (open_attempt_of user_id attempt_id)
unfolding open_attempt_of
IsReadOnly-open_attempt_of user_id attempt_id = search (reads, IsReadOnly-own_attempt)

IsReadOnly-answer_details : (answers : List QuizAnswer) → IsReadOnly (answer_details answers)
unfolding answer_details
IsReadOnly-answer_details [] = search reads
IsReadOnly-answer_details (a ∷ rest) =
    IsReadOnly-bind (IsReadOnly-get_question a.question_id)
      λ question. IsReadOnly-bind (IsReadOnly-answer_details rest) λ details. IsReadOnly-pure _

ruleset requests = (reads, IsReadOnly-open_attempt_of, IsAtomic-bind, IsAtomic-map)

IsAtomic-open_attempt :
    (env : Env) (rt : Runtime) (user_id quiz_id : ℕ) (questions : List QuizQuestion)
    → IsAtomic (open_attempt env rt user_id quiz_id questions)
unfolding open_attempt create_attempt
IsAtomic-open_attempt env rt user_id quiz_id questions = search (requests, IsAtomic-exec)

pub IsAtomic-start_attempt :
    (env : Env) (rt : Runtime) (shuffle : List QuizQuestion → List QuizQuestion)
    (user_id quiz_id : ℕ)
    → IsAtomic (start_attempt env rt shuffle user_id quiz_id)
unfolding start_attempt
IsAtomic-start_attempt env rt shuffle user_id quiz_id =
    search (requests, IsAtomic-open_attempt) depth 8

pub IsAtomic-submit_answer :
    (env : Env) (rt : Runtime) (user_id attempt_id : ℕ) (req : SubmitAnswerRequest)
    → IsAtomic (submit_answer env rt user_id attempt_id req)
unfolding submit_answer
IsAtomic-submit_answer env rt user_id attempt_id req = search (requests, IsAtomic-transact) depth 10

pub IsAtomic-update_attempt : (attempt : QuizAttempt) → IsAtomic (update_attempt attempt)
unfolding update_attempt
IsAtomic-update_attempt attempt = IsAtomic-exec _

pub IsAtomic-complete_attempt :
    (env : Env) (user_id attempt_id : ℕ) → IsAtomic (complete_attempt env user_id attempt_id)
unfolding complete_attempt
IsAtomic-complete_attempt env user_id attempt_id =
    search (requests, IsAtomic-update_attempt) depth 8

-- GetAttempt changes no row.
pub IsReadOnly-get_attempt : (user_id attempt_id : ℕ) → IsReadOnly (get_attempt user_id attempt_id)
unfolding get_attempt
IsReadOnly-get_attempt user_id attempt_id =
    search (reads, IsReadOnly-own_attempt, IsReadOnly-answer_details) depth 8
