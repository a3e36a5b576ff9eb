-- ===== src/Quiz/Questions.antt =====
-- internal/service/quiz.go, quizzes and their questions as their owner edits them: CreateQuiz,
-- GetQuiz, UpdateQuiz, DeleteQuiz, AddQuestion, BatchAddQuestions, UpdateQuestion, DeleteQuestion.
pub mod Valid
pub mod Generated
pub mod Kept
pub mod Requests
use backend_quiz.Common.{
  ℕ, suc, ◌+◌, Bool, true, false, not, Option, none, some, List, [], ◌∷◌, ◌==◌, or_default,
}
use backend_quiz.Common.{ℤ, pos}
use backend_quiz.Common.Text.{Text}
use backend_quiz.Domain.{Error, forbidden, question_not_in_quiz, Result, ok, err}
use backend_quiz.Domain.Card.{Env}
use backend_quiz.Domain.Quiz.{
  Quiz, QuestionType, QuizQuestion, AddQuestionRequest, UpdateQuestionRequest, CreateQuizRequest,
  UpdateQuizRequest,
}
use backend_quiz.Db.{World, M, pure, lift, ◌>>=◌, ◌>>◌, raise_if}
use backend_quiz.Repository.Tables.{Tables}
use backend_quiz.Repository.Decks.{get_deck}
use backend_quiz.Repository.Quizzes.{
  create_quiz_row, get_quiz, update_quiz_row, delete_quiz_row, create_question,
  bulk_create_questions, get_question, list_questions, update_question_row, delete_question_row,
  count_questions,
}
use backend_quiz.Quiz.Grading.{Runtime, validate_question_options}

-- the check of the deck in CreateQuiz
pub check_deck : ℕ → Option ℕ → M Tables (Unit {0})
check_deck user_id none = pure tt
check_deck user_id (some deck_id) = do
  deck ← get_deck deck_id
  raise_if (not (deck.user_id == user_id)) forbidden

-- the quiz that CreateQuiz stores
abbrev pub quiz_of : ℕ → CreateQuizRequest → Quiz
quiz_of user_id req = record {
  id = 0;
  user_id = user_id;
  deck_id = req.deck_id;
  title = req.title;
  description = req.description;
  quiz_type = req.quiz_type;
  time_limit_seconds = req.time_limit_seconds;
  shuffle_questions = or_default req.shuffle_questions true;
  is_published = false;
  created_at = 0;
  updated_at = 0;
}

-- CreateQuiz
pub create_quiz : Env → ℕ → CreateQuizRequest → M Tables Quiz
unfolding check_deck
create_quiz env user_id req = do
  check_deck user_id req.deck_id
  create_quiz_row env (quiz_of user_id req)

-- the quiz, which must be the user's
pub own_quiz : ℕ → ℕ → M Tables Quiz
own_quiz user_id quiz_id = do
  quiz ← get_quiz quiz_id
  raise_if (not (quiz.user_id == user_id)) forbidden
  pure quiz

-- GetQuiz
pub get_quiz_detail : ℕ → ℕ → M Tables (Quiz × List QuizQuestion)
unfolding own_quiz
get_quiz_detail user_id quiz_id = do
  quiz ← own_quiz user_id quiz_id
  questions ← list_questions quiz_id
  pure (quiz, questions)

-- `if req.TimeLimitSeconds != nil { quiz.TimeLimitSeconds = req.TimeLimitSeconds }`
abbrev or_else : {A : Type 0} → Option A → Option A → Option A
or_else none old = old
or_else (some a) old = some a

-- the fields that the request names
abbrev pub merge_quiz : UpdateQuizRequest → Quiz → Quiz
merge_quiz req quiz = record quiz {
  title = or_default req.title quiz.title;
  description = or_default req.description quiz.description;
  quiz_type = or_default req.quiz_type quiz.quiz_type;
  time_limit_seconds = or_else req.time_limit_seconds quiz.time_limit_seconds;
  shuffle_questions = or_default req.shuffle_questions quiz.shuffle_questions;
  is_published = or_default req.is_published quiz.is_published;
}

-- UpdateQuiz
pub update_quiz : Env → ℕ → ℕ → UpdateQuizRequest → M Tables Quiz
unfolding own_quiz
update_quiz env user_id quiz_id req = do
  quiz ← own_quiz user_id quiz_id
  update_quiz_row env (merge_quiz req quiz)
  pure (merge_quiz req quiz)

-- DeleteQuiz
pub delete_quiz : ℕ → ℕ → M Tables (Unit {0})
unfolding own_quiz
delete_quiz user_id quiz_id = do quiz ← own_quiz user_id quiz_id; delete_quiz_row quiz_id

-- the question of a request, at a position of the quiz
abbrev pub question_of : ℕ → ℕ → AddQuestionRequest → QuizQuestion
question_of quiz_id position req = record {
  id = 0;
  quiz_id = quiz_id;
  card_id = req.card_id;
  question_type = req.question_type;
  question_text = req.question_text;
  options = req.options;
  correct_answer = req.correct_answer;
  explanation = req.explanation;
  position = pos position;
  points = or_default req.points (pos 1);
  created_at = 0;
  updated_at = 0;
}

abbrev pub validate_request : Runtime → AddQuestionRequest → Result (Unit {0})
validate_request rt req =
    validate_question_options rt req.question_type req.options req.correct_answer

-- AddQuestion
pub add_question : Env → Runtime → ℕ → ℕ → AddQuestionRequest → M Tables QuizQuestion
unfolding own_quiz
add_question env rt user_id quiz_id req = do
  quiz ← own_quiz user_id quiz_id
  lift (validate_request rt req)
  count ← count_questions quiz_id
  create_question env (question_of quiz_id count req)

abbrev cons_question : QuizQuestion → Result (List QuizQuestion) → Result (List QuizQuestion)
cons_question q (ok qs) = ok (q ∷ qs)
cons_question q (err e) = err e

abbrev after_check : Result (Unit {0}) → Result (List QuizQuestion) → Result (List QuizQuestion)
after_check (ok x) rest = rest
after_check (err e) rest = err e

-- the loop of BatchAddQuestions, from a position on
pub questions_from : Runtime → ℕ → ℕ → List AddQuestionRequest → Result (List QuizQuestion)
questions_from rt quiz_id position [] = ok []
questions_from rt quiz_id position (r ∷ rs) =
    after_check (validate_request rt r)
      (cons_question (question_of quiz_id position r) (questions_from rt quiz_id (position + 1) rs))

-- BatchAddQuestions
pub batch_add_questions :
    Env → Runtime → ℕ → ℕ → List AddQuestionRequest → M Tables (List QuizQuestion)
unfolding own_quiz questions_from
batch_add_questions env rt user_id quiz_id reqs = do
  quiz ← own_quiz user_id quiz_id
  count ← count_questions quiz_id
  questions ← lift (questions_from rt quiz_id count reqs)
  bulk_create_questions env questions

-- the quiz's question, for UpdateQuestion and DeleteQuestion
pub own_question : ℕ → ℕ → ℕ → M Tables QuizQuestion
unfolding own_quiz
own_question user_id quiz_id question_id = do
  quiz ← own_quiz user_id quiz_id
  question ← get_question question_id
  raise_if (not (question.quiz_id == quiz_id)) question_not_in_quiz
  pure question

-- the fields that the request names
abbrev pub merge_question : UpdateQuestionRequest → QuizQuestion → QuizQuestion
merge_question req q = record q {
  question_type = or_default req.question_type q.question_type;
  question_text = or_default req.question_text q.question_text;
  options = or_default req.options q.options;
  correct_answer = or_default req.correct_answer q.correct_answer;
  explanation = or_default req.explanation q.explanation;
  points = or_default req.points q.points;
}

abbrev pub validate_stored : Runtime → QuizQuestion → Result (Unit {0})
validate_stored rt q = validate_question_options rt q.question_type q.options q.correct_answer

-- UpdateQuestion
pub update_question : Env → Runtime → ℕ → ℕ → ℕ → UpdateQuestionRequest → M Tables QuizQuestion
unfolding own_question
update_question env rt user_id quiz_id question_id req = do
  question ← own_question user_id quiz_id question_id
  lift (validate_stored rt (merge_question req question))
  update_question_row env (merge_question req question)
  pure (merge_question req question)

-- DeleteQuestion
pub delete_question : ℕ → ℕ → ℕ → M Tables (Unit {0})
unfolding own_question
delete_question user_id quiz_id question_id = do
  question ← own_question user_id quiz_id question_id
  delete_question_row question_id
