-- ===== src/Repository/Quizzes.antt =====
-- internal/repository/quiz.go and db/queries/quizzes.sql, quiz_questions.sql: quizzes and their
-- questions.
use backend_quiz.Common.{
  ℕ, ◌+◌, Bool, true, false, ◌&&◌, ◌||◌, is_some, Option, none, some, List, [], ◌∷◌, ◌++◌, ◌==◌,
  leb, if◌then◌else◌, select_one, select_where, update_where, delete_where, count_where,
}
use backend_quiz.Common.{ℤ, int32, ltb_ℤ, leb_ℤ}
use backend_quiz.Domain.Card.{Env}
use backend_quiz.Domain.Quiz.{Quiz, QuizQuestion, QuizAttempt, QuizAnswer}
use backend_quiz.Db.{M, pure, exec, query, modify, transact, ◌>>=◌}
use backend_quiz.Repository.Tables.{Tables, or_not_found}

abbrev pub is_quiz : ℕ → Quiz → Bool
is_quiz id q = q.id == id

abbrev pub is_question : ℕ → QuizQuestion → Bool
is_question id q = q.id == id

abbrev pub in_quiz : ℕ → QuizQuestion → Bool
in_quiz id q = q.quiz_id == id

-- intToNullable
abbrev pub int_to_nullable : Option ℤ → Option ℤ
int_to_nullable none = none
int_to_nullable (some v) = some (int32 v)

-- QuizRepository.Create: the row that is returned has the defaults of the table
unfoldable pub create_quiz_row : Env → Quiz → M Tables Quiz
create_quiz_row env quiz = exec λ t.
    let row = record quiz {
      id = t.fresh_id;
      time_limit_seconds = int_to_nullable quiz.time_limit_seconds;
      is_published = false;
      created_at = env.now;
      updated_at = env.now;
    } in
    (row, record t { quizzes = t.quizzes ++ row ∷ []; fresh_id = t.fresh_id + 1 })

-- QuizRepository.GetByID
unfoldable pub get_quiz : ℕ → M Tables Quiz
get_quiz id = do row ← query (λ t. select_one (is_quiz id) t.quizzes); or_not_found row

-- QuizRepository.Update
unfoldable pub update_quiz_row : Env → Quiz → M Tables (Unit {0})
update_quiz_row env quiz = modify λ t. record t {
  quizzes =
      update_where (is_quiz quiz.id)
        (λ row. record row {
          title = quiz.title;
          description = quiz.description;
          quiz_type = quiz.quiz_type;
          time_limit_seconds = int_to_nullable quiz.time_limit_seconds;
          shuffle_questions = quiz.shuffle_questions;
          is_published = quiz.is_published;
          updated_at = env.now;
        })
        t.quizzes;
}

-- the row that CreateQuizQuestion inserts and returns
abbrev pub question_row : Env → ℕ → QuizQuestion → QuizQuestion
question_row env id q = record q {
  id = id;
  position = int32 q.position;
  points = int32 q.points;
  created_at = env.now;
  updated_at = env.now;
}

-- QuizRepository.CreateQuestion
unfoldable pub create_question : Env → QuizQuestion → M Tables QuizQuestion
create_question env q = exec λ t.
    let row = question_row env t.fresh_id q in
    (row, record t { quiz_questions = t.quiz_questions ++ row ∷ []; fresh_id = t.fresh_id + 1 })

-- the loop of BulkCreateQuestions
unfoldable pub create_questions : Env → List QuizQuestion → M Tables (List QuizQuestion)
create_questions env [] = pure []
create_questions env (q ∷ qs) = do
  row ← create_question env q
  rows ← create_questions env qs
  pure (row ∷ rows)

-- QuizRepository.BulkCreateQuestions
unfoldable pub bulk_create_questions : Env → List QuizQuestion → M Tables (List QuizQuestion)
bulk_create_questions env qs = transact (create_questions env qs)

-- QuizRepository.GetQuestionByID
unfoldable pub get_question : ℕ → M Tables QuizQuestion
get_question id = do
  row ← query (λ t. select_one (is_question id) t.quiz_questions)
  or_not_found row

-- ORDER BY position, created_at
abbrev question_before : QuizQuestion → QuizQuestion → Bool
question_before a b =
    if ltb_ℤ a.position b.position
    then true
    else if leb_ℤ a.position b.position
    then leb a.created_at b.created_at
    else false

insert_question : QuizQuestion → List QuizQuestion → List QuizQuestion
insert_question q [] = q ∷ []
insert_question q (r ∷ rs) = if question_before q r then q ∷ r ∷ rs else r ∷ insert_question q rs

unfoldable pub order_questions : List QuizQuestion → List QuizQuestion
unfolding insert_question
order_questions [] = []
order_questions (q ∷ qs) = insert_question q (order_questions qs)

-- QuizRepository.ListQuestionsByQuizID
unfoldable pub list_questions : ℕ → M Tables (List QuizQuestion)
unfolding order_questions
list_questions quiz_id =
    query (λ t. order_questions (select_where (in_quiz quiz_id) t.quiz_questions))

-- QuizRepository.UpdateQuestion
unfoldable pub update_question_row : Env → QuizQuestion → M Tables (Unit {0})
update_question_row env q = modify λ t. record t {
  quiz_questions =
      update_where (is_question q.id)
        (λ row. record row {
          question_type = q.question_type;
          question_text = q.question_text;
          options = q.options;
          correct_answer = q.correct_answer;
          explanation = q.explanation;
          position = int32 q.position;
          points = int32 q.points;
          updated_at = env.now;
        })
        t.quiz_questions;
}

-- QuizRepository.DeleteQuestion; the answers that refer to the question go with it
unfoldable pub delete_question_row : ℕ → M Tables (Unit {0})
delete_question_row id = modify λ t. record t {
  quiz_questions = delete_where (is_question id) t.quiz_questions;
  quiz_answers = delete_where (λ a. a.question_id == id) t.quiz_answers;
}

-- QuizRepository.CountQuestionsByQuizID
unfoldable pub count_questions : ℕ → M Tables ℕ
count_questions quiz_id = query (λ t. count_where (in_quiz quiz_id) t.quiz_questions)

-- the rows of other tables that a deleted quiz takes with it
abbrev attempt_of_quiz : ℕ → List QuizAttempt → ℕ → Bool
attempt_of_quiz quiz_id attempts id =
    is_some (select_one (λ (a : QuizAttempt). (a.id == id) && (a.quiz_id == quiz_id)) attempts)

abbrev question_of_quiz : ℕ → List QuizQuestion → ℕ → Bool
question_of_quiz quiz_id questions id =
    is_some (select_one (λ (q : QuizQuestion). (q.id == id) && (q.quiz_id == quiz_id)) questions)

-- QuizRepository.Delete, with the rows that refer to the quiz (ON DELETE CASCADE)
unfoldable pub delete_quiz_row : ℕ → M Tables (Unit {0})
delete_quiz_row id = modify λ t. record t {
  quizzes = delete_where (is_quiz id) t.quizzes;
  quiz_questions = delete_where (in_quiz id) t.quiz_questions;
  quiz_attempts = delete_where (λ (a : QuizAttempt). a.quiz_id == id) t.quiz_attempts;
  quiz_answers =
      delete_where
        (λ (a : QuizAnswer).
          attempt_of_quiz id t.quiz_attempts a.attempt_id
          || question_of_quiz id t.quiz_questions a.question_id)
        t.quiz_answers;
}
