-- ===== src/Quiz/Attempts/Answering.antt =====
-- The writes of SubmitAnswer of internal/service/quiz.go and of applyFSRSFromQuiz in it, whatever
-- statements the server refuses.
use backend_quiz.Common.{◌+ℤ◌, pos, if◌then◌else◌}
use backend_quiz.Common.{
  ap, ◌∙◌, ℕ, ◌+◌, ◌≡◌, sym, Bool, Option, none, some, [], ◌∷◌, ◌++◌, arith, select_one,
  update_where,
}
use backend_quiz.Domain.{Result, ok}
use backend_quiz.Domain.Card.{Env, FsrsCardState}
use backend_quiz.Domain.Quiz.{
  QuizQuestion, QuizAttempt, QuizAnswer, SubmitAnswerRequest, AnswerResult,
}
use backend_quiz.Db.{World, exec}
use backend_quiz.Db.Compose.{bind-ok}
use backend_quiz.Repository.Tables.{Tables}
use backend_quiz.Repository.Sessions.{create_review}
use backend_quiz.Repository.Cards.{get_card, update_fsrs}
use backend_quiz.Repository.Quizzes.{is_question}
use backend_quiz.Repository.Attempts.{
  is_attempt, write_attempt, update_attempt, answer_row, create_answer,
}
use backend_quiz.Quiz.Grading.{Runtime, grade_answer}
use backend_quiz.Quiz.Attempts.{answer_of, count_answer, answer_body}
use backend_quiz.Quiz.Linked.{apply_fsrs_from_quiz, apply_linked}

-- the rows that the FSRS update of an answer leaves alone, and what it leaves of the result
pub record SameQuiz (t t' : Tables) : Type 0 where
  pub answers : t'.quiz_answers ≡ t.quiz_answers
  pub attempts : t'.quiz_attempts ≡ t.quiz_attempts
  pub questions : t'.quiz_questions ≡ t.quiz_questions

abbrev Graded : AnswerResult → AnswerResult → Type 0
Graded r r' =
    (r'.answer ≡ r.answer) × (r'.is_correct ≡ r.is_correct) × (r'.correct_answer ≡ r.correct_answer)

module _ (env : Env) (user_id : ℕ) (req : SubmitAnswerRequest) (r : AnswerResult)
    (w : World Tables) where
  apply_fsrs_from_quiz-same :
      (card_id : ℕ) (state : FsrsCardState) (r' : AnswerResult)
      → (apply_fsrs_from_quiz env user_id card_id state req r w).0 ≡ ok r'
      → SameQuiz w.tables (apply_fsrs_from_quiz env user_id card_id state req r w).1.tables
        × Graded r r'
  unfolding apply_fsrs_from_quiz get_card update_fsrs create_review exec
  apply_fsrs_from_quiz-same card_id state r' h = ground arith

  apply_linked-same :
      (card_id : Option ℕ) (state : Option FsrsCardState) (r' : AnswerResult)
      → (apply_linked env user_id card_id state req r w).0 ≡ ok r'
      → SameQuiz w.tables (apply_linked env user_id card_id state req r w).1.tables × Graded r r'
  unfolding apply_linked
  apply_linked-same (some card_id) (some state) r' h = apply_fsrs_from_quiz-same card_id state r' h
  apply_linked-same none state r' h = ground arith
  apply_linked-same (some card_id) none r' h = ground arith

-- the attempt with an answer: its points, its duration, and one more where it is correct
abbrev pub scored : SubmitAnswerRequest → QuizQuestion → Bool → QuizAttempt → QuizAttempt
scored req question correct attempt = record attempt {
  score = attempt.score +ℤ (if correct then question.points else pos 0);
  duration_ms = attempt.duration_ms +ℤ req.duration_ms;
  correct_count = if correct then attempt.correct_count +ℤ pos 1 else attempt.correct_count;
}

-- what a successful answer has found and written
pub record Answered (env : Env) (rt : Runtime) (user_id attempt_id : ℕ) (req : SubmitAnswerRequest)
    (r : AnswerResult) (t t' : Tables) (attempt : QuizAttempt) (question : QuizQuestion)
    : Type 0 where
  pub stored_attempt : select_one (is_attempt attempt_id) t.quiz_attempts ≡ some attempt
  pub owned : attempt.user_id ≡ user_id
  pub not_completed : attempt.completed_at ≡ none
  pub stored_question : select_one (is_question req.question_id) t.quiz_questions ≡ some question
  pub in_quiz : question.quiz_id ≡ attempt.quiz_id
  pub graded : r.is_correct ≡ grade_answer rt question req.answer
  pub answers : t'.quiz_answers ≡ t.quiz_answers ++ r.answer ∷ []
  pub answer :
      r.answer
      ≡ answer_row env t.fresh_id
          (answer_of attempt_id req question (grade_answer rt question req.answer))
  pub attempts :
      t'.quiz_attempts
      ≡ update_where
          (is_attempt attempt.id)
          (write_attempt (scored req question (grade_answer rt question req.answer) attempt))
          t.quiz_attempts
  pub questions : t'.quiz_questions ≡ t.quiz_questions

pub update_attempt-ok :
    (new : QuizAttempt) (w : World Tables) (x : Unit {0})
    → (update_attempt new w).0 ≡ ok x
    → (update_attempt new w).1.tables ≡ record w.tables {
      quiz_attempts = update_where (is_attempt new.id) (write_attempt new) w.tables.quiz_attempts;
    }
unfolding update_attempt exec
update_attempt-ok new w x h = ground arith

module _ (env : Env) (user_id attempt_id : ℕ) (req : SubmitAnswerRequest) (question : QuizQuestion)
    (correct : Bool) (attempt : QuizAttempt) where
  -- what the transaction leaves
  pub record Written (t t' : Tables) (r : AnswerResult) : Type 0 where
    pub graded : r.is_correct ≡ correct
    pub answer : r.answer ≡ answer_row env t.fresh_id (answer_of attempt_id req question correct)
    pub answers : t'.quiz_answers ≡ t.quiz_answers ++ r.answer ∷ []
    pub attempts :
        t'.quiz_attempts
        ≡ update_where
            (is_attempt attempt.id)
            (write_attempt (scored req question correct attempt))
            t.quiz_attempts
    pub questions : t'.quiz_questions ≡ t.quiz_questions

  two_rows-ok :
      (w : World Tables) (a : QuizAnswer)
      → (create_answer env (answer_of attempt_id req question correct) w).0 ≡ ok a
      → (a ≡ answer_row env w.tables.fresh_id (answer_of attempt_id req question correct))
        × ((create_answer env (answer_of attempt_id req question correct) w).1.tables
            ≡ record w.tables {
              quiz_answers = w.tables.quiz_answers ++ a ∷ [];
              fresh_id = w.tables.fresh_id + 1;
            })
  unfolding create_answer exec
  two_rows-ok w a h = ground arith

  pub answer_body-ok :
      (w : World Tables) (r : AnswerResult)
      → (answer_body env user_id attempt_id req question correct attempt w).0 ≡ ok r
      → Written w.tables
          (answer_body env user_id attempt_id req question correct attempt w).1.tables
          r
  unfolding answer_body
  answer_body-ok w r h =
      let (a, h1, g1, e1) =
        bind-ok (create_answer env (answer_of attempt_id req question correct)) _ w r h in
      let w1 = (create_answer env (answer_of attempt_id req question correct) w).1 in
      let new = count_answer req question correct attempt in
      let (x, h2, g2, e2) = bind-ok (update_attempt new) _ w1 r g1 in
      let w2 = (update_attempt new w1).1 in
      let (same, graded) =
        apply_linked-same env user_id req _ w2 question.card_id req.fsrs_card r g2 in
      let (row, t1) = two_rows-ok w a h1 in
      let t2 = update_attempt-ok new w1 x h2 in
      let t3 = ap (λ (y : Result AnswerResult × World Tables). y.1.tables) (e1 ∙ e2) in
      record {
        graded = graded.1;
        answer = graded.0 ∙ row;
        answers =
            ap (λ (t : Tables). t.quiz_answers) t3
            ∙ same.answers
            ∙ ap (λ (t : Tables). t.quiz_answers) t2
            ∙ ap (λ (t : Tables). t.quiz_answers) t1
            ∙ ap (λ b. w.tables.quiz_answers ++ b ∷ []) (sym graded.0);
        attempts =
            ap (λ (t : Tables). t.quiz_attempts) t3
            ∙ same.attempts
            ∙ ap (λ (t : Tables). t.quiz_attempts) t2
            ∙ ap
                (λ (t : Tables).
                  update_where (is_attempt new.id) (write_attempt new) t.quiz_attempts)
                t1;
        questions =
            ap (λ (t : Tables). t.quiz_questions) t3
            ∙ same.questions
            ∙ ap (λ (t : Tables). t.quiz_questions) t2
            ∙ ap (λ (t : Tables). t.quiz_questions) t1;
      }
