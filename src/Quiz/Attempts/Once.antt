-- ===== src/Quiz/Attempts/Once.antt =====
-- SubmitAnswer of internal/service/quiz.go as a whole, and used twice for one question.
use mathlib.Core.Path.{subst}
use backend_quiz.Common.{
  ap, ◌∙◌, ℕ, ◌≡◌, refl, sym, Bool, true, false, not, ◌&&◌, none, some, List, [], ◌∷◌, ◌++◌, arith,
  ◌==◌, ==_iff, ==-refl, select_one, select_one_sound, update_where, select_one-update_where,
  Bool-cases, inl, inr,
}
use backend_quiz.Domain.{Result, ok, err, question_not_in_quiz, already_answered}
use backend_quiz.Domain.Card.{Env}
use backend_quiz.Domain.Quiz.{
  QuizQuestion, QuizAttempt, QuizAnswer, SubmitAnswerRequest, AnswerResult,
}
use backend_quiz.Db.{World, exec, transact, calm, raise_if, ◌>>◌}
use backend_quiz.Db.Compose.{bind-ok, raise_if-ok}
use backend_quiz.Db.Rules.{Ensures-transact}
use backend_quiz.Repository.Tables.{Tables}
use backend_quiz.Repository.Quizzes.{get_question, is_question}
use backend_quiz.Repository.Attempts.{
  is_attempt, get_attempt_row, write_attempt, get_answer, is_answer_to,
}
use backend_quiz.Quiz.Grading.{Runtime, grade_answer}
use backend_quiz.Quiz.Attempts.{
  own_attempt, open_attempt_of, already_there, count_answer, answer_body, submit_answer,
}
use backend_quiz.Quiz.Attempts.Atomic.{
  IsReadOnly-open_attempt_of, IsReadOnly-get_question, IsReadOnly-already_there,
}
use backend_quiz.Quiz.Attempts.Answering.{Answered, Written, answer_body-ok}

pub open_attempt_of-ok :
    (user_id attempt_id : ℕ) (w : World Tables) (a : QuizAttempt)
    → (open_attempt_of user_id attempt_id w).0 ≡ ok a
    → (select_one (is_attempt attempt_id) w.tables.quiz_attempts ≡ some a)
      × (a.user_id ≡ user_id)
      × (a.completed_at ≡ none)
unfolding open_attempt_of own_attempt get_attempt_row exec
open_attempt_of-ok user_id attempt_id w a h = ground arith

get_question-ok :
    (id : ℕ) (w : World Tables) (q : QuizQuestion)
    → (get_question id w).0 ≡ ok q
    → select_one (is_question id) w.tables.quiz_questions ≡ some q
unfolding get_question exec
get_question-ok id w q h = ground arith

same_quiz : (a b : ℕ) → not (a == b) ≡ false → a ≡ b
same_quiz a b h = ground arith

transact-answer-ok :
    (env : Env) (user_id attempt_id : ℕ) (req : SubmitAnswerRequest) (question : QuizQuestion)
    (correct : Bool) (attempt : QuizAttempt) (w : World Tables) (r : AnswerResult)
    → (transact (answer_body env user_id attempt_id req question correct attempt) w).0 ≡ ok r
    → Written env user_id attempt_id req question correct attempt w.tables
        (transact (answer_body env user_id attempt_id req question correct attempt) w).1.tables
        r
transact-answer-ok env user_id attempt_id req question correct attempt w r h =
    (Ensures-transact {P = λ t. t ≡ w.tables}
        {Q = λ r t. Written env user_id attempt_id req question correct attempt w.tables t r}
        (record {
          at = λ v s p g.
              subst
                (λ t.
                  Written env user_id attempt_id req question correct attempt t
                    (answer_body env user_id attempt_id req question correct attempt v).1.tables s)
                p (answer_body-ok env user_id attempt_id req question correct attempt v s g);
        })).at
      w r refl h

-- An answer that is accepted was given in a stored attempt of the user that is not completed, to a
-- stored question of the attempt's quiz. It is graded by the grade of that question, it is the one
-- answer that has been added, and the attempt has that grade and that answer's points and duration
-- added to its counters; no question has changed.
pub submit_answer_effect :
    (env : Env) (rt : Runtime) (user_id attempt_id : ℕ) (req : SubmitAnswerRequest)
    (w : World Tables) (r : AnswerResult)
    → (submit_answer env rt user_id attempt_id req w).0 ≡ ok r
    → (attempt : QuizAttempt) × (question : QuizQuestion) × Answered env rt user_id attempt_id req r
        w.tables
        (submit_answer env rt user_id attempt_id req w).1.tables
        attempt
        question
unfolding submit_answer
submit_answer_effect env rt user_id attempt_id req w r h =
    let (attempt, a1, h1, e1) = bind-ok (open_attempt_of user_id attempt_id) _ w r h in
    let w1 = (open_attempt_of user_id attempt_id w).1 in
    let t1 = (IsReadOnly-open_attempt_of user_id attempt_id).tables w in
    let (question, a2, h2, e2) = bind-ok (get_question req.question_id) _ w1 r h1 in
    let w2 = (get_question req.question_id w1).1 in
    let t2 = (IsReadOnly-get_question req.question_id).tables w1 ∙ t1 in
    let (c3, h3, e3) =
      raise_if-ok (not (question.quiz_id == attempt.quiz_id)) question_not_in_quiz _ w2 r h2 in
    let correct = grade_answer rt question req.answer in
    let body = transact (answer_body env user_id attempt_id req question correct attempt) in
    let (there, a4, h4, e4) =
      bind-ok (already_there attempt_id req.question_id) (λ b. raise_if b already_answered >> body)
        w2 r h3 in
    let w4 = (already_there attempt_id req.question_id w2).1 in
    let t4 = (IsReadOnly-already_there attempt_id req.question_id).tables w2 ∙ t2 in
    let (c5, h5, e5) = raise_if-ok there already_answered body w4 r h4 in
    let (stored, owned, live) = open_attempt_of-ok user_id attempt_id w attempt a1 in
    let end =
      ap (λ (y : Result AnswerResult × World Tables). y.1.tables) (e1 ∙ e2 ∙ e3 ∙ e4 ∙ e5) in
    let done =
      subst (λ t. Written env user_id attempt_id req question correct attempt w.tables t r)
        (sym end)
        (subst
          (λ t.
            Written env user_id attempt_id req question correct attempt t
              (transact (answer_body env user_id attempt_id req question correct attempt)
                w4).1.tables
              r)
          t4 (transact-answer-ok env user_id attempt_id req question correct attempt w4 r h5)) in
    (
      attempt,
      question,
      record {
        stored_attempt = stored;
        owned = owned;
        not_completed = live;
        stored_question =
            ap (λ (t : Tables). select_one (is_question req.question_id) t.quiz_questions) (sym t1)
            ∙ get_question-ok req.question_id w1 question a2;
        in_quiz = same_quiz question.quiz_id attempt.quiz_id c3;
        graded = done.graded;
        answers = done.answers;
        answer = done.answer;
        attempts = done.attempts;
        questions = done.questions;
      },
    )

-- appending a selected row leaves one that is selected
select_one-append_one :
    {A : Type 0} (p : A → Bool) (xs : List A) (a : A)
    → p a ≡ true
    → (b : A) × (select_one p (xs ++ a ∷ []) ≡ some b)
select_one-append_one p [] a h = (a, rw h refl)
select_one-append_one p (x ∷ xs) a h =
    let (b, e) = select_one-append_one p xs a h in
    elim (Bool-cases (p x)) [ inl f ↦ (x, rw f refl) | inr f ↦ (b, rw f e) ]

module _ (env : Env) (rt : Runtime) (user_id attempt_id : ℕ) (req : SubmitAnswerRequest)
    (t : Tables) where
  -- with the attempt and the question stored, an answer that is there is not accepted again
  refuse_second :
      (attempt : QuizAttempt) (question : QuizQuestion) (a : QuizAnswer)
      → select_one (is_attempt attempt_id) t.quiz_attempts ≡ some attempt
      → attempt.user_id ≡ user_id
      → attempt.completed_at ≡ none
      → select_one (is_question req.question_id) t.quiz_questions ≡ some question
      → question.quiz_id ≡ attempt.quiz_id
      → select_one (is_answer_to attempt_id req.question_id) t.quiz_answers ≡ some a
      → submit_answer env rt user_id attempt_id req (calm t) ≡ (err already_answered, calm t)
  unfolding submit_answer open_attempt_of own_attempt get_attempt_row get_question already_there
      get_answer exec
  refuse_second attempt question a stored owned live asked inside there =
      simp (stored, owned, live, asked, inside, there, ==-refl)

is_answer_itself : (a b : ℕ) → ((a == a) && (b == b)) ≡ true
is_answer_itself a b = ground arith

-- the attempt after its counters are written
pub select_one-update_where_own :
    (attempt_id : ℕ) (attempt new : QuizAttempt) (rows : List QuizAttempt)
    → select_one (is_attempt attempt_id) rows ≡ some attempt
    → select_one
        (is_attempt attempt_id)
        (update_where (is_attempt attempt.id) (write_attempt new) rows)
      ≡ some (write_attempt new attempt)
select_one-update_where_own attempt_id attempt new rows h =
    let e : attempt.id ≡ attempt_id =
      (==_iff attempt.id attempt_id).0 (select_one_sound (is_attempt attempt_id) rows attempt h) in
    subst
      (λ k.
        select_one (is_attempt attempt_id) (update_where (is_attempt k) (write_attempt new) rows)
        ≡ some (write_attempt new attempt))
      (sym e)
      (select_one-update_where (is_attempt attempt_id) (write_attempt new) rows attempt (λ x. refl)
        h)

-- Once an answer has been accepted, another answer of the same user to the same question of the
-- attempt is refused as already answered, with no row changed, where no statement is refused.
pub submit_answer_once :
    (env env' : Env) (rt : Runtime) (user_id attempt_id : ℕ) (req again : SubmitAnswerRequest)
    (w : World Tables) (r : AnswerResult)
    → (submit_answer env rt user_id attempt_id req w).0 ≡ ok r
    → again.question_id ≡ req.question_id
    → let t = (submit_answer env rt user_id attempt_id req w).1.tables in
      submit_answer env' rt user_id attempt_id again (calm t) ≡ (err already_answered, calm t)
submit_answer_once env env' rt user_id attempt_id req again w r h same =
    let (attempt, question, e) = submit_answer_effect env rt user_id attempt_id req w r h in
    let t = (submit_answer env rt user_id attempt_id req w).1.tables in
    let new = count_answer req question (grade_answer rt question req.answer) attempt in
    let (b, there) =
      select_one-append_one (is_answer_to attempt_id again.question_id) w.tables.quiz_answers
        r.answer (rw (e.answer, same) (is_answer_itself attempt_id req.question_id)) in
    refuse_second env' rt user_id attempt_id again t (write_attempt new attempt) question b
      (ap (select_one (is_attempt attempt_id)) e.attempts
        ∙ select_one-update_where_own attempt_id attempt new w.tables.quiz_attempts
            e.stored_attempt)
      e.owned e.not_completed
      (ap (λ k. select_one (is_question k) t.quiz_questions) same
        ∙ ap (select_one (is_question req.question_id)) e.questions
        ∙ e.stored_question)
      e.in_quiz (ap (select_one (is_answer_to attempt_id again.question_id)) e.answers ∙ there)
