-- ===== src/Quiz/Questions/Valid.antt =====
-- The validation of the stored questions under the writes of internal/service/quiz.go and
-- internal/repository/quiz.go.
use mathlib.Core.Path.{subst}
use backend_quiz.Common.{
  ℕ, ◌+◌, ◌≡◌, refl, ◌⊎◌, false, inl, inr, Bool, Bool-cases, List, [], ◌∷◌, ◌++◌, arith,
  update_where, delete_where,
}
use backend_quiz.Domain.{Result, ok, err}
use backend_quiz.Domain.Card.{Env}
use backend_quiz.Domain.Quiz.{Quiz, QuestionType, QuizQuestion, AddQuestionRequest}
use backend_quiz.Db.{M, lift, ◌>>=◌}
use backend_quiz.Db.Rules.{Keeps, Keeps-exec}
use backend_quiz.Db.Compose.{Keeps-bind, IsReadOnly-Keeps, IsReadOnly-pure}
use backend_quiz.Repository.Tables.{Tables}
use backend_quiz.Repository.Quizzes.{
  is_question, in_quiz, create_quiz_row, update_quiz_row, delete_quiz_row, create_question,
  create_questions, update_question_row, delete_question_row,
}
use backend_quiz.Quiz.Grading.{Runtime}
use backend_quiz.Quiz.Questions.{
  question_of, validate_request, cons_question, after_check, questions_from, validate_stored,
}

-- A question of a type that `checked` names passes the validation.
abbrev pub Passes : Runtime → (QuestionType → Bool) → QuizQuestion → Type 0
Passes rt checked q = (checked q.question_type ≡ false) ⊎ (validate_stored rt q ≡ ok tt)

-- every question of the list does so
abbrev pub AllValid : Runtime → (QuestionType → Bool) → List QuizQuestion → Type 0
AllValid rt checked [] = Unit
AllValid rt checked (q ∷ qs) = Passes rt checked q × AllValid rt checked qs

module _ (rt : Runtime) (checked : QuestionType → Bool) where
  abbrev pub IsValid : Tables → Type 0
  IsValid t = AllValid rt checked t.quiz_questions

  AllValid-append :
      (qs rs : List QuizQuestion)
      → AllValid rt checked qs
      → AllValid rt checked rs
      → AllValid rt checked (qs ++ rs)
  AllValid-append [] rs h g = g
  AllValid-append (q ∷ qs) rs h g = (h.0, AllValid-append qs rs h.1 g)

  AllValid-update_where :
      (p : QuizQuestion → Bool) (f : QuizQuestion → QuizQuestion) (qs : List QuizQuestion)
      → ((q : QuizQuestion) → Passes rt checked (f q))
      → AllValid rt checked qs
      → AllValid rt checked (update_where p f qs)
  AllValid-update_where p f [] k h = tt
  AllValid-update_where p f (q ∷ qs) k h = elim (Bool-cases (p q)) [
    | inl e ↦ rw e (k q, AllValid-update_where p f qs k h.1)
    | inr e ↦ rw e (h.0, AllValid-update_where p f qs k h.1)
  ]

  AllValid-delete_where :
      (p : QuizQuestion → Bool) (qs : List QuizQuestion)
      → AllValid rt checked qs
      → AllValid rt checked (delete_where p qs)
  AllValid-delete_where p [] h = tt
  AllValid-delete_where p (q ∷ qs) h = elim (Bool-cases (p q)) [
    | inl e ↦ rw e (AllValid-delete_where p qs h.1)
    | inr e ↦ rw e (h.0, AllValid-delete_where p qs h.1)
  ]

  -- a check, and what follows it where it succeeds
  pub Keeps-lift :
      {A B : Type 0} {f : A → M Tables B} (r : Result A)
      → ((a : A) → r ≡ ok a → Keeps IsValid (f a))
      → Keeps IsValid (lift r >>= f)
  Keeps-lift (ok a) k = k a refl
  Keeps-lift (err e) k = record { at = λ w p. p }

  pub Keeps-create_question :
      (env : Env) (q : QuizQuestion) → Passes rt checked q → Keeps IsValid (create_question env q)
  unfolding create_question
  Keeps-create_question env q v = Keeps-exec _ (λ t h. AllValid-append t.quiz_questions _ h (v, tt))

  pub Keeps-create_questions :
      (env : Env) (qs : List QuizQuestion)
      → AllValid rt checked qs
      → Keeps IsValid (create_questions env qs)
  unfolding create_questions
  Keeps-create_questions env [] v = IsReadOnly-Keeps (IsReadOnly-pure _)
  Keeps-create_questions env (q ∷ qs) v = Keeps-bind (Keeps-create_question env q v.0) λ row.
      Keeps-bind (Keeps-create_questions env qs v.1) λ rows. IsReadOnly-Keeps (IsReadOnly-pure _)

  pub Keeps-update_question_row :
      (env : Env) (q : QuizQuestion)
      → validate_stored rt q ≡ ok tt
      → Keeps IsValid (update_question_row env q)
  unfolding update_question_row
  Keeps-update_question_row env q v =
      Keeps-exec _
        (λ t h. AllValid-update_where (is_question q.id) _ t.quiz_questions (λ r. inr v) h)

  pub Keeps-delete_question_row : (id : ℕ) → Keeps IsValid (delete_question_row id)
  unfolding delete_question_row
  Keeps-delete_question_row id =
      Keeps-exec _ (λ t h. AllValid-delete_where (is_question id) t.quiz_questions h)

  pub Keeps-delete_quiz_row : (id : ℕ) → Keeps IsValid (delete_quiz_row id)
  unfolding delete_quiz_row
  Keeps-delete_quiz_row id =
      Keeps-exec _ (λ t h. AllValid-delete_where (in_quiz id) t.quiz_questions h)

  pub Keeps-update_quiz_row : (env : Env) (quiz : Quiz) → Keeps IsValid (update_quiz_row env quiz)
  unfolding update_quiz_row
  Keeps-update_quiz_row env quiz = Keeps-exec _ (λ t h. h)

  pub Keeps-create_quiz_row : (env : Env) (quiz : Quiz) → Keeps IsValid (create_quiz_row env quiz)
  unfolding create_quiz_row
  Keeps-create_quiz_row env quiz = Keeps-exec _ (λ t h. h)

  -- the questions of a batch that passes its checks
  after_check-ok :
      (r : Result (Unit {0})) (q : QuizQuestion) (rest : Result (List QuizQuestion))
      (qs : List QuizQuestion)
      → after_check r (cons_question q rest) ≡ ok qs
      → (r ≡ ok tt) × ((rs : List QuizQuestion) × (rest ≡ ok rs) × (q ∷ rs ≡ qs))
  after_check-ok (ok x) q (ok rs) qs h = (refl, (rs, refl, ground (arith, h)))
  after_check-ok (ok x) q (err e) qs h = ground arith
  after_check-ok (err e) q rest qs h = ground arith

  pub questions_from-AllValid :
      (quiz_id position : ℕ) (reqs : List AddQuestionRequest) (qs : List QuizQuestion)
      → questions_from rt quiz_id position reqs ≡ ok qs
      → AllValid rt checked qs
  unfolding questions_from
  questions_from-AllValid quiz_id position [] qs h =
      let e : [] ≡ qs = ground (arith, h) in subst (AllValid rt checked) e tt
  questions_from-AllValid quiz_id position (r ∷ rs) qs h =
      let (v, (rest, h', e)) =
        after_check-ok (validate_request rt r) (question_of quiz_id position r)
          (questions_from rt quiz_id (position + 1) rs) qs h in
      subst (AllValid rt checked) e
        ((inr v, questions_from-AllValid quiz_id (position + 1) rs rest h'))
