-- ===== src/Quiz/Attempts/Completed.antt =====
-- The life of an attempt over any sequence of requests to StartAttempt, SubmitAnswer and
-- CompleteAttempt of internal/service/quiz.go.
use mathlib.Core.Path.{subst}
use backend_quiz.Common.{
  ℕ, ◌≡◌, sym, ap, ◌∙◌, inl, inr, true, false, Option, none, some, List, [], ◌∷◌, arith, ◌==◌,
  Bool-cases, ==_iff, select_one, select_one_sound, update_where, if◌then◌else◌,
  select_one-update_where_ne, select_one-append,
}
use backend_quiz.Domain.{Error, Result, Result-cases}
use backend_quiz.Domain.Card.{Env, Time}
use backend_quiz.Domain.Quiz.{QuizQuestion, QuizAttempt, SubmitAnswerRequest}
use backend_quiz.Db.{World, idle}
use backend_quiz.Db.Rules.{Keeps, Keeps-exec}
use backend_quiz.Db.Compose.{
  bind-ok, map-ok, Keeps-bind, IsReadOnly-Keeps, IsReadOnly-pure, IsReadOnly-raise_if,
}
use backend_quiz.Repository.Tables.{Tables}
use backend_quiz.Repository.Attempts.{is_attempt, write_attempt, update_attempt, create_attempt}
use backend_quiz.Quiz.Grading.{Runtime, grade_answer}
use backend_quiz.Quiz.Attempts.{
  open_attempt_of, open_attempt, start_attempt, submit_answer, complete_attempt, completed,
  count_answer,
}
use backend_quiz.Quiz.Attempts.Atomic.{
  IsReadOnly-open_attempt_of, IsAtomic-start_attempt, IsAtomic-submit_answer,
  IsAtomic-complete_attempt, IsReadOnly-get_quiz, IsReadOnly-list_questions,
}
use backend_quiz.Study.Ended.{error_of, err_of_error}
use backend_quiz.Quiz.Attempts.Answering.{update_attempt-ok}
use backend_quiz.Quiz.Attempts.Once.{open_attempt_of-ok, submit_answer_effect}

-- a request to one of the methods that write
pub data AttemptRequest : Type 0 where
  start : Env → (List QuizQuestion → List QuizQuestion) → ℕ → ℕ → AttemptRequest
  answer : Env → ℕ → ℕ → SubmitAnswerRequest → AttemptRequest
  complete : Env → ℕ → ℕ → AttemptRequest

-- what it leaves behind, whether it returns an error or not
unfoldable pub handle : Runtime → AttemptRequest → World Tables → World Tables
handle rt (start env shuffle u k) w = (start_attempt env rt shuffle u k w).1
handle rt (answer env u k req) w = (submit_answer env rt u k req w).1
handle rt (complete env u k) w = (complete_attempt env u k w).1

unfoldable pub handle_all : Runtime → List AttemptRequest → World Tables → World Tables
handle_all rt [] w = w
handle_all rt (r ∷ rs) w = handle_all rt rs (handle rt r w)

ids_apart :
    (a b c : ℕ) → (a == b) ≡ true → (b == c) ≡ false → ((a == c) ≡ false) × ((a == c) ≡ false)
ids_apart a b c e f = ground arith

-- an attempt that is stored under an id is stored under its own
own_id :
    (id : ℕ) (a : QuizAttempt) (t : Tables)
    → select_one (is_attempt id) t.quiz_attempts ≡ some a
    → select_one (is_attempt a.id) t.quiz_attempts ≡ some a
own_id id a t stored =
    let e : a.id ≡ id =
      (==_iff a.id id).0 (select_one_sound (is_attempt id) t.quiz_attempts a stored) in
    subst (λ k. select_one (is_attempt k) t.quiz_attempts ≡ some a) (sym e) stored

module _ (rt : Runtime) (id : ℕ) (s : QuizAttempt) (end : Time)
    (ended : s.completed_at ≡ some end) where
  abbrev IsStored : Tables → Type 0
  IsStored t = select_one (is_attempt id) t.quiz_attempts ≡ some s

  completed_apart : (live : QuizAttempt) → some live ≡ some s → live.completed_at ≡ none → ⊥
  completed_apart live same open_ = ground arith

  -- an update of an attempt that is not completed is of another one
  update_other :
      (live new : QuizAttempt) (t t' : Tables)
      → select_one (is_attempt live.id) t.quiz_attempts ≡ some live
      → live.completed_at ≡ none
      → t'.quiz_attempts ≡ update_where (is_attempt live.id) (write_attempt new) t.quiz_attempts
      → IsStored t
      → IsStored t'
  update_other live new t t' stored not_completed rows h =
      let other : (live.id == id) ≡ false = elim (Bool-cases (live.id == id)) [
        | inl same ↦
            let e : live.id ≡ id = (==_iff live.id id).0 same in
            let both : some live ≡ some s =
              sym (subst (λ k. select_one (is_attempt k) t.quiz_attempts ≡ some live) e stored)
              ∙ h in
            absurd (completed_apart live both not_completed)
        | inr e ↦ e
      ] in
      ap (select_one (is_attempt id)) rows
      ∙ select_one-update_where_ne (is_attempt id) (is_attempt live.id) (write_attempt new)
          t.quiz_attempts (λ x e. ids_apart x.id live.id id e other)
      ∙ h

  answer-IsStored :
      (env : Env) (u k : ℕ) (req : SubmitAnswerRequest) (w : World Tables)
      → w.tx ≡ idle
      → IsStored w.tables
      → IsStored (submit_answer env rt u k req w).1.tables
  answer-IsStored env u k req w i h = elim (Result-cases (submit_answer env rt u k req w).0) [
    | inl (e, failed) ↦
        subst IsStored (sym ((IsAtomic-submit_answer env rt u k req).failed w e i failed)) h
    | inr (r, done) ↦
        let (live, question, e) = submit_answer_effect env rt u k req w r done in
        update_other live (count_answer req question (grade_answer rt question req.answer) live)
          w.tables (submit_answer env rt u k req w).1.tables
          (own_id k live w.tables e.stored_attempt) e.not_completed e.attempts h
  ]

  complete-IsStored :
      (env : Env) (u k : ℕ) (w : World Tables)
      → w.tx ≡ idle
      → IsStored w.tables
      → IsStored (complete_attempt env u k w).1.tables
  unfolding complete_attempt
  complete-IsStored env u k w i h = elim (Result-cases (complete_attempt env u k w).0) [
    | inl (e, failed) ↦
        subst IsStored (sym ((IsAtomic-complete_attempt env u k).failed w e i failed)) h
    | inr (r, done) ↦
        let (live, o, h1, e1) = bind-ok (open_attempt_of u k) _ w r done in
        let w1 = (open_attempt_of u k w).1 in
        let t1 = (IsReadOnly-open_attempt_of u k).tables w in
        let (stored, _, unended) = open_attempt_of-ok u k w live o in
        let new = completed env live in
        let (x, h2, _, e2) = map-ok (update_attempt new) _ w1 r h1 in
        update_other live new w.tables (complete_attempt env u k w).1.tables
          (own_id k live w.tables stored) unended
          (ap (λ (y : Result QuizAttempt × World Tables). y.1.tables.quiz_attempts) e1
            ∙ ap (λ (t : Tables). t.quiz_attempts) e2
            ∙ ap (λ (t : Tables). t.quiz_attempts) (update_attempt-ok new w1 x h2)
            ∙ ap
                (λ (t : Tables).
                  update_where (is_attempt live.id) (write_attempt new) t.quiz_attempts)
                t1)
          h
  ]

  Keeps-open_attempt :
      (env : Env) (u k : ℕ) (qs : List QuizQuestion) → Keeps IsStored (open_attempt env rt u k qs)
  unfolding open_attempt create_attempt
  Keeps-open_attempt env u k qs =
      Keeps-bind (Keeps-exec _ (λ t h. select_one-append (is_attempt id) t.quiz_attempts _ s h))
        λ attempt. IsReadOnly-Keeps (IsReadOnly-pure _)

  Keeps-start_attempt :
      (env : Env) (shuffle : List QuizQuestion → List QuizQuestion) (u k : ℕ)
      → Keeps IsStored (start_attempt env rt shuffle u k)
  unfolding start_attempt
  Keeps-start_attempt env shuffle u k =
      Keeps-bind (IsReadOnly-Keeps (IsReadOnly-get_quiz k)) λ quiz.
        Keeps-bind (IsReadOnly-Keeps (IsReadOnly-raise_if _ _)) λ x.
          Keeps-bind (IsReadOnly-Keeps (IsReadOnly-list_questions k))
            λ qs. Keeps-open_attempt env u k (if quiz.shuffle_questions then shuffle qs else qs)

  handle-idle : (r : AttemptRequest) (w : World Tables) → w.tx ≡ idle → (handle rt r w).tx ≡ idle
  unfolding handle
  handle-idle (start env f u k) w i = (IsAtomic-start_attempt env rt f u k).tx w i
  handle-idle (answer env u k req) w i = (IsAtomic-submit_answer env rt u k req).tx w i
  handle-idle (complete env u k) w i = (IsAtomic-complete_attempt env u k).tx w i

  handle-IsStored :
      (r : AttemptRequest) (w : World Tables)
      → w.tx ≡ idle
      → IsStored w.tables
      → IsStored (handle rt r w).tables
  unfolding handle
  handle-IsStored (start env f u k) w i h = (Keeps-start_attempt env f u k).at w h
  handle-IsStored (answer env u k req) w i h = answer-IsStored env u k req w i h
  handle-IsStored (complete env u k) w i h = complete-IsStored env u k w i h

-- Whatever sequence of requests follows, and whatever statements the server refuses, an attempt
-- that is completed keeps its time of completion, its score and every other column.
pub completed_attempt_frozen :
    (rt : Runtime) (id : ℕ) (s : QuizAttempt) (end : Time) (rs : List AttemptRequest)
    (w : World Tables)
    → s.completed_at ≡ some end
    → w.tx ≡ idle
    → select_one (is_attempt id) w.tables.quiz_attempts ≡ some s
    → select_one (is_attempt id) (handle_all rt rs w).tables.quiz_attempts ≡ some s
unfolding handle_all
completed_attempt_frozen rt id s end [] w ended i h = h
completed_attempt_frozen rt id s end (r ∷ rs) w ended i h =
    completed_attempt_frozen rt id s end rs (handle rt r w) ended
      (handle-idle rt id s end ended r w i) (handle-IsStored rt id s end ended r w i h)

-- the error that a request returns
unfoldable pub failure : Runtime → AttemptRequest → World Tables → Option Error
failure rt (start env f u k) w = error_of (start_attempt env rt f u k w).0
failure rt (answer env u k req) w = error_of (submit_answer env rt u k req w).0
failure rt (complete env u k) w = error_of (complete_attempt env u k w).0

-- A request on an attempt that returns an error, whatever statement the server has refused in it,
-- has changed no row: no answer without its points, no points without their answer.
pub failed_attempt_request_unchanged :
    (rt : Runtime) (r : AttemptRequest) (w : World Tables) (e : Error)
    → w.tx ≡ idle
    → failure rt r w ≡ some e
    → (handle rt r w).tables ≡ w.tables
unfolding failure handle
failed_attempt_request_unchanged rt (start env f u k) w e i h =
    (IsAtomic-start_attempt env rt f u k).failed w e i (err_of_error _ e h)
failed_attempt_request_unchanged rt (answer env u k req) w e i h =
    (IsAtomic-submit_answer env rt u k req).failed w e i (err_of_error _ e h)
failed_attempt_request_unchanged rt (complete env u k) w e i h =
    (IsAtomic-complete_attempt env u k).failed w e i (err_of_error _ e h)
