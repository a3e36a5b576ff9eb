-- ===== src/Checks/Quiz.antt =====
-- Examples of the theorems of `Quiz`.
use mathlib.Core.List.Permᴰ
use backend_quiz.Common.{
  ◌≡◌, ◌↔◌, ◌⊎◌, refl, Bool, true, false, none, inr, some, List, [], ◌∷◌, select_one, arith, length,
  select_where, ltb, if◌then◌else◌,
}
use backend_quiz.Common.{pos, int32, sub_ℕ}
use backend_quiz.Domain.{ok, err, already_answered, attempt_completed}
use backend_quiz.Domain.Card.{Env}
use backend_quiz.Domain.Quiz.{
  QuestionType, mcq, mixed, Quiz, McqOption, QuizQuestion, QuizAttempt, AnswerResult,
  StartAttemptResponse,
}
use backend_quiz.Db.{calm, exec, transact}
use backend_quiz.Repository.Sessions.{create_review}
use backend_quiz.Repository.Cards.{get_card, update_fsrs}
use backend_quiz.Repository.Quizzes.{
  get_quiz, get_question, list_questions, order_questions, is_quiz, in_quiz,
}
use backend_quiz.Repository.Attempts.{
  is_attempt, get_attempt_row, create_attempt, create_answer, get_answer, update_attempt,
}
use backend_quiz.Study.Fsrs.{validate_fsrs_state}
use backend_quiz.Quiz.Grading.{grade_answer, count_correct, check_mcq, validate_question_options}
use backend_quiz.Quiz.Grading.Answers.{Accepts, grade_answer_iff}
use backend_quiz.Quiz.Grading.Options.{IsMcq, validate_mcq_iff, valid_mcq_answerable}
use backend_quiz.Quiz.Attempts.{
  strip_from, sum_points, open_attempt, start_attempt, own_attempt, open_attempt_of, already_there,
  answer_body, submit_answer, complete_attempt,
}
use backend_quiz.Quiz.Linked.{apply_linked}
use backend_quiz.Quiz.Attempts.Answering.{Answered}
use backend_quiz.Quiz.Attempts.Once.{submit_answer_effect, submit_answer_once}
use backend_quiz.Quiz.Attempts.Started.{start_attempt_totals}
use backend_quiz.Quiz.Attempts.Stripped.{IsAlike, both, none_left, mcq_answers_hidden}
use backend_quiz.Quiz.Attempts.Completed.{
  handle, handle_all, failure, answer, complete, completed_attempt_frozen,
  failed_attempt_request_unchanged,
}
use backend_quiz.Quiz.Attempts.Duration.{complete_attempt_duration}
use backend_quiz.Quiz.Questions.Requests.{QuizRequest, add, remove, stored_questions_valid}
use backend_quiz.Quiz.Questions.Kept.{Generators}
use backend_quiz.Checks.Generation.{dice}
use backend_quiz.Checks.Ayat.{texts}
use backend_quiz.Quiz.Questions.Requests as Requests
use backend_quiz.Quiz.Questions.Valid.{AllValid}
use backend_quiz.Checks.Rows.{
  env, rt, rows, question_row_11, question_row_other, attempt_row_12, completed_row, answer_request,
  add_request,
}

grade_answer_iff_example :
    (grade_answer rt question_row_11 answer_request.answer ≡ true)
    ↔ Accepts rt mcq question_row_11 answer_request.answer
grade_answer_iff_example = grade_answer_iff rt question_row_11 answer_request.answer

validate_mcq_iff_example : (validate_question_options rt mcq (b'm' ∷ []) (b'a' ∷ []) ≡ ok tt) ↔ (
    (opts : List McqOption) × (rt.unmarshal_options (b'm' ∷ []) ≡ some opts)
    × IsMcq (b'a' ∷ []) opts)
validate_mcq_iff_example = validate_mcq_iff rt (b'm' ∷ []) (b'a' ∷ []) refl

valid_question : validate_question_options rt mcq (b'm' ∷ []) (b'a' ∷ []) ≡ ok tt
unfolding validate_question_options check_mcq count_correct
valid_question = refl

valid_mcq_answerable_example :
    (opts : List McqOption) × (rt.unmarshal_options (b'm' ∷ []) ≡ some opts)
    × (o : McqOption) × (o.is_correct ≡ true)
    × (grade_answer rt question_row_11 o.text ≡ true)
valid_mcq_answerable_example = valid_mcq_answerable rt question_row_11 refl refl valid_question

-- all types but multiple choice
abbrev not_mcq : QuestionType → Bool
not_mcq mcq = false
not_mcq kind = true

abbrev generators : Generators
generators = record {
  env = env;
  texts = texts;
  reader = record { scan_int = λ s. none; sort_cards = λ cs. cs };
  ilike = λ s q. false;
}

abbrev owner_requests : List QuizRequest
owner_requests =
    add env 1 10 add_request
    ∷ remove 1 10 11
    ∷ Requests.generate generators dice 1 10 2 mixed 5
    ∷ []

stored_questions_valid_example :
    AllValid rt not_mcq (Requests.handle_all rt owner_requests (calm rows)).tables.quiz_questions
stored_questions_valid_example =
    stored_questions_valid rt not_mcq owner_requests (calm rows) refl refl (refl, tt)
      (inr valid_question, tt)

answer_ok : (r : AnswerResult) × ((submit_answer env rt 1 12 answer_request (calm rows)).0 ≡ ok r)
unfolding submit_answer open_attempt_of own_attempt get_attempt_row get_question already_there
    get_answer answer_body create_answer update_attempt apply_linked get_card validate_fsrs_state
    update_fsrs create_review exec transact
answer_ok = (_, refl)

submit_answer_effect_example :
    (attempt : QuizAttempt) × (question : QuizQuestion) × Answered env rt 1 12 answer_request
      answer_ok.0 rows
      (submit_answer env rt 1 12 answer_request (calm rows)).1.tables
      attempt
      question
submit_answer_effect_example =
    submit_answer_effect env rt 1 12 answer_request (calm rows) answer_ok.0 answer_ok.1

submit_answer_once_example :
    submit_answer env rt 1 12 answer_request
      (calm (submit_answer env rt 1 12 answer_request (calm rows)).1.tables)
    ≡ (err already_answered, calm (submit_answer env rt 1 12 answer_request (calm rows)).1.tables)
submit_answer_once_example =
    submit_answer_once env env rt 1 12 answer_request answer_request (calm rows) answer_ok.0
      answer_ok.1 refl

completed_attempt_frozen_example :
    select_one
      (is_attempt 13)
      (handle_all rt
        (answer env 1 13 answer_request ∷ complete env 1 13 ∷ [])
        (calm rows)).tables.quiz_attempts
    ≡ some completed_row
completed_attempt_frozen_example =
    completed_attempt_frozen rt 13 completed_row 4500
      (answer env 1 13 answer_request ∷ complete env 1 13 ∷ []) (calm rows) refl refl refl

-- the attempt has been completed
refused_answer : failure rt (answer env 1 13 answer_request) (calm rows) ≡ some attempt_completed
unfolding failure submit_answer open_attempt_of own_attempt get_attempt_row exec
refused_answer = refl

failed_attempt_request_unchanged_example :
    (handle rt (answer env 1 13 answer_request) (calm rows)).tables ≡ rows
failed_attempt_request_unchanged_example =
    failed_attempt_request_unchanged rt (answer env 1 13 answer_request) (calm rows)
      attempt_completed refl refused_answer

-- 2 ^ 31 milliseconds after the attempt has started
abbrev later : Env
later = record env { now = 2147487648 }

complete_attempt_duration_example :
    (row : QuizAttempt) × (select_one
        (is_attempt 12)
        (complete_attempt later 1 12 (calm rows)).1.tables.quiz_attempts
      ≡ some row)
    × (row.duration_ms
        ≡ (if ltb 2147483648 2147483648 then pos 2147483648 else sub_ℕ 2147483648 4294967296))
complete_attempt_duration_example =
    complete_attempt_duration later 1 12 2147483648 attempt_row_12 rows refl refl refl refl
      (omega arith)

start_ok :
    (r : StartAttemptResponse) × ((start_attempt env rt (λ qs. qs) 2 10 (calm rows)).0 ≡ ok r)
unfolding start_attempt open_attempt get_quiz list_questions create_attempt exec
start_ok = (_, refl)

start_attempt_totals_example :
    let qs = order_questions (select_where (in_quiz 10) rows.quiz_questions) in
    (quiz : Quiz) × (select_one (is_quiz 10) rows.quizzes ≡ some quiz)
    × ((quiz.user_id ≡ 2) ⊎ (quiz.is_published ≡ true))
    × (start_ok.0.attempt.total_points ≡ int32 (sum_points (pos 0) qs))
    × (start_ok.0.attempt.total_questions ≡ int32 (pos (length qs)))
    × (length start_ok.0.questions ≡ length qs)
start_attempt_totals_example =
    start_attempt_totals env rt (λ qs. qs) 2 10 (calm rows) start_ok.0 Permᴰ.refl start_ok.1

alike : IsAlike rt question_row_11 question_row_other
alike = record {
  id = refl;
  quiz_id = refl;
  kind = (refl, refl);
  text = refl;
  points = refl;
  options_p = _;
  options_q = _;
  decoded_p = refl;
  decoded_q = refl;
  texts = refl;
}

mcq_answers_hidden_example :
    strip_from rt 0 (question_row_11 ∷ []) ≡ strip_from rt 0 (question_row_other ∷ [])
mcq_answers_hidden_example =
    mcq_answers_hidden rt 0 (question_row_11 ∷ []) (question_row_other ∷ []) refl
      (both alike none_left)
