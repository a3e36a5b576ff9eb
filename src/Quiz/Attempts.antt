-- ===== src/Quiz/Attempts.antt =====
-- internal/service/quiz.go, the attempts at a quiz: StartAttempt, SubmitAnswer, CompleteAttempt,
-- and GetAttempt. `rng.Shuffle` is the argument `shuffle`.
pub mod Atomic
pub mod Answering
pub mod Once
pub mod Started
pub mod Stripped
pub mod Completed
pub mod Duration
use backend_quiz.Common.{
  ℕ, suc, ◌+◌, ◌-◌, ◌*◌, ◌/◌, Bool, true, false, not, ◌&&◌, Option, none, some, List, [], ◌∷◌, ◌==◌,
  is_some, or_default, if◌then◌else◌, length, map,
}
use backend_quiz.Common.{ℤ, pos, ◌+ℤ◌, int8, sub_ℕ}
use backend_quiz.Common.Text.{Text}
use backend_quiz.Domain.{
  Error, forbidden, quiz_not_published, attempt_completed, question_not_in_quiz, already_answered,
  Result, ok, err,
}
use backend_quiz.Domain.Card.{
  Env, Card, ReviewLog, FsrsCardState, FsrsLogState, ReviewSource, rating_good, rating_again,
}
use backend_quiz.Domain.Quiz.{
  Quiz, QuestionType, mcq, is_mcq, McqOption, QuizQuestion, QuizAttempt, QuizAnswer,
  SubmitAnswerRequest, AnswerResult, QuestionForAttempt, StartAttemptResponse,
}
use backend_quiz.Db.{World, M, pure, raise, lift, ◌>>=◌, ◌>>◌, raise_if, transact}
use backend_quiz.Repository.Tables.{Tables}
use backend_quiz.Repository.Sessions.{create_review}
use backend_quiz.Repository.Cards.{get_card, update_fsrs}
use backend_quiz.Repository.Quizzes.{get_quiz, list_questions, get_question}
use backend_quiz.Repository.Attempts.{
  create_attempt, get_attempt_row, update_attempt, create_answer, get_answer, list_answers,
}
use backend_quiz.Quiz.Linked.{apply_linked}
use backend_quiz.Study.Fsrs.{apply_fsrs_card_state, validate_fsrs_state}
use backend_quiz.Quiz.Grading.{Runtime, grade_answer, is_empty}

-- the texts of the options, which are all that safeOption has
abbrev option_texts : List McqOption → List Text
option_texts os = map (λ (o : McqOption). o.text) os

-- opts, where it decodes
abbrev strip_decoded : Runtime → Text → Option (List McqOption) → Text
strip_decoded rt options none = options
strip_decoded rt options (some os) = rt.marshal_texts (option_texts os)

-- the options that the taker sees
unfoldable pub strip_options : Runtime → QuizQuestion → Text
strip_options rt q =
    if is_mcq q.question_type && not (is_empty q.options)
    then strip_decoded rt q.options (rt.unmarshal_options q.options)
    else q.options

-- one round of the loop that strips the questions, with its index
unfoldable pub strip_question : Runtime → ℕ → QuizQuestion → QuestionForAttempt
unfolding strip_options
strip_question rt i q = record {
  id = q.id;
  quiz_id = q.quiz_id;
  question_type = q.question_type;
  question_text = q.question_text;
  options = strip_options rt q;
  position = pos i;
  points = q.points;
}

unfoldable pub strip_from : Runtime → ℕ → List QuizQuestion → List QuestionForAttempt
unfolding strip_question
strip_from rt i [] = []
strip_from rt i (q ∷ qs) = strip_question rt i q ∷ strip_from rt (i + 1) qs

-- totalPoints
unfoldable pub sum_points : ℤ → List QuizQuestion → ℤ
sum_points total [] = total
sum_points total (q ∷ qs) = sum_points (total +ℤ q.points) qs

-- StartAttempt, once the order of the questions is fixed
unfoldable pub open_attempt :
    Env → Runtime → ℕ → ℕ → List QuizQuestion → M Tables StartAttemptResponse
unfolding strip_from sum_points
open_attempt env rt user_id quiz_id questions = do
  attempt ←
      create_attempt env quiz_id user_id (sum_points (pos 0) questions) (pos (length questions))
  pure (record { attempt = attempt; questions = strip_from rt 0 questions })

-- StartAttempt
unfoldable pub start_attempt :
    Env → Runtime → (List QuizQuestion → List QuizQuestion) → ℕ → ℕ → M Tables StartAttemptResponse
unfolding open_attempt
start_attempt env rt shuffle user_id quiz_id = do
  quiz ← get_quiz quiz_id
  raise_if (not (quiz.user_id == user_id) && not quiz.is_published) quiz_not_published
  questions ← list_questions quiz_id
  open_attempt env rt user_id quiz_id
      (if quiz.shuffle_questions then shuffle questions else questions)

-- the attempt of a request that reads it: the user's
unfoldable pub own_attempt : ℕ → ℕ → M Tables QuizAttempt
own_attempt user_id attempt_id = do
  attempt ← get_attempt_row attempt_id
  raise_if (not (attempt.user_id == user_id)) forbidden
  pure attempt

-- the attempt of a request that changes it: the user's, and not completed
unfoldable pub open_attempt_of : ℕ → ℕ → M Tables QuizAttempt
unfolding own_attempt
open_attempt_of user_id attempt_id = do
  attempt ← own_attempt user_id attempt_id
  raise_if (is_some attempt.completed_at) attempt_completed
  pure attempt

-- `if err == nil && existing != nil`: an error of the read counts as no answer
unfoldable pub already_there : ℕ → ℕ → M Tables Bool
already_there attempt_id question_id w =
    let (r, w') = get_answer attempt_id question_id w in
    (ok (elim r [ ok a ↦ true | err e ↦ false ]), w')

-- the answer that is stored
abbrev pub answer_of : ℕ → SubmitAnswerRequest → QuizQuestion → Bool → QuizAnswer
answer_of attempt_id req question correct = record {
  id = 0;
  attempt_id = attempt_id;
  question_id = req.question_id;
  user_answer = req.answer;
  is_correct = correct;
  points_earned = if correct then question.points else pos 0;
  duration_ms = req.duration_ms;
  answered_at = 0;
}

-- the counters of the attempt after the answer
abbrev pub count_answer : SubmitAnswerRequest → QuizQuestion → Bool → QuizAttempt → QuizAttempt
count_answer req question correct attempt = record attempt {
  score = attempt.score +ℤ (if correct then question.points else pos 0);
  duration_ms = attempt.duration_ms +ℤ req.duration_ms;
  correct_count = if correct then attempt.correct_count +ℤ pos 1 else attempt.correct_count;
}

-- the result before the transaction, with the answer as it was stored
abbrev pub result_of : QuizAnswer → QuizQuestion → Bool → AnswerResult
result_of answer question correct = record {
  answer = answer;
  is_correct = correct;
  explanation = question.explanation;
  correct_answer = question.correct_answer;
  card_updated = false;
  next_due = none;
}

-- the transaction of SubmitAnswer
unfoldable pub answer_body :
    Env → ℕ → ℕ → SubmitAnswerRequest → QuizQuestion → Bool → QuizAttempt → M Tables AnswerResult
unfolding apply_linked
answer_body env user_id attempt_id req question correct attempt = do
  answer ← create_answer env (answer_of attempt_id req question correct)
  update_attempt (count_answer req question correct attempt)
  apply_linked env user_id question.card_id req.fsrs_card req (result_of answer question correct)

-- SubmitAnswer
unfoldable pub submit_answer : Env → Runtime → ℕ → ℕ → SubmitAnswerRequest → M Tables AnswerResult
unfolding open_attempt_of already_there answer_body
submit_answer env rt user_id attempt_id req = do
  attempt ← open_attempt_of user_id attempt_id
  question ← get_question req.question_id
  raise_if (not (question.quiz_id == attempt.quiz_id)) question_not_in_quiz
  there ← already_there attempt_id req.question_id
  raise_if there already_answered
  transact (
      answer_body env user_id attempt_id req question (grade_answer rt question req.answer) attempt)

-- the attempt that CompleteAttempt writes
abbrev pub completed : Env → QuizAttempt → QuizAttempt
completed env attempt = record attempt {
  completed_at = some env.now;
  duration_ms = sub_ℕ env.now attempt.started_at;
}

-- CompleteAttempt
unfoldable pub complete_attempt : Env → ℕ → ℕ → M Tables QuizAttempt
unfolding open_attempt_of
complete_attempt env user_id attempt_id = do
  attempt ← open_attempt_of user_id attempt_id
  update_attempt (completed env attempt)
  pure (completed env attempt)

-- the loop of GetAttempt: each answer with its question
pub answer_details : List QuizAnswer → M Tables (List (QuizAnswer × QuizQuestion))
answer_details [] = pure []
answer_details (a ∷ rest) = do
  question ← get_question a.question_id
  details ← answer_details rest
  pure ((a, question) ∷ details)

-- GetAttempt
pub get_attempt : ℕ → ℕ → M Tables (QuizAttempt × List (QuizAnswer × QuizQuestion))
unfolding own_attempt answer_details
get_attempt user_id attempt_id = do
  attempt ← own_attempt user_id attempt_id
  answers ← list_answers attempt_id
  details ← answer_details answers
  pure (attempt, details)
