-- ===== src/Quiz/Linked.antt =====
-- applyFSRSFromQuiz of internal/service/quiz.go: the review of the card that a question is linked to.
use backend_quiz.Common.{ℕ, Bool, true, Option, none, some, or_default, if◌then◌else◌}
use backend_quiz.Common.{ℤ, pos, int8}
use backend_quiz.Domain.{ok, err}
use backend_quiz.Domain.Card.{
  Env, Card, ReviewLog, FsrsCardState, FsrsLogState, ReviewSource, rating_good, rating_again,
}
use backend_quiz.Domain.Quiz.{SubmitAnswerRequest, AnswerResult}
use backend_quiz.Db.{M, pure, lift}
use backend_quiz.Repository.Tables.{Tables}
use backend_quiz.Repository.Sessions.{create_review}
use backend_quiz.Repository.Cards.{get_card, update_fsrs}
use backend_quiz.Study.Fsrs.{apply_fsrs_card_state, validate_fsrs_state}

-- `if err := call(); err != nil { return }` in applyFSRSFromQuiz, which leaves the result as it is
unfoldable pub or_keep :
    {A : Type 0} → M Tables A → AnswerResult → (A → M Tables AnswerResult) → M Tables AnswerResult
or_keep m result f w = let (r, w') = m w in elim r [ ok a ↦ f a w' | err e ↦ pure result w' ]

-- the client's rating, or one that the grade gives
abbrev pub rating_of : SubmitAnswerRequest → Bool → ℤ
rating_of req correct = elim req.rating [
  | some r ↦ int8 r
  | none ↦ if correct then rating_good else rating_again
]

abbrev no_log : FsrsLogState
no_log = record {
  scheduled_days = pos 0;
  elapsed_days = pos 0;
  stability = pos 0;
  difficulty = pos 0;
}

-- the review log of applyFSRSFromQuiz
abbrev pub quiz_log : Env → ℕ → Card → SubmitAnswerRequest → Bool → ReviewLog
quiz_log env user_id card req correct =
    let log = or_default req.fsrs_log no_log in
    record {
      id = 0;
      card_id = card.id;
      user_id = user_id;
      rating = rating_of req correct;
      state = card.state;
      scheduled_days = log.scheduled_days;
      elapsed_days = log.elapsed_days;
      stability = log.stability;
      difficulty = log.difficulty;
      duration_ms = req.duration_ms;
      source = ReviewSource.quiz;
      reviewed_at = env.now;
    }

-- applyFSRSFromQuiz
unfoldable pub apply_fsrs_from_quiz :
    Env → ℕ → ℕ → FsrsCardState → SubmitAnswerRequest → AnswerResult → M Tables AnswerResult
unfolding or_keep apply_fsrs_card_state
apply_fsrs_from_quiz env user_id card_id state req result =
    or_keep (get_card card_id) result λ card.
      if card.is_suspended
      then pure result
      else (or_keep (lift (validate_fsrs_state env state)) result λ _.
          let updated = apply_fsrs_card_state card state in
          or_keep (update_fsrs env updated) result λ _.
            or_keep (create_review env (quiz_log env user_id card req result.is_correct)) result
              λ _. pure (record result { card_updated = true; next_due = some updated.due }))

-- `if question.CardID != nil && req.FSRSCard != nil`
unfoldable pub apply_linked :
    Env
    → ℕ
    → Option ℕ
    → Option FsrsCardState
    → SubmitAnswerRequest
    → AnswerResult
    → M Tables AnswerResult
unfolding apply_fsrs_from_quiz
apply_linked env user_id (some card_id) (some state) req result =
    apply_fsrs_from_quiz env user_id card_id state req result
apply_linked env user_id _ _ req result = pure result
