-- ===== src/Study/Fsrs.antt =====
-- applyFSRSCardState and validateFSRSState of internal/service/study.go, which the quiz service
-- uses too.
use backend_quiz.Common.{◌+◌, ◌*◌, ◌≤◌, ◌≡◌, ◌↔◌, ◌||◌, some, arith, ltb, if◌then◌else◌}
use backend_quiz.Common.{pos, ltb_ℤ, ◌≤ℤ◌, int8}
use backend_quiz.Domain.{invalid_input, Result, ok, err}
use backend_quiz.Domain.Card.{Env, Time, real, Card, FsrsCardState}

-- applyFSRSCardState
unfoldable pub apply_fsrs_card_state : Card → FsrsCardState → Card
apply_fsrs_card_state card state = record card {
  due = state.due;
  stability = state.stability;
  difficulty = state.difficulty;
  elapsed_days = state.elapsed_days;
  scheduled_days = state.scheduled_days;
  reps = state.reps;
  lapses = state.lapses;
  state = int8 state.state;
  last_review = some state.last_review;
}

-- time.Now().AddDate(0, 0, 36500)
abbrev pub max_due : Env → Time
max_due env = env.now + 36500 * 86400000

-- validateFSRSState
unfoldable pub validate_fsrs_state : Env → FsrsCardState → Result (Unit {0})
validate_fsrs_state env card =
    if ltb_ℤ card.state (pos 0) || ltb_ℤ (pos 3) card.state
    then err invalid_input
    else if ltb_ℤ card.stability (pos 0)
    then err invalid_input
    else if ltb_ℤ card.difficulty (pos 0) || ltb_ℤ (real 10) card.difficulty
    then err invalid_input
    else if ltb (max_due env) card.due
    then err invalid_input
    else ok tt

-- The FSRS state of a card that the program accepts.
pub record IsSane (env : Env) (card : FsrsCardState) : Type 0 where
  pub state_low : pos 0 ≤ℤ card.state
  pub state_high : card.state ≤ℤ pos 3
  pub stability : pos 0 ≤ℤ card.stability
  pub difficulty_low : pos 0 ≤ℤ card.difficulty
  pub difficulty_high : card.difficulty ≤ℤ real 10
  pub due : card.due ≤ max_due env

-- What is accepted is sane.
pub validate_fsrs_state_sound :
    (env : Env) (card : FsrsCardState) → validate_fsrs_state env card ≡ ok tt → IsSane env card
unfolding validate_fsrs_state
validate_fsrs_state_sound env card h = ground arith

-- What is sane is accepted.
pub validate_fsrs_state_complete :
    (env : Env) (card : FsrsCardState) → IsSane env card → validate_fsrs_state env card ≡ ok tt
unfolding validate_fsrs_state
validate_fsrs_state_complete env card h = ground arith

-- The FSRS state that a client sends is accepted exactly where its state is one of the four, its
-- stability is not negative, its difficulty is between 0 and 10, and it is due within 36500 days.
pub validate_fsrs_state_iff :
    (env : Env) (card : FsrsCardState) → (validate_fsrs_state env card ≡ ok tt) ↔ IsSane env card
validate_fsrs_state_iff env card =
    (validate_fsrs_state_sound env card, validate_fsrs_state_complete env card)
