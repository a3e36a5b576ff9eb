-- ===== src/Domain/Study.antt =====
-- internal/domain/study.go: study sessions; internal/dto/study.go: the requests of the study API;
-- of internal/domain/user.go the two limits that a study session reads.
use backend_quiz.Common.{ℕ, Option, List}
use backend_quiz.Common.{ℤ}
use backend_quiz.Domain.Card.{Time, Card, ReviewLog, FsrsCardState, FsrsLogState}

pub record StudySession : Type 0 where
  pub id : ℕ
  pub user_id : ℕ
  pub deck_id : Option ℕ
  pub started_at : Time
  pub ended_at : Option Time
  pub new_count : ℤ
  pub review_count : ℤ
  pub relearn_count : ℤ
  pub total_duration_ms : ℤ

pub record StudyUser : Type 0 where
  pub id : ℕ
  pub daily_new_limit : ℤ
  pub daily_review_limit : ℤ

pub record DueCounts : Type 0 where
  pub new : ℤ
  pub learning : ℤ
  pub review : ℤ
  pub total : ℤ

pub record StartSessionResponse : Type 0 where
  pub session : StudySession
  pub cards : List Card
  pub counts : DueCounts

-- SubmitReviewRequest
pub record SubmitReviewRequest : Type 0 where
  pub card_id : ℕ
  pub rating : ℤ
  pub duration_ms : ℤ
  pub card : FsrsCardState
  pub log : FsrsLogState

-- BatchReviewItem
pub record BatchReviewItem : Type 0 where
  pub card_id : ℕ
  pub rating : ℤ
  pub duration_ms : ℤ
  pub reviewed_at : Time
  pub card : FsrsCardState
  pub log : FsrsLogState

pub record ReviewResult : Type 0 where
  pub card : Card
  pub review_log : ReviewLog
  pub next_due : Time

pub record BatchReviewResult : Type 0 where
  pub processed : ℕ
  pub errors : ℕ
