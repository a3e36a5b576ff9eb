-- ===== src/Repository/Sessions.antt =====
-- internal/repository/study_session.go and db/queries/study_sessions.sql; review.go's Create; the
-- read of a user's limits of user.go.
pub mod Laws
use backend_quiz.Common.{
  ℕ, suc, ◌+◌, Bool, true, false, Option, none, some, List, [], ◌∷◌, ◌++◌, ◌==◌, select_one,
  update_where,
}
use backend_quiz.Common.{ℤ, pos, int8, int16, int32}
use backend_quiz.Domain.{Error, database, Result}
use backend_quiz.Domain.Card.{Env, ReviewLog}
use backend_quiz.Domain.Study.{StudySession, StudyUser}
use backend_quiz.Db.{World, M, pure, raise, exec, query, ◌>>=◌}
use backend_quiz.Repository.Tables.{Tables, or_not_found}

-- UserRepository.GetByID
unfoldable pub get_user : ℕ → M Tables StudyUser
get_user id = do row ← query (λ t. select_one (λ u. u.id == id) t.users); or_not_found row

-- the row that CreateStudySession inserts and returns
abbrev pub new_session : Env → ℕ → ℕ → Option ℕ → StudySession
new_session env id user_id deck_id = record {
  id = id;
  user_id = user_id;
  deck_id = deck_id;
  started_at = env.now;
  ended_at = none;
  new_count = pos 0;
  review_count = pos 0;
  relearn_count = pos 0;
  total_duration_ms = pos 0;
}

-- StudySessionRepository.Create
unfoldable pub create_session : Env → ℕ → Option ℕ → M Tables StudySession
create_session env user_id deck_id = exec λ t.
    let row = new_session env t.fresh_id user_id deck_id in
    (row, record t { study_sessions = t.study_sessions ++ row ∷ []; fresh_id = t.fresh_id + 1 })

-- StudySessionRepository.GetByID
unfoldable pub get_session : ℕ → M Tables StudySession
get_session id = do
  row ← query (λ t. select_one (λ s. s.id == id) t.study_sessions)
  or_not_found row

-- COALESCE(ended_at, …): an end that is not given leaves the column alone
abbrev pub coalesce : {A : Type 0} → Option A → Option A → Option A
coalesce none old = old
coalesce (some a) old = some a

-- the columns that UpdateStudySession writes
abbrev pub write_session : StudySession → StudySession → StudySession
write_session session row = record row {
  ended_at = coalesce session.ended_at row.ended_at;
  new_count = int32 session.new_count;
  review_count = int32 session.review_count;
  relearn_count = int32 session.relearn_count;
  total_duration_ms = int32 session.total_duration_ms;
}

abbrev pub is_session : ℕ → StudySession → Bool
is_session id row = row.id == id

-- UPDATE … RETURNING finds no row where there is none to update: pgx.ErrNoRows, passed on as it is
abbrev pub or_no_rows : Option StudySession → M Tables (Unit {0})
or_no_rows none = raise database
or_no_rows (some row) = pure tt

-- StudySessionRepository.Update
unfoldable pub update_session : StudySession → M Tables (Unit {0})
update_session session = do
  row ← exec λ t.
      let rows = update_where (is_session session.id) (write_session session) t.study_sessions in
      (select_one (is_session session.id) rows, record t { study_sessions = rows })
  or_no_rows row

-- the columns that CreateReviewLog inserts
abbrev pub review_row : Env → ℕ → ReviewLog → ReviewLog
review_row env id log = record log {
  id = id;
  rating = int16 log.rating;
  state = int16 log.state;
  scheduled_days = int32 log.scheduled_days;
  elapsed_days = int32 log.elapsed_days;
  stability = env.float32 log.stability;
  difficulty = env.float32 log.difficulty;
  duration_ms = int32 log.duration_ms;
}

-- ReviewRepository.Create, which writes the new id into the caller's log
unfoldable pub create_review : Env → ReviewLog → M Tables ReviewLog
create_review env log = exec λ t. (
  record log { id = t.fresh_id },
  record t {
    review_logs = t.review_logs ++ review_row env t.fresh_id log ∷ [];
    fresh_id = t.fresh_id + 1;
  },
)
