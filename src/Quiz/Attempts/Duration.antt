-- ===== src/Quiz/Attempts/Duration.antt =====
-- CompleteAttempt of internal/service/quiz.go with no statement refused, and the duration that it
-- stores through the int32 of internal/repository/quiz_attempt.go.
use backend_quiz.Common.{
  ℕ, ◌+◌, ◌<◌, ◌≡◌, ap, ◌∙◌, none, some, arith, ltb, if◌then◌else◌, Bool-cases, inl, inr, ==-refl,
  update_where, select_one,
}
use backend_quiz.Common.{pos, int32, sub_ℕ, int32_id, int32_wraps}
use backend_quiz.Domain.{Result, ok}
use backend_quiz.Domain.Card.{Env}
use backend_quiz.Domain.Quiz.{QuizAttempt}
use backend_quiz.Db.{World, exec, calm}
use backend_quiz.Repository.Tables.{Tables}
use backend_quiz.Repository.Attempts.{is_attempt, get_attempt_row, write_attempt, update_attempt}
use backend_quiz.Quiz.Attempts.{own_attempt, open_attempt_of, complete_attempt, completed}
use backend_quiz.Quiz.Attempts.Once.{select_one-update_where_own}

-- Where an attempt is stored, the user's, and not completed, and no statement is refused,
-- CompleteAttempt returns it with the time of the request and the milliseconds since its start,
-- and changes no row but the attempt's.
complete_attempt_succeeds :
    (env : Env) (user_id attempt_id : ℕ) (attempt : QuizAttempt) (t : Tables)
    → select_one (is_attempt attempt_id) t.quiz_attempts ≡ some attempt
    → attempt.user_id ≡ user_id
    → attempt.completed_at ≡ none
    → complete_attempt env user_id attempt_id (calm t) ≡ (
      ok (record attempt {
        completed_at = some env.now;
        duration_ms = sub_ℕ env.now attempt.started_at;
      }),
      calm (record t {
        quiz_attempts =
            update_where
              (is_attempt attempt.id)
              (write_attempt (completed env attempt))
              t.quiz_attempts;
      }),
    )
unfolding complete_attempt open_attempt_of own_attempt get_attempt_row update_attempt exec
complete_attempt_succeeds env user_id attempt_id attempt t stored owned live =
    simp (stored, owned, live, ==-refl)

elapsed : (now started d : ℕ) → now ≡ started + d → sub_ℕ now started ≡ pos d
elapsed now started d h = ground arith

stored_duration :
    (d : ℕ)
    → d < 4294967296
    → int32 (pos d) ≡ (if ltb d 2147483648 then pos d else sub_ℕ d 4294967296)
stored_duration d high = elim (Bool-cases (ltb d 2147483648)) [
  | inl e ↦ rw e (int32_id (pos d) (ground (arith, e)))
  | inr e ↦ rw e (int32_wraps d (ground (arith, e)) high)
]

-- Under the conditions of success, an attempt that is completed less than 2 ^ 32 milliseconds after
-- its start is stored with that duration where it is less than 2 ^ 31 milliseconds, and with the
-- negative duration that is 2 ^ 32 less otherwise.
pub complete_attempt_duration :
    (env : Env) (user_id attempt_id d : ℕ) (attempt : QuizAttempt) (t : Tables)
    → select_one (is_attempt attempt_id) t.quiz_attempts ≡ some attempt
    → attempt.user_id ≡ user_id
    → attempt.completed_at ≡ none
    → env.now ≡ attempt.started_at + d
    → d < 4294967296
    → (row : QuizAttempt) × (select_one
          (is_attempt attempt_id)
          (complete_attempt env user_id attempt_id (calm t)).1.tables.quiz_attempts
        ≡ some row)
      × (row.duration_ms ≡ (if ltb d 2147483648 then pos d else sub_ℕ d 4294967296))
complete_attempt_duration env user_id attempt_id d attempt t stored owned live since high =
    let done = complete_attempt_succeeds env user_id attempt_id attempt t stored owned live in
    let new = completed env attempt in
    (
      write_attempt new attempt,
      ap
            (λ (x : Result QuizAttempt × World Tables).
              select_one (is_attempt attempt_id) x.1.tables.quiz_attempts)
            done
          ∙ select_one-update_where_own attempt_id attempt new t.quiz_attempts stored,
      ap int32 (elapsed env.now attempt.started_at d since) ∙ stored_duration d high,
    )
