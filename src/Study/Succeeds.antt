-- ===== src/Study/Succeeds.antt =====
-- SubmitReview and EndSession of internal/service/study.go with no statement refused.
use backend_quiz.Common.{
  ℕ, ◌≡◌, refl, sym, false, none, some, ==-refl, select_one, update_where, select_one-update_where,
  select_one_sound, ==_iff,
}
use mathlib.Core.Path.{subst}
use backend_quiz.Domain.{ok}
use backend_quiz.Domain.Card.{Env, Card}
use backend_quiz.Domain.Study.{StudySession, SubmitReviewRequest}
use backend_quiz.Db.{exec, calm, transact}
use backend_quiz.Repository.Tables.{Tables}
use backend_quiz.Repository.Sessions.{
  get_session, is_session, write_session, update_session, create_review,
}
use backend_quiz.Repository.Cards.{get_card, is_card, update_fsrs}
use backend_quiz.Study.{
  own_session, open_session, submit_review, store_review, save_review, flashcard_log,
  add_increments, increment, no_increments, end_session,
}
use backend_quiz.Study.Fsrs.{validate_fsrs_state_complete, apply_fsrs_card_state, IsSane}
use backend_quiz.Study.Reviews.{after_review}

module _ (user_id session_id : ℕ) (session : StudySession) (t : Tables)
    (stored : select_one (is_session session_id) t.study_sessions ≡ some session)
    (owned : session.user_id ≡ user_id) where
  pub open_session-calm :
      session.ended_at ≡ none → open_session user_id session_id (calm t) ≡ (ok session, calm t)
  unfolding open_session own_session get_session exec
  open_session-calm live = rw (stored, owned, ==-refl, live)

-- a session that is stored under an id is stored under its own
pub own_id :
    (session_id : ℕ) (session : StudySession) (t : Tables)
    → select_one (is_session session_id) t.study_sessions ≡ some session
    → select_one (is_session session.id) t.study_sessions ≡ some session
own_id session_id session t stored =
    let e : session.id ≡ session_id =
      (==_iff session.id session_id).0
        (select_one_sound (is_session session_id) t.study_sessions session stored) in
    subst (λ k. select_one (is_session k) t.study_sessions ≡ some session) (sym e) stored

-- Where the session is stored, the user's, and has not ended, the card is stored and is not
-- suspended, the FSRS state is sane and no statement is refused, SubmitReview returns the card
-- with that state and the review's log, and leaves exactly the rows of `after_review`.
pub submit_review_succeeds :
    (env : Env) (user_id session_id : ℕ) (req : SubmitReviewRequest) (session : StudySession)
    (card : Card) (t : Tables)
    → select_one (is_session session_id) t.study_sessions ≡ some session
    → session.user_id ≡ user_id
    → session.ended_at ≡ none
    → select_one (is_card req.card_id) t.cards ≡ some card
    → card.is_suspended ≡ false
    → IsSane env req.card
    → submit_review env user_id session_id req (calm t) ≡ (
      ok (record {
        card = apply_fsrs_card_state card req.card;
        review_log = record (flashcard_log env user_id card req) { id = t.fresh_id };
        next_due = (apply_fsrs_card_state card req.card).due;
      }),
      calm (after_review env user_id req session card t),
    )
unfolding submit_review get_card exec store_review save_review transact update_fsrs create_review
    update_session
submit_review_succeeds env user_id session_id req session card t stored owned live found fit sane =
    rw (open_session-calm user_id session_id session t stored owned live) (
      simp (
        found,
        fit,
        validate_fsrs_state_complete env req.card sane,
        select_one-update_where (is_session session.id)
            (write_session
              (add_increments session (increment card.state req.duration_ms no_increments)))
            t.study_sessions session (λ x. refl) (own_id session_id session t stored),
      ))

-- Under the same conditions on the session, EndSession stores the time of the request as its end,
-- and changes no other column of a counter that fits it, and no other row.
pub end_session_succeeds :
    (env : Env) (user_id session_id : ℕ) (session : StudySession) (t : Tables)
    → select_one (is_session session_id) t.study_sessions ≡ some session
    → session.user_id ≡ user_id
    → session.ended_at ≡ none
    → let ended = record session { ended_at = some env.now } in
      end_session env user_id session_id (calm t) ≡ (
        ok ended,
        calm (record t {
          study_sessions =
              update_where (is_session session.id) (write_session ended) t.study_sessions;
        }),
      )
unfolding end_session update_session exec
end_session_succeeds env user_id session_id session t stored owned live =
    rw (open_session-calm user_id session_id session t stored owned live) (
      rw (
        select_one-update_where (is_session session.id)
          (write_session (record session { ended_at = some env.now })) t.study_sessions session
          (λ x. refl) (own_id session_id session t stored)))
