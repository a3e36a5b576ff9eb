-- ===== src/Study/Ended.antt =====
-- The life of a study session over any sequence of requests to the methods of
-- internal/service/study.go.
use mathlib.Core.Path.{subst}
use backend_quiz.Common.{
  ℕ, ◌≡◌, sym, ap, ◌∙◌, inl, inr, true, false, Option, none, some, List, [], ◌∷◌, arith, ◌==◌,
  Bool-cases, ==_iff, select_one, update_where, select_one-update_where_ne, select_one-append,
}
use backend_quiz.Domain.{Error, Result, ok, err, Result-cases}
use backend_quiz.Domain.Card.{Env, Time}
use backend_quiz.Domain.Study.{StudySession, SubmitReviewRequest, BatchReviewItem}
use backend_quiz.Db.{World, exec, idle}
use backend_quiz.Db.Rules.{Keeps, Keeps-exec}
use backend_quiz.Db.Compose.{bind-ok, map-ok, Keeps-bind, IsReadOnly-Keeps, IsReadOnly-pure}
use backend_quiz.Repository.Tables.{Tables}
use backend_quiz.Repository.Sessions.{is_session, write_session, update_session, create_session}
use backend_quiz.Repository.Sessions.Laws.{IsReadOnly-get_user}
use backend_quiz.Repository.Cards.Laws.{IsReadOnly-get_due_cards}
use backend_quiz.Study.{
  open_session, start_session, submit_review, batch_review, end_session, add_increments, increment,
  no_increments,
}
use backend_quiz.Study.Atomic.{
  IsReadOnly-open_session, IsAtomic-start_session, IsAtomic-submit_review, IsAtomic-batch_review,
  IsAtomic-end_session,
}
use backend_quiz.Study.Reviews.{open_session-ok, submit_review_effect}
use backend_quiz.Study.Batch.{counted, batch_review_effect}
use backend_quiz.Study.Succeeds.{own_id}

-- a request to one of the methods that write
pub data StudyRequest : Type 0 where
  start : Env → ℕ → ℕ → StudyRequest
  review : Env → ℕ → ℕ → SubmitReviewRequest → StudyRequest
  batch : Env → ℕ → ℕ → List BatchReviewItem → StudyRequest
  finish : Env → ℕ → ℕ → StudyRequest

-- what it leaves behind, whether it returns an error or not
unfoldable pub handle : StudyRequest → World Tables → World Tables
handle (start env user_id deck_id) w = (start_session env user_id deck_id w).1
handle (review env user_id session_id req) w = (submit_review env user_id session_id req w).1
handle (batch env user_id session_id reviews) w = (batch_review env user_id session_id reviews w).1
handle (finish env user_id session_id) w = (end_session env user_id session_id w).1

unfoldable pub handle_all : List StudyRequest → World Tables → World Tables
handle_all [] w = w
handle_all (r ∷ rs) w = handle_all rs (handle r w)

ids_apart :
    (a b c : ℕ) → (a == b) ≡ true → (b == c) ≡ false → ((a == c) ≡ false) × ((a == c) ≡ false)
ids_apart a b c e f = ground arith

module _ (id : ℕ) (s : StudySession) (end : Time) (ended : s.ended_at ≡ some end) where
  abbrev IsStored : Tables → Type 0
  IsStored t = select_one (is_session id) t.study_sessions ≡ some s

  ended_apart : (live : StudySession) → some live ≡ some s → live.ended_at ≡ none → ⊥
  ended_apart live same unended = ground arith

  -- an update of a session that has not ended is of another one
  update_other :
      (live new : StudySession) (t t' : Tables)
      → select_one (is_session live.id) t.study_sessions ≡ some live
      → live.ended_at ≡ none
      → t'.study_sessions ≡ update_where (is_session live.id) (write_session new) t.study_sessions
      → IsStored t
      → IsStored t'
  update_other live new t t' stored not_ended rows h =
      let other : (live.id == id) ≡ false = elim (Bool-cases (live.id == id)) [
        | inl same ↦
            let e : live.id ≡ id = (==_iff live.id id).0 same in
            let both : some live ≡ some s =
              sym (subst (λ k. select_one (is_session k) t.study_sessions ≡ some live) e stored)
              ∙ h in
            absurd (ended_apart live both not_ended)
        | inr e ↦ e
      ] in
      ap (select_one (is_session id)) rows
      ∙ select_one-update_where_ne (is_session id) (is_session live.id) (write_session new)
          t.study_sessions (λ x e. ids_apart x.id live.id id e other)
      ∙ h

  -- An error leaves the rows alone, and success is one of the effects above.
  review-IsStored :
      (env : Env) (user_id session_id : ℕ) (req : SubmitReviewRequest) (w : World Tables)
      → w.tx ≡ idle
      → IsStored w.tables
      → IsStored (submit_review env user_id session_id req w).1.tables
  review-IsStored env user_id session_id req w i h =
      elim (Result-cases (submit_review env user_id session_id req w).0) [
        | inl (e, failed) ↦
            subst IsStored
              (sym ((IsAtomic-submit_review env user_id session_id req).failed w e i failed)) h
        | inr (r, done) ↦
            let (live, card, effect) = submit_review_effect env user_id session_id req w r done in
            update_other live
              (add_increments live (increment card.state req.duration_ms no_increments)) w.tables
              (submit_review env user_id session_id req w).1.tables
              (own_id session_id live w.tables effect.stored_session) effect.not_ended
              (ap (λ (t : Tables). t.study_sessions) effect.rows) h
      ]

  batch-IsStored :
      (env : Env) (user_id session_id : ℕ) (reviews : List BatchReviewItem) (w : World Tables)
      → w.tx ≡ idle
      → IsStored w.tables
      → IsStored (batch_review env user_id session_id reviews w).1.tables
  batch-IsStored env user_id session_id reviews w i h =
      elim (Result-cases (batch_review env user_id session_id reviews w).0) [
        | inl (e, failed) ↦
            subst IsStored
              (sym ((IsAtomic-batch_review env user_id session_id reviews).failed w e i failed)) h
        | inr (r, done) ↦
            let (live, outcomes, rows, stored, _, unended, _, batched) =
              batch_review_effect env user_id session_id reviews w r done in
            update_other live (counted env user_id reviews live outcomes) w.tables
              (batch_review env user_id session_id reviews w).1.tables
              (own_id session_id live w.tables stored) unended batched.counters h
      ]

  Keeps-start_session :
      (env : Env) (user_id deck_id : ℕ) → Keeps IsStored (start_session env user_id deck_id)
  unfolding start_session create_session
  Keeps-start_session env user_id deck_id =
      Keeps-bind (IsReadOnly-Keeps (IsReadOnly-get_user user_id)) λ user.
        Keeps-bind
          (IsReadOnly-Keeps
            (IsReadOnly-get_due_cards deck_id env.now user.daily_new_limit user.daily_review_limit))
          λ cards.
            Keeps-bind
              (Keeps-exec _ (λ t h. select_one-append (is_session id) t.study_sessions _ s h))
              λ session. IsReadOnly-Keeps (IsReadOnly-pure _)

  end_update :
      (live : StudySession) (w : World Tables) (x : Unit {0})
      → (update_session live w).0 ≡ ok x
      → (update_session live w).1.tables.study_sessions
        ≡ update_where (is_session live.id) (write_session live) w.tables.study_sessions
  unfolding update_session exec
  end_update live w x h = ground arith

  finish-IsStored :
      (env : Env) (user_id session_id : ℕ) (w : World Tables)
      → w.tx ≡ idle
      → IsStored w.tables
      → IsStored (end_session env user_id session_id w).1.tables
  unfolding end_session
  finish-IsStored env user_id session_id w i h =
      elim (Result-cases (end_session env user_id session_id w).0) [
        | inl (e, failed) ↦
            subst IsStored (sym ((IsAtomic-end_session env user_id session_id).failed w e i failed))
              h
        | inr (r, done) ↦
            let (live, o, h1, e1) = bind-ok (open_session user_id session_id) _ w r done in
            let w1 = (open_session user_id session_id w).1 in
            let t1 = (IsReadOnly-open_session user_id session_id).tables w in
            let (stored, _, unended) = open_session-ok user_id session_id w live o in
            let new = record live { ended_at = some env.now } in
            let (x, h2, _, e2) = map-ok (update_session new) _ w1 r h1 in
            update_other live new w.tables (end_session env user_id session_id w).1.tables
              (own_id session_id live w.tables stored) unended
              (ap (λ (y : Result StudySession × World Tables). y.1.tables.study_sessions) e1
                ∙ ap (λ (t : Tables). t.study_sessions) e2
                ∙ end_update new w1 x h2
                ∙ ap
                    (λ (t : Tables).
                      update_where (is_session live.id) (write_session new) t.study_sessions)
                    t1)
              h
      ]

  handle-idle : (r : StudyRequest) (w : World Tables) → w.tx ≡ idle → (handle r w).tx ≡ idle
  unfolding handle
  handle-idle (start env u d) w i = (IsAtomic-start_session env u d).tx w i
  handle-idle (review env u x req) w i = (IsAtomic-submit_review env u x req).tx w i
  handle-idle (batch env u x reviews) w i = (IsAtomic-batch_review env u x reviews).tx w i
  handle-idle (finish env u x) w i = (IsAtomic-end_session env u x).tx w i

  handle-IsStored :
      (r : StudyRequest) (w : World Tables)
      → w.tx ≡ idle
      → IsStored w.tables
      → IsStored (handle r w).tables
  unfolding handle
  handle-IsStored (start env u d) w i h = (Keeps-start_session env u d).at w h
  handle-IsStored (review env u x req) w i h = review-IsStored env u x req w i h
  handle-IsStored (batch env u x reviews) w i h = batch-IsStored env u x reviews w i h
  handle-IsStored (finish env u x) w i h = finish-IsStored env u x w i h

-- Whatever sequence of requests follows, and whatever statements the server refuses, a session
-- that has ended keeps its end, its counters and every other column.
pub ended_session_frozen :
    (id : ℕ) (s : StudySession) (end : Time) (rs : List StudyRequest) (w : World Tables)
    → s.ended_at ≡ some end
    → w.tx ≡ idle
    → select_one (is_session id) w.tables.study_sessions ≡ some s
    → select_one (is_session id) (handle_all rs w).tables.study_sessions ≡ some s
unfolding handle_all
ended_session_frozen id s end [] w ended i h = h
ended_session_frozen id s end (r ∷ rs) w ended i h =
    ended_session_frozen id s end rs (handle r w) ended (handle-idle id s end ended r w i)
      (handle-IsStored id s end ended r w i h)

abbrev pub error_of : {A : Type 0} → Result A → Option Error
error_of (ok a) = none
error_of (err e) = some e

-- the error that a request returns
unfoldable pub failure : StudyRequest → World Tables → Option Error
failure (start env u d) w = error_of (start_session env u d w).0
failure (review env u k req) w = error_of (submit_review env u k req w).0
failure (batch env u k reviews) w = error_of (batch_review env u k reviews w).0
failure (finish env u k) w = error_of (end_session env u k w).0

pub err_of_error : {A : Type 0} (r : Result A) (e : Error) → error_of r ≡ some e → r ≡ err e
err_of_error (ok a) e h = ground arith
err_of_error (err e') e h = ground arith

-- A request of the study API that returns an error, whatever statement the server has refused in
-- it, has changed no row: no review without its card, no counter without its review.
pub failed_study_request_unchanged :
    (r : StudyRequest) (w : World Tables) (e : Error)
    → w.tx ≡ idle
    → failure r w ≡ some e
    → (handle r w).tables ≡ w.tables
unfolding failure handle
failed_study_request_unchanged (start env u d) w e i h =
    (IsAtomic-start_session env u d).failed w e i (err_of_error _ e h)
failed_study_request_unchanged (review env u k req) w e i h =
    (IsAtomic-submit_review env u k req).failed w e i (err_of_error _ e h)
failed_study_request_unchanged (batch env u k reviews) w e i h =
    (IsAtomic-batch_review env u k reviews).failed w e i (err_of_error _ e h)
failed_study_request_unchanged (finish env u k) w e i h =
    (IsAtomic-end_session env u k).failed w e i (err_of_error _ e h)
