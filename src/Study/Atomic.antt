-- ===== src/Study/Atomic.antt =====
-- The methods of internal/service/study.go: which only read, and which are all or nothing when the
-- server refuses a statement.
use backend_quiz.Common.{ℕ, List, refl}
use backend_quiz.Domain.{Result, ok, err}
use backend_quiz.Domain.Card.{Env, Card}
use backend_quiz.Domain.Study.{StudySession, SubmitReviewRequest, BatchReviewItem}
use backend_quiz.Db.{lift}
use backend_quiz.Db.Rules.{IsReadOnly, IsAtomic, IsAtomic-transact}
use backend_quiz.Db.Compose.{
  IsReadOnly-pure, IsReadOnly-raise_if, IsReadOnly-bind, IsAtomic-bind, IsAtomic-map,
}
use backend_quiz.Repository.Tables.{Tables}
use backend_quiz.Repository.Sessions.Laws.{
  IsReadOnly-get_user, IsReadOnly-get_session, IsAtomic-create_session, IsAtomic-update_session,
}
use backend_quiz.Repository.Cards.Laws.{IsReadOnly-get_card, IsReadOnly-get_due_cards}
use backend_quiz.Study.{
  own_session, open_session, start_session, submit_review, batch_review, end_session, store_review,
  save_review,
}

pub IsReadOnly-lift : {A : Type 0} (r : Result A) → IsReadOnly {T = Tables} (lift r)
IsReadOnly-lift (ok a) = IsReadOnly-pure a
IsReadOnly-lift (err e) = record { tables = λ w. refl; tx = λ w i. i }

ruleset reads = (
  IsReadOnly-pure, IsReadOnly-raise_if, IsReadOnly-bind, IsReadOnly-get_user,
  IsReadOnly-get_session, IsReadOnly-get_card, IsReadOnly-get_due_cards, IsReadOnly-lift,
)

pub IsReadOnly-own_session : (user_id session_id : ℕ) → IsReadOnly (own_session user_id session_id)
unfolding own_session
IsReadOnly-own_session user_id session_id = search reads

pub IsReadOnly-open_session :
    (user_id session_id : ℕ) → IsReadOnly (open_session user_id session_id)
unfolding open_session
IsReadOnly-open_session user_id session_id = search (reads, IsReadOnly-own_session)

ruleset requests = (reads, IsReadOnly-open_session, IsAtomic-bind, IsAtomic-map)

pub IsAtomic-start_session :
    (env : Env) (user_id deck_id : ℕ) → IsAtomic (start_session env user_id deck_id)
unfolding start_session
IsAtomic-start_session env user_id deck_id = search (requests, IsAtomic-create_session) depth 8

IsAtomic-store_review :
    (env : Env) (user_id : ℕ) (req : SubmitReviewRequest) (session : StudySession) (card : Card)
    → IsAtomic (store_review env user_id req session card)
unfolding store_review save_review
IsAtomic-store_review env user_id req session card = search (requests, IsAtomic-transact) depth 8

pub IsAtomic-submit_review :
    (env : Env) (user_id session_id : ℕ) (req : SubmitReviewRequest)
    → IsAtomic (submit_review env user_id session_id req)
unfolding submit_review
IsAtomic-submit_review env user_id session_id req = search (requests, IsAtomic-store_review) depth 8

pub IsAtomic-batch_review :
    (env : Env) (user_id session_id : ℕ) (reviews : List BatchReviewItem)
    → IsAtomic (batch_review env user_id session_id reviews)
unfolding batch_review
IsAtomic-batch_review env user_id session_id reviews = search (requests, IsAtomic-transact) depth 8

pub IsAtomic-end_session :
    (env : Env) (user_id session_id : ℕ) → IsAtomic (end_session env user_id session_id)
unfolding end_session
IsAtomic-end_session env user_id session_id = search (requests, IsAtomic-update_session) depth 8
