-- ===== src/Study/Batch.antt =====
-- BatchReview of internal/service/study.go: its counters against the rows that it writes.
pub mod Items
pub mod Tallies
use backend_quiz.Common.{pos, ℤ, ◌+ℤ◌, eq_ℤ}
use backend_quiz.Common.{
  Option, ◌++◌, inl, inr, if◌then◌else◌, ℕ, suc, ◌+◌, ◌≡◌, refl, none, some, List, [], ◌∷◌, arith,
  length, length-append, select_one, update_where, sym, ◌∙◌, ap,
}
use backend_quiz.Domain.{Result, ok}
use backend_quiz.Domain.Card.{Env, Card, CardState, ReviewLog}
use backend_quiz.Domain.Study.{StudySession, BatchReviewItem, BatchReviewResult}
use backend_quiz.Db.{World, exec, pure, transact, ◌>>◌}
use backend_quiz.Db.Rules.{Ensures-transact}
use backend_quiz.Study.Atomic.{IsReadOnly-open_session}
use backend_quiz.Study.Reviews.{open_session-ok}
use backend_quiz.Db.Compose.{bind-ok, map-ok}
use mathlib.Core.Path.{subst, subst₂, ap₂}
use mathlib.Core.List.{append-nil, append_assoc}
use backend_quiz.Repository.Tables.{Tables}
use backend_quiz.Repository.Sessions.{create_review, is_session, write_session, update_session}
use backend_quiz.Repository.Cards.{get_card, update_fsrs}
use backend_quiz.Study.{
  review_item, review_items, Tally, no_tally, batch_body, batch_review, open_session,
  add_increments, Increments, increment, one_error, one_processed,
}
use Tallies.{reviewed, skipped, of_state, spent, Logged, RanSome, review_items-Ran, all_counted}

module _ (env : Env) (user_id : ℕ) (reviews : List BatchReviewItem) (session : StudySession) where
  -- the counters of the session after a batch
  abbrev pub counted : List (Option Card) → StudySession
  counted outcomes = record session {
    new_count = session.new_count +ℤ pos (of_state 0 outcomes);
    review_count = session.review_count +ℤ pos (of_state 1 outcomes + of_state 2 outcomes);
    relearn_count = session.relearn_count +ℤ pos (of_state 3 outcomes);
    total_duration_ms = session.total_duration_ms +ℤ spent (pos 0) reviews outcomes;
  }

  -- the rows after a batch: a log for each review that was stored, and their sums in the session
  pub record Batched (t t' : Tables) (outcomes : List (Option Card)) (rows : List ReviewLog)
      : Type 0 where
    pub all : reviewed outcomes + skipped outcomes ≡ length reviews
    pub logs : t'.review_logs ≡ t.review_logs ++ rows
    pub logged : Logged user_id reviews outcomes rows
    pub counters :
        t'.study_sessions
        ≡ update_where (is_session session.id) (write_session (counted outcomes)) t.study_sessions

  abbrev BatchedSome : Tables → Tables → Tally → Type 0
  BatchedSome t t' n =
      (outcomes : List (Option Card)) × (rows : List ReviewLog) × (n.processed ≡ reviewed outcomes)
      × (n.errors ≡ skipped outcomes)
      × Batched t t' outcomes rows

  -- the end of the transaction: the counters of the session, and the result of the loop
  count_batch-ok :
      (m n : Tally) (w : World Tables)
      → ((update_session (add_increments session m.increments) >> pure m) w).0 ≡ ok n
      → (n ≡ m)
        × (((update_session (add_increments session m.increments) >> pure m) w).1.tables
            ≡ record w.tables {
              study_sessions =
                  update_where
                    (is_session session.id)
                    (write_session (add_increments session m.increments))
                    w.tables.study_sessions;
            })
  unfolding update_session exec
  count_batch-ok m n w h = ground arith

  counted-of :
      (i : Increments) (outcomes : List (Option Card))
      → i.new_inc ≡ pos (of_state 0 outcomes)
      → i.review_inc ≡ pos (of_state 1 outcomes + of_state 2 outcomes)
      → i.relearn_inc ≡ pos (of_state 3 outcomes)
      → i.duration ≡ spent (pos 0) reviews outcomes
      → add_increments session i ≡ counted outcomes
  counted-of i outcomes h0 h1 h2 h3 = rw (h0, h1, h2, h3) refl

  Batched-of :
      (t t1 t2 : Tables) (m : Tally)
      → RanSome user_id reviews no_tally m t t1
      → t2 ≡ record t1 {
        study_sessions =
            update_where
              (is_session session.id)
              (write_session (add_increments session m.increments))
              t1.study_sessions;
      }
      → BatchedSome t t2 m
  Batched-of t t1 t2 m (outcomes, rows, c) e =
      let sums =
        counted-of m.increments outcomes (c.fresh 0 refl ∙ ap pos (omega arith))
          (c.repeated 0 refl ∙ ap pos (omega arith)) (c.relearned 0 refl ∙ ap pos (omega arith))
          c.time in
      (
        outcomes,
        rows,
        omega (arith, c.processed),
        omega (arith, c.errors),
        record {
          all = all_counted user_id reviews outcomes rows c.logged;
          logs = ap (λ (x : Tables). x.review_logs) e ∙ c.logs;
          logged = c.logged;
          counters =
              ap (λ (x : Tables). x.study_sessions) e
              ∙ ap (λ s. update_where (is_session session.id) (write_session s) t1.study_sessions)
                  sums
              ∙ ap (update_where (is_session session.id) (write_session (counted outcomes)))
                  c.sessions;
        },
      )

  batch_body-ok :
      (w : World Tables) (n : Tally)
      → (batch_body env user_id reviews session w).0 ≡ ok n
      → BatchedSome w.tables (batch_body env user_id reviews session w).1.tables n
  unfolding batch_body
  batch_body-ok w n h =
      let (m, h1, h2, e) = bind-ok (review_items env user_id reviews no_tally) _ w n h in
      let w1 = (review_items env user_id reviews no_tally w).1 in
      let (same, rows) = count_batch-ok m n w1 h2 in
      subst (λ k. BatchedSome w.tables (batch_body env user_id reviews session w).1.tables k)
        (sym same)
        (Batched-of w.tables w1.tables _ m (review_items-Ran env user_id reviews no_tally m w h1)
          (ap (λ (x : Result Tally × World Tables). x.1.tables) e ∙ rows))

pub batch_review_effect :
    (env : Env) (user_id session_id : ℕ) (reviews : List BatchReviewItem) (w : World Tables)
    (r : BatchReviewResult)
    → (batch_review env user_id session_id reviews w).0 ≡ ok r
    → (session : StudySession) × (outcomes : List (Option Card)) × (rows : List ReviewLog)
      × (select_one (is_session session_id) w.tables.study_sessions ≡ some session)
      × (session.user_id ≡ user_id)
      × (session.ended_at ≡ none)
      × (r ≡ record { processed = reviewed outcomes; errors = skipped outcomes })
      × Batched env user_id reviews session w.tables
          (batch_review env user_id session_id reviews w).1.tables
          outcomes
          rows
unfolding batch_review
batch_review_effect env user_id session_id reviews w r h =
    let (session, o, h1, e1) = bind-ok (open_session user_id session_id) _ w r h in
    let w1 = (open_session user_id session_id w).1 in
    let t1 = (IsReadOnly-open_session user_id session_id).tables w in
    let (n, h2, result, e2) =
      map-ok (transact (batch_body env user_id reviews session)) _ w1 r h1 in
    let (stored, owned, live) = open_session-ok user_id session_id w session o in
    let (outcomes, rows, processed, errors, done) =
      (Ensures-transact {P = λ t. t ≡ w1.tables}
          {Q = λ n t. BatchedSome env user_id reviews session w1.tables t n}
          (record {
            at = λ v m p g.
                subst
                  (λ t.
                    BatchedSome env user_id reviews session t
                      (batch_body env user_id reviews session v).1.tables m)
                  p (batch_body-ok env user_id reviews session v m g);
          })).at
        w1 n refl h2 in
    (
      session,
      outcomes,
      rows,
      stored,
      owned,
      live,
      result ∙ ap₂ (λ p q. record { processed = p; errors = q }) processed errors,
      subst₂ (λ t t'. Batched env user_id reviews session t t' outcomes rows) t1
          (sym (ap (λ (x : Result BatchReviewResult × World Tables). x.1.tables) e1 ∙ e2)) done,
    )
