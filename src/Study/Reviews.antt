-- ===== src/Study/Reviews.antt =====
-- The writes of SubmitReview of internal/service/study.go, whatever statements the server refuses.
use backend_quiz.Common.{
  ap, ◌∙◌, ℕ, ◌+◌, ◌≡◌, refl, sym, false, none, some, [], ◌∷◌, ◌++◌, arith, select_one,
  update_where,
}
use backend_quiz.Common.{int8, int16, int32}
use backend_quiz.Domain.{Result, ok, card_suspended}
use backend_quiz.Domain.Card.{Env, Card, FsrsCardState, ReviewLog, flashcard}
use backend_quiz.Domain.Study.{StudySession, SubmitReviewRequest, ReviewResult}
use backend_quiz.Db.{World, exec, ◌>>=◌, ◌>>◌, pure}
use backend_quiz.Db.Compose.{bind-ok, raise_if-ok, lift-ok, map-ok}
use backend_quiz.Db.Rules.{Ensures-transact}
use backend_quiz.Repository.Tables.{Tables}
use backend_quiz.Repository.Sessions.{
  get_session, is_session, write_session, review_row, update_session, create_review,
}
use backend_quiz.Repository.Cards.{get_card, is_card, write_fsrs, update_fsrs}
use backend_quiz.Study.{
  open_session, own_session, submit_review, store_review, save_review, flashcard_log,
  add_increments, increment, no_increments,
}
use backend_quiz.Study.Counters.{with_review, add_increments-increment}
use backend_quiz.Study.Atomic.{IsReadOnly-open_session}
use backend_quiz.Repository.Cards.Laws.{IsReadOnly-get_card, get_card-ok}
use backend_quiz.Study.Fsrs.{
  validate_fsrs_state, validate_fsrs_state_sound, apply_fsrs_card_state, IsSane,
}

-- A session that a request may change is the user's and has not ended.
pub open_session-ok :
    (user_id session_id : ℕ) (w : World Tables) (s : StudySession)
    → (open_session user_id session_id w).0 ≡ ok s
    → (select_one (is_session session_id) w.tables.study_sessions ≡ some s)
      × (s.user_id ≡ user_id)
      × (s.ended_at ≡ none)
unfolding open_session own_session get_session exec
open_session-ok user_id session_id w s h = ground arith

-- the rows after the three writes of a review
abbrev pub reviewed : Env → Card → ReviewLog → StudySession → Tables → Tables
reviewed env card log session t = record t {
  cards = update_where (is_card card.id) (write_fsrs env card) t.cards;
  review_logs = t.review_logs ++ review_row env t.fresh_id log ∷ [];
  study_sessions = update_where (is_session session.id) (write_session session) t.study_sessions;
  fresh_id = t.fresh_id + 1;
}

body-ok :
    (env : Env) (card : Card) (log : ReviewLog) (session : StudySession) (w : World Tables)
    (l : ReviewLog)
    → ((do update_fsrs env card; saved ← create_review env log; update_session session; pure saved)
        w).0
      ≡ ok l
    → ((do update_fsrs env card; saved ← create_review env log; update_session session; pure saved)
        w).1.tables
      ≡ reviewed env card log session w.tables
unfolding update_fsrs create_review update_session exec
body-ok env card log session w l h = ground arith

-- The three writes happen together.
save_review-ok :
    (env : Env) (card : Card) (log : ReviewLog) (session : StudySession) (w : World Tables)
    (l : ReviewLog)
    → (save_review env card log session w).0 ≡ ok l
    → (save_review env card log session w).1.tables ≡ reviewed env card log session w.tables
unfolding save_review
save_review-ok env card log session w l h =
    (Ensures-transact {P = λ t. t ≡ w.tables}
        {Q = λ _ t. t ≡ reviewed env card log session w.tables}
        (record {
          at = λ w' a p g.
              body-ok env card log session w' a g ∙ ap (reviewed env card log session) p;
        })).at
      w l refl h

module _ (env : Env) (user_id : ℕ) (req : SubmitReviewRequest) (session : StudySession)
    (card : Card) where
  -- the rows after a review of the card in the session
  abbrev pub after_review : Tables → Tables
  after_review =
      reviewed env (apply_fsrs_card_state card req.card) (flashcard_log env user_id card req)
        (add_increments session (increment card.state req.duration_ms no_increments))

  store_review-ok :
      (w : World Tables) (r : ReviewResult)
      → (store_review env user_id req session card w).0 ≡ ok r
      → (card.is_suspended ≡ false)
        × (validate_fsrs_state env req.card ≡ ok tt)
        × ((store_review env user_id req session card w).1.tables ≡ after_review w.tables)
  unfolding store_review
  store_review-ok w r h =
      let (fit, h1, e1) = raise_if-ok card.is_suspended card_suspended _ w r h in
      let (_, valid, h2, e2) = lift-ok (validate_fsrs_state env req.card) _ w r h1 in
      let (l, h3, _, e3) =
        map-ok (save_review env (apply_fsrs_card_state card req.card) _ _) _ w r h2 in
      (
        fit,
        valid,
        ap (λ (x : Result ReviewResult × World Tables). x.1.tables) (e1 ∙ e2)
            ∙ e3
            ∙ save_review-ok env (apply_fsrs_card_state card req.card) _ _ w l h3,
      )

-- the card with the state of a request
abbrev pub scheduled : Card → FsrsCardState → Card
scheduled card state = record card {
  due = state.due;
  stability = state.stability;
  difficulty = state.difficulty;
  elapsed_days = state.elapsed_days;
  scheduled_days = state.scheduled_days;
  reps = state.reps;
  lapses = state.lapses;
  state = int8 state.state;
  last_review = some state.last_review;
}

-- the stored log of a review
abbrev pub log_row : Env → ℕ → ℕ → Card → SubmitReviewRequest → ReviewLog
log_row env user_id id card req = record {
  id = id;
  card_id = card.id;
  user_id = user_id;
  rating = int16 (int8 req.rating);
  state = int16 card.state;
  scheduled_days = int32 req.log.scheduled_days;
  elapsed_days = int32 req.log.elapsed_days;
  stability = env.float32 req.log.stability;
  difficulty = env.float32 req.log.difficulty;
  duration_ms = int32 req.duration_ms;
  source = flashcard;
  reviewed_at = env.now;
}

-- what a successful review has found, checked and written
pub record ReviewEffect (env : Env) (user_id session_id : ℕ) (req : SubmitReviewRequest)
    (t t' : Tables) (session : StudySession) (card : Card) : Type 0 where
  pub stored_session : select_one (is_session session_id) t.study_sessions ≡ some session
  pub owned : session.user_id ≡ user_id
  pub not_ended : session.ended_at ≡ none
  pub stored_card : select_one (is_card req.card_id) t.cards ≡ some card
  pub not_suspended : card.is_suspended ≡ false
  pub sane : IsSane env req.card
  pub rows : t' ≡ after_review env user_id req session card t
  pub cards :
      t'.cards ≡ update_where (is_card card.id) (write_fsrs env (scheduled card req.card)) t.cards
  pub log : t'.review_logs ≡ t.review_logs ++ log_row env user_id t.fresh_id card req ∷ []
  pub counters :
      t'.study_sessions
      ≡ update_where
          (is_session session.id)
          (write_session (with_review card.state req.duration_ms session))
          t.study_sessions

-- A review that returns no error was made in a session of the user that is stored and has not
-- ended, on a stored card that is not suspended, with a sane FSRS state; it has written that state
-- to the card, one log with the card's state before, and the session's counters, by one more in the
-- one of that state and by the duration, and nothing else.
pub submit_review_effect :
    (env : Env) (user_id session_id : ℕ) (req : SubmitReviewRequest) (w : World Tables)
    (r : ReviewResult)
    → (submit_review env user_id session_id req w).0 ≡ ok r
    → (session : StudySession) × (card : Card) × ReviewEffect env user_id session_id req w.tables
        (submit_review env user_id session_id req w).1.tables
        session
        card
unfolding submit_review apply_fsrs_card_state
submit_review_effect env user_id session_id req w r h =
    let (session, o, h1, e1) = bind-ok (open_session user_id session_id) _ w r h in
    let w1 = (open_session user_id session_id w).1 in
    let t1 = (IsReadOnly-open_session user_id session_id).tables w in
    let (card, c, h2, e2) = bind-ok (get_card req.card_id) _ w1 r h1 in
    let w2 = (get_card req.card_id w1).1 in
    let t2 = (IsReadOnly-get_card req.card_id).tables w1 ∙ t1 in
    let (fit, valid, rows) = store_review-ok env user_id req session card w2 r h2 in
    let (stored, owned, live) = open_session-ok user_id session_id w session o in
    let all =
      ap (λ (x : Result ReviewResult × World Tables). x.1.tables) (e1 ∙ e2)
      ∙ rows
      ∙ ap (after_review env user_id req session card) t2 in
    (
      session,
      card,
      record {
        stored_session = stored;
        owned = owned;
        not_ended = live;
        stored_card =
            ap (λ (t : Tables). select_one (is_card req.card_id) t.cards) (sym t1)
            ∙ get_card-ok req.card_id w1 card c;
        not_suspended = fit;
        sane = validate_fsrs_state_sound env req.card valid;
        rows = all;
        cards = ap (λ (t : Tables). t.cards) all;
        log = ap (λ (t : Tables). t.review_logs) all;
        counters =
            ap (λ (t : Tables). t.study_sessions) all
            ∙ ap
                (λ s.
                  update_where (is_session session.id) (write_session s) w.tables.study_sessions)
                (add_increments-increment card.state req.duration_ms session);
      },
    )
