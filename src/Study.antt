-- ===== src/Study.antt =====
-- internal/service/study.go: the study sessions of a user and the reviews in them. `env` holds the
-- one reading of the clock that the model makes in a request.
pub mod Fsrs
pub mod Atomic
pub mod Counters
pub mod Reviews
pub mod Batch
pub mod Ended
pub mod Succeeds
use backend_quiz.Common.{
  ℕ, suc, ◌+◌, ◌*◌, Bool, true, false, not, Option, none, some, List, [], ◌∷◌, ◌==◌, is_some,
  if◌then◌else◌, length,
}
use backend_quiz.Common.{ℤ, pos, ◌+ℤ◌, int8, eq_ℤ}
use backend_quiz.Domain.{Error, forbidden, session_ended, card_suspended, Result, ok, err}
use backend_quiz.Domain.Card.{
  Env, Card, CardState, card_state_new, card_state_learning, card_state_review,
  card_state_relearning, ReviewLog, flashcard,
}
use backend_quiz.Domain.Study.{
  StudySession, DueCounts, StartSessionResponse, SubmitReviewRequest, BatchReviewItem, ReviewResult,
  BatchReviewResult,
}
use backend_quiz.Db.{lift, World, M, pure, raise, ◌>>=◌, ◌>>◌, raise_if, transact}
use backend_quiz.Repository.Tables.{Tables}
use backend_quiz.Repository.Sessions.{
  get_user, create_session, get_session, update_session, create_review,
}
use backend_quiz.Repository.Cards.{get_card, update_fsrs, get_due_cards}
use Fsrs.{apply_fsrs_card_state, validate_fsrs_state}

-- one round of the loop of countCards
abbrev pub count_card : Card → DueCounts → DueCounts
count_card c counts =
    if eq_ℤ c.state card_state_new
    then record counts { new = counts.new +ℤ pos 1 }
    else if eq_ℤ c.state card_state_learning
    then record counts { learning = counts.learning +ℤ pos 1 }
    else if eq_ℤ c.state card_state_relearning
    then record counts { learning = counts.learning +ℤ pos 1 }
    else if eq_ℤ c.state card_state_review
    then record counts { review = counts.review +ℤ pos 1 }
    else counts

unfoldable pub count_from : DueCounts → List Card → DueCounts
count_from counts [] = counts
count_from counts (c ∷ cs) = count_from (count_card c counts) cs

abbrev no_counts : DueCounts
no_counts = record { new = pos 0; learning = pos 0; review = pos 0; total = pos 0 }

-- countCards
unfoldable pub count_cards : List Card → DueCounts
unfolding count_from
count_cards cards = record (count_from no_counts cards) { total = pos (length cards) }

-- StartSession
unfoldable pub start_session : Env → ℕ → ℕ → M Tables StartSessionResponse
unfolding count_cards
start_session env user_id deck_id = do
  user ← get_user user_id
  cards ← get_due_cards deck_id env.now user.daily_new_limit user.daily_review_limit
  session ← create_session env user_id (some deck_id)
  pure (record { session = session; cards = cards; counts = count_cards cards })

-- GetSession, and the check of the owner with which the other methods begin
unfoldable pub own_session : ℕ → ℕ → M Tables StudySession
own_session user_id session_id = do
  session ← get_session session_id
  raise_if (not (session.user_id == user_id)) forbidden
  pure session

-- the session of a request that changes it: the user's, and not ended
unfoldable pub open_session : ℕ → ℕ → M Tables StudySession
unfolding own_session
open_session user_id session_id = do
  session ← own_session user_id session_id
  raise_if (is_some session.ended_at) session_ended
  pure session

-- newInc, reviewInc, relearnInc
pub record Increments : Type 0 where
  pub new_inc : ℤ
  pub review_inc : ℤ
  pub relearn_inc : ℤ
  pub duration : ℤ

abbrev pub no_increments : Increments
no_increments = record {
  new_inc = pos 0;
  review_inc = pos 0;
  relearn_inc = pos 0;
  duration = pos 0;
}

-- the switch on the state before the review
abbrev pub increment : CardState → ℤ → Increments → Increments
increment before ms i =
    if eq_ℤ before card_state_new
    then record i { new_inc = i.new_inc +ℤ pos 1; duration = i.duration +ℤ ms }
    else if eq_ℤ before card_state_review
    then record i { review_inc = i.review_inc +ℤ pos 1; duration = i.duration +ℤ ms }
    else if eq_ℤ before card_state_learning
    then record i { review_inc = i.review_inc +ℤ pos 1; duration = i.duration +ℤ ms }
    else if eq_ℤ before card_state_relearning
    then record i { relearn_inc = i.relearn_inc +ℤ pos 1; duration = i.duration +ℤ ms }
    else record i { duration = i.duration +ℤ ms }

-- session.NewCount += newInc and the three lines after it
abbrev pub add_increments : StudySession → Increments → StudySession
add_increments s i = record s {
  new_count = s.new_count +ℤ i.new_inc;
  review_count = s.review_count +ℤ i.review_inc;
  relearn_count = s.relearn_count +ℤ i.relearn_inc;
  total_duration_ms = s.total_duration_ms +ℤ i.duration;
}

-- the review log of SubmitReview
abbrev pub flashcard_log : Env → ℕ → Card → SubmitReviewRequest → ReviewLog
flashcard_log env user_id card req = record {
  id = 0;
  card_id = card.id;
  user_id = user_id;
  rating = int8 req.rating;
  state = card.state;
  scheduled_days = req.log.scheduled_days;
  elapsed_days = req.log.elapsed_days;
  stability = req.log.stability;
  difficulty = req.log.difficulty;
  duration_ms = req.duration_ms;
  source = flashcard;
  reviewed_at = env.now;
}

-- the writes of SubmitReview, in one transaction
unfoldable pub save_review : Env → Card → ReviewLog → StudySession → M Tables ReviewLog
save_review env card log session =
    transact
      (do update_fsrs env card; saved ← create_review env log; update_session session; pure saved)

-- SubmitReview, once the session and the card are known
unfoldable pub store_review :
    Env → ℕ → SubmitReviewRequest → StudySession → Card → M Tables ReviewResult
unfolding apply_fsrs_card_state
store_review env user_id req session card = do
  raise_if card.is_suspended card_suspended
  lift (validate_fsrs_state env req.card)
  let updated = apply_fsrs_card_state card req.card
  saved ←
      save_review env updated (flashcard_log env user_id card req)
        (add_increments session (increment card.state req.duration_ms no_increments))
  pure (record { card = updated; review_log = saved; next_due = updated.due })

-- SubmitReview
unfoldable pub submit_review : Env → ℕ → ℕ → SubmitReviewRequest → M Tables ReviewResult
submit_review env user_id session_id req = do
  session ← open_session user_id session_id
  card ← get_card req.card_id
  store_review env user_id req session card

-- the counters of BatchReview's loop
pub record Tally : Type 0 where
  pub processed : ℕ
  pub errors : ℕ
  pub increments : Increments

abbrev pub no_tally : Tally
no_tally = record { processed = 0; errors = 0; increments = no_increments }

-- errCount++; continue
abbrev pub one_error : Tally → Tally
one_error n = record n { errors = n.errors + 1 }

-- processed++, with the increments
abbrev pub one_processed : CardState → ℤ → Tally → Tally
one_processed before ms n = record n {
  processed = n.processed + 1;
  increments = increment before ms n.increments;
}

abbrev pub item_log : ℕ → Card → BatchReviewItem → ReviewLog
item_log user_id card item = record {
  id = 0;
  card_id = card.id;
  user_id = user_id;
  rating = int8 item.rating;
  state = card.state;
  scheduled_days = item.log.scheduled_days;
  elapsed_days = item.log.elapsed_days;
  stability = item.log.stability;
  difficulty = item.log.difficulty;
  duration_ms = item.duration_ms;
  source = flashcard;
  reviewed_at = item.reviewed_at;
}

-- `if err := call(); err != nil { errCount++; continue }`
unfoldable pub or_skip : {A : Type 0} → M Tables A → Tally → (A → M Tables Tally) → M Tables Tally
or_skip m n f w = let (r, w') = m w in elim r [ ok a ↦ f a w' | err e ↦ pure (one_error n) w' ]

-- one round of the loop over req.Reviews
unfoldable pub review_item : Env → ℕ → BatchReviewItem → Tally → M Tables Tally
unfolding or_skip apply_fsrs_card_state
review_item env user_id item n = or_skip (lift (validate_fsrs_state env item.card)) n λ _.
    or_skip (get_card item.card_id) n λ card.
      if card.is_suspended
      then pure (one_error n)
      else (or_skip (update_fsrs env (apply_fsrs_card_state card item.card)) n λ _.
          or_skip (create_review env (item_log user_id card item)) n
            λ _. pure (one_processed card.state item.duration_ms n))

unfoldable pub review_items : Env → ℕ → List BatchReviewItem → Tally → M Tables Tally
review_items env user_id [] n = pure n
review_items env user_id (item ∷ items) n =
    review_item env user_id item n >>= review_items env user_id items

-- the transaction of BatchReview
unfoldable pub batch_body : Env → ℕ → List BatchReviewItem → StudySession → M Tables Tally
unfolding review_items
batch_body env user_id reviews session = do
  n ← review_items env user_id reviews no_tally
  update_session (add_increments session n.increments)
  pure n

-- BatchReview
unfoldable pub batch_review : Env → ℕ → ℕ → List BatchReviewItem → M Tables BatchReviewResult
unfolding open_session batch_body
batch_review env user_id session_id reviews = do
  session ← open_session user_id session_id
  n ← transact (batch_body env user_id reviews session)
  pure (record { processed = n.processed; errors = n.errors })

-- EndSession
unfoldable pub end_session : Env → ℕ → ℕ → M Tables StudySession
unfolding open_session
end_session env user_id session_id = do
  session ← open_session user_id session_id
  let ended = record session { ended_at = some env.now }
  update_session ended
  pure ended
