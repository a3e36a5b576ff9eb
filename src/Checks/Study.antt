-- ===== src/Checks/Study.antt =====
-- Examples of the theorems of `Study` and `Repository`.
use backend_quiz.Common.{
  ◌≡◌, ◌≤◌, ◌↔◌, refl, ap, true, false, some, [], ◌∷◌, select_one, arith, length, count_where,
  update_where,
}
use backend_quiz.Common.{pos, ◌+ℤ◌, ◌≤ℤ◌, int32}
use backend_quiz.Domain.{Result, ok, database}
use backend_quiz.Domain.Card.{Card}
use backend_quiz.Domain.Study.{StudySession, ReviewResult, BatchReviewResult}
use backend_quiz.Db.{World, calm, exec, transact}
use backend_quiz.Repository.Tables.{Tables}
use backend_quiz.Repository.Sessions.{
  is_session, write_session, get_session, update_session, create_review,
}
use backend_quiz.Repository.Cards.{
  get_card, update_fsrs, get_due_cards, order_due, take_limit, apply_new_limit,
}
use backend_quiz.Repository.Cards.Due.{AllDue, of_state_zero, get_due_cards_bounds}
use backend_quiz.Study.{
  submit_review, end_session, open_session, own_session, store_review, save_review, flashcard_log,
}
use backend_quiz.Study.Fsrs.{
  apply_fsrs_card_state, IsSane, validate_fsrs_state, validate_fsrs_state_iff,
}
use backend_quiz.Study.Reviews.{ReviewEffect, submit_review_effect, after_review}
use backend_quiz.Study.Succeeds.{submit_review_succeeds, end_session_succeeds}
use backend_quiz.Study.Ended.{
  handle, handle_all, review, finish, ended_session_frozen, failure, failed_study_request_unchanged,
}
use backend_quiz.Checks.Rows.{
  env, rows, card_row, session_row, ended_row, fsrs_card, review_request,
}

sane : IsSane env fsrs_card
sane = ground arith

validate_fsrs_state_iff_example : (validate_fsrs_state env fsrs_card ≡ ok tt) ↔ IsSane env fsrs_card
validate_fsrs_state_iff_example = validate_fsrs_state_iff env fsrs_card

review_ok : (r : ReviewResult) × ((submit_review env 1 4 review_request (calm rows)).0 ≡ ok r)
review_ok = (
  _,
  ap (λ (x : Result ReviewResult × World Tables). x.0)
      (submit_review_succeeds env 1 4 review_request session_row card_row rows refl refl refl refl
        refl sane),
)

submit_review_effect_example :
    (session : StudySession) × (card : Card) × ReviewEffect env 1 4 review_request rows
      (submit_review env 1 4 review_request (calm rows)).1.tables
      session
      card
submit_review_effect_example =
    submit_review_effect env 1 4 review_request (calm rows) review_ok.0 review_ok.1

abbrev one_of_two : BatchReviewResult
one_of_two = record { processed = 1; errors = 1 }

ended_session_frozen_example :
    select_one
      (is_session 5)
      (handle_all
        (review env 1 5 review_request ∷ finish env 1 5 ∷ [])
        (calm rows)).tables.study_sessions
    ≡ some ended_row
ended_session_frozen_example =
    ended_session_frozen 5 ended_row 3500 (review env 1 5 review_request ∷ finish env 1 5 ∷ [])
      (calm rows) refl refl refl

-- the server refuses the insertion of the log, which is the fifth flag that is read
abbrev refusing : World Tables
refusing = record (calm rows) { faults = false ∷ false ∷ false ∷ false ∷ true ∷ [] }

refused_review : failure (review env 1 4 review_request) refusing ≡ some database
unfolding failure submit_review open_session own_session get_session store_review save_review
    get_card update_fsrs create_review update_session exec transact validate_fsrs_state
refused_review = refl

failed_study_request_unchanged_example :
    (handle (review env 1 4 review_request) refusing).tables ≡ refusing.tables
failed_study_request_unchanged_example =
    failed_study_request_unchanged (review env 1 4 review_request) refusing database refl
      refused_review

submit_review_succeeds_example : submit_review env 1 4 review_request (calm rows) ≡ (
  ok (record {
    card = apply_fsrs_card_state card_row review_request.card;
    review_log = record (flashcard_log env 1 card_row review_request) { id = 20 };
    next_due = 90000;
  }),
  calm (after_review env 1 review_request session_row card_row rows),
)
unfolding apply_fsrs_card_state
submit_review_succeeds_example =
    submit_review_succeeds env 1 4 review_request session_row card_row rows refl refl refl refl refl
      sane

end_session_succeeds_example :
    let ended = record session_row { ended_at = some 5000 } in
    end_session env 1 4 (calm rows) ≡ (
      ok ended,
      calm (record rows {
        study_sessions = update_where (is_session 4) (write_session ended) rows.study_sessions;
      }),
    )
end_session_succeeds_example = end_session_succeeds env 1 4 session_row rows refl refl refl

due_ok : (get_due_cards 2 5000 (pos 20) (pos 200) (calm rows)).0 ≡ ok (card_row ∷ [])
unfolding get_due_cards order_due take_limit apply_new_limit int32 exec ◌+ℤ◌
due_ok = refl

get_due_cards_bounds_example :
    AllDue 2 5000 (card_row ∷ [])
    × (count_where of_state_zero (card_row ∷ []) ≤ 20)
    × (pos (length (card_row ∷ [])) ≤ℤ int32 (pos 20 +ℤ pos 200))
get_due_cards_bounds_example =
    get_due_cards_bounds 2 5000 20 (pos 200) (calm rows) (card_row ∷ []) due_ok
