-- ===== src/Study/Batch/Items.antt =====
-- One round of the loop of BatchReview of internal/service/study.go.
use backend_quiz.Common.{
  ℕ, ◌≡◌, ◌⊎◌, inl, inr, refl, ap, ◌∙◌, Bool, true, false, Bool-cases, some, List, [], ◌∷◌, ◌++◌,
  arith, select_one, if◌then◌else◌,
}
use backend_quiz.Common.{int8, int16, int32}
use backend_quiz.Domain.{Error, Result, ok, err}
use backend_quiz.Domain.Card.{Env, Card, ReviewLog}
use backend_quiz.Domain.Study.{BatchReviewItem}
use backend_quiz.Db.{World, M, lift, exec, pure}
use backend_quiz.Repository.Tables.{Tables}
use backend_quiz.Repository.Sessions.{create_review, review_row}
use backend_quiz.Repository.Cards.Laws.{IsReadOnly-get_card, get_card-ok}
use backend_quiz.Repository.Cards.{get_card, update_fsrs, is_card}
use backend_quiz.Study.{Tally, one_error, one_processed, or_skip, review_item, item_log}
use backend_quiz.Study.Fsrs.{apply_fsrs_card_state, validate_fsrs_state}

-- the logs and the sessions are the same
abbrev pub Same : Tables → Tables → Type 0
Same t t' = (t'.review_logs ≡ t.review_logs) × (t'.study_sessions ≡ t.study_sessions)

-- the row of the log of a review of a card
pub record IsLogOf (user_id : ℕ) (item : BatchReviewItem) (card : Card) (row : ReviewLog)
    : Type 0 where
  pub requested : card.id ≡ item.card_id
  pub usable : card.is_suspended ≡ false
  pub of_card : row.card_id ≡ card.id
  pub of_user : row.user_id ≡ user_id
  pub rating : row.rating ≡ int16 (int8 item.rating)
  pub state : row.state ≡ int16 card.state
  pub duration : row.duration_ms ≡ int32 item.duration_ms
  pub time : row.reviewed_at ≡ item.reviewed_at

-- a round that counts an error
abbrev pub Skipped : Tally → Tally → Tables → Tables → Type 0
Skipped n n' t t' = (n' ≡ one_error n) × Same t t'

-- a round that counts a review of `card`, whose log is `row`
pub record Done (user_id : ℕ) (item : BatchReviewItem) (n n' : Tally) (t t' : Tables) (card : Card)
    (row : ReviewLog) : Type 0 where
  pub tally : n' ≡ one_processed card.state item.duration_ms n
  pub logs : t'.review_logs ≡ t.review_logs ++ row ∷ []
  pub sessions : t'.study_sessions ≡ t.study_sessions
  pub log : IsLogOf user_id item card row

abbrev pub Round : ℕ → BatchReviewItem → Tally → Tally → Tables → Tables → Type 0
Round user_id item n n' t t' =
    Skipped n n' t t' ⊎ ((card : Card) × (row : ReviewLog) × Done user_id item n n' t t' card row)

module _ {A : Type 0} (n : Tally) (f : A → M Tables Tally)
    (G : Result Tally × World Tables → Type 0) where
  skip-cases :
      (r : Result A) (w : World Tables)
      → ((e : Error) → r ≡ err e → G (ok (one_error n), w))
      → ((a : A) → r ≡ ok a → G (f a w))
      → G (elim r [ ok a ↦ f a w | err e ↦ pure (one_error n) w ])
  skip-cases (ok a) w h k = k a refl
  skip-cases (err e) w h k = h e refl

  or_skip-step :
      (m : M Tables A) (w : World Tables)
      → ((e : Error) → (m w).0 ≡ err e → G (ok (one_error n), (m w).1))
      → ((a : A) → (m w).0 ≡ ok a → G (f a (m w).1))
      → G (or_skip m n f w)
  unfolding or_skip
  or_skip-step m w h k = skip-cases (m w).0 (m w).1 h k

same_tally : (a b : Tally) → ok a ≡ ok b → b ≡ a
same_tally a b h = cc

id_found : (id : ℕ) (cs : List Card) (c : Card) → select_one (is_card id) cs ≡ some c → c.id ≡ id
id_found id [] c h = ground arith
id_found id (d ∷ ds) c h = elim (Bool-cases (is_card id d)) [
  | inl e ↦ ground (arith, e, h)
  | inr e ↦ id_found id ds c (ground (arith, e, h))
]

get_card-id : (id : ℕ) (w : World Tables) (c : Card) → (get_card id w).0 ≡ ok c → c.id ≡ id
get_card-id id w c h = id_found id w.tables.cards c (get_card-ok id w c h)

update_fsrs-Same :
    (env : Env) (c : Card) (w : World Tables) → Same w.tables (update_fsrs env c w).1.tables
unfolding update_fsrs exec
update_fsrs-Same env c w = ground arith

create_review-refused :
    (env : Env) (log : ReviewLog) (w : World Tables) (e : Error)
    → (create_review env log w).0 ≡ err e
    → Same w.tables (create_review env log w).1.tables
unfolding create_review exec
create_review-refused env log w e h = ground arith

create_review-stored :
    (env : Env) (log x : ReviewLog) (w : World Tables)
    → (create_review env log w).0 ≡ ok x
    → ((create_review env log w).1.tables.review_logs
        ≡ w.tables.review_logs ++ review_row env w.tables.fresh_id log ∷ [])
      × ((create_review env log w).1.tables.study_sessions ≡ w.tables.study_sessions)
unfolding create_review exec
create_review-stored env log x w h = ground arith

module _ (env : Env) (user_id : ℕ) (item : BatchReviewItem) (n n' : Tally) where
  abbrev Goal : Tables → Result Tally × World Tables → Type 0
  Goal t x = x.0 ≡ ok n' → Round user_id item n n' t x.1.tables

  abbrev stored : Card → M Tables Tally
  stored card =
      or_skip (create_review env (item_log user_id card item)) n
        λ _. pure (one_processed card.state item.duration_ms n)

  -- the end of a round, with a card that is not suspended
  abbrev store : Card → M Tables Tally
  store card = or_skip (update_fsrs env (apply_fsrs_card_state card item.card)) n (λ _. stored card)

  store-Round :
      (card : Card) (t : Tables) (w : World Tables)
      → card.id ≡ item.card_id
      → card.is_suspended ≡ false
      → Same t w.tables
      → Goal t (store card w)
  store-Round card t w known usable before =
      let updated = apply_fsrs_card_state card item.card in
      let log = item_log user_id card item in
      let w1 = (update_fsrs env updated w).1 in
      let (logs, sessions) = update_fsrs-Same env updated w in
      or_skip-step n (λ _. stored card) (Goal t) (update_fsrs env updated) w
        (λ e h k. inl (same_tally _ n' k, (logs ∙ before.0, sessions ∙ before.1)))
        λ _ h.
          or_skip-step n (λ _. pure (one_processed card.state item.duration_ms n)) (Goal t)
            (create_review env log) w1
            (λ e g k.
              let (logs', sessions') = create_review-refused env log w1 e g in
              inl (same_tally _ n' k, (logs' ∙ logs ∙ before.0, sessions' ∙ sessions ∙ before.1)))
            λ x g k.
              let (logs', sessions') = create_review-stored env log x w1 g in
              inr (
                card,
                review_row env w1.tables.fresh_id log,
                record {
                  tally = same_tally _ n' k;
                  logs =
                      logs'
                      ∙ ap (λ ls. ls ++ review_row env w1.tables.fresh_id log ∷ [])
                          (logs ∙ before.0);
                  sessions = sessions' ∙ sessions ∙ before.1;
                  log = record {
                    requested = known;
                    usable = usable;
                    of_card = refl;
                    of_user = refl;
                    rating = refl;
                    state = refl;
                    duration = refl;
                    time = refl;
                  };
                },
              )

  abbrev with_card : Card → M Tables Tally
  with_card card = if card.is_suspended then pure (one_error n) else store card

  Goal-if :
      (b : Bool) (t : Tables) (x y : M Tables Tally) (w : World Tables)
      → (b ≡ true → Goal t (x w))
      → (b ≡ false → Goal t (y w))
      → Goal t ((if b then x else y) w)
  Goal-if true t x y w h k = h refl
  Goal-if false t x y w h k = k refl

  pub review_item-Round :
      (w : World Tables)
      → (review_item env user_id item n w).0 ≡ ok n'
      → Round user_id item n n' w.tables (review_item env user_id item n w).1.tables
  unfolding review_item
  review_item-Round w =
      let t1 = (IsReadOnly-get_card item.card_id).tables w in
      let same : Same w.tables (get_card item.card_id w).1.tables =
        (ap (λ (t : Tables). t.review_logs) t1, ap (λ (t : Tables). t.study_sessions) t1) in
      or_skip-step n (λ _. or_skip (get_card item.card_id) n with_card) (Goal w.tables)
        (lift (validate_fsrs_state env item.card)) w
        (λ e h k. inl (same_tally _ n' k, (refl, refl)))
        λ _ h.
          or_skip-step n with_card (Goal w.tables) (get_card item.card_id) w
            (λ e g k. inl (same_tally _ n' k, same))
            λ card g.
              Goal-if card.is_suspended w.tables (pure (one_error n)) (store card)
                (get_card item.card_id w).1 (λ e k. inl (same_tally _ n' k, same))
                (λ e.
                  store-Round card w.tables (get_card item.card_id w).1
                    (get_card-id item.card_id w card g) e same)
