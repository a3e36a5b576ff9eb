-- ===== src/Study/Batch/Tallies.antt =====
-- The loop of BatchReview of internal/service/study.go: its tally against the rows that it writes.
use backend_quiz.Common.{pos, ℤ, ◌+ℤ◌, eq_ℤ}
use backend_quiz.Common.{
  Option, ◌++◌, inl, inr, if◌then◌else◌, ℕ, suc, ◌+◌, ◌≡◌, refl, none, some, List, [], ◌∷◌, arith,
  length, sym, ◌∙◌, ap,
}
use backend_quiz.Domain.{Result, ok}
use backend_quiz.Domain.Card.{Env, Card, ReviewLog}
use backend_quiz.Domain.Study.{BatchReviewItem}
use backend_quiz.Db.{World}
use backend_quiz.Db.Compose.{bind-ok}
use mathlib.Core.Path.{subst}
use mathlib.Core.List.{append-nil, append_assoc}
use backend_quiz.Repository.Tables.{Tables}
use backend_quiz.Study.{review_item, review_items, Tally, Increments, increment}
use backend_quiz.Study.Counters.{
  increment-new, increment-review, increment-relearn, increment-duration,
}
use backend_quiz.Study.Batch.Items.{IsLogOf, Round, Done, Skipped, review_item-Round}

-- What became of the reviews of a batch, in their order: the card of one that was stored, as it was
-- found, or nothing for one that was skipped.
abbrev pub reviewed : List (Option Card) → ℕ
reviewed [] = 0
reviewed (none ∷ os) = reviewed os
reviewed (some c ∷ os) = suc (reviewed os)

abbrev pub skipped : List (Option Card) → ℕ
skipped [] = 0
skipped (none ∷ os) = suc (skipped os)
skipped (some c ∷ os) = skipped os

-- the reviews of cards whose state was `s`
abbrev pub of_state : ℕ → List (Option Card) → ℕ
of_state s [] = 0
of_state s (none ∷ os) = of_state s os
of_state s (some c ∷ os) = (if eq_ℤ c.state (pos s) then 1 else 0) + of_state s os

-- `ms` and the durations of the reviews that were stored
abbrev pub spent : ℤ → List BatchReviewItem → List (Option Card) → ℤ
spent ms (i ∷ is) (none ∷ os) = spent ms is os
spent ms (i ∷ is) (some c ∷ os) = spent (ms +ℤ i.duration_ms) is os
spent ms _ _ = ms

-- the rows are the logs of the reviews that were stored
abbrev pub Logged : ℕ → List BatchReviewItem → List (Option Card) → List ReviewLog → Type 0
Logged user_id [] [] [] = Unit
Logged user_id (i ∷ is) (none ∷ os) rows = Logged user_id is os rows
Logged user_id (i ∷ is) (some c ∷ os) (row ∷ rows) =
    IsLogOf user_id i c row × Logged user_id is os rows
Logged user_id _ _ _ = ⊥

-- the tally and the rows after some reviews
pub record Ran (user_id : ℕ) (items : List BatchReviewItem) (n n' : Tally) (t t' : Tables)
    (outcomes : List (Option Card)) (rows : List ReviewLog) : Type 0 where
  pub processed : n'.processed ≡ n.processed + reviewed outcomes
  pub errors : n'.errors ≡ n.errors + skipped outcomes
  pub fresh :
      (a : ℕ) → n.increments.new_inc ≡ pos a → n'.increments.new_inc ≡ pos (a + of_state 0 outcomes)
  pub repeated :
      (a : ℕ)
      → n.increments.review_inc ≡ pos a
      → n'.increments.review_inc ≡ pos (a + of_state 1 outcomes + of_state 2 outcomes)
  pub relearned :
      (a : ℕ)
      → n.increments.relearn_inc ≡ pos a
      → n'.increments.relearn_inc ≡ pos (a + of_state 3 outcomes)
  pub time : n'.increments.duration ≡ spent n.increments.duration items outcomes
  pub logs : t'.review_logs ≡ t.review_logs ++ rows
  pub logged : Logged user_id items outcomes rows
  pub sessions : t'.study_sessions ≡ t.study_sessions

module _ (user_id : ℕ) (item : BatchReviewItem) (items : List BatchReviewItem) (n m n' : Tally)
    (t t1 t' : Tables) (outcomes : List (Option Card)) (rows : List ReviewLog)
    (rest : Ran user_id items m n' t1 t' outcomes rows) where
  Ran-Skipped : Skipped n m t t1 → Ran user_id (item ∷ items) n n' t t' (none ∷ outcomes) rows
  Ran-Skipped (e, same) = record {
    processed = omega (arith, rest.processed, ap (λ (x : Tally). x.processed) e);
    errors = omega (arith, rest.errors, ap (λ (x : Tally). x.errors) e);
    fresh = λ a h. rest.fresh a (ap (λ (x : Tally). x.increments.new_inc) e ∙ h);
    repeated = λ a h. rest.repeated a (ap (λ (x : Tally). x.increments.review_inc) e ∙ h);
    relearned = λ a h. rest.relearned a (ap (λ (x : Tally). x.increments.relearn_inc) e ∙ h);
    time = rest.time ∙ ap (λ (x : Tally). spent x.increments.duration items outcomes) e;
    logs = rest.logs ∙ ap (λ ls. ls ++ rows) same.0;
    logged = rest.logged;
    sessions = rest.sessions ∙ same.1;
  }

  module _ (card : Card) (row : ReviewLog) (done : Done user_id item n m t t1 card row) where
    abbrev is_state : ℕ → ℕ
    is_state s = if eq_ℤ card.state (pos s) then 1 else 0

    one_more :
        (f : Increments → ℤ)
        → f m.increments ≡ f (increment card.state item.duration_ms n.increments)
    one_more f = ap (λ (x : Tally). f x.increments) done.tally

    Ran-Done : Ran user_id (item ∷ items) n n' t t' (some card ∷ outcomes) (row ∷ rows)
    Ran-Done = record {
      processed = omega (arith, rest.processed, ap (λ (x : Tally). x.processed) done.tally);
      errors = omega (arith, rest.errors, ap (λ (x : Tally). x.errors) done.tally);
      fresh = λ a h.
          rest.fresh (a + is_state 0)
            (one_more (λ i. i.new_inc) ∙ increment-new card.state item.duration_ms n.increments a h)
          ∙ ap pos (omega arith);
      repeated = λ a h.
          rest.repeated (a + is_state 1 + is_state 2) (
            one_more (λ i. i.review_inc)
            ∙ increment-review card.state item.duration_ms n.increments a h)
          ∙ ap pos (omega arith);
      relearned = λ a h.
          rest.relearned (a + is_state 3) (
            one_more (λ i. i.relearn_inc)
            ∙ increment-relearn card.state item.duration_ms n.increments a h)
          ∙ ap pos (omega arith);
      time =
          rest.time
          ∙ ap (λ ms. spent ms items outcomes)
              (one_more (λ i. i.duration)
                ∙ increment-duration card.state item.duration_ms n.increments);
      logs =
          rest.logs ∙ ap (λ ls. ls ++ rows) done.logs ∙ append_assoc t.review_logs (row ∷ []) rows;
      logged = (done.log, rest.logged);
      sessions = rest.sessions ∙ done.sessions;
    }

abbrev pub RanSome : ℕ → List BatchReviewItem → Tally → Tally → Tables → Tables → Type 0
RanSome user_id items n n' t t' =
    (outcomes : List (Option Card)) × (rows : List ReviewLog) × Ran user_id items n n' t t' outcomes
      rows

Ran-none : (user_id : ℕ) (n n' : Tally) (t : Tables) → n' ≡ n → RanSome user_id [] n n' t t
Ran-none user_id n n' t e = (
  [],
  [],
  record {
    processed = omega (arith, ap (λ (x : Tally). x.processed) e);
    errors = omega (arith, ap (λ (x : Tally). x.errors) e);
    fresh = λ a h. ap (λ (x : Tally). x.increments.new_inc) e ∙ h ∙ ap pos (omega arith);
    repeated = λ a h. ap (λ (x : Tally). x.increments.review_inc) e ∙ h ∙ ap pos (omega arith);
    relearned = λ a h. ap (λ (x : Tally). x.increments.relearn_inc) e ∙ h ∙ ap pos (omega arith);
    time = ap (λ (x : Tally). x.increments.duration) e;
    logs = sym (append-nil t.review_logs);
    logged = tt;
    sessions = refl;
  },
)

Ran-Round :
    (user_id : ℕ) (item : BatchReviewItem) (items : List BatchReviewItem) (n m n' : Tally)
    (t t1 t' : Tables)
    → Round user_id item n m t t1
    → RanSome user_id items m n' t1 t'
    → RanSome user_id (item ∷ items) n n' t t'
Ran-Round user_id item items n m n' t t1 t' (inl skip) (outcomes, rows, rest) =
    (none ∷ outcomes, rows, Ran-Skipped user_id item items n m n' t t1 t' outcomes rows rest skip)
Ran-Round user_id item items n m n' t t1 t' (inr (card, row, done)) (outcomes, rows, rest) = (
  some card ∷ outcomes,
  row ∷ rows,
  Ran-Done user_id item items n m n' t t1 t' outcomes rows rest card row done,
)

same_result : (a b : Tally) → ok a ≡ ok b → b ≡ a
same_result a b h = cc

pub review_items-Ran :
    (env : Env) (user_id : ℕ) (items : List BatchReviewItem) (n n' : Tally) (w : World Tables)
    → (review_items env user_id items n w).0 ≡ ok n'
    → RanSome user_id items n n' w.tables (review_items env user_id items n w).1.tables
unfolding review_items
review_items-Ran env user_id [] n n' w h = Ran-none user_id n n' w.tables (same_result n n' h)
review_items-Ran env user_id (item ∷ items) n n' w h =
    let (m, h1, h2, e) =
      bind-ok (review_item env user_id item n) (review_items env user_id items) w n' h in
    let w1 = (review_item env user_id item n w).1 in
    subst
      (λ (x : Result Tally × World Tables). RanSome user_id (item ∷ items) n n' w.tables x.1.tables)
      (sym e)
      (Ran-Round user_id item items n m n' w.tables w1.tables _
        (review_item-Round env user_id item n m w h1)
        (review_items-Ran env user_id items m n' w1 h2))

pub all_counted :
    (user_id : ℕ) (items : List BatchReviewItem) (outcomes : List (Option Card))
    (rows : List ReviewLog)
    → Logged user_id items outcomes rows
    → reviewed outcomes + skipped outcomes ≡ length items
all_counted user_id [] [] [] h = refl
all_counted user_id [] [] (r ∷ rs) h = absurd h
all_counted user_id [] (o ∷ os) rows h = absurd h
all_counted user_id (i ∷ is) [] rows h = absurd h
all_counted user_id (i ∷ is) (none ∷ os) rows h = omega (arith, all_counted user_id is os rows h)
all_counted user_id (i ∷ is) (some c ∷ os) [] h = absurd h
all_counted user_id (i ∷ is) (some c ∷ os) (r ∷ rs) h =
    omega (arith, all_counted user_id is os rs h.1)
