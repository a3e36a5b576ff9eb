-- ===== src/Study/Counters.antt =====
-- What a review adds to the counters of a session, by the state of its card before
-- (internal/service/study.go).
use backend_quiz.Common.{ℤ, pos, negsuc, ◌+ℤ◌, eq_ℤ}
use backend_quiz.Common.{ℕ, ◌+◌, ◌≡◌, refl, ap, ◌∙◌, arith, if◌then◌else◌}
use backend_quiz.Domain.Card.{CardState}
use backend_quiz.Domain.Study.{StudySession}
use backend_quiz.Study.{Increments, increment, no_increments, add_increments}

module _ (s : CardState) (ms : ℤ) (i : Increments) (a : ℕ) where
  pub increment-new :
      i.new_inc ≡ pos a → (increment s ms i).new_inc ≡ pos (a + (if eq_ℤ s (pos 0) then 1 else 0))
  unfolding ◌+ℤ◌
  increment-new h = ground (arith, h)

  pub increment-review :
      i.review_inc ≡ pos a
      → (increment s ms i).review_inc
        ≡ pos (a + (if eq_ℤ s (pos 1) then 1 else 0) + (if eq_ℤ s (pos 2) then 1 else 0))
  unfolding ◌+ℤ◌
  increment-review h = ground (arith, h)

  pub increment-relearn :
      i.relearn_inc ≡ pos a
      → (increment s ms i).relearn_inc ≡ pos (a + (if eq_ℤ s (pos 3) then 1 else 0))
  unfolding ◌+ℤ◌
  increment-relearn h = ground (arith, h)

pub increment-duration :
    (s : CardState) (ms : ℤ) (i : Increments) → (increment s ms i).duration ≡ i.duration +ℤ ms
increment-duration s ms i = ground arith

zero_more : (ms : ℤ) → pos 0 +ℤ ms ≡ ms
unfolding ◌+ℤ◌
zero_more (pos n) = ground arith
zero_more (negsuc n) = ground arith

-- the session with one review of a card whose state was `s`
abbrev pub with_review : CardState → ℤ → StudySession → StudySession
with_review s ms session = record session {
  new_count = session.new_count +ℤ pos (if eq_ℤ s (pos 0) then 1 else 0);
  review_count =
      session.review_count
      +ℤ pos ((if eq_ℤ s (pos 1) then 1 else 0) + (if eq_ℤ s (pos 2) then 1 else 0));
  relearn_count = session.relearn_count +ℤ pos (if eq_ℤ s (pos 3) then 1 else 0);
  total_duration_ms = session.total_duration_ms +ℤ ms;
}

summed :
    (session : StudySession) (i : Increments) (a b c d : ℤ)
    → i.new_inc ≡ a
    → i.review_inc ≡ b
    → i.relearn_inc ≡ c
    → i.duration ≡ d
    → add_increments session i ≡ record session {
      new_count = session.new_count +ℤ a;
      review_count = session.review_count +ℤ b;
      relearn_count = session.relearn_count +ℤ c;
      total_duration_ms = session.total_duration_ms +ℤ d;
    }
summed session i a b c d h0 h1 h2 h3 = rw (h0, h1, h2, h3) refl

pub add_increments-increment :
    (s : CardState) (ms : ℤ) (session : StudySession)
    → add_increments session (increment s ms no_increments) ≡ with_review s ms session
add_increments-increment s ms session =
    summed session (increment s ms no_increments) _ _ _ _
      (increment-new s ms no_increments 0 refl ∙ ap pos (omega arith))
      (increment-review s ms no_increments 0 refl ∙ ap pos (omega arith))
      (increment-relearn s ms no_increments 0 refl ∙ ap pos (omega arith))
      (increment-duration s ms no_increments ∙ zero_more ms)
