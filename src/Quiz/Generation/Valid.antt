-- ===== src/Quiz/Generation/Valid.antt =====
-- The questions of GenerateFromDeck of internal/service/quiz.go under validateQuestionOptions and
-- gradeAnswer.
use mathlib.Core.Path.{ap₂, subst}
use mathlib.Core.Option.{some_inj}
use mathlib.Core.List.{Permᴰ}
use backend_quiz.Common.{
  ℕ, suc, ◌≤◌, ◌≡◌, ◌⊎◌, inl, inr, refl, sym, ap, ◌∙◌, Bool, true, false, not, ◌&&◌, Bool-cases,
  none, some, List, [], ◌∷◌, arith, length, count_where, map, take, ◌==◌, if◌then◌else◌,
}
use backend_quiz.Common.Text.{Text, text_eq, text_eq_refl, eq_of_text_eq, trim_space}
use backend_quiz.Domain.{invalid_input, Result, ok, err}
use backend_quiz.Domain.Card.{Card}
use backend_quiz.Domain.Quiz.{QuestionType, mcq, true_false, fill_blank, McqOption, QuizQuestion}
use backend_quiz.Quiz.Grading.{
  Runtime, grade_answer, grade_as, validate_question_options, to_lower, text_true, text_false,
  is_empty,
}
use backend_quiz.Quiz.Grading.Options.{AllMatch, IsMcq, validate_mcq_iff}
use backend_quiz.Quiz.Generation.{
  Dice, question_with, distractors, wrong_option, mcq_options, generate_mcq, wrong_answer,
  statement, generate_true_false, generate_fill_blank, generate,
}

module _ {A : Type 0} where
  count_where-Perm :
      (p : A → Bool) {xs ys : List A} → Permᴰ xs ys → count_where p xs ≡ count_where p ys
  count_where-Perm p Permᴰ.nil = refl
  count_where-Perm p (Permᴰ.cons {a} {b} {l₁} {l₂} e h) =
      ap₂ (λ (x : A) n. if p x then suc n else n) e (count_where-Perm p h)
  count_where-Perm p (Permᴰ.swap {a} {b} {a'} {b'} {l} e f) = ground (arith, ap p e, ap p f)
  count_where-Perm p (Permᴰ.trans h k) = count_where-Perm p h ∙ count_where-Perm p k

  count-length : (xs : List A) → count_where (λ _. true) xs ≡ length xs
  count-length [] = refl
  count-length (x ∷ xs) = ap suc (count-length xs)

-- an option that is marked though it has not the text of the correct answer
abbrev mismatch : Text → McqOption → Bool
mismatch c o = o.is_correct && not (text_eq o.text c)

abbrev marked : McqOption → Bool
marked o = o.is_correct

matched : (c : Text) (o : McqOption) → mismatch c o ≡ false → (o.is_correct ≡ false) ⊎ (o.text ≡ c)
matched c o h = elim (Bool-cases o.is_correct) [
  | inl e ↦ inr (eq_of_text_eq o.text c (ground arith))
  | inr e ↦ inl e
]

AllMatch-mismatch :
    (c : Text) (os : List McqOption) → count_where (mismatch c) os ≡ 0 → AllMatch c os
AllMatch-mismatch c [] h = tt
AllMatch-mismatch c (o ∷ os) h = (matched c o (ground arith), AllMatch-mismatch c os (ground arith))

unmarked : (ts : List Text) → count_where marked (map wrong_option ts) ≡ 0
unmarked [] = refl
unmarked (t ∷ ts) = unmarked ts

no_mismatch : (c : Text) (ts : List Text) → count_where (mismatch c) (map wrong_option ts) ≡ 0
no_mismatch c [] = refl
no_mismatch c (t ∷ ts) = no_mismatch c ts

length-map : (ts : List Text) → length (map wrong_option ts) ≡ length ts
length-map [] = refl
length-map (t ∷ ts) = ap suc (length-map ts)

length-take_three :
    (ts : List Text) → 1 ≤ length ts → (1 ≤ length (take 3 ts)) × (length (take 3 ts) ≤ 3)
length-take_three ts h = ground arith

module _ (rt : Runtime) (dice : Dice)
    (texts : (i : ℕ) (ts : List Text) → Permᴰ (dice.shuffle_texts i ts) ts)
    (options : (i : ℕ) (os : List McqOption) → Permᴰ (dice.shuffle_options i os) os) (card : Card)
    (cards : List Card) (idx : ℕ) where
  abbrev others : List Text
  others = dice.shuffle_texts idx (distractors card idx 0 cards)

  IsMcq-mcq_options :
      1 ≤ length (distractors card idx 0 cards)
      → IsMcq card.back (dice.shuffle_options idx (mcq_options dice idx card cards))
  unfolding mcq_options
  IsMcq-mcq_options some_other =
      let os = mcq_options dice idx card cards in
      let perm = options idx os in
      let wrong = take 3 others in
      let n : length others ≡ length (distractors card idx 0 cards) =
        sym (count-length others)
        ∙ count_where-Perm (λ _. true) (texts idx (distractors card idx 0 cards))
        ∙ count-length (distractors card idx 0 cards) in
      let (lo, hi) = length-take_three others (omega (arith, some_other, n)) in
      let size : length (dice.shuffle_options idx os) ≡ suc (length wrong) =
        sym (count-length (dice.shuffle_options idx os))
        ∙ count_where-Perm (λ _. true) perm
        ∙ count-length os
        ∙ ap suc (length-map wrong) in
      record {
        at_least = omega (arith, size, lo);
        at_most = omega (arith, size, hi);
        one_marked = count_where-Perm marked perm ∙ ap suc (unmarked wrong);
        marked = AllMatch-mismatch card.back (dice.shuffle_options idx os) (
            count_where-Perm (mismatch card.back) perm
            ∙ ground (arith, text_eq_refl card.back, no_mismatch card.back wrong));
      }

-- what a generated question has to be
abbrev pub Answerable : Runtime → QuizQuestion → Type 0
Answerable rt q =
    (validate_question_options rt q.question_type q.options q.correct_answer ≡ ok tt)
    × (grade_answer rt q q.correct_answer ≡ true)

-- the case of true_false
abbrev pub accept : Text → Result (Unit {0})
accept a =
    if text_eq a text_true then ok tt else if text_eq a text_false then ok tt else err invalid_input

module _ (rt : Runtime) (lower_true : to_lower rt text_true ≡ text_true)
    (lower_false : to_lower rt text_false ≡ text_false) where
  Answerable-true : (text : Text) → Answerable rt (question_with true_false text [] text_true)
  unfolding validate_question_options grade_answer grade_as trim_space
  Answerable-true text = (ap accept lower_true, text_eq_refl (map rt.fold text_true))

  Answerable-false : (text : Text) → Answerable rt (question_with true_false text [] text_false)
  unfolding validate_question_options grade_answer grade_as trim_space
  Answerable-false text = (ap accept lower_false, text_eq_refl (map rt.fold text_false))

  Answerable-true_false :
      (dice : Dice) (card : Card) (cards : List Card) (idx : ℕ)
      → Answerable rt (generate_true_false dice card cards idx)
  unfolding generate_true_false
  Answerable-true_false dice card cards idx = elim (Bool-cases (dice.intn idx 2 == 0)) [
    | inl e ↦ rw e (Answerable-true (statement card.front card.back))
    | inr e ↦ elim (Bool-cases (is_empty (wrong_answer card cards))) [
      | inl f ↦ rw (e, f) (Answerable-true (statement card.front card.back))
      | inr f ↦ rw (e, f) (Answerable-false (statement card.front (wrong_answer card cards)))
    ]
  ]

Answerable-fill_blank : (rt : Runtime) (card : Card) → Answerable rt (generate_fill_blank card)
unfolding generate_fill_blank validate_question_options grade_answer grade_as
Answerable-fill_blank rt card =
    (refl, ground (arith, text_eq_refl (map rt.fold (trim_space card.back))))

graded_mcq :
    (rt : Runtime) (text options c : Text)
    → grade_answer rt (question_with mcq text options c) c ≡ true
unfolding grade_answer grade_as
graded_mcq rt text options c = text_eq_refl (map rt.fold (trim_space c))

-- Every question that is generated of a card of which another card has a different back passes
-- validateQuestionOptions, and its stored correct answer is graded as correct, whatever
-- permutations the shuffles are and whatever Intn gives. Here options come back from their JSON, no
-- JSON text that decodes is empty, and `true` and `false` are in lower case.
pub generate_answerable :
    (rt : Runtime) (dice : Dice) (kind : QuestionType) (card : Card) (cards : List Card) (idx : ℕ)
    (q : QuizQuestion)
    → ((i : ℕ) (ts : List Text) → Permᴰ (dice.shuffle_texts i ts) ts)
    → ((i : ℕ) (os : List McqOption) → Permᴰ (dice.shuffle_options i os) os)
    → ((os : List McqOption) → rt.unmarshal_options (rt.marshal_options os) ≡ some os)
    → rt.unmarshal_options [] ≡ none
    → to_lower rt text_true ≡ text_true
    → to_lower rt text_false ≡ text_false
    → 1 ≤ length (distractors card idx 0 cards)
    → generate rt dice kind card cards idx ≡ some q
    → (validate_question_options rt q.question_type q.options q.correct_answer ≡ ok tt)
      × (grade_answer rt q q.correct_answer ≡ true)
unfolding generate generate_mcq
generate_answerable rt dice mcq card cards idx q texts options json closed t f other e =
    let os = dice.shuffle_options idx (mcq_options dice idx card cards) in
    subst (Answerable rt) (some_inj.0 e) (
      (validate_mcq_iff rt (rt.marshal_options os) card.back closed).1
          (os, json os, IsMcq-mcq_options rt dice texts options card cards idx other),
      graded_mcq rt card.front (rt.marshal_options os) card.back,
    )
generate_answerable rt dice true_false card cards idx q texts options json closed t f other e =
    subst (Answerable rt) (some_inj.0 e) (Answerable-true_false rt t f dice card cards idx)
generate_answerable rt dice fill_blank card cards idx q texts options json closed t f other e =
    subst (Answerable rt) (some_inj.0 e) (Answerable-fill_blank rt card)
generate_answerable rt dice kind card cards idx q texts options json closed t f other e = cc
