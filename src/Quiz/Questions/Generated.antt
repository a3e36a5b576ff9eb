-- ===== src/Quiz/Questions/Generated.antt =====
-- The questions of GenerateFromDeck and GenerateAyatQuiz of internal/service/quiz.go under
-- validateQuestionOptions.
use backend_quiz.Common.{
  ℕ, zero, suc, ◌+◌, ◌-◌, ◌==◌, ◌++◌, get_elem?, ◌≡◌, inl, inr, refl, ap, Bool, true, false, Option,
  none, some, List, [], ◌∷◌, if◌then◌else◌, ltb, length,
}
use backend_quiz.Common.Text.{Text, trim_space}
use backend_quiz.Domain.Card.{Card}
use backend_quiz.Domain.Quiz.{
  QuestionType, mcq, true_false, fill_blank, ayat_cloze, ayat_continuation, surah_id, ordering,
  QuizQuestion,
}
use backend_quiz.Quiz.Grading.{
  Runtime, validate_question_options, to_lower, text_true, text_false, is_empty,
}
use backend_quiz.Quiz.Questions.Valid.{Passes, AllValid}
use backend_quiz.Quiz.Generation.{
  Dice, question_with, generate_mcq, generate_true_false, generate_fill_blank, generate, type_of,
  generate_from, wrong_answer, statement, blank, cons_question, map_placed,
}
use backend_quiz.Quiz.Generation.Valid.{accept}
use backend_quiz.Quiz.Ayat.Cards.{AyatCard, AyatGroup, fields, join}
use backend_quiz.Quiz.Ayat.{
  AyatDice, Texts, and_then, choose, cloze_of, generate_ayat_cloze, generate_ayat_continuation,
  generate_surah_identification, intn, slices, blank_count, cloze_question, continuation_question,
  all_pairs, space, spaced_blank,
}
use backend_quiz.Quiz.Ayat.Ordering.{ordering_of, sequences, take_count, prefix, generate_ordering}
use backend_quiz.Quiz.Ayat.Request.{type_of_round, generate_ayat, ayat_rounds, after_round}

-- a step that gives a value with P, or panics
abbrev pub IfGiven : {A : Type 0} → (A → Type 0) → Option A → Type 0
IfGiven P none = Unit
IfGiven P (some a) = P a

and_then-IfGiven :
    {A B : Type 0} (Q : B → Type 0) (o : Option A) (f : A → Option B)
    → ((a : A) → IfGiven Q (f a))
    → IfGiven Q (and_then o f)
and_then-IfGiven Q none f h = tt
and_then-IfGiven Q (some a) f h = h a

if-IfGiven :
    {A : Type 0} (Q : A → Type 0) (b : Bool) (x y : Option A)
    → IfGiven Q x
    → IfGiven Q y
    → IfGiven Q (if b then x else y)
if-IfGiven Q true x y h k = h
if-IfGiven Q false x y h k = k

module _ (rt : Runtime) (checked : QuestionType → Bool) where
  abbrev Good : QuizQuestion → Type 0
  Good q = Passes rt checked q

  -- a question, or nil
  abbrev GoodOrNil : Option QuizQuestion → Type 0
  GoodOrNil o = IfGiven Good o

  nil_free :
      (o : Option QuizQuestion) → IfGiven Good o → IfGiven GoodOrNil (and_then o λ q. some (some q))
  nil_free none h = tt
  nil_free (some q) h = h

  blank-Passes : (text answer : Text) → Good (question_with fill_blank text [] answer)
  unfolding validate_question_options
  blank-Passes text answer = inr refl

  module _ (lower_true : to_lower rt text_true ≡ text_true)
      (lower_false : to_lower rt text_false ≡ text_false) where
    true-Passes : (text : Text) → Good (question_with true_false text [] text_true)
    unfolding validate_question_options trim_space
    true-Passes text = inr (ap accept lower_true)

    false-Passes : (text : Text) → Good (question_with true_false text [] text_false)
    unfolding validate_question_options trim_space
    false-Passes text = inr (ap accept lower_false)

    Passes-if : (b : Bool) (x y : QuizQuestion) → Good x → Good y → Good (if b then x else y)
    Passes-if true x y h k = h
    Passes-if false x y h k = k

    generate-Passes :
        (dice : Dice) (kind : QuestionType) (card : Card) (cards : List Card) (idx : ℕ)
        → checked mcq ≡ false
        → IfGiven Good (generate rt dice kind card cards idx)
    unfolding generate generate_mcq generate_true_false generate_fill_blank
    generate-Passes dice mcq card cards idx h = inl h
    generate-Passes dice true_false card cards idx h =
        Passes-if (dice.intn idx 2 == 0) _ _ (true-Passes (statement card.front card.back)) (
          Passes-if (is_empty (wrong_answer card cards)) _ _
            (true-Passes (statement card.front card.back))
            (false-Passes (statement card.front (wrong_answer card cards))))
    generate-Passes dice fill_blank card cards idx h =
        blank-Passes (statement card.front blank) card.back
    generate-Passes dice _ card cards idx h = tt

    cons-AllValid :
        (quiz_id count idx : ℕ) (card : Card) (o : Option QuizQuestion)
        (rest : Option (List QuizQuestion))
        → IfGiven Good o
        → IfGiven (AllValid rt checked) rest
        → IfGiven (AllValid rt checked) (cons_question (map_placed quiz_id count idx card o) rest)
    cons-AllValid quiz_id count idx card none rest g h = tt
    cons-AllValid quiz_id count idx card (some q) none g h = tt
    cons-AllValid quiz_id count idx card (some q) (some qs) g h = (g, h)

    pub generate_from-AllValid :
        (dice : Dice) (kind : QuestionType) (cards : List Card) (quiz_id count idx : ℕ)
        (rest : List Card)
        → checked mcq ≡ false
        → IfGiven (AllValid rt checked) (generate_from rt dice kind cards quiz_id count idx rest)
    unfolding generate_from
    generate_from-AllValid dice kind cards quiz_id count idx [] h = tt
    generate_from-AllValid dice kind cards quiz_id count idx (card ∷ rest) h =
        cons-AllValid quiz_id count idx card
          (generate rt dice (type_of dice idx kind) card cards idx)
          (generate_from rt dice kind cards quiz_id count (suc idx) rest)
          (generate-Passes dice (type_of dice idx kind) card cards idx h)
          (generate_from-AllValid dice kind cards quiz_id count (suc idx) rest h)

  module _ (texts : Texts) (dice : AyatDice) (round : ℕ) where
    given :
        {A : Type 0} (o : Option A) (make : A → Option QuizQuestion)
        → ((a : A) → IfGiven Good (make a))
        → IfGiven GoodOrNil (and_then o (λ a. and_then (make a) λ q. some (some q)))
    given o make h = and_then-IfGiven GoodOrNil o _ λ a. nil_free (make a) (h a)

    choose-Passes :
        {A : Type 0} (xs : List A) (make : A → Option QuizQuestion)
        → ((a : A) → IfGiven Good (make a))
        → IfGiven GoodOrNil (choose dice round xs make)
    choose-Passes [] make h = tt
    choose-Passes (x ∷ xs) make h =
        and_then-IfGiven GoodOrNil (intn dice round 1 (length (x ∷ xs))) _
          λ i. given (get_elem? (x ∷ xs) i) make h

    cloze_question-Passes :
        (ac : AyatCard) (text answer : Text) → Good (cloze_question texts ac text answer)
    unfolding validate_question_options
    cloze_question-Passes ac text answer = inr refl

    continuation_question-Passes : (p : AyatCard × AyatCard) → Good (continuation_question texts p)
    unfolding validate_question_options
    continuation_question-Passes p = inr refl

    cloze_of-Passes : (ac : AyatCard) → IfGiven Good (cloze_of texts dice round ac)
    unfolding cloze_of
    cloze_of-Passes ac =
        let words = fields ac.card.front in
        if-IfGiven Good (ltb (length words) 3) _ _ (cloze_question-Passes ac blank ac.card.front) (
          and_then-IfGiven Good (blank_count dice round words) _ λ n.
            and_then-IfGiven Good (intn dice round 3 (length words - n - 1)) _ λ k.
              and_then-IfGiven Good (slices words (1 + k) n) _ λ s.
                cloze_question-Passes ac (join space s.0 ++ spaced_blank ++ join space s.2)
                  (join space s.1))

    ordering_of-Passes :
        (s : Text × List AyatCard)
        → checked ordering ≡ false
        → IfGiven Good (ordering_of texts dice round s)
    unfolding ordering_of
    ordering_of-Passes (surat, cs) h = and_then-IfGiven Good (take_count dice round cs) _ λ n.
        and_then-IfGiven Good (prefix cs n) _ λ selected.
          and_then-IfGiven Good (get_elem? selected 0) _ λ first.
            and_then-IfGiven Good (get_elem? selected (length selected - 1)) _ λ last. inl h

    generate_ayat-Passes :
        (cards : List AyatCard) (groups : List AyatGroup) (kind : QuestionType)
        → checked surah_id ≡ false
        → checked ordering ≡ false
        → IfGiven GoodOrNil (generate_ayat rt texts dice round cards groups kind)
    unfolding generate_ayat generate_ayat_cloze generate_ayat_continuation
        generate_surah_identification generate_ordering
    generate_ayat-Passes cards groups ayat_cloze h k =
        and_then-IfGiven GoodOrNil (intn dice round 1 (length cards)) _
          λ i. given (get_elem? cards i) (cloze_of texts dice round) cloze_of-Passes
    generate_ayat-Passes cards groups ayat_continuation h k =
        choose-Passes (all_pairs (dice.order round groups))
          (λ p. some (continuation_question texts p)) continuation_question-Passes
    generate_ayat-Passes cards groups surah_id h k =
        if-IfGiven GoodOrNil (ltb (length groups) 2) (some none) _ tt (
          and_then-IfGiven GoodOrNil (intn dice round 1 (length cards)) _
            λ i. and_then-IfGiven GoodOrNil (get_elem? cards i) _ λ ac. inl h)
    generate_ayat-Passes cards groups ordering h k =
        choose-Passes (sequences (dice.order round groups)) (ordering_of texts dice round)
          (λ s. ordering_of-Passes s k)
    generate_ayat-Passes cards groups _ h k = tt

  after_round-AllValid :
      (quiz_id count round : ℕ) (o : Option (Option QuizQuestion))
      (rest : Option (List QuizQuestion))
      → IfGiven GoodOrNil o
      → IfGiven (AllValid rt checked) rest
      → IfGiven (AllValid rt checked) (after_round quiz_id count round o rest)
  after_round-AllValid quiz_id count round none rest g h = tt
  after_round-AllValid quiz_id count round (some none) rest g h = tt
  after_round-AllValid quiz_id count round (some (some q)) none g h = tt
  after_round-AllValid quiz_id count round (some (some q)) (some qs) g h = (g, h)

  pub ayat_rounds-AllValid :
      (texts : Texts) (dice : AyatDice) (cards : List AyatCard) (groups : List AyatGroup)
      (kind : QuestionType) (quiz_id count left round : ℕ)
      → checked surah_id ≡ false
      → checked ordering ≡ false
      → IfGiven
          (AllValid rt checked)
          (ayat_rounds rt texts dice cards groups kind quiz_id count left round)
  unfolding ayat_rounds
  ayat_rounds-AllValid texts dice cards groups kind quiz_id count zero round h k = tt
  ayat_rounds-AllValid texts dice cards groups kind quiz_id count (suc left) round h k =
      after_round-AllValid quiz_id count round
        (and_then (type_of_round dice round kind) (generate_ayat rt texts dice round cards groups))
        (ayat_rounds rt texts dice cards groups kind quiz_id count left (suc round))
        (and_then-IfGiven GoodOrNil (type_of_round dice round kind) _
          λ t. generate_ayat-Passes texts dice round cards groups t h k)
        (ayat_rounds-AllValid texts dice cards groups kind quiz_id count left (suc round) h k)
