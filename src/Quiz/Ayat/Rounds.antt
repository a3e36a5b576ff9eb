-- ===== src/Quiz/Ayat/Rounds.antt =====
-- The loop of GenerateAyatQuiz of internal/service/quiz.go.
use mathlib.Core.Path.{subst}
use backend_quiz.Common.{
  ℕ, zero, suc, ◌+◌, ◌≤◌, ◌<◌, ◌≡◌, refl, arith, Option, none, some, List, [], ◌∷◌, length, pos,
}
use backend_quiz.Domain.Quiz.{
  QuestionType, ayat_cloze, ayat_continuation, surah_id, ordering, mixed_ayat, QuizQuestion,
}
use backend_quiz.Quiz.Grading.{Runtime}
use backend_quiz.Quiz.Ayat.Cards.{AyatCard, AyatGroup}
use backend_quiz.Quiz.Ayat.{AyatDice, Texts, intn}
use backend_quiz.Quiz.Ayat.Request.{
  ayat_type, type_of_round, generate_ayat, after_round, ayat_rounds,
}
use backend_quiz.Quiz.Ayat.Safe.{
  Gives, Any, InRange, and_then-Gives, intn-Gives, generate_ayat_cloze-Gives,
  generate_ayat_continuation-Gives,
}
use backend_quiz.Quiz.Ayat.Sequences.{generate_ordering-Gives, generate_surah_identification-Gives}

-- the questions of a quiz, at the positions from `k` on
abbrev pub Numbered : ℕ → ℕ → List QuizQuestion → Type 0
Numbered quiz_id k [] = Unit
Numbered quiz_id k (q ∷ qs) =
    (q.quiz_id ≡ quiz_id) × (q.position ≡ pos k) × Numbered quiz_id (suc k) qs

ayat_type-Gives : (i : ℕ) → i < 4 → Gives Any (ayat_type i)
ayat_type-Gives i h = ground arith

Gives-witness :
    {A : Type 0} (P : A → Type 0) (o : Option A) → Gives P o → (a : A) × (o ≡ some a) × P a
Gives-witness P none g = absurd g
Gives-witness P (some a) g = (a, refl, g)

module _ (rt : Runtime) (texts : Texts) (dice : AyatDice) (range : InRange dice)
    (cards : List AyatCard) (groups : List AyatGroup) (some_card : 1 ≤ length cards) where
  type_of_round-Gives :
      (round : ℕ) (kind : QuestionType) → Gives Any (type_of_round dice round kind)
  type_of_round-Gives round mixed_ayat =
      and_then-Gives (λ i. i < 4) Any (intn dice round 0 4) ayat_type
        (intn-Gives texts dice range round 0 4 (omega arith)) ayat_type-Gives
  type_of_round-Gives round _ = tt

  generate_ayat-Gives :
      (round : ℕ) (kind : QuestionType)
      → Gives Any (generate_ayat rt texts dice round cards groups kind)
  unfolding generate_ayat
  generate_ayat-Gives round ayat_cloze =
      generate_ayat_cloze-Gives texts dice range round cards some_card
  generate_ayat-Gives round ayat_continuation =
      generate_ayat_continuation-Gives texts dice range round groups
  generate_ayat-Gives round surah_id =
      generate_surah_identification-Gives rt texts dice range round cards groups some_card
  generate_ayat-Gives round ordering = generate_ordering-Gives rt texts dice range round groups
  generate_ayat-Gives round _ = tt

  module _ (quiz_id count : ℕ) where
    abbrev Made : ℕ → ℕ → List QuizQuestion → Type 0
    Made left round qs = (length qs ≤ left) × Numbered quiz_id (count + round) qs

    after_round-Gives :
        (left round : ℕ) (o : Option (Option QuizQuestion)) (rest : Option (List QuizQuestion))
        → Gives Any o
        → Gives (Made left (suc round)) rest
        → Gives (Made (suc left) round) (after_round quiz_id count round o rest)
    after_round-Gives left round none rest g h = g
    after_round-Gives left round (some none) rest g h = (omega arith, tt)
    after_round-Gives left round (some (some q)) rest g h =
        and_then-Gives (Made left (suc round)) (Made (suc left) round) rest _ h (λ qs m.
          (omega (arith, m.0), (refl, refl, subst (λ k. Numbered quiz_id k qs) (omega arith) m.1)))

    ayat_rounds-Gives :
        (kind : QuestionType) (left round : ℕ)
        → Gives
            (Made left round)
            (ayat_rounds rt texts dice cards groups kind quiz_id count left round)
    unfolding ayat_rounds
    ayat_rounds-Gives kind zero round = (omega arith, tt)
    ayat_rounds-Gives kind (suc left) round =
        after_round-Gives left round _ _
          (and_then-Gives Any Any _ _ (type_of_round-Gives round kind)
            (λ k u. generate_ayat-Gives round k))
          (ayat_rounds-Gives kind left (suc round))

    -- Where there is a card with a verse, and `intn` gives numbers below its argument, the loop of
    -- GenerateAyatQuiz never panics: it gives a list of at most the wanted number of questions, all
    -- of the quiz, whose positions follow each other from `count` plus the round on.
    pub ayat_rounds_total :
        (kind : QuestionType) (left round : ℕ)
        → (qs : List QuizQuestion) × (ayat_rounds rt texts dice cards groups kind quiz_id count left
              round
            ≡ some qs)
          × (length qs ≤ left)
          × Numbered quiz_id (count + round) qs
    ayat_rounds_total kind left round =
        let made =
          Gives-witness (Made left round)
            (ayat_rounds rt texts dice cards groups kind quiz_id count left round)
            (ayat_rounds-Gives kind left round) in
        (made.0, made.1, made.2.0, made.2.1)
