-- ===== src/Quiz/Ayat/Request.antt =====
-- internal/service/quiz.go: GenerateAyatQuiz.
use backend_quiz.Common.{
  ℕ, zero, suc, ◌+◌, ◌==◌, Bool, Option, none, some, List, [], ◌∷◌, ltb, if◌then◌else◌, length,
}
use backend_quiz.Common.{pos}
use backend_quiz.Common.Text.{Text}
use backend_quiz.Domain.{database, insufficient_cards, Result, ok, err}
use backend_quiz.Domain.Card.{Env}
use backend_quiz.Domain.Quiz.{
  QuestionType, ayat_cloze, ayat_continuation, surah_id, ordering, mixed_ayat, QuizQuestion,
}
use backend_quiz.Db.{M, lift, raise_if, ◌>>=◌, ◌>>◌}
use backend_quiz.Repository.Tables.{Tables}
use backend_quiz.Repository.Cards.{list_cards}
use backend_quiz.Repository.Quizzes.{count_questions, bulk_create_questions}
use backend_quiz.Decks.{own_deck, no_filter}
use backend_quiz.Quiz.Grading.{Runtime}
use backend_quiz.Quiz.Questions.{own_quiz}
use backend_quiz.Quiz.Ayat.Cards.{AyatCard, AyatGroup, Reader, filter_ayat_cards, group_by_surat}
use backend_quiz.Quiz.Ayat.{
  AyatDice, Texts, and_then, intn, generate_ayat_cloze, generate_ayat_continuation,
  generate_surah_identification,
}
use backend_quiz.Quiz.Ayat.Ordering.{generate_ordering}

-- types[i]
abbrev pub ayat_type : ℕ → Option QuestionType
ayat_type i =
    if i == 0
    then some ayat_cloze
    else if i == 1
    then some ayat_continuation
    else if i == 2
    then some surah_id
    else if i == 3
    then some ordering
    else none

abbrev pub type_of_round : AyatDice → ℕ → QuestionType → Option QuestionType
type_of_round dice round mixed_ayat = and_then (intn dice round 0 4) ayat_type
type_of_round dice round kind = some kind

-- the switch; `some none` is the nil question, and `none` a panic
unfoldable pub generate_ayat :
    Runtime
    → Texts
    → AyatDice
    → ℕ
    → List AyatCard
    → List AyatGroup
    → QuestionType
    → Option (Option QuizQuestion)
unfolding generate_ayat_cloze generate_ayat_continuation generate_surah_identification
    generate_ordering
generate_ayat rt texts dice round cards groups ayat_cloze =
    generate_ayat_cloze texts dice round cards
generate_ayat rt texts dice round cards groups ayat_continuation =
    generate_ayat_continuation texts dice round groups
generate_ayat rt texts dice round cards groups surah_id =
    generate_surah_identification rt texts dice round cards groups
generate_ayat rt texts dice round cards groups ordering = generate_ordering texts dice round groups
generate_ayat rt texts dice round cards groups _ = some none

-- q.QuizID, q.Position
abbrev pub at_round : ℕ → ℕ → ℕ → QuizQuestion → QuizQuestion
at_round quiz_id count round q = record q { quiz_id = quiz_id; position = pos (count + round) }

-- the rest of the loop after a round; a nil question ends the loop
abbrev pub after_round :
    ℕ
    → ℕ
    → ℕ
    → Option (Option QuizQuestion)
    → Option (List QuizQuestion)
    → Option (List QuizQuestion)
after_round quiz_id count round none rest = none
after_round quiz_id count round (some none) rest = some []
after_round quiz_id count round (some (some q)) rest =
    and_then rest (λ qs. some (at_round quiz_id count round q ∷ qs))

-- the loop, from `round` on, for `left` questions more
unfoldable pub ayat_rounds :
    Runtime
    → Texts
    → AyatDice
    → List AyatCard
    → List AyatGroup
    → QuestionType
    → ℕ
    → ℕ
    → ℕ
    → ℕ
    → Option (List QuizQuestion)
unfolding generate_ayat
ayat_rounds rt texts dice cards groups kind quiz_id count zero round = some []
ayat_rounds rt texts dice cards groups kind quiz_id count (suc left) round =
    let rest = ayat_rounds rt texts dice cards groups kind quiz_id count left (suc round) in
    after_round quiz_id count round
      (and_then (type_of_round dice round kind) (generate_ayat rt texts dice round cards groups))
      rest

-- a panic ends the request before it writes
abbrev pub or_insufficient : Option (List QuizQuestion) → Result (List QuizQuestion)
or_insufficient none = err database
or_insufficient (some []) = err insufficient_cards
or_insufficient (some (q ∷ qs)) = ok (q ∷ qs)

-- GenerateAyatQuiz
unfoldable pub generate_ayat_quiz :
    Env
    → Runtime
    → Texts
    → Reader
    → AyatDice
    → (Text → Text → Bool)
    → ℕ
    → ℕ
    → ℕ
    → QuestionType
    → ℕ
    → M Tables (List QuizQuestion)
unfolding filter_ayat_cards group_by_surat ayat_rounds
generate_ayat_quiz env rt texts reader dice ilike user_id quiz_id deck_id kind number = do
  quiz ← own_quiz user_id quiz_id
  deck ← own_deck user_id deck_id
  (listed, _) ← list_cards ilike deck_id no_filter (pos 10000) (pos 0)
  let cards = filter_ayat_cards reader listed
  raise_if (ltb (length cards) 2) insufficient_cards
  count ← count_questions quiz_id
  questions ← lift (
      or_insufficient
        (ayat_rounds rt texts dice cards (group_by_surat reader cards) kind quiz_id count number 0))
  bulk_create_questions env questions
