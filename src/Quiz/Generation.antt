-- ===== src/Quiz/Generation.antt =====
-- internal/service/quiz.go: the questions that GenerateFromDeck makes of the cards of a deck.
pub mod Valid
use backend_quiz.Common.{
  ℕ, suc, ◌+◌, ◌==◌, Bool, true, false, not, ◌&&◌, ◌||◌, Option, none, some, List, [], ◌∷◌, ◌++◌,
  ltb, if◌then◌else◌, length, map, take,
}
use backend_quiz.Common.{ℤ, pos}
use backend_quiz.Common.Text.{Text, text_eq}
use backend_quiz.Domain.{Error, database, insufficient_cards, Result, ok, err}
use backend_quiz.Domain.Card.{Env, Card}
use backend_quiz.Domain.Quiz.{
  QuestionType, mcq, true_false, fill_blank, mixed, McqOption, QuizQuestion,
}
use backend_quiz.Db.{M, lift, pure, raise_if, ◌>>=◌, ◌>>◌}
use backend_quiz.Repository.Tables.{Tables}
use backend_quiz.Repository.Cards.{list_cards}
use backend_quiz.Repository.Quizzes.{count_questions, bulk_create_questions}
use backend_quiz.Decks.{own_deck, no_filter}
use backend_quiz.Quiz.Grading.{Runtime, text_true, text_false, is_empty}
use backend_quiz.Quiz.Questions.{own_quiz}

-- The calls of math/rand in a request: the shuffles, with the round of the loop that they are in,
-- and Intn of a round.
pub record Dice : Type 0 where
  pub shuffle_cards : List Card → List Card
  pub shuffle_texts : ℕ → List Text → List Text
  pub shuffle_options : ℕ → List McqOption → List McqOption
  pub intn : ℕ → ℕ → ℕ

-- a generated question, before GenerateFromDeck gives it its quiz, card and position
abbrev pub question_with : QuestionType → Text → Text → Text → QuizQuestion
question_with kind text options correct_answer = record {
  id = 0;
  quiz_id = 0;
  card_id = none;
  question_type = kind;
  question_text = text;
  options = options;
  correct_answer = correct_answer;
  explanation = [];
  position = pos 0;
  points = pos 1;
  created_at = 0;
  updated_at = 0;
}

-- the loop that collects the distractors; `j` is its index
unfoldable pub distractors : Card → ℕ → ℕ → List Card → List Text
distractors card idx j [] = []
distractors card idx j (c ∷ cs) =
    let rest = distractors card idx (suc j) cs in
    if not (j == idx) && not (text_eq c.back card.back) then c.back ∷ rest else rest

abbrev pub wrong_option : Text → McqOption
wrong_option text = record { text = text; is_correct = false }

-- the options before their shuffle: the right one, and at most three others
unfoldable pub mcq_options : Dice → ℕ → Card → List Card → List McqOption
unfolding distractors
mcq_options dice idx card cards =
    record { text = card.back; is_correct = true }
    ∷ map wrong_option (take 3 (dice.shuffle_texts idx (distractors card idx 0 cards)))

-- generateMCQ
unfoldable pub generate_mcq : Runtime → Dice → Card → List Card → ℕ → QuizQuestion
unfolding mcq_options
generate_mcq rt dice card cards idx =
    question_with mcq card.front
      (rt.marshal_options (dice.shuffle_options idx (mcq_options dice idx card cards))) card.back

-- the first back of another text; "" where there is none
unfoldable pub wrong_answer : Card → List Card → Text
wrong_answer card [] = []
wrong_answer card (c ∷ cs) =
    let rest = wrong_answer card cs in if not (text_eq c.back card.back) then c.back else rest

-- fmt.Sprintf("%s: %s", front, back)
abbrev pub statement : Text → Text → Text
statement front back = front ++ b':' ∷ b' ' ∷ back

-- generateTrueFalse
unfoldable pub generate_true_false : Dice → Card → List Card → ℕ → QuizQuestion
unfolding wrong_answer
generate_true_false dice card cards idx =
    let wrong = wrong_answer card cards in
    if dice.intn idx 2 == 0
    then question_with true_false (statement card.front card.back) [] text_true
    else if is_empty wrong
    then question_with true_false (statement card.front card.back) [] text_true
    else question_with true_false (statement card.front wrong) [] text_false

abbrev pub blank : Text
blank = b'_' ∷ b'_' ∷ b'_' ∷ b'_' ∷ b'_' ∷ []

-- generateFillBlank
unfoldable pub generate_fill_blank : Card → QuizQuestion
generate_fill_blank card = question_with fill_blank (statement card.front blank) [] card.back

-- types[rng.Intn(len(types))]
abbrev pub mixed_type : ℕ → QuestionType
mixed_type n = if n == 0 then mcq else if n == 1 then true_false else fill_blank

abbrev pub type_of : Dice → ℕ → QuestionType → QuestionType
type_of dice idx mixed = mixed_type (dice.intn idx 3)
type_of dice idx kind = kind

-- the switch; a type that is none of the three leaves the question nil
unfoldable pub generate : Runtime → Dice → QuestionType → Card → List Card → ℕ → Option QuizQuestion
unfolding generate_mcq generate_true_false generate_fill_blank
generate rt dice mcq card cards idx = some (generate_mcq rt dice card cards idx)
generate rt dice true_false card cards idx = some (generate_true_false dice card cards idx)
generate rt dice fill_blank card cards idx = some (generate_fill_blank card)
generate rt dice _ card cards idx = none

-- q.QuizID, q.CardID, q.Position
abbrev pub placed : ℕ → ℕ → ℕ → Card → QuizQuestion → QuizQuestion
placed quiz_id count idx card q = record q {
  quiz_id = quiz_id;
  card_id = some card.id;
  position = pos (count + idx);
}

abbrev pub cons_question :
    Option QuizQuestion → Option (List QuizQuestion) → Option (List QuizQuestion)
cons_question (some q) (some qs) = some (q ∷ qs)
cons_question _ _ = none

abbrev pub map_placed : ℕ → ℕ → ℕ → Card → Option QuizQuestion → Option QuizQuestion
map_placed quiz_id count idx card none = none
map_placed quiz_id count idx card (some q) = some (placed quiz_id count idx card q)

-- the loop; it ends at the first nil question, which the source follows (see `or_panic`)
unfoldable pub generate_from :
    Runtime → Dice → QuestionType → List Card → ℕ → ℕ → ℕ → List Card → Option (List QuizQuestion)
unfolding generate
generate_from rt dice kind cards quiz_id count idx [] = some []
generate_from rt dice kind cards quiz_id count idx (card ∷ rest) =
    cons_question
      (map_placed quiz_id count idx card (generate rt dice (type_of dice idx kind) card cards idx))
      (generate_from rt dice kind cards quiz_id count (suc idx) rest)

-- a nil question is a panic, which ends the request before it writes
abbrev pub or_panic : Option (List QuizQuestion) → Result (List QuizQuestion)
or_panic none = err database
or_panic (some qs) = ok qs

-- four cards for options, and two otherwise
abbrev pub needs_four : QuestionType → Bool
needs_four mcq = true
needs_four mixed = true
needs_four _ = false

-- GenerateFromDeck; the validator of the request refuses a count below 1
unfoldable pub generate_from_deck :
    Env
    → Runtime
    → Dice
    → (Text → Text → Bool)
    → ℕ
    → ℕ
    → ℕ
    → QuestionType
    → ℕ
    → M Tables (List QuizQuestion)
unfolding generate_from
generate_from_deck env rt dice ilike user_id quiz_id deck_id kind number = do
  quiz ← own_quiz user_id quiz_id
  deck ← own_deck user_id deck_id
  (cards, _) ← list_cards ilike deck_id no_filter (pos 10000) (pos 0)
  raise_if (ltb (length cards) 2) insufficient_cards
  raise_if (needs_four kind && ltb (length cards) 4) insufficient_cards
  count ← count_questions quiz_id
  questions ← lift (
      or_panic (
        generate_from rt dice kind (dice.shuffle_cards cards) quiz_id count 0
          (take number (dice.shuffle_cards cards))))
  bulk_create_questions env questions
