-- ===== src/Checks/Generation.antt =====
-- Examples of the theorems of `Quiz.Generation`, with a text form of options that can be read back:
-- 9, and then for each option 1 or 0 and the code points of its text, each raised by 2.
use mathlib.Core.List.{append-nil}
use mathlib.Core.List.Permᴰ
use backend_quiz.Common.{
  ℕ, ◌+◌, ◌-◌, ◌==◌, ◌≡◌, ◌≤◌, length, refl, ap, ◌∙◌, Bool, true, false, Option, none, some, List,
  [], ◌∷◌, ◌++◌, arith, if◌then◌else◌,
}
use backend_quiz.Common.Text.{Text}
use backend_quiz.Domain.{ok}
use backend_quiz.Domain.Card.{Card}
use backend_quiz.Domain.Quiz.{mcq, McqOption, QuizQuestion}
use backend_quiz.Quiz.Grading.{Runtime, grade_answer, validate_question_options}
use backend_quiz.Quiz.Generation.{Dice, generate, generate_mcq, distractors}
use backend_quiz.Quiz.Generation.Valid.{generate_answerable}
use backend_quiz.Checks.Rows.{rt, card_row}

abbrev raise_all : Text → Text → Text
raise_all [] rest = rest
raise_all (c ∷ s) rest = (c + 2) ∷ raise_all s rest

abbrev encode : List McqOption → Text
encode [] = []
encode (o ∷ os) = (if o.is_correct then 1 else 0) ∷ raise_all o.text (encode os)

abbrev read_back : ℕ → Text × List McqOption → Text × List McqOption
read_back c (text, os) =
    if c == 0
    then ([], record { text = text; is_correct = false } ∷ os)
    else if c == 1
    then ([], record { text = text; is_correct = true } ∷ os)
    else ((c - 2) ∷ text, os)

abbrev decode : Text → Text × List McqOption
decode [] = ([], [])
decode (c ∷ s) = read_back c (decode s)

read_raised :
    (c : ℕ) (text : Text) (os : List McqOption) → read_back (c + 2) (text, os) ≡ (c ∷ text, os)
read_raised c text os = ground arith

decode-raise_all :
    (s rest : Text) → decode (raise_all s rest) ≡ (s ++ (decode rest).0, (decode rest).1)
decode-raise_all [] rest = refl
decode-raise_all (c ∷ s) rest = ap (read_back (c + 2)) (decode-raise_all s rest) ∙ read_raised c _ _

read_flag :
    (flag : Bool) (text : Text) (os : List McqOption)
    → read_back (if flag then 1 else 0) (text ++ [], os)
      ≡ ([], record { text = text; is_correct = flag } ∷ os)
read_flag true text os =
    ap (λ t. ([], record { text = t; is_correct = true } ∷ os)) (append-nil text)
read_flag false text os =
    ap (λ t. ([], record { text = t; is_correct = false } ∷ os)) (append-nil text)

decode-encode : (os : List McqOption) → decode (encode os) ≡ ([], os)
decode-encode [] = refl
decode-encode (o ∷ os) =
    ap (read_back (if o.is_correct then 1 else 0)) (
      decode-raise_all o.text (encode os)
      ∙ ap (λ (x : Text × List McqOption). (o.text ++ x.0, x.1)) (decode-encode os))
    ∙ read_flag o.is_correct o.text os

abbrev read_options : Text → Option (List McqOption)
read_options [] = none
read_options (c ∷ s) = some (decode s).1

abbrev reading : Runtime
reading = record rt { unmarshal_options = read_options; marshal_options = λ os. 9 ∷ encode os }

abbrev pub dice : Dice
dice = record {
  shuffle_cards = λ cs. cs;
  shuffle_texts = λ i ts. ts;
  shuffle_options = λ i os. os;
  intn = λ i n. 0;
}

abbrev asked : Card
asked = record card_row { front = b'q' ∷ []; back = b'a' ∷ [] }

abbrev other_card : Card
other_card = record card_row { id = 4; back = b'b' ∷ [] }

abbrev deck_cards : List Card
deck_cards = asked ∷ other_card ∷ []

abbrev question : QuizQuestion
unfolding generate_mcq
question = generate_mcq reading dice asked deck_cards 0

some_other : 1 ≤ length (distractors asked 0 0 deck_cards)
unfolding distractors
some_other = omega arith

generated : generate reading dice mcq asked deck_cards 0 ≡ some question
unfolding generate
generated = refl

generate_answerable_example :
    (validate_question_options reading question.question_type question.options
        question.correct_answer
      ≡ ok tt)
    × (grade_answer reading question question.correct_answer ≡ true)
generate_answerable_example =
    generate_answerable reading dice mcq asked deck_cards 0 question (λ i ts. Permᴰ.refl ts)
      (λ i os. Permᴰ.refl os)
      (λ os. ap (λ (x : Text × List McqOption). some x.1) (decode-encode os)) refl refl refl
      some_other generated
