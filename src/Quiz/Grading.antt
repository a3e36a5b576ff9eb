-- ===== src/Quiz/Grading.antt =====
-- gradeAnswer and validateQuestionOptions of internal/service/quiz.go. What they use of Go's
-- library beyond package strings is the record `Runtime`: encoding/json at the types that the
-- service decodes and encodes, and the case tables of package unicode.
pub mod Answers
pub mod Options
use backend_quiz.Common.{
  ℕ, suc, ◌+◌, ◌≡◌, refl, Bool, true, false, ◌||◌, Option, none, some, List, [], ◌∷◌, map, ◌==◌,
  ltb, if◌then◌else◌, length,
}
use backend_quiz.Common.Text.{Text, text_eq, trim_space}
use backend_quiz.Domain.{Error, invalid_input, Result, ok, err}
use backend_quiz.Domain.Quiz.{
  QuestionType, mcq, true_false, fill_blank, ayat_cloze, ayat_continuation, surah_id, ordering,
  McqOption, QuizQuestion,
}

pub record Runtime : Type 0 where
  -- json.Unmarshal into []MCQOption and into []string; none is an error
  pub unmarshal_options : Text → Option (List McqOption)
  pub unmarshal_strings : Text → Option (List Text)
  -- json.Marshal of []MCQOption and of []safeOption, an object with the text alone
  pub marshal_options : List McqOption → Text
  pub marshal_texts : List Text → Text
  -- the least code point that is equal under simple folding, and unicode.ToLower
  pub fold : ℕ → ℕ
  pub lower : ℕ → ℕ

-- strings.EqualFold
abbrev pub equal_fold : Runtime → Text → Text → Bool
equal_fold rt s t = text_eq (map rt.fold s) (map rt.fold t)

-- the loop over the alternatives
abbrev pub any_fold : Runtime → Text → List Text → Bool
any_fold rt answer [] = false
any_fold rt answer (alt ∷ alts) = equal_fold rt answer (trim_space alt) || any_fold rt answer alts

-- the alternatives in the options; those that do not decode are none
abbrev pub alternatives : Runtime → Text → List Text
alternatives rt [] = []
alternatives rt (c ∷ s) = elim (rt.unmarshal_strings (c ∷ s)) [ none ↦ [] | some alts ↦ alts ]

-- the switch of gradeAnswer, on the trimmed answer
unfoldable pub grade_as : Runtime → QuestionType → QuizQuestion → Text → Bool
grade_as rt mcq q answer = equal_fold rt answer (trim_space q.correct_answer)
grade_as rt true_false q answer = equal_fold rt answer (trim_space q.correct_answer)
grade_as rt fill_blank q answer =
    equal_fold rt answer (trim_space q.correct_answer)
    || any_fold rt answer (alternatives rt q.options)
grade_as rt ayat_cloze q answer =
    equal_fold rt answer (trim_space q.correct_answer)
    || any_fold rt answer (alternatives rt q.options)
grade_as rt ayat_continuation q answer =
    equal_fold rt answer (trim_space q.correct_answer)
    || any_fold rt answer (alternatives rt q.options)
grade_as rt surah_id q answer = equal_fold rt answer (trim_space q.correct_answer)
grade_as rt ordering q answer = text_eq answer q.correct_answer
grade_as rt _ q answer = false

-- gradeAnswer
unfoldable pub grade_answer : Runtime → QuizQuestion → Text → Bool
grade_answer rt q answer = grade_as rt q.question_type q (trim_space answer)

-- the loop over the options of an MCQ: the number of correct ones
unfoldable pub count_correct : Text → ℕ → List McqOption → Result ℕ
count_correct correct_answer n [] = ok n
count_correct correct_answer n (o ∷ os) =
    let more = count_correct correct_answer (n + 1) os in
    let same = count_correct correct_answer n os in
    if o.is_correct
    then (if text_eq o.text correct_answer then more else err invalid_input)
    else same

abbrev pub exactly_one : Result ℕ → Result (Unit {0})
exactly_one (ok n) = if n == 1 then ok tt else err invalid_input
exactly_one (err e) = err e

-- 2-6 options
abbrev pub wrong_number : List McqOption → Bool
wrong_number opts = ltb (length opts) 2 || ltb 6 (length opts)

unfoldable pub check_mcq : Text → Option (List McqOption) → Result (Unit {0})
unfolding count_correct
check_mcq correct_answer none = err invalid_input
check_mcq correct_answer (some opts) =
    if wrong_number opts
    then err invalid_input
    else exactly_one (count_correct correct_answer 0 opts)

unfoldable pub check_number : Option (List McqOption) → Result (Unit {0})
check_number none = err invalid_input
check_number (some opts) = if wrong_number opts then err invalid_input else ok tt

abbrev pub check_strings : Option (List Text) → Result (Unit {0})
check_strings none = err invalid_input
check_strings (some alts) = ok tt

-- len(options) == 0
abbrev pub is_empty : Text → Bool
is_empty [] = true
is_empty (c ∷ s) = false

-- strings.ToLower
abbrev pub to_lower : Runtime → Text → Text
to_lower rt s = map rt.lower s

abbrev pub text_true : Text
text_true = b't' ∷ b'r' ∷ b'u' ∷ b'e' ∷ []

abbrev pub text_false : Text
text_false = b'f' ∷ b'a' ∷ b'l' ∷ b's' ∷ b'e' ∷ []

-- the case of fill_blank, ayat_cloze and ayat_continuation
abbrev pub check_alternatives : Runtime → Text → Result (Unit {0})
check_alternatives rt options =
    if is_empty options then ok tt else check_strings (rt.unmarshal_strings options)

-- validateQuestionOptions
unfoldable pub validate_question_options : Runtime → QuestionType → Text → Text → Result (Unit {0})
unfolding check_mcq check_number
validate_question_options rt mcq options correct_answer =
    if is_empty options
    then err invalid_input
    else check_mcq correct_answer (rt.unmarshal_options options)
validate_question_options rt true_false options correct_answer =
    let a = to_lower rt (trim_space correct_answer) in
    if text_eq a text_true then ok tt else if text_eq a text_false then ok tt else err invalid_input
validate_question_options rt fill_blank options correct_answer = check_alternatives rt options
validate_question_options rt ayat_cloze options correct_answer = check_alternatives rt options
validate_question_options rt ayat_continuation options correct_answer =
    check_alternatives rt options
validate_question_options rt surah_id options correct_answer =
    if is_empty options then err invalid_input else check_number (rt.unmarshal_options options)
validate_question_options rt ordering options correct_answer =
    if is_empty options then err invalid_input else ok tt
validate_question_options rt _ options correct_answer = ok tt
