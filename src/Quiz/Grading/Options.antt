-- ===== src/Quiz/Grading/Options.antt =====
-- validateQuestionOptions of internal/service/quiz.go for multiple choice, against a description of
-- the options that can be asked.
use backend_quiz.Common.{
  ℕ, suc, ◌+◌, ◌≤◌, ◌≡◌, ◌↔◌, ◌⊎◌, inl, inr, refl, ap, ◌∙◌, Bool, true, false, Option, none, some,
  List, [], ◌∷◌, arith, Bool-cases, length, count_where, map,
}
use backend_quiz.Common.Text.{Text, text_eq, text_eq_refl, eq_of_text_eq, trim_space}
use backend_quiz.Domain.{Result, ok, err}
use backend_quiz.Domain.Quiz.{mcq, McqOption, QuizQuestion}
use backend_quiz.Quiz.Grading.Answers.{closed, is_closed, grade_answer_iff}
use backend_quiz.Quiz.Grading.{
  Runtime, count_correct, check_mcq, validate_question_options, wrong_number, exactly_one,
  grade_answer,
}

abbrev is_marked : McqOption → Bool
is_marked o = o.is_correct

-- every option is not marked as correct or has the text of the correct answer
abbrev pub AllMatch : Text → List McqOption → Type 0
AllMatch correct_answer [] = Unit
AllMatch correct_answer (o ∷ os) =
    ((o.is_correct ≡ false) ⊎ (o.text ≡ correct_answer)) × AllMatch correct_answer os

-- the options of a multiple choice question that can be asked
pub record IsMcq (correct_answer : Text) (opts : List McqOption) : Type 0 where
  pub at_least : 2 ≤ length opts
  pub at_most : length opts ≤ 6
  pub one_marked : count_where (λ (o : McqOption). o.is_correct) opts ≡ 1
  pub marked : AllMatch correct_answer opts

marked_text :
    (c : Text) (o : McqOption)
    → o.is_correct ≡ true
    → (o.is_correct ≡ false) ⊎ (o.text ≡ c)
    → o.text ≡ c
marked_text c o e (inl f) = ground (arith, e, f)
marked_text c o e (inr f) = f

count_correct_sound :
    (c : Text) (n : ℕ) (os : List McqOption) (m : ℕ)
    → count_correct c n os ≡ ok m
    → (m ≡ n + count_where is_marked os) × AllMatch c os
unfolding count_correct
count_correct_sound c n [] m h = (ground arith, tt)
count_correct_sound c n (o ∷ os) m h = elim (Bool-cases o.is_correct) [
  | inl e ↦ elim (Bool-cases (text_eq o.text c)) [
    | inl f ↦
        let (a, b) = count_correct_sound c (n + 1) os m (ground (arith, h, e, f)) in
        (ground (arith, a, e), (inr (eq_of_text_eq _ _ f), b))
    | inr f ↦ absurd (ground (arith, h, e, f))
  ]
  | inr e ↦
      let (a, b) = count_correct_sound c n os m (ground (arith, h, e)) in
      (ground (arith, a, e), (inl e, b))
]

count_correct_complete :
    (c : Text) (n : ℕ) (os : List McqOption)
    → AllMatch c os
    → count_correct c n os ≡ ok (n + count_where is_marked os)
unfolding count_correct
count_correct_complete c n [] h = ground arith
count_correct_complete c n (o ∷ os) h = elim (Bool-cases o.is_correct) [
  | inl e ↦
      let same : text_eq o.text c ≡ true =
        ap (λ t. text_eq t c) (marked_text c o e h.0) ∙ text_eq_refl c in
      rw (e, same) (count_correct_complete c (n + 1) os h.1 ∙ ap ok (omega arith))
  | inr e ↦ rw e (count_correct_complete c n os h.1)
]

exactly_one_ok : (r : Result ℕ) → exactly_one r ≡ ok tt → r ≡ ok 1
exactly_one_ok (ok n) h = ground arith
exactly_one_ok (err e) h = ground arith

check_mcq_sound :
    (c : Text) (o : Option (List McqOption))
    → check_mcq c o ≡ ok tt
    → (opts : List McqOption) × (o ≡ some opts) × IsMcq c opts
unfolding check_mcq
check_mcq_sound c none h = ground arith
check_mcq_sound c (some opts) h = elim (Bool-cases (wrong_number opts)) [
  | inl w ↦ absurd (ground (arith, h, w))
  | inr w ↦
      let e = exactly_one_ok (count_correct c 0 opts) (ground (arith, h, w)) in
      let (a, b) = count_correct_sound c 0 opts 1 e in
      (
        opts,
        refl,
        record {
          at_least = ground (arith, w);
          at_most = ground (arith, w);
          one_marked = omega (arith, a);
          marked = b;
        },
      )
]

check_mcq_complete :
    (c : Text) (opts : List McqOption) → IsMcq c opts → check_mcq c (some opts) ≡ ok tt
unfolding check_mcq
check_mcq_complete c opts i =
    let n : 0 + count_where is_marked opts ≡ 1 = omega (arith, i.one_marked) in
    let e = count_correct_complete c 0 opts i.marked ∙ ap ok n in
    let w : wrong_number opts ≡ false = ground (arith, i.at_least, i.at_most) in rw (w, e) refl

-- A multiple choice question passes validation exactly where its options decode to between two and
-- six, exactly one of them is marked as correct, and that one has the text of the correct answer.
-- Here no JSON text that decodes is empty.
pub validate_mcq_iff :
    (rt : Runtime) (options correct_answer : Text)
    → rt.unmarshal_options [] ≡ none
    → (validate_question_options rt mcq options correct_answer ≡ ok tt) ↔ (
        (opts : List McqOption) × (rt.unmarshal_options options ≡ some opts)
        × IsMcq correct_answer opts)
unfolding validate_question_options
validate_mcq_iff rt [] c json =
    (λ h. absurd (ground (arith, h)), λ p. absurd (ground (arith, p.1, json)))
validate_mcq_iff rt (d ∷ s) c json = (
  λ h. check_mcq_sound c (rt.unmarshal_options (d ∷ s)) h,
  λ p. ap (check_mcq c) p.1 ∙ check_mcq_complete c p.0 p.2,
)

marked_of_count :
    (c : Text) (os : List McqOption) (n : ℕ)
    → count_where is_marked os ≡ suc n
    → AllMatch c os
    → (o : McqOption) × (o.is_correct ≡ true) × (o.text ≡ c)
marked_of_count c [] n h m = ground arith
marked_of_count c (o ∷ os) n h m = elim (Bool-cases o.is_correct) [
  | inl e ↦ (o, e, marked_text c o e m.0)
  | inr e ↦ marked_of_count c os n (ground (arith, h, e)) m.1
]

-- A multiple choice question that passes validation can be answered: one of its options is marked as
-- correct, and the answer with that option's text is graded as correct.
pub valid_mcq_answerable :
    (rt : Runtime) (q : QuizQuestion)
    → rt.unmarshal_options [] ≡ none
    → q.question_type ≡ mcq
    → validate_question_options rt mcq q.options q.correct_answer ≡ ok tt
    → (opts : List McqOption) × (rt.unmarshal_options q.options ≡ some opts)
      × (o : McqOption) × (o.is_correct ≡ true)
      × (grade_answer rt q o.text ≡ true)
valid_mcq_answerable rt q json kind h =
    let (opts, decoded, i) = (validate_mcq_iff rt q.options q.correct_answer json).0 h in
    let (o, marked, text) = marked_of_count q.correct_answer opts 0 i.one_marked i.marked in
    (
      opts,
      decoded,
      o,
      marked,
      (grade_answer_iff rt q o.text).1
          (closed (ap is_closed kind) (ap (λ t. map rt.fold (trim_space t)) text)),
    )
