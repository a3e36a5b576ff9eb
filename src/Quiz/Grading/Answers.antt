-- ===== src/Quiz/Grading/Answers.antt =====
-- gradeAnswer of internal/service/quiz.go against a description of the accepted answers.
use backend_quiz.Common.{
  ◌≡◌, ◌↔◌, ◌⊎◌, inl, inr, refl, sym, ap, ◌∙◌, Bool, true, false, ◌||◌, List, [], ◌∷◌, map, arith,
}
use backend_quiz.Common.Text.{Text, text_eq, text_eq_refl, eq_of_text_eq, trim_space}
use backend_quiz.Domain.Quiz.{
  QuestionType, mcq, true_false, fill_blank, ayat_cloze, ayat_continuation, surah_id, ordering,
  mixed, mixed_ayat, pretest, posttest, other, QuizQuestion,
}
use backend_quiz.Quiz.Grading.{Runtime, grade_as, grade_answer, equal_fold, any_fold, alternatives}

-- equal up to case and surrounding spaces
abbrev pub IsSame : Runtime → Text → Text → Type 0
IsSame rt s t = map rt.fold (trim_space s) ≡ map rt.fold (trim_space t)

-- one of the texts is
pub data AnySame (rt : Runtime) (answer : Text) : List Text → Type 0 where
  here : {alt : Text} {alts : List Text} → IsSame rt answer alt → AnySame rt answer (alt ∷ alts)
  there : {alt : Text} {alts : List Text} → AnySame rt answer alts → AnySame rt answer (alt ∷ alts)

-- the types of question with one closed answer, up to case and spaces
abbrev pub is_closed : QuestionType → Bool
is_closed mcq = true
is_closed true_false = true
is_closed surah_id = true
is_closed _ = false

-- the types of question whose options are more accepted answers
abbrev pub is_open : QuestionType → Bool
is_open fill_blank = true
is_open ayat_cloze = true
is_open ayat_continuation = true
is_open _ = false

abbrev pub is_ordering : QuestionType → Bool
is_ordering ordering = true
is_ordering _ = false

-- the answers that a question of a type accepts
pub data Accepts (rt : Runtime) (kind : QuestionType) (q : QuizQuestion) (answer : Text)
    : Type 0 where
  closed : is_closed kind ≡ true → IsSame rt answer q.correct_answer → Accepts rt kind q answer
  correct : is_open kind ≡ true → IsSame rt answer q.correct_answer → Accepts rt kind q answer
  alternative :
      is_open kind ≡ true → AnySame rt answer (alternatives rt q.options) → Accepts rt kind q answer
  in_order :
      is_ordering kind ≡ true → trim_space answer ≡ q.correct_answer → Accepts rt kind q answer

text_eq_iff : (s t : Text) → (text_eq s t ≡ true) ↔ (s ≡ t)
text_eq_iff s t = (eq_of_text_eq s t, λ e. ap (text_eq s) (sym e) ∙ text_eq_refl s)

or_true : (a b : Bool) → (a || b) ≡ true → (a ≡ true) ⊎ (b ≡ true)
or_true true b h = inl refl
or_true false b h = inr h

true_or : (a b : Bool) → b ≡ true → (a || b) ≡ true
true_or true b h = refl
true_or false b h = h

any_fold_sound :
    (rt : Runtime) (answer : Text) (alts : List Text)
    → any_fold rt (trim_space answer) alts ≡ true
    → AnySame rt answer alts
any_fold_sound rt answer [] h = ground arith
any_fold_sound rt answer (alt ∷ alts) h =
    elim (or_true (equal_fold rt (trim_space answer) (trim_space alt)) _ h) [
      | inl e ↦ here (eq_of_text_eq _ _ e)
      | inr e ↦ there (any_fold_sound rt answer alts e)
    ]

any_fold_complete :
    (rt : Runtime) (answer : Text) (alts : List Text)
    → AnySame rt answer alts
    → any_fold rt (trim_space answer) alts ≡ true
any_fold_complete rt answer [] m = elim m [ ]
any_fold_complete rt answer (alt ∷ alts) (here e) =
    rw ((text_eq_iff (map rt.fold (trim_space answer)) (map rt.fold (trim_space alt))).1 e)
any_fold_complete rt answer (alt ∷ alts) (there m) =
    true_or _ _ (any_fold_complete rt answer alts m)

module _ (rt : Runtime) (q : QuizQuestion) (answer : Text) where
  closed_iff :
      (kind : QuestionType)
      → is_closed kind ≡ true
      → equal_fold rt (trim_space answer) (trim_space q.correct_answer) ≡ true
      → Accepts rt kind q answer
  closed_iff kind c h = closed c (eq_of_text_eq _ _ h)

  open_iff :
      (kind : QuestionType)
      → is_open kind ≡ true
      → (equal_fold rt (trim_space answer) (trim_space q.correct_answer)
          || any_fold rt (trim_space answer) (alternatives rt q.options))
        ≡ true
      → Accepts rt kind q answer
  open_iff kind o h = elim (or_true _ _ h) [
    | inl e ↦ correct o (eq_of_text_eq _ _ e)
    | inr e ↦ alternative o (any_fold_sound rt answer _ e)
  ]

  grade_as_sound :
      (kind : QuestionType)
      → grade_as rt kind q (trim_space answer) ≡ true
      → Accepts rt kind q answer
  unfolding grade_as
  grade_as_sound mcq h = closed_iff mcq refl h
  grade_as_sound true_false h = closed_iff true_false refl h
  grade_as_sound surah_id h = closed_iff surah_id refl h
  grade_as_sound fill_blank h = open_iff fill_blank refl h
  grade_as_sound ayat_cloze h = open_iff ayat_cloze refl h
  grade_as_sound ayat_continuation h = open_iff ayat_continuation refl h
  grade_as_sound ordering h = in_order refl (eq_of_text_eq _ _ h)
  grade_as_sound mixed h = ground arith
  grade_as_sound mixed_ayat h = ground arith
  grade_as_sound pretest h = ground arith
  grade_as_sound posttest h = ground arith
  grade_as_sound (other s) h = ground arith

  same_true :
      IsSame rt answer q.correct_answer
      → equal_fold rt (trim_space answer) (trim_space q.correct_answer) ≡ true
  same_true e = (text_eq_iff _ _).1 e

  closed_true :
      (kind : QuestionType)
      → is_closed kind ≡ true
      → IsSame rt answer q.correct_answer
      → grade_as rt kind q (trim_space answer) ≡ true
  unfolding grade_as
  closed_true kind c e = ground (arith, same_true e)

  open_true :
      (kind : QuestionType)
      → is_open kind ≡ true
      → (equal_fold rt (trim_space answer) (trim_space q.correct_answer)
          || any_fold rt (trim_space answer) (alternatives rt q.options))
        ≡ true
      → grade_as rt kind q (trim_space answer) ≡ true
  unfolding grade_as
  open_true fill_blank o e = e
  open_true ayat_cloze o e = e
  open_true ayat_continuation o e = e
  open_true mcq o e = ground arith
  open_true true_false o e = ground arith
  open_true surah_id o e = ground arith
  open_true _ o e = ground arith

  grade_as_complete :
      (kind : QuestionType)
      → Accepts rt kind q answer
      → grade_as rt kind q (trim_space answer) ≡ true
  unfolding grade_as
  grade_as_complete kind (closed c e) = closed_true kind c e
  grade_as_complete kind (correct o e) = open_true kind o (rw (same_true e))
  grade_as_complete kind (alternative o m) =
      open_true kind o (true_or _ _ (any_fold_complete rt answer _ m))
  grade_as_complete ordering (in_order o e) = (text_eq_iff _ _).1 e
  grade_as_complete _ (in_order o e) = ground arith

-- An answer is graded as correct exactly where its question accepts it: up to case and surrounding
-- spaces the correct answer, or, for a fill-in or an ayat question, one of the alternatives in its
-- options; for an ordering, the correct answer itself, which is not trimmed, once the answer is; and
-- for no other type of question.
pub grade_answer_iff :
    (rt : Runtime) (q : QuizQuestion) (answer : Text)
    → (grade_answer rt q answer ≡ true) ↔ Accepts rt q.question_type q answer
unfolding grade_answer
grade_answer_iff rt q answer =
    (grade_as_sound rt q answer q.question_type, grade_as_complete rt q answer q.question_type)
