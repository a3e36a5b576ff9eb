-- ===== src/Quiz/Attempts/Stripped.antt =====
-- What the taker of an attempt is shown by StartAttempt of internal/service/quiz.go.
use backend_quiz.Common.{ℕ, ◌+◌, ◌≡◌, refl, sym, ap, ◌∙◌, none, some, List, [], ◌∷◌, map, arith}
use backend_quiz.Domain.Quiz.{mcq, McqOption, QuizQuestion}
use backend_quiz.Quiz.Grading.{Runtime}
use backend_quiz.Quiz.Attempts.{strip_options, strip_question, strip_from}

-- Two multiple choice questions that differ at most in their answer, their explanation and which of
-- their options are marked as correct.
pub record IsAlike (rt : Runtime) (p q : QuizQuestion) : Type 0 where
  pub id : p.id ≡ q.id
  pub quiz_id : p.quiz_id ≡ q.quiz_id
  pub kind : (p.question_type ≡ mcq) × (q.question_type ≡ mcq)
  pub text : p.question_text ≡ q.question_text
  pub points : p.points ≡ q.points
  pub options_p : List McqOption
  pub options_q : List McqOption
  pub decoded_p : rt.unmarshal_options p.options ≡ some options_p
  pub decoded_q : rt.unmarshal_options q.options ≡ some options_q
  pub texts : map (λ (o : McqOption). o.text) options_p ≡ map (λ (o : McqOption). o.text) options_q

pub data AllAlike (rt : Runtime) : List QuizQuestion → List QuizQuestion → Type 0 where
  none_left : AllAlike rt [] []
  both :
      {p q : QuizQuestion} {ps qs : List QuizQuestion}
      → IsAlike rt p q
      → AllAlike rt ps qs
      → AllAlike rt (p ∷ ps) (q ∷ qs)

strip_mcq :
    (rt : Runtime) (q : QuizQuestion) (os : List McqOption)
    → rt.unmarshal_options [] ≡ none
    → q.question_type ≡ mcq
    → rt.unmarshal_options q.options ≡ some os
    → strip_options rt q ≡ rt.marshal_texts (map (λ (o : McqOption). o.text) os)
unfolding strip_options
strip_mcq rt q os json kind decoded = ground (arith, json, kind, decoded)

strip_alike :
    (rt : Runtime) (i : ℕ) (p q : QuizQuestion)
    → rt.unmarshal_options [] ≡ none
    → IsAlike rt p q
    → strip_question rt i p ≡ strip_question rt i q
unfolding strip_question
strip_alike rt i p q json a =
    let e : strip_options rt p ≡ strip_options rt q =
      strip_mcq rt p a.options_p json a.kind.0 a.decoded_p
      ∙ ap rt.marshal_texts a.texts
      ∙ sym (strip_mcq rt q a.options_q json a.kind.1 a.decoded_q) in
    cc

-- The taker of a quiz of multiple choice questions is shown the same questions whatever their
-- correct answers, their explanations and the marks of their options are. Here no JSON text that
-- decodes is empty.
pub mcq_answers_hidden :
    (rt : Runtime) (i : ℕ) (ps qs : List QuizQuestion)
    → rt.unmarshal_options [] ≡ none
    → AllAlike rt ps qs
    → strip_from rt i ps ≡ strip_from rt i qs
unfolding strip_from
mcq_answers_hidden rt i [] [] json none_left = refl
mcq_answers_hidden rt i [] (q ∷ qs) json a = elim a [ ]
mcq_answers_hidden rt i (p ∷ ps) [] json a = elim a [ ]
mcq_answers_hidden rt i (p ∷ ps) (q ∷ qs) json (both a rest) =
    let e1 = strip_alike rt i p q json a in
    let e2 = mcq_answers_hidden rt (i + 1) ps qs json rest in
    ap (λ x. x ∷ strip_from rt (i + 1) ps) e1 ∙ ap (λ x. strip_question rt i q ∷ x) e2
