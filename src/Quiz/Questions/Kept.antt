-- ===== src/Quiz/Questions/Kept.antt =====
-- The methods of internal/service/quiz.go that write quizzes and questions, and the validation of the
-- stored questions.
use mathlib.Core.Path.{subst}
use backend_quiz.Common.{
  ℕ, ℤ, List, [], ◌∷◌, Option, none, some, ◌≡◌, inr, Bool, false, take, arith, pos, negsuc, ltb,
  length, ◌&&◌,
}
use backend_quiz.Common.Text.{Text}
use backend_quiz.Domain.{ok, insufficient_cards, database}
use backend_quiz.Domain.Card.{Env, Card, CardFilter}
use backend_quiz.Domain.Quiz.{
  QuestionType, mcq, surah_id, ordering, QuizQuestion, AddQuestionRequest, UpdateQuestionRequest,
  CreateQuizRequest, UpdateQuizRequest,
}
use backend_quiz.Db.Rules.{IsReadOnly, Keeps, Keeps-transact, IsReadOnly-query}
use backend_quiz.Db.Compose.{
  Keeps-bind, IsReadOnly-Keeps, IsReadOnly-pure, IsReadOnly-raise_if, IsReadOnly-raise,
  IsReadOnly-bind,
}
use backend_quiz.Repository.Sessions.Laws.{IsReadOnly-or_not_found}
use backend_quiz.Repository.Decks.{get_deck}
use backend_quiz.Repository.Quizzes.{get_quiz, get_question, count_questions, bulk_create_questions}
use backend_quiz.Quiz.Grading.{Runtime, to_lower, text_true, text_false}
use backend_quiz.Decks.{own_deck, no_filter}
use backend_quiz.Repository.Cards.{list_cards, take_page}
use backend_quiz.Quiz.Generation.{Dice, generate_from_deck, generate_from, or_panic, needs_four}
use backend_quiz.Quiz.Ayat.Cards.{Reader, filter_ayat_cards, group_by_surat}
use backend_quiz.Quiz.Ayat.{AyatDice, Texts}
use backend_quiz.Quiz.Ayat.Request.{generate_ayat_quiz, ayat_rounds, or_insufficient}
use backend_quiz.Quiz.Questions.Generated.{IfGiven, generate_from-AllValid, ayat_rounds-AllValid}
use backend_quiz.Quiz.Questions.{
  check_deck, create_quiz, own_quiz, update_quiz, delete_quiz, question_of, validate_request,
  add_question, questions_from, batch_add_questions, own_question, merge_question, validate_stored,
  update_question, delete_question,
}
use backend_quiz.Quiz.Questions.Valid.{
  AllValid, IsValid, Keeps-lift, Keeps-create_question, Keeps-create_questions,
  Keeps-update_question_row, Keeps-delete_question_row, Keeps-delete_quiz_row,
  Keeps-update_quiz_row, Keeps-create_quiz_row, questions_from-AllValid,
}

-- what the generators of questions use
pub record Generators : Type 0 where
  pub env : Env
  pub texts : Texts
  pub reader : Reader
  pub ilike : Text → Text → Bool

ruleset reads = (
  IsReadOnly-or_not_found, IsReadOnly-query, IsReadOnly-bind, IsReadOnly-raise_if, IsReadOnly-pure,
)

IsReadOnly-check_deck : (user_id : ℕ) (deck : Option ℕ) → IsReadOnly (check_deck user_id deck)
unfolding check_deck get_deck
IsReadOnly-check_deck user_id none = search reads
IsReadOnly-check_deck user_id (some deck_id) = search reads

IsReadOnly-own_quiz : (user_id quiz_id : ℕ) → IsReadOnly (own_quiz user_id quiz_id)
unfolding own_quiz get_quiz
IsReadOnly-own_quiz user_id quiz_id = search reads

IsReadOnly-count_questions : (quiz_id : ℕ) → IsReadOnly (count_questions quiz_id)
unfolding count_questions
IsReadOnly-count_questions quiz_id = search reads

IsReadOnly-own_deck : (user_id deck_id : ℕ) → IsReadOnly (own_deck user_id deck_id)
unfolding own_deck get_deck
IsReadOnly-own_deck user_id deck_id = search reads

IsReadOnly-take_page :
    (limit offset : ℤ) (rows : List Card) → IsReadOnly (take_page limit offset rows)
unfolding take_page
IsReadOnly-take_page (pos n) (pos k) rows = IsReadOnly-pure _
IsReadOnly-take_page (pos n) (negsuc k) rows = IsReadOnly-raise database
IsReadOnly-take_page (negsuc n) (pos k) rows = IsReadOnly-raise database
IsReadOnly-take_page (negsuc n) (negsuc k) rows = IsReadOnly-raise database

IsReadOnly-list_cards :
    (ilike : Text → Text → Bool) (d : ℕ) (f : CardFilter) (l o : ℤ)
    → IsReadOnly (list_cards ilike d f l o)
unfolding list_cards
IsReadOnly-list_cards ilike d f l o = search (reads, IsReadOnly-take_page) depth 8

IsReadOnly-own_question :
    (user_id quiz_id question_id : ℕ) → IsReadOnly (own_question user_id quiz_id question_id)
unfolding own_question get_question
IsReadOnly-own_question user_id quiz_id question_id = search (reads, IsReadOnly-own_quiz) depth 8

module _ (rt : Runtime) (checked : QuestionType → Bool) where
  pub Keeps-create_quiz :
      (env : Env) (u : ℕ) (req : CreateQuizRequest)
      → Keeps (IsValid rt checked) (create_quiz env u req)
  unfolding create_quiz
  Keeps-create_quiz env u req =
      Keeps-bind (IsReadOnly-Keeps (IsReadOnly-check_deck u req.deck_id))
        (λ x. Keeps-create_quiz_row rt checked env _)

  pub Keeps-update_quiz :
      (env : Env) (u q : ℕ) (req : UpdateQuizRequest)
      → Keeps (IsValid rt checked) (update_quiz env u q req)
  unfolding update_quiz
  Keeps-update_quiz env u q req = Keeps-bind (IsReadOnly-Keeps (IsReadOnly-own_quiz u q)) λ quiz.
      Keeps-bind (Keeps-update_quiz_row rt checked env _) λ x. IsReadOnly-Keeps (IsReadOnly-pure _)

  pub Keeps-delete_quiz : (u q : ℕ) → Keeps (IsValid rt checked) (delete_quiz u q)
  unfolding delete_quiz
  Keeps-delete_quiz u q =
      Keeps-bind (IsReadOnly-Keeps (IsReadOnly-own_quiz u q))
        λ quiz. Keeps-delete_quiz_row rt checked q

  pub Keeps-add_question :
      (env : Env) (u q : ℕ) (req : AddQuestionRequest)
      → Keeps (IsValid rt checked) (add_question env rt u q req)
  unfolding add_question
  Keeps-add_question env u q req = Keeps-bind (IsReadOnly-Keeps (IsReadOnly-own_quiz u q)) λ quiz.
      Keeps-lift rt checked (validate_request rt req) λ x v.
        Keeps-bind (IsReadOnly-Keeps (IsReadOnly-count_questions q))
          λ count. Keeps-create_question rt checked env (question_of q count req) (inr v)

  pub Keeps-batch_add_questions :
      (env : Env) (u q : ℕ) (reqs : List AddQuestionRequest)
      → Keeps (IsValid rt checked) (batch_add_questions env rt u q reqs)
  unfolding batch_add_questions bulk_create_questions
  Keeps-batch_add_questions env u q reqs =
      Keeps-bind (IsReadOnly-Keeps (IsReadOnly-own_quiz u q)) λ quiz.
        Keeps-bind (IsReadOnly-Keeps (IsReadOnly-count_questions q)) λ count.
          Keeps-lift rt checked (questions_from rt q count reqs) λ qs v. Keeps-transact (
            Keeps-create_questions rt checked env qs
              (questions_from-AllValid rt checked q count reqs qs v))

  pub Keeps-update_question :
      (env : Env) (u q i : ℕ) (req : UpdateQuestionRequest)
      → Keeps (IsValid rt checked) (update_question env rt u q i req)
  unfolding update_question
  Keeps-update_question env u q i req =
      Keeps-bind (IsReadOnly-Keeps (IsReadOnly-own_question u q i)) λ question.
        Keeps-lift rt checked (validate_stored rt (merge_question req question)) λ x v.
          Keeps-bind (Keeps-update_question_row rt checked env (merge_question req question) v)
            λ y. IsReadOnly-Keeps (IsReadOnly-pure _)

  pub Keeps-delete_question : (u q i : ℕ) → Keeps (IsValid rt checked) (delete_question u q i)
  unfolding delete_question
  Keeps-delete_question u q i =
      Keeps-bind (IsReadOnly-Keeps (IsReadOnly-own_question u q i))
        λ question. Keeps-delete_question_row rt checked i

  or_panic-AllValid :
      (o : Option (List QuizQuestion)) (qs : List QuizQuestion)
      → IfGiven (AllValid rt checked) o
      → or_panic o ≡ ok qs
      → AllValid rt checked qs
  or_panic-AllValid none qs h e = ground (arith, e)
  or_panic-AllValid (some ps) qs h e =
      let same : ps ≡ qs = ground (arith, e) in subst (AllValid rt checked) same h

  or_insufficient-AllValid :
      (o : Option (List QuizQuestion)) (qs : List QuizQuestion)
      → IfGiven (AllValid rt checked) o
      → or_insufficient o ≡ ok qs
      → AllValid rt checked qs
  or_insufficient-AllValid none qs h e = ground (arith, e)
  or_insufficient-AllValid (some []) qs h e = ground (arith, e)
  or_insufficient-AllValid (some (p ∷ ps)) qs h e =
      let same : p ∷ ps ≡ qs = ground (arith, e) in subst (AllValid rt checked) same h

  pub Keeps-bulk_create_questions :
      (env : Env) (qs : List QuizQuestion)
      → AllValid rt checked qs
      → Keeps (IsValid rt checked) (bulk_create_questions env qs)
  unfolding bulk_create_questions
  Keeps-bulk_create_questions env qs v = Keeps-transact (Keeps-create_questions rt checked env qs v)

  pub Keeps-generate_ayat_quiz :
      (g : Generators) (dice : AyatDice) (u q d : ℕ) (kind : QuestionType) (n : ℕ)
      → checked surah_id ≡ false
      → checked ordering ≡ false
      → Keeps
          (IsValid rt checked)
          (generate_ayat_quiz g.env rt g.texts g.reader dice g.ilike u q d kind n)
  unfolding generate_ayat_quiz
  Keeps-generate_ayat_quiz g dice u q d kind n h k =
      Keeps-bind (IsReadOnly-Keeps (IsReadOnly-own_quiz u q)) λ quiz.
        Keeps-bind (IsReadOnly-Keeps (IsReadOnly-own_deck u d)) λ deck.
          Keeps-bind
            (IsReadOnly-Keeps (IsReadOnly-list_cards g.ilike d no_filter (pos 10000) (pos 0)))
            λ listed.
              let cards = filter_ayat_cards g.reader listed.0 in
              Keeps-bind
                (IsReadOnly-Keeps (IsReadOnly-raise_if (ltb (length cards) 2) insufficient_cards))
                λ enough. Keeps-bind (IsReadOnly-Keeps (IsReadOnly-count_questions q)) λ count.
                  let made =
                    ayat_rounds rt g.texts dice cards (group_by_surat g.reader cards) kind q count n
                      0 in
                  Keeps-lift rt checked (or_insufficient made) λ qs v.
                    Keeps-bulk_create_questions g.env qs (
                      or_insufficient-AllValid made qs
                        (ayat_rounds-AllValid rt checked g.texts dice cards
                          (group_by_surat g.reader cards) kind q count n 0 h k)
                        v)

  module _ (lower_true : to_lower rt text_true ≡ text_true)
      (lower_false : to_lower rt text_false ≡ text_false) where
    pub Keeps-generate_from_deck :
        (g : Generators) (dice : Dice) (u q d : ℕ) (kind : QuestionType) (n : ℕ)
        → checked mcq ≡ false
        → Keeps (IsValid rt checked) (generate_from_deck g.env rt dice g.ilike u q d kind n)
    unfolding generate_from_deck
    Keeps-generate_from_deck g dice u q d kind n h =
        Keeps-bind (IsReadOnly-Keeps (IsReadOnly-own_quiz u q)) λ quiz.
          Keeps-bind (IsReadOnly-Keeps (IsReadOnly-own_deck u d)) λ deck.
            Keeps-bind
              (IsReadOnly-Keeps (IsReadOnly-list_cards g.ilike d no_filter (pos 10000) (pos 0)))
              λ listed.
                let cards = dice.shuffle_cards listed.0 in
                Keeps-bind
                  (IsReadOnly-Keeps
                    (IsReadOnly-raise_if (ltb (length listed.0) 2) insufficient_cards))
                  λ enough.
                    Keeps-bind
                      (IsReadOnly-Keeps (
                        IsReadOnly-raise_if (needs_four kind && ltb (length listed.0) 4)
                          insufficient_cards))
                      λ four. Keeps-bind (IsReadOnly-Keeps (IsReadOnly-count_questions q)) λ count.
                        let made = generate_from rt dice kind cards q count 0 (take n cards) in
                        Keeps-lift rt checked (or_panic made) λ qs v.
                          Keeps-bulk_create_questions g.env qs (
                            or_panic-AllValid made qs
                              (generate_from-AllValid rt checked lower_true lower_false dice kind
                                cards q count 0 (take n cards) h)
                              v)
