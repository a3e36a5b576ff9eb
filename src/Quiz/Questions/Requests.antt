-- ===== src/Quiz/Questions/Requests.antt =====
-- Sequences of the requests of `Quiz.Questions`.
use backend_quiz.Common.{ℕ, List, [], ◌∷◌, ◌≡◌, Bool, false}
use backend_quiz.Domain.Card.{Env}
use backend_quiz.Domain.Quiz.{
  QuestionType, mcq, surah_id, ordering, AddQuestionRequest, UpdateQuestionRequest,
  CreateQuizRequest, UpdateQuizRequest,
}
use backend_quiz.Db.{World}
use backend_quiz.Repository.Tables.{Tables}
use backend_quiz.Quiz.Grading.{Runtime, to_lower, text_true, text_false}
use backend_quiz.Quiz.Generation.{Dice, generate_from_deck}
use backend_quiz.Quiz.Ayat.{AyatDice}
use backend_quiz.Quiz.Ayat.Request.{generate_ayat_quiz}
use backend_quiz.Quiz.Questions.{
  create_quiz, update_quiz, delete_quiz, add_question, batch_add_questions, update_question,
  delete_question,
}
use backend_quiz.Quiz.Questions.Valid.{AllValid, IsValid}
use backend_quiz.Quiz.Questions.Kept.{
  Generators, Keeps-create_quiz, Keeps-update_quiz, Keeps-delete_quiz, Keeps-add_question,
  Keeps-batch_add_questions, Keeps-update_question, Keeps-delete_question, Keeps-generate_ayat_quiz,
  Keeps-generate_from_deck,
}

-- a request of an owner to a method that writes quizzes or questions
pub data QuizRequest : Type 0 where
  create : Env → ℕ → CreateQuizRequest → QuizRequest
  update : Env → ℕ → ℕ → UpdateQuizRequest → QuizRequest
  delete : ℕ → ℕ → QuizRequest
  add : Env → ℕ → ℕ → AddQuestionRequest → QuizRequest
  add_batch : Env → ℕ → ℕ → List AddQuestionRequest → QuizRequest
  change : Env → ℕ → ℕ → ℕ → UpdateQuestionRequest → QuizRequest
  remove : ℕ → ℕ → ℕ → QuizRequest
  generate : Generators → Dice → ℕ → ℕ → ℕ → QuestionType → ℕ → QuizRequest
  generate_ayat : Generators → AyatDice → ℕ → ℕ → ℕ → QuestionType → ℕ → QuizRequest

-- what it leaves behind, whether it returns an error or not
unfoldable pub handle : Runtime → QuizRequest → World Tables → World Tables
handle rt (create env u req) w = (create_quiz env u req w).1
handle rt (update env u q req) w = (update_quiz env u q req w).1
handle rt (delete u q) w = (delete_quiz u q w).1
handle rt (add env u q req) w = (add_question env rt u q req w).1
handle rt (add_batch env u q reqs) w = (batch_add_questions env rt u q reqs w).1
handle rt (change env u q i req) w = (update_question env rt u q i req w).1
handle rt (remove u q i) w = (delete_question u q i w).1
handle rt (generate g dice u q d kind n) w =
    (generate_from_deck g.env rt dice g.ilike u q d kind n w).1
handle rt (generate_ayat g dice u q d kind n) w =
    (generate_ayat_quiz g.env rt g.texts g.reader dice g.ilike u q d kind n w).1

unfoldable pub handle_all : Runtime → List QuizRequest → World Tables → World Tables
handle_all rt [] w = w
handle_all rt (r ∷ rs) w = handle_all rt rs (handle rt r w)

-- The types that are checked leave out those that the generators of the requests do not check:
-- multiple choice from GenerateFromDeck, surah identification and ordering from GenerateAyatQuiz.
abbrev pub LeavesOut : (QuestionType → Bool) → List QuizRequest → Type 0
LeavesOut checked [] = Unit
LeavesOut checked (generate g dice u q d kind n ∷ rs) = (checked mcq ≡ false) × LeavesOut checked rs
LeavesOut checked (generate_ayat g dice u q d kind n ∷ rs) =
    (checked surah_id ≡ false) × (checked ordering ≡ false) × LeavesOut checked rs
LeavesOut checked (_ ∷ rs) = LeavesOut checked rs

module _ (rt : Runtime) (checked : QuestionType → Bool)
    (lower_true : to_lower rt text_true ≡ text_true)
    (lower_false : to_lower rt text_false ≡ text_false) where
  handle-IsValid :
      (r : QuizRequest) (w : World Tables)
      → LeavesOut checked (r ∷ [])
      → IsValid rt checked w.tables
      → IsValid rt checked (handle rt r w).tables
  unfolding handle
  handle-IsValid (create env u req) w o h = (Keeps-create_quiz rt checked env u req).at w h
  handle-IsValid (update env u q req) w o h = (Keeps-update_quiz rt checked env u q req).at w h
  handle-IsValid (delete u q) w o h = (Keeps-delete_quiz rt checked u q).at w h
  handle-IsValid (add env u q req) w o h = (Keeps-add_question rt checked env u q req).at w h
  handle-IsValid (add_batch env u q reqs) w o h =
      (Keeps-batch_add_questions rt checked env u q reqs).at w h
  handle-IsValid (change env u q i req) w o h =
      (Keeps-update_question rt checked env u q i req).at w h
  handle-IsValid (remove u q i) w o h = (Keeps-delete_question rt checked u q i).at w h
  handle-IsValid (generate g dice u q d kind n) w o h =
      (Keeps-generate_from_deck rt checked lower_true lower_false g dice u q d kind n o.0).at w h
  handle-IsValid (generate_ayat g dice u q d kind n) w o h =
      (Keeps-generate_ayat_quiz rt checked g dice u q d kind n o.0 o.1).at w h

LeavesOut-cons :
    (checked : QuestionType → Bool) (r : QuizRequest) (rs : List QuizRequest)
    → LeavesOut checked (r ∷ rs)
    → LeavesOut checked (r ∷ []) × LeavesOut checked rs
LeavesOut-cons checked (create env u req) rs o = (tt, o)
LeavesOut-cons checked (update env u q req) rs o = (tt, o)
LeavesOut-cons checked (delete u q) rs o = (tt, o)
LeavesOut-cons checked (add env u q req) rs o = (tt, o)
LeavesOut-cons checked (add_batch env u q reqs) rs o = (tt, o)
LeavesOut-cons checked (change env u q i req) rs o = (tt, o)
LeavesOut-cons checked (remove u q i) rs o = (tt, o)
LeavesOut-cons checked (generate g dice u q d kind n) rs o = ((o.0, tt), o.1)
LeavesOut-cons checked (generate_ayat g dice u q d kind n) rs o = ((o.0, o.1, tt), o.2)

-- Whatever sequence of requests the owners of quizzes make to the methods that write quizzes or
-- questions, and whatever statements the server refuses, where every stored question of the types
-- that are checked passes the validation, every stored question of these types passes it afterwards.
-- The types may be all, but not multiple choice where the sequence has a GenerateFromDeck, and not
-- surah identification nor ordering where it has a GenerateAyatQuiz: these store such questions
-- without the validation. "true" and "false" are the same in lower case.
pub stored_questions_valid :
    (rt : Runtime) (checked : QuestionType → Bool) (rs : List QuizRequest) (w : World Tables)
    → to_lower rt text_true ≡ text_true
    → to_lower rt text_false ≡ text_false
    → LeavesOut checked rs
    → AllValid rt checked w.tables.quiz_questions
    → AllValid rt checked (handle_all rt rs w).tables.quiz_questions
unfolding handle_all
stored_questions_valid rt checked [] w lt lf o h = h
stored_questions_valid rt checked (r ∷ rs) w lt lf o h =
    let (here, later) = LeavesOut-cons checked r rs o in
    stored_questions_valid rt checked rs (handle rt r w) lt lf later
      (handle-IsValid rt checked lt lf r w here h)
