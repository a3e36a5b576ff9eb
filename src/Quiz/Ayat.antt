-- ===== src/Quiz/Ayat.antt =====
-- internal/service/quiz.go: the questions that GenerateAyatQuiz makes of cards with verses. A step
-- that panics (an index or a slice out of range, an Intn of nothing) is `none`.
pub mod Cards
pub mod Ordering
pub mod Request
pub mod Rounds
pub mod Safe
pub mod Sequences
use backend_quiz.Common.{
  ℕ, suc, ◌+◌, ◌-◌, ◌==◌, Bool, true, false, not, ◌&&◌, Option, none, some, List, [], ◌∷◌, ◌++◌,
  ltb, leb, if◌then◌else◌, length, map, take, drop, get_elem?,
}
use backend_quiz.Common.{ℤ, pos}
use backend_quiz.Common.Text.{Text, text_eq}
use backend_quiz.Domain.{Error, database, insufficient_cards, Result, ok, err}
use backend_quiz.Domain.Card.{Env, Card}
use backend_quiz.Domain.Quiz.{
  QuestionType, ayat_cloze, ayat_continuation, surah_id, ordering, mixed_ayat, McqOption,
  QuizQuestion,
}
use backend_quiz.Db.{M, lift, pure, raise_if, ◌>>=◌, ◌>>◌}
use backend_quiz.Repository.Tables.{Tables}
use backend_quiz.Repository.Cards.{list_cards}
use backend_quiz.Repository.Quizzes.{count_questions, bulk_create_questions}
use backend_quiz.Decks.{own_deck, no_filter}
use backend_quiz.Quiz.Grading.{Runtime, is_empty}
use backend_quiz.Quiz.Questions.{own_quiz}
use backend_quiz.Quiz.Generation.{question_with, wrong_option, blank}
use Cards.{AyatCard, AyatGroup, Reader, fields, join, filter_ayat_cards, group_by_surat}

-- What is random in a request, by the round of the loop and the call in it: Intn, the order in which
-- a map is ranged over, and the shuffles.
pub record AyatDice : Type 0 where
  pub intn : ℕ → ℕ → ℕ → ℕ
  pub order : ℕ → List AyatGroup → List AyatGroup
  pub shuffle_texts : ℕ → List Text → List Text
  pub shuffle_options : ℕ → List McqOption → List McqOption
  pub shuffle_verses : ℕ → List (Text × Text) → List (Text × Text)

-- The texts that packages fmt, uuid and encoding/json give: the explanation of a verse and of a
-- run of verses, the introductions of a question, an id, and []orderingOption.
pub record Texts : Type 0 where
  pub verse : Text → ℕ → Text
  pub verses : Text → ℕ → ℕ → Text
  pub continue_after : Text → Text
  pub which_surat : Text → Text
  pub order_of : Text → Text
  pub id_text : ℕ → Text
  pub marshal_verses : List (Text × Text) → Text

module _ {A B : Type 0} where
  abbrev pub and_then : Option A → (A → Option B) → Option B
  and_then none f = none
  and_then (some a) f = f a

-- rng.Intn
abbrev pub intn : AyatDice → ℕ → ℕ → ℕ → Option ℕ
intn dice round call n = if n == 0 then none else some (dice.intn round call n)

-- words[:start], words[start:start+n] and words[start+n:]
abbrev pub slices : List Text → ℕ → ℕ → Option (List Text × List Text × List Text)
slices words start n =
    if leb (start + n) (length words)
    then some (take start words, take n (drop start words), drop (start + n) words)
    else none

-- 1, or from five words on 1 or 2
abbrev pub blank_count : AyatDice → ℕ → List Text → Option ℕ
blank_count dice round words =
    if leb 5 (length words) then and_then (intn dice round 2 2) (λ d. some (1 + d)) else some 1

abbrev pub space : Text
space = b' ' ∷ []

abbrev pub spaced_blank : Text
spaced_blank = b' ' ∷ b'_' ∷ b'_' ∷ b'_' ∷ b'_' ∷ b'_' ∷ b' ' ∷ []

abbrev pub cloze_question : Texts → AyatCard → Text → Text → QuizQuestion
cloze_question texts ac text answer = record (question_with ayat_cloze text [] answer) {
  card_id = some ac.card.id;
  explanation = texts.verse ac.surat ac.ayat_num;
}

-- generateAyatCloze, of a verse
unfoldable pub cloze_of : Texts → AyatDice → ℕ → AyatCard → Option QuizQuestion
cloze_of texts dice round ac =
    let words = fields ac.card.front in
    if ltb (length words) 3
    then some (cloze_question texts ac blank ac.card.front)
    else and_then (blank_count dice round words) (λ n.
      and_then (intn dice round 3 (length words - n - 1)) (λ k.
        and_then (slices words (1 + k) n) (λ s. some (
          cloze_question texts ac (join space s.0 ++ spaced_blank ++ join space s.2)
            (join space s.1)))))

-- generateAyatCloze
unfoldable pub generate_ayat_cloze :
    Texts → AyatDice → ℕ → List AyatCard → Option (Option QuizQuestion)
unfolding cloze_of
generate_ayat_cloze texts dice round cards = and_then (intn dice round 1 (length cards)) λ i.
    and_then (get_elem? cards i) λ ac. and_then (cloze_of texts dice round ac) λ q. some (some q)

-- the pairs of a group whose numbers follow each other
unfoldable pub pairs_from : List AyatCard → List (AyatCard × AyatCard)
pairs_from [] = []
pairs_from (a ∷ []) = []
pairs_from (a ∷ b ∷ rest) =
    let pairs = pairs_from (b ∷ rest) in
    if b.ayat_num == a.ayat_num + 1 then (a, b) ∷ pairs else pairs

unfoldable pub all_pairs : List AyatGroup → List (AyatCard × AyatCard)
unfolding pairs_from
all_pairs [] = []
all_pairs (g ∷ gs) = pairs_from g.cards ++ all_pairs gs

abbrev pub continuation_question : Texts → AyatCard × AyatCard → QuizQuestion
continuation_question texts (current, next) =
    record (question_with ayat_continuation (texts.continue_after current.card.front) []
      next.card.front) {
        card_id = some next.card.id;
        explanation = texts.verse next.surat next.ayat_num;
      }

-- one of the elements; an empty list gives nil
abbrev pub choose :
    {A : Type 0} → AyatDice → ℕ → List A → (A → Option QuizQuestion) → Option (Option QuizQuestion)
choose dice round [] make = some none
choose dice round (x ∷ xs) make =
    and_then (intn dice round 1 (length (x ∷ xs)))
      λ i. and_then (get_elem? (x ∷ xs) i) λ a. and_then (make a) λ q. some (some q)

-- generateAyatContinuation
unfoldable pub generate_ayat_continuation :
    Texts → AyatDice → ℕ → List AyatGroup → Option (Option QuizQuestion)
unfolding all_pairs
generate_ayat_continuation texts dice round groups =
    choose dice round (all_pairs (dice.order round groups))
      (λ p. some (continuation_question texts p))

unfoldable pub other_surats : Text → List AyatGroup → List Text
other_surats surat [] = []
other_surats surat (g ∷ gs) =
    let rest = other_surats surat gs in if not (text_eq g.surat surat) then g.surat ∷ rest else rest

abbrev pub surah_options : AyatDice → ℕ → List AyatGroup → Text → List McqOption
unfolding other_surats
surah_options dice round groups surat = dice.shuffle_options round (
    record { text = surat; is_correct = true }
    ∷ map wrong_option
        (take 3 (dice.shuffle_texts round (other_surats surat (dice.order round groups)))))

-- generateSurahIdentification
unfoldable pub generate_surah_identification :
    Runtime → Texts → AyatDice → ℕ → List AyatCard → List AyatGroup → Option (Option QuizQuestion)
unfolding surah_options
generate_surah_identification rt texts dice round cards groups =
    if ltb (length groups) 2
    then some none
    else and_then (intn dice round 1 (length cards)) (λ i. and_then (get_elem? cards i) (λ ac.
      some (
        some
          (record (question_with surah_id (texts.which_surat ac.card.front)
            (rt.marshal_options (surah_options dice round groups ac.surat)) ac.surat) {
              card_id = some ac.card.id;
            }))))
