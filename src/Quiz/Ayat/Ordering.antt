-- ===== src/Quiz/Ayat/Ordering.antt =====
-- internal/service/quiz.go: generateOrdering, a question on the order of verses.
use backend_quiz.Common.{
  ℕ, zero, suc, ◌+◌, ◌-◌, ◌==◌, Option, none, some, List, [], ◌∷◌, ◌++◌, ltb, leb, if◌then◌else◌,
  length, map, take, get_elem?,
}
use backend_quiz.Common.{pos}
use backend_quiz.Common.Text.{Text}
use backend_quiz.Domain.Quiz.{ordering, QuizQuestion}
use backend_quiz.Quiz.Generation.{question_with}
use backend_quiz.Quiz.Ayat.Cards.{AyatCard, AyatGroup, join}
use backend_quiz.Quiz.Ayat.{AyatDice, Texts, and_then, intn, choose}

-- the inner loop, for a run that ends with `last` and may have `left` verses more
unfoldable pub run_after : ℕ → AyatCard → List AyatCard → List AyatCard
run_after left last [] = []
run_after zero last (c ∷ cs) = []
run_after (suc left) last (c ∷ cs) =
    let rest = run_after left c cs in if c.ayat_num == last.ayat_num + 1 then c ∷ rest else []

-- the loop over the starts of a group, with the surat of the group; `i <= len(group)-3` says that
-- two cards follow, at least
unfoldable pub sequences_from : Text → List AyatCard → List (Text × List AyatCard)
unfolding run_after
sequences_from surat [] = []
sequences_from surat (c ∷ cs) =
    let rest = sequences_from surat cs in
    if leb 2 (length cs)
    then (if leb 3 (length (c ∷ run_after 4 c cs))
        then (surat, c ∷ run_after 4 c cs) ∷ rest
        else rest)
    else []

unfoldable pub sequences : List AyatGroup → List (Text × List AyatCard)
unfolding sequences_from
sequences [] = []
sequences (g ∷ gs) = sequences_from g.surat g.cards ++ sequences gs

abbrev pub min : ℕ → ℕ → ℕ
min a b = if ltb a b then a else b

-- 3, or from four verses on 3 to 5
abbrev pub take_count : AyatDice → ℕ → List AyatCard → Option ℕ
take_count dice round cards =
    if leb 4 (length cards)
    then and_then (intn dice round 2 (min (length cards - 2) 3)) (λ d. some (3 + d))
    else some 3

-- seq.cards[:takeCount]
abbrev pub prefix : List AyatCard → ℕ → Option (List AyatCard)
prefix cards n = if leb n (length cards) then some (take n cards) else none

abbrev comma : Text
comma = b',' ∷ []

abbrev id_of : Texts → AyatCard → Text
id_of texts c = texts.id_text c.card.id

abbrev option_of : Texts → AyatCard → Text × Text
option_of texts c = (id_of texts c, c.card.front)

abbrev pub ordering_question :
    Texts → AyatDice → ℕ → Text → List AyatCard → AyatCard → AyatCard → QuizQuestion
ordering_question texts dice round surat selected first last =
    record (question_with ordering (texts.order_of surat)
      (texts.marshal_verses (dice.shuffle_verses round (map (option_of texts) selected)))
      (join comma (map (id_of texts) selected))) {
        explanation = texts.verses surat first.ayat_num last.ayat_num;
        points = pos 2;
      }

-- the question of a sequence
unfoldable pub ordering_of : Texts → AyatDice → ℕ → Text × List AyatCard → Option QuizQuestion
ordering_of texts dice round (surat, cards) = and_then (take_count dice round cards) λ n.
    and_then (prefix cards n) λ selected. and_then (get_elem? selected 0) λ first.
      and_then (get_elem? selected (length selected - 1))
        λ last. some (ordering_question texts dice round surat selected first last)

-- generateOrdering
unfoldable pub generate_ordering :
    Texts → AyatDice → ℕ → List AyatGroup → Option (Option QuizQuestion)
unfolding sequences ordering_of
generate_ordering texts dice round groups =
    choose dice round (sequences (dice.order round groups)) (ordering_of texts dice round)
