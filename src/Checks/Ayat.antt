-- ===== src/Checks/Ayat.antt =====
-- Tests of `Quiz.Ayat` and an example of its theorem, on verses 1 to 4 of a surat.
use backend_quiz.Common.{ℕ, ◌≡◌, ◌≤◌, length, refl, Option, none, some, List, [], ◌∷◌, ◌++◌, arith}
use backend_quiz.Common.Text.{Text, is_space}
use backend_quiz.Domain.Quiz.{mixed_ayat, QuizQuestion}
use backend_quiz.Quiz.Ayat.Cards.{AyatCard, AyatGroup, fields, join}
use backend_quiz.Quiz.Ayat.{AyatDice, Texts, cloze_of}
use backend_quiz.Quiz.Ayat.Ordering.{generate_ordering}
use backend_quiz.Quiz.Ayat.Request.{ayat_rounds}
use backend_quiz.Quiz.Ayat.Safe.{InRange}
use backend_quiz.Quiz.Ayat.Rounds.{Numbered, ayat_rounds_total}
use backend_quiz.Checks.Rows.{rt, card_row}

abbrev pub dice : AyatDice
dice = record {
  intn = λ round call n. 0;
  order = λ round groups. groups;
  shuffle_texts = λ round ts. ts;
  shuffle_options = λ round os. os;
  shuffle_verses = λ round vs. vs;
}

abbrev pub texts : Texts
texts = record {
  verse = λ surat n. surat ++ n ∷ [];
  verses = λ surat m n. surat ++ m ∷ n ∷ [];
  continue_after = λ t. t;
  which_surat = λ t. t;
  order_of = λ t. t;
  id_text = λ n. n ∷ [];
  marshal_verses = λ vs. [];
}

abbrev surat_s : Text
surat_s = b's' ∷ []

abbrev verse : ℕ → AyatCard
verse n = record {
  card = record card_row { id = n; front = b'a' ∷ b' ' ∷ b'b' ∷ b' ' ∷ b'c' ∷ [] };
  surat = surat_s;
  ayat_num = n;
}

abbrev verses : List AyatCard
verses = verse 1 ∷ verse 2 ∷ verse 3 ∷ verse 4 ∷ []

abbrev groups : List AyatGroup
groups = record { surat = surat_s; cards = verses } ∷ []

abbrev answer : Option QuizQuestion → Text
answer none = []
answer (some q) = q.correct_answer

abbrev answer_of_step : Option (Option QuizQuestion) → Text
answer_of_step none = []
answer_of_step (some q) = answer q

middle_word_blanked : answer (cloze_of texts dice 0 (verse 1)) ≡ b'b' ∷ []
unfolding cloze_of fields is_space join
middle_word_blanked = refl

three_in_order :
    answer_of_step (generate_ordering texts dice 0 groups) ≡ 1 ∷ b',' ∷ 2 ∷ b',' ∷ 3 ∷ []
unfolding generate_ordering join
three_in_order = refl

in_range : InRange dice
in_range round call n h = omega arith

ayat_rounds_total_example :
    (qs : List QuizQuestion) × (ayat_rounds rt texts dice verses groups mixed_ayat 7 2 3 0
      ≡ some qs)
    × (length qs ≤ 3)
    × Numbered 7 2 qs
ayat_rounds_total_example =
    ayat_rounds_total rt texts dice in_range verses groups (omega arith) 7 2 mixed_ayat 3 0
