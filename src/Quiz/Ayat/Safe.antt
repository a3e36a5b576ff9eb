-- ===== src/Quiz/Ayat/Safe.antt =====
-- The generators of GenerateAyatQuiz of internal/service/quiz.go, which index and slice lists at
-- random places.
use backend_quiz.Common.{
  ℕ, zero, suc, ◌+◌, ◌-◌, ◌==◌, ◌≤◌, ◌<◌, ◌≡◌, refl, arith, Bool, true, false, Option, none, some,
  List, [], ◌∷◌, ◌++◌, length, get_elem?, leb, ltb, if◌then◌else◌,
}
use backend_quiz.Common.Text.{Text}
use backend_quiz.Domain.Quiz.{QuizQuestion}
use backend_quiz.Quiz.Ayat.Cards.{AyatCard, AyatGroup, fields}
use backend_quiz.Quiz.Ayat.{
  AyatDice, Texts, and_then, intn, slices, blank_count, cloze_of, choose, generate_ayat_cloze,
  generate_ayat_continuation, all_pairs, continuation_question,
}

module _ {A : Type 0} where
  -- a step that does not panic, and gives a value with P
  abbrev pub Gives : (A → Type 0) → Option A → Type 0
  Gives P none = ⊥
  Gives P (some a) = P a

  abbrev pub EachOf : (A → Type 0) → List A → Type 0
  EachOf P [] = Unit
  EachOf P (x ∷ xs) = P x × EachOf P xs

  pub get_elem?-Gives :
      (P : A → Type 0) (xs : List A) (i : ℕ)
      → EachOf P xs
      → i < length xs
      → Gives P (get_elem? xs i)
  get_elem?-Gives P [] i each h = ground arith
  get_elem?-Gives P (x ∷ xs) zero each h = each.0
  get_elem?-Gives P (x ∷ xs) (suc i) each h = get_elem?-Gives P xs i each.1 (omega arith)

  pub EachOf-all : (P : A → Type 0) (xs : List A) → ((x : A) → P x) → EachOf P xs
  EachOf-all P [] h = tt
  EachOf-all P (x ∷ xs) h = (h x, EachOf-all P xs h)

  pub EachOf-append :
      (P : A → Type 0) (xs ys : List A) → EachOf P xs → EachOf P ys → EachOf P (xs ++ ys)
  EachOf-append P [] ys h k = k
  EachOf-append P (x ∷ xs) ys h k = (h.0, EachOf-append P xs ys h.1 k)

  pub if-Gives :
      (P : A → Type 0) (b : Bool) (x y : Option A)
      → (b ≡ true → Gives P x)
      → (b ≡ false → Gives P y)
      → Gives P (if b then x else y)
  if-Gives P true x y h k = h refl
  if-Gives P false x y h k = k refl

  abbrev pub Any : A → Type 0
  Any a = Unit

module _ {A B : Type 0} where
  pub and_then-Gives :
      (P : A → Type 0) (Q : B → Type 0) (o : Option A) (f : A → Option B)
      → Gives P o
      → ((a : A) → P a → Gives Q (f a))
      → Gives Q (and_then o f)
  and_then-Gives P Q none f g h = g
  and_then-Gives P Q (some a) f g h = h a g

-- Intn gives a number below its argument
abbrev pub InRange : AyatDice → Type 0
InRange dice = (round call n : ℕ) → 1 ≤ n → dice.intn round call n < n

module _ (texts : Texts) (dice : AyatDice) (range : InRange dice) (round : ℕ) where
  pub intn-Gives : (call n : ℕ) → 1 ≤ n → Gives (λ i. i < n) (intn dice round call n)
  intn-Gives call n h =
      if-Gives (λ i. i < n) (n == 0) none (some (dice.intn round call n)) (λ e. ground arith)
        (λ e. range round call n h)

  slices-Gives : (words : List Text) (k n : ℕ) → k + n ≤ length words → Gives Any (slices words k n)
  slices-Gives words k n h =
      if-Gives Any (leb (k + n) (length words)) _ none (λ e. tt) (λ e. ground arith)

  -- one word or two, with a word before and a word after
  blank_count-Gives :
      (words : List Text)
      → 3 ≤ length words
      → Gives (λ n. (1 ≤ n) × (n + 2 ≤ length words)) (blank_count dice round words)
  blank_count-Gives words h =
      if-Gives (λ n. (1 ≤ n) × (n + 2 ≤ length words)) (leb 5 (length words)) _ (some 1)
        (λ e.
          and_then-Gives (λ d. d < 2) (λ n. (1 ≤ n) × (n + 2 ≤ length words)) (intn dice round 2 2)
            (λ d. some (1 + d)) (intn-Gives 2 2 (omega arith)) (λ d r. ground arith))
        (λ e. ground arith)

  cloze_of-Gives : (ac : AyatCard) → Gives Any (cloze_of texts dice round ac)
  unfolding cloze_of
  cloze_of-Gives ac =
      if-Gives Any (ltb (length (fields ac.card.front)) 3) _ _ (λ e. tt)
        (λ e.
          and_then-Gives (λ n. (1 ≤ n) × (n + 2 ≤ length (fields ac.card.front))) Any _ _
            (blank_count-Gives (fields ac.card.front) (ground arith))
            (λ n h.
              and_then-Gives (λ k. k < length (fields ac.card.front) - n - 1) Any _ _
                (intn-Gives 3 (length (fields ac.card.front) - n - 1) (ground arith))
                (λ k r.
                  and_then-Gives Any Any _ _
                    (slices-Gives (fields ac.card.front) (1 + k) n (ground arith)) (λ s u. tt))))

  pub choose-Gives :
      {A : Type 0} (P : A → Type 0) (xs : List A) (make : A → Option QuizQuestion)
      → EachOf P xs
      → ((a : A) → P a → Gives Any (make a))
      → Gives Any (choose dice round xs make)
  choose-Gives P [] make each h = tt
  choose-Gives P (x ∷ xs) make each h =
      and_then-Gives (λ i. i < length (x ∷ xs)) Any _ _
        (intn-Gives 1 (length (x ∷ xs)) (omega arith))
        (λ i r.
          and_then-Gives P Any _ _ (get_elem?-Gives P (x ∷ xs) i each r)
            (λ a p. and_then-Gives Any Any _ _ (h a p) (λ q u. tt)))

  pub generate_ayat_cloze-Gives :
      (cards : List AyatCard)
      → 1 ≤ length cards
      → Gives Any (generate_ayat_cloze texts dice round cards)
  unfolding generate_ayat_cloze
  generate_ayat_cloze-Gives cards h =
      and_then-Gives (λ i. i < length cards) Any _ _ (intn-Gives 1 (length cards) h)
        (λ i r.
          and_then-Gives Any Any _ _
            (get_elem?-Gives Any cards i (EachOf-all Any cards (λ c. tt)) r)
            (λ ac u. and_then-Gives Any Any _ _ (cloze_of-Gives ac) (λ q v. tt)))

  pub generate_ayat_continuation-Gives :
      (groups : List AyatGroup) → Gives Any (generate_ayat_continuation texts dice round groups)
  unfolding generate_ayat_continuation
  generate_ayat_continuation-Gives groups =
      choose-Gives {A = AyatCard × AyatCard} Any (all_pairs (dice.order round groups))
        (λ p. some (continuation_question texts p))
        (EachOf-all Any (all_pairs (dice.order round groups)) (λ p. tt)) (λ p u. tt)
