-- ===== src/Quiz/Ayat/Sequences.antt =====
-- generateOrdering and generateSurahIdentification of internal/service/quiz.go, and the choice of a
-- sequence and of its first verses.
use backend_quiz.Common.{
  ℕ, zero, suc, ◌+◌, ◌-◌, ◌≤◌, ◌<◌, ◌≡◌, refl, arith, ap, Bool, true, false, none, some, List, [],
  ◌∷◌, length, take, leb, ltb, if◌then◌else◌,
}
use backend_quiz.Common.Text.{Text}
use backend_quiz.Quiz.Grading.{Runtime}
use backend_quiz.Quiz.Ayat.Cards.{AyatCard, AyatGroup}
use backend_quiz.Quiz.Ayat.{AyatDice, Texts, and_then, intn, generate_surah_identification}
use backend_quiz.Quiz.Ayat.Ordering.{
  run_after, sequences_from, sequences, take_count, min, prefix, ordering_of, generate_ordering,
}
use backend_quiz.Quiz.Ayat.Safe.{
  Gives, EachOf, Any, InRange, get_elem?-Gives, EachOf-all, EachOf-append, if-Gives, and_then-Gives,
  intn-Gives, choose-Gives,
}

-- a sequence that generateOrdering can choose
abbrev Long : Text × List AyatCard → Type 0
Long s = 3 ≤ length s.1

EachOf-if :
    (b c : Bool) (s : Text × List AyatCard) (rest : List (Text × List AyatCard))
    → (c ≡ true → Long s)
    → EachOf Long rest
    → EachOf Long (if b then (if c then s ∷ rest else rest) else [])
EachOf-if false c s rest h k = tt
EachOf-if true false s rest h k = k
EachOf-if true true s rest h k = (h refl, k)

sequences_from-Long : (surat : Text) (cs : List AyatCard) → EachOf Long (sequences_from surat cs)
unfolding sequences_from
sequences_from-Long surat [] = tt
sequences_from-Long surat (c ∷ cs) =
    EachOf-if (leb 2 (length cs)) (leb 3 (length (c ∷ run_after 4 c cs)))
      (surat, c ∷ run_after 4 c cs) (sequences_from surat cs) (λ e. ground arith)
      (sequences_from-Long surat cs)

sequences-Long : (gs : List AyatGroup) → EachOf Long (sequences gs)
unfolding sequences
sequences-Long [] = tt
sequences-Long (g ∷ gs) =
    EachOf-append Long (sequences_from g.surat g.cards) (sequences gs)
      (sequences_from-Long g.surat g.cards) (sequences-Long gs)

length-take_le : (n : ℕ) (cs : List AyatCard) → n ≤ length cs → length (take n cs) ≡ n
length-take_le zero cs h = refl
length-take_le (suc n) [] h = ground arith
length-take_le (suc n) (c ∷ cs) h = ap suc (length-take_le n cs (omega arith))

min-bounds : (a : ℕ) → 2 ≤ a → (1 ≤ min a 3) × (min a 3 ≤ a)
min-bounds a h = ground arith

module _ (rt : Runtime) (texts : Texts) (dice : AyatDice) (range : InRange dice) (round : ℕ) where
  take_count-Gives :
      (cs : List AyatCard)
      → 3 ≤ length cs
      → Gives (λ n. (3 ≤ n) × (n ≤ length cs)) (take_count dice round cs)
  take_count-Gives cs h =
      if-Gives (λ n. (3 ≤ n) × (n ≤ length cs)) (leb 4 (length cs))
        (and_then (intn dice round 2 (min (length cs - 2) 3)) (λ d. some (3 + d))) (some 3)
        (λ e.
          let bounds = min-bounds (length cs - 2) (ground arith) in
          and_then-Gives (λ d. d < min (length cs - 2) 3) (λ n. (3 ≤ n) × (n ≤ length cs))
            (intn dice round 2 (min (length cs - 2) 3)) (λ d. some (3 + d))
            (intn-Gives texts dice range round 2 (min (length cs - 2) 3) bounds.0)
            (λ d r. (omega arith, omega (arith, bounds.1))))
        (λ e. (omega arith, h))

  prefix-Gives :
      (cs : List AyatCard) (n : ℕ)
      → 3 ≤ n
      → n ≤ length cs
      → Gives (λ sel. 3 ≤ length sel) (prefix cs n)
  prefix-Gives cs n h k =
      if-Gives (λ (sel : List AyatCard). 3 ≤ length sel) (leb n (length cs)) (some (take n cs)) none
        (λ e. omega (arith, length-take_le n cs k)) (λ e. ground arith)

  pub each : (sel : List AyatCard) → EachOf Any sel
  each sel = EachOf-all Any sel (λ c. tt)

  ordering_of-Gives :
      (s : Text × List AyatCard) → Long s → Gives Any (ordering_of texts dice round s)
  unfolding ordering_of
  ordering_of-Gives (surat, cs) h =
      and_then-Gives (λ n. (3 ≤ n) × (n ≤ length cs)) Any _ _ (take_count-Gives cs h)
        (λ n b.
          and_then-Gives (λ (sel : List AyatCard). 3 ≤ length sel) Any _ _
            (prefix-Gives cs n b.0 b.1)
            (λ sel k.
              and_then-Gives Any Any _ _ (get_elem?-Gives Any sel 0 (each sel) (omega arith))
                (λ first u.
                  and_then-Gives Any Any _ _
                    (get_elem?-Gives Any sel (length sel - 1) (each sel) (omega arith))
                    (λ last v. tt))))

  pub generate_ordering-Gives :
      (groups : List AyatGroup) → Gives Any (generate_ordering texts dice round groups)
  unfolding generate_ordering
  generate_ordering-Gives groups =
      choose-Gives texts dice range round Long (sequences (dice.order round groups))
        (ordering_of texts dice round) (sequences-Long (dice.order round groups)) ordering_of-Gives

  pub generate_surah_identification-Gives :
      (cards : List AyatCard) (groups : List AyatGroup)
      → 1 ≤ length cards
      → Gives Any (generate_surah_identification rt texts dice round cards groups)
  unfolding generate_surah_identification
  generate_surah_identification-Gives cards groups h =
      if-Gives Any (ltb (length groups) 2) (some none) _ (λ e. tt)
        (λ e.
          and_then-Gives (λ i. i < length cards) Any _ _
            (intn-Gives texts dice range round 1 (length cards) h)
            (λ i r.
              and_then-Gives Any Any _ _ (get_elem?-Gives Any cards i (each cards) r) (λ ac u. tt)))
