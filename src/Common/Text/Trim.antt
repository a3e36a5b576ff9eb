-- ===== src/Common/Text/Trim.antt =====
-- strings.TrimSpace of Go, applied twice.
use mathlib.Core.Path.{subst}
use mathlib.Core.List.{reverse, reverse-append, reverse-reverse}
use backend_quiz.Common.{◌≡◌, refl, sym, ap, ◌∙◌, inl, inr, false, Bool-cases, [], ◌∷◌, ◌++◌}
use backend_quiz.Common.Text.{Text, is_space, trim_left, trim_space}

-- what is cut off at the left
trim_left-suffix : (s : Text) → (k : Text) × (s ≡ k ++ trim_left s)
unfolding trim_left
trim_left-suffix [] = ([], refl)
trim_left-suffix (c ∷ s) =
    let (k, e) = trim_left-suffix s in
    elim (Bool-cases (is_space c)) [
      | inl h ↦ (c ∷ k, rw h (ap (λ t. c ∷ t) e))
      | inr h ↦ ([], rw h)
    ]

-- a text that does not begin with a space
abbrev IsTrimmed : Text → Type 0
IsTrimmed [] = Unit
IsTrimmed (c ∷ s) = is_space c ≡ false

trim_left-IsTrimmed : (s : Text) → IsTrimmed (trim_left s)
unfolding trim_left
trim_left-IsTrimmed [] = tt
trim_left-IsTrimmed (c ∷ s) = elim (Bool-cases (is_space c)) [
  | inl h ↦ rw h (trim_left-IsTrimmed s)
  | inr h ↦ rw h h
]

trim_left-id : (s : Text) → IsTrimmed s → trim_left s ≡ s
unfolding trim_left
trim_left-id [] h = refl
trim_left-id (c ∷ s) h = rw h

IsTrimmed-prefix : (s t : Text) → IsTrimmed (s ++ t) → IsTrimmed s
IsTrimmed-prefix [] t h = tt
IsTrimmed-prefix (c ∷ s) t h = h

-- What is trimmed at the left, and then cut at the right, is still trimmed at the left.
reverse-IsTrimmed : (u : Text) → IsTrimmed u → IsTrimmed (reverse (trim_left (reverse u)))
reverse-IsTrimmed u h =
    let (k, e) = trim_left-suffix (reverse u) in
    let whole : u ≡ reverse (trim_left (reverse u)) ++ reverse k =
      sym (reverse-reverse u) ∙ ap reverse e ∙ reverse-append k (trim_left (reverse u)) in
    IsTrimmed-prefix (reverse (trim_left (reverse u))) (reverse k) (subst IsTrimmed whole h)

-- Trimming twice is trimming once.
pub trim_space-trim_space : (s : Text) → trim_space (trim_space s) ≡ trim_space s
unfolding trim_space
trim_space-trim_space s =
    let u = trim_left s in
    let v = trim_left (reverse u) in
    ap (λ x. reverse (trim_left (reverse x)))
      (trim_left-id (reverse v) (reverse-IsTrimmed u (trim_left-IsTrimmed s)))
    ∙ ap (λ x. reverse (trim_left x)) (reverse-reverse v)
    ∙ ap reverse (trim_left-id v (trim_left-IsTrimmed (reverse u)))
