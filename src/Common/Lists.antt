-- ===== src/Common/Lists.antt =====
-- Lists measured by native numbers, and the clauses of SQL over the rows of a table: WHERE with
-- SELECT, UPDATE and DELETE, and COUNT.
use Prim.Native.Nat.{ℕ, zero, suc, ◌+◌, ◌≤◌}
use mathlib.Core.Path.{◌≡◌, refl, ap}
use mathlib.Core.Bool.{Bool, true, false}
use mathlib.Core.List.{List, [], ◌∷◌, ◌++◌}
use mathlib.Core.Option.{Option, none, some}
use native.Mathlib.Omega.{arith}
use backend_quiz.Common.Tests.{if◌then◌else◌}

module _ {ℓ} {A : Type ℓ} where
  abbrev pub length : List A → ℕ
  length [] = 0
  length (x ∷ xs) = suc (length xs)

  abbrev pub get_elem? : List A → ℕ → Option A
  get_elem? [] i = none
  get_elem? (x ∷ xs) zero = some x
  get_elem? (x ∷ xs) (suc i) = get_elem? xs i

  abbrev pub take : ℕ → List A → List A
  take zero xs = []
  take (suc n) [] = []
  take (suc n) (x ∷ xs) = x ∷ take n xs

  abbrev pub drop : ℕ → List A → List A
  drop zero xs = xs
  drop (suc n) [] = []
  drop (suc n) (x ∷ xs) = drop n xs

  -- SELECT … WHERE, the rows in the order of the table
  abbrev pub select_where : (A → Bool) → List A → List A
  select_where p [] = []
  select_where p (x ∷ xs) = let rest = select_where p xs in if p x then x ∷ rest else rest

  -- SELECT … WHERE … for at most one row
  abbrev pub select_one : (A → Bool) → List A → Option A
  select_one p [] = none
  select_one p (x ∷ xs) = if p x then some x else select_one p xs

  -- UPDATE … WHERE
  abbrev pub update_where : (A → Bool) → (A → A) → List A → List A
  update_where p f [] = []
  update_where p f (x ∷ xs) = (if p x then f x else x) ∷ update_where p f xs

  -- DELETE … WHERE
  abbrev pub delete_where : (A → Bool) → List A → List A
  delete_where p [] = []
  delete_where p (x ∷ xs) = let rest = delete_where p xs in if p x then rest else x ∷ rest

  -- SELECT COUNT(*) … WHERE
  abbrev pub count_where : (A → Bool) → List A → ℕ
  count_where p [] = 0
  count_where p (x ∷ xs) = let n = count_where p xs in if p x then suc n else n

module _ {ℓ} {A : Type ℓ} where
  pub length-append : (xs ys : List A) → length (xs ++ ys) ≡ length xs + length ys
  length-append [] ys = omega arith
  length-append (x ∷ xs) ys = omega (arith, length-append xs ys)

  pub length-update_where :
      (p : A → Bool) (f : A → A) (xs : List A) → length (update_where p f xs) ≡ length xs
  length-update_where p f [] = refl
  length-update_where p f (x ∷ xs) = ap suc (length-update_where p f xs)

  -- A row that is selected after an update, where the update changes no row's selection.
  pub select_one-update_where :
      (p : A → Bool) (f : A → A) (xs : List A) (a : A)
      → ((x : A) → p (f x) ≡ p x)
      → select_one p xs ≡ some a
      → select_one p (update_where p f xs) ≡ some (f a)
  select_one-update_where p f [] a keep h = ground arith
  select_one-update_where p f (x ∷ xs) a keep h =
      ground (arith, keep x, select_one-update_where p f xs a keep)

  -- An update of the rows that `q` selects leaves those alone that only `p` selects.
  pub select_one-update_where_ne :
      (p q : A → Bool) (f : A → A) (xs : List A)
      → ((x : A) → q x ≡ true → (p x ≡ false) × (p (f x) ≡ false))
      → select_one p (update_where q f xs) ≡ select_one p xs
  select_one-update_where_ne p q f [] apart = refl
  select_one-update_where_ne p q f (x ∷ xs) apart =
      ground (arith, apart x, select_one-update_where_ne p q f xs apart)

  pub select_one-append :
      (p : A → Bool) (xs ys : List A) (a : A)
      → select_one p xs ≡ some a
      → select_one p (xs ++ ys) ≡ some a
  select_one-append p [] ys a h = ground arith
  select_one-append p (x ∷ xs) ys a h = ground (arith, select_one-append p xs ys a)

  pub select_one_sound :
      (p : A → Bool) (xs : List A) (a : A) → select_one p xs ≡ some a → p a ≡ true
  select_one_sound p [] a h = ground arith
  select_one_sound p (x ∷ xs) a h = ground (arith, select_one_sound p xs a)

  -- An update after which no row is selected has found no row.
  pub update_where-none :
      (p : A → Bool) (f : A → A) (xs : List A)
      → ((x : A) → p (f x) ≡ p x)
      → select_one p (update_where p f xs) ≡ none
      → update_where p f xs ≡ xs
  update_where-none p f [] keep h = refl
  update_where-none p f (x ∷ xs) keep h = ground (arith, keep x, update_where-none p f xs keep)

  pub select_one-update_none :
      (p : A → Bool) (f : A → A) (xs : List A)
      → ((x : A) → p (f x) ≡ p x)
      → select_one p (update_where p f xs) ≡ none
      → select_one p xs ≡ none
  select_one-update_none p f [] keep h = refl
  select_one-update_none p f (x ∷ xs) keep h =
      ground (arith, keep x, select_one-update_none p f xs keep)

  pub select_one-append_none :
      (p : A → Bool) (xs ys : List A)
      → select_one p xs ≡ none
      → select_one p (xs ++ ys) ≡ select_one p ys
  select_one-append_none p [] ys h = refl
  select_one-append_none p (x ∷ xs) ys h = ground (arith, select_one-append_none p xs ys)

  pub select_where-append :
      (p : A → Bool) (xs ys : List A)
      → select_where p (xs ++ ys) ≡ select_where p xs ++ select_where p ys
  select_where-append p [] ys = refl
  select_where-append p (x ∷ xs) ys = ground (arith, select_where-append p xs ys)

  -- what `take` keeps of a list that is short enough
  pub take_all : (n : ℕ) (xs : List A) → length xs ≤ n → take n xs ≡ xs
  take_all zero [] h = refl
  take_all zero (x ∷ xs) h = ground arith
  take_all (suc n) [] h = refl
  take_all (suc n) (x ∷ xs) h = ap (λ ys. x ∷ ys) (take_all n xs (omega (arith, h)))

  -- What is deleted was not the selected row.
  pub select_one-delete_where :
      (p q : A → Bool) (xs : List A)
      → ((x : A) → q x ≡ true → p x ≡ false)
      → select_one p (delete_where q xs) ≡ select_one p xs
  select_one-delete_where p q [] apart = refl
  select_one-delete_where p q (x ∷ xs) apart =
      ground (arith, apart x, select_one-delete_where p q xs apart)

  pub select_one-delete_miss :
      (p q : A → Bool) (xs : List A) (a : A)
      → select_one p xs ≡ some a
      → q a ≡ false
      → select_one p (delete_where q xs) ≡ some a
  select_one-delete_miss p q [] a h g = ground arith
  select_one-delete_miss p q (x ∷ xs) a h g = ground (arith, select_one-delete_miss p q xs a)

  pub count_where-append :
      (p : A → Bool) (xs ys : List A)
      → count_where p (xs ++ ys) ≡ count_where p xs + count_where p ys
  count_where-append p [] ys = omega arith
  count_where-append p (x ∷ xs) ys = ground (arith, count_where-append p xs ys)
