-- ===== src/Auth/Passwords.antt =====
-- pkg/password/policy.go and validatePassword of internal/service/auth.go. The tables of package
-- unicode and the request to haveibeenpwned.com are parameters.
use backend_quiz.Common.{
  ℕ, ◌+◌, ◌≡◌, ◌≤◌, ◌↔◌, ◌⊎◌, Bool, true, false, not, ◌&&◌, ◌||◌, Option, none, some, [], ◌∷◌, ltb,
  if◌then◌else◌, arith,
}
use backend_quiz.Common.Text.{Text}
use backend_quiz.Domain.{password_too_weak, password_compromised, Result, ok, err}

-- ErrTooShort, ErrTooLong, ErrTooWeak, ErrCompromised
pub data PasswordError : Type 0 where
  too_short too_long too_weak compromised : PasswordError

-- Policy; a nil HIBPChecker is `none`, and the answer of IsCompromised is `none` for an error
pub record PasswordPolicy : Type 0 where
  pub min_length : ℕ
  pub max_length : ℕ
  pub require_mixed : Bool
  pub hibp_checker : Option (Text → Option Bool)
  pub is_letter : ℕ → Bool
  pub is_digit : ℕ → Bool

-- the bytes of a rune in UTF-8, and len of a string
abbrev pub rune_len : ℕ → ℕ
rune_len c = if ltb c 0x80 then 1 else if ltb c 0x800 then 2 else if ltb c 0x10000 then 3 else 4

unfoldable pub byte_length : Text → ℕ
byte_length [] = 0
byte_length (c ∷ s) = rune_len c + byte_length s

-- the loop over the runes, with hasLetter and hasDigit
unfoldable pub scan : PasswordPolicy → Bool → Bool → Text → Bool × Bool
scan p has_letter has_digit [] = (has_letter, has_digit)
scan p has_letter has_digit (r ∷ rs) =
    let letter = scan p true has_digit rs in
    let digit = scan p has_letter true rs in
    let other = scan p has_letter has_digit rs in
    if p.is_letter r then letter else if p.is_digit r then digit else other

-- RequireMixed
unfoldable pub is_mixed : PasswordPolicy → Text → Bool
unfolding scan
is_mixed p password =
    let (has_letter, has_digit) = scan p false false password in has_letter && has_digit

-- the answer of HIBPChecker; an error of the request is no objection
abbrev pub is_known : Option (Text → Option Bool) → Text → Bool
is_known none password = false
is_known (some check) password = elim (check password) [ none ↦ false | some pwned ↦ pwned ]

-- Policy.Validate
unfoldable pub validate : PasswordPolicy → Text → Option PasswordError
unfolding byte_length is_mixed
validate p password =
    if ltb (byte_length password) p.min_length
    then some too_short
    else if ltb 0 p.max_length && ltb p.max_length (byte_length password)
    then some too_long
    else if p.require_mixed && not (is_mixed p password)
    then some too_weak
    else if is_known p.hibp_checker password
    then some compromised
    else none

-- validatePassword
unfoldable pub validate_password : PasswordPolicy → Text → Result (Unit {0})
unfolding validate
validate_password p password = elim (validate p password) [
  | none ↦ ok tt
  | some too_short ↦ err password_too_weak
  | some too_long ↦ err password_too_weak
  | some too_weak ↦ err password_too_weak
  | some compromised ↦ err password_compromised
]

abbrev pub any : (ℕ → Bool) → Text → Bool
any test [] = false
any test (r ∷ rs) = let rest = any test rs in test r || rest

-- what a password has to be like
pub record IsStrong (p : PasswordPolicy) (password : Text) : Type 0 where
  pub long_enough : p.min_length ≤ byte_length password
  pub short_enough : (p.max_length ≡ 0) ⊎ (byte_length password ≤ p.max_length)
  pub letter_and_digit :
      (p.require_mixed ≡ false)
      ⊎ ((any p.is_letter password ≡ true)
          × (any (λ r. not (p.is_letter r) && p.is_digit r) password ≡ true))
  pub unknown : is_known p.hibp_checker password ≡ false

scan_lem :
    (p : PasswordPolicy) (l d : Bool) (s : Text)
    → scan p l d s ≡ (l || any p.is_letter s, d || any (λ r. not (p.is_letter r) && p.is_digit r) s)
unfolding scan
scan_lem p l d [] = ground arith
scan_lem p l d (r ∷ rs) =
    ground (arith, scan_lem p l d rs, scan_lem p true d rs, scan_lem p l true rs)

is_mixed_lem :
    (p : PasswordPolicy) (s : Text)
    → is_mixed p s ≡ (any p.is_letter s && any (λ r. not (p.is_letter r) && p.is_digit r) s)
unfolding is_mixed
is_mixed_lem p s = rw (scan_lem p false false s)

-- A password is accepted exactly where it has at least the least number of bytes, no more than the
-- largest number of bytes if there is one, a letter and a digit if the policy asks for them, and is
-- not reported by the breach checker, of which an error counts as no report.
pub validate_password_iff :
    (p : PasswordPolicy) (password : Text)
    → (validate_password p password ≡ ok tt) ↔ IsStrong p password
unfolding validate_password validate
validate_password_iff p password = (
  (λ h. record {
    long_enough = ground arith;
    short_enough = ground arith;
    letter_and_digit = ground (arith, is_mixed_lem p password);
    unknown = ground arith;
  }),
  (λ s.
      let a = s.long_enough in
      let b = s.short_enough in
      let c = s.letter_and_digit in let d = s.unknown in ground (arith, is_mixed_lem p password)),
)
