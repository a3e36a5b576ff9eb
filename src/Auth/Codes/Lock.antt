-- ===== src/Auth/Codes/Lock.antt =====
-- VerifyEmail of internal/service/auth.go under wrong codes.
use mathlib.Core.Path.{subst}
use backend_quiz.Common.{
  ℕ, suc, ◌+◌, ◌≤◌, ◌≡◌, refl, sym, ap, ◌∙◌, inl, inr, true, false, Bool-cases, Option, none, some,
  List, [], ◌∷◌, arith, ◌==◌, ==-refl, ltb, leb, length, select_one, update_where, if◌then◌else◌,
}
use backend_quiz.Common.Text.{Text, text_eq}
use backend_quiz.Domain.Card.{Time}
use backend_quiz.Domain.{otp_invalid, otp_too_many_attempts, Result, err}
use backend_quiz.Domain.Auth.{Account, EmailVerification, AuthTables}
use backend_quiz.Db.{World, calm, exec}
use backend_quiz.Repository.Codes.{
  is_active_of, latest, get_active_code, is_code, one_more_attempt, increment_attempts, has_email,
  get_account_by_email,
}
use backend_quiz.Auth.{not_found_as}
use backend_quiz.Auth.Codes.{CodeEnv, normalize_email, refuse_code, verify_account, verify_email}

-- a code that is tried, and the time of its request
pub record Try : Type 0 where
  pub at : Time
  pub given : Text

abbrev pub at_time : CodeEnv → Time → CodeEnv
at_time env now = record env { auth = record env.auth { now = now } }

-- the rows after a sequence of codes that are tried for an email, with no statement refused
unfoldable pub try_all : CodeEnv → Text → List Try → AuthTables → AuthTables
try_all env email [] t = t
try_all env email (x ∷ xs) t =
    try_all env email xs (verify_email (at_time env x.at) email x.given (calm t)).1.tables

-- the codes are wrong, and are tried before the right one has expired
abbrev pub AllWrong : CodeEnv → EmailVerification → List Try → Type 0
AllWrong env code [] = Unit
AllWrong env code (x ∷ xs) =
    (text_eq code.code_hash (env.auth.hash x.given) ≡ false)
    × (x.at ≤ code.expires_at)
    × AllWrong env code xs

-- the row with the increment, where it is the one with the id
abbrev bump : ℕ → EmailVerification → EmailVerification
bump id c = if c.id == id then one_more_attempt c else c

abbrev bump_latest : ℕ → Option EmailVerification → Option EmailVerification
bump_latest id none = none
bump_latest id (some c) = some (bump id c)

latest-update_where :
    (user_id id : ℕ) (cs : List EmailVerification)
    → latest (is_active_of user_id) (update_where (is_code id) one_more_attempt cs)
      ≡ bump_latest id (latest (is_active_of user_id) cs)
latest-update_where user_id id [] = refl
latest-update_where user_id id (c ∷ cs) = ground (arith, latest-update_where user_id id cs)

module _ (env : CodeEnv) (email : Text) (user : Account) (code : EmailVerification) (t : AuthTables)
    (known : select_one (has_email (normalize_email env email)) t.accounts ≡ some user)
    (unverified : user.email_verified_at ≡ none)
    (active : latest (is_active_of user.id) t.email_verifications ≡ some code)
    (valid : ltb code.expires_at env.auth.now ≡ false) (given : Text) where
  locked :
      leb env.otp_max_attempts code.attempts ≡ true
      → verify_email env email given (calm t) ≡ (err otp_too_many_attempts, calm t)
  unfolding verify_email verify_account not_found_as get_account_by_email get_active_code exec
  locked full = simp (known, unverified, active, valid, full)

  wrong :
      leb env.otp_max_attempts code.attempts ≡ false
      → text_eq code.code_hash (env.auth.hash given) ≡ false
      → verify_email env email given (calm t) ≡ (
        err otp_invalid,
        calm (record t {
          email_verifications =
              update_where (is_code code.id) one_more_attempt t.email_verifications;
        }),
      )
  unfolding verify_email verify_account refuse_code not_found_as get_account_by_email
      get_active_code increment_attempts exec
  wrong free bad = simp (known, unverified, active, valid, free, bad)

AllWrong-more :
    (env : CodeEnv) (code : EmailVerification) (xs : List Try)
    → AllWrong env code xs
    → AllWrong env (one_more_attempt code) xs
AllWrong-more env code [] h = tt
AllWrong-more env code (x ∷ xs) h = (h.0, h.1, AllWrong-more env code xs h.2)

bumped_itself : (c : EmailVerification) → bump c.id c ≡ one_more_attempt c
bumped_itself c = ground (arith, ==-refl c.id)

full_code : (max n : ℕ) → max ≤ n + 0 → leb max n ≡ true
full_code max n h = ground arith

full_anyway : (max n k : ℕ) → leb max n ≡ true → max ≤ n + k
full_anyway max n k h = ground arith

one_less : (max n k : ℕ) → max ≤ n + suc k → max ≤ (n + 1) + k
one_less max n k h = omega (arith, h)

still_valid : (expires now : ℕ) → now ≤ expires → ltb expires now ≡ false
still_valid expires now h = ground arith

-- Once as many wrong codes have been tried as the policy has attempts left for the active code of an
-- account, each at any time at which that code has not expired, every code is refused with too many
-- attempts, the right one too, at every such time, where no statement is refused.
pub wrong_codes_lock :
    (env : CodeEnv) (email given : Text) (user : Account) (code : EmailVerification)
    (tries : List Try) (t : AuthTables)
    → select_one (has_email (normalize_email env email)) t.accounts ≡ some user
    → user.email_verified_at ≡ none
    → latest (is_active_of user.id) t.email_verifications ≡ some code
    → env.auth.now ≤ code.expires_at
    → AllWrong env code tries
    → env.otp_max_attempts ≤ code.attempts + length tries
    → (verify_email env email given (calm (try_all env email tries t))).0
      ≡ err otp_too_many_attempts
unfolding try_all
wrong_codes_lock env email given user code [] t known unverified active valid bad many =
    ap (λ (x : Result Unit × World AuthTables). x.0)
      (locked env email user code t known unverified active
        (still_valid code.expires_at env.auth.now valid) given
        (full_code env.otp_max_attempts code.attempts many))
wrong_codes_lock env email given user code (x ∷ xs) t known unverified active valid bad many =
    let then_env = at_time env x.at in
    let alive = still_valid code.expires_at x.at bad.1 in
    let goal = λ (u : AuthTables).
      (verify_email env email given (calm (try_all env email xs u))).0
      ≡ err otp_too_many_attempts in
    elim (Bool-cases (leb env.otp_max_attempts code.attempts)) [
      | inl full ↦
          subst goal
            (sym (
              ap (λ (x : Result Unit × World AuthTables). x.1.tables)
                (locked then_env email user code t known unverified active alive x.given full)))
            (wrong_codes_lock env email given user code xs t known unverified active valid bad.2
              (full_anyway env.otp_max_attempts code.attempts (length xs) full))
      | inr free ↦
          subst goal
            (sym (
              ap (λ (x : Result Unit × World AuthTables). x.1.tables)
                (wrong then_env email user code t known unverified active alive x.given free
                  bad.0)))
            (wrong_codes_lock env email given user (one_more_attempt code) xs _ known unverified
              (latest-update_where user.id code.id t.email_verifications
                ∙ ap (bump_latest code.id) active
                ∙ ap some (bumped_itself code))
              valid (AllWrong-more env code xs bad.2)
              (one_less env.otp_max_attempts code.attempts (length xs) many))
    ]
