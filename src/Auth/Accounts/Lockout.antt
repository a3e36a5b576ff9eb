-- ===== src/Auth/Accounts/Lockout.antt =====
-- LoginWithMeta of internal/service/auth.go under wrong passwords.
use backend_quiz.Common.{
  ℕ, suc, ◌+◌, ◌≤◌, ◌<◌, ◌≡◌, ◌⊎◌, refl, ap, ◌∙◌, inl, inr, true, false, Bool, not, ◌&&◌,
  Bool-cases, some, List, [], ◌∷◌, ◌++◌, arith, ltb, leb, length, select_one, count_where,
  count_where-append,
}
use backend_quiz.Common.Text.{Text, text_eq, text_eq_refl}
use backend_quiz.Domain.{account_locked, err}
use backend_quiz.Domain.Card.{Time}
use backend_quiz.Domain.Auth.{Account, LoginAttempt, RequestMeta, AuthTables}
use backend_quiz.Db.{calm, exec}
use backend_quiz.Repository.Tokens.{create_audit}
use backend_quiz.Repository.Codes.{has_email, get_account_by_email}
use backend_quiz.Repository.Accounts.{
  is_recent_failure, count_recent_failures, create_login_attempt,
}
use backend_quiz.Auth.Codes.{normalize_email}
use backend_quiz.Auth.Accounts.{
  AccountEnv, now_of, check_lockout, refuse_locked, refuse_login, record_login, login_found,
  login_unlocked, login, is_empty,
}

-- a login with a wrong password, and its time
pub record Try : Type 0 where
  pub at : Time
  pub password : Text
  pub meta : RequestMeta

abbrev pub at_time : AccountEnv → Time → AccountEnv
at_time env now = record env {
  codes = record env.codes { auth = record env.codes.auth { now = now } };
}

-- the rows after a sequence of logins with an email, with no statement refused
unfoldable pub try_all : AccountEnv → Text → List Try → AuthTables → AuthTables
try_all env email [] t = t
try_all env email (x ∷ xs) t =
    try_all env email xs (login (at_time env x.at) email x.password x.meta (calm t)).1.tables

-- the password is wrong, and the time is at most the window before `now`
abbrev pub AllWrong : AccountEnv → Account → List Try → Type 0
AllWrong env user [] = Unit
AllWrong env user (x ∷ xs) =
    (env.compare user.password_hash x.password ≡ false)
    × (x.at ≤ now_of env)
    × (now_of env ≤ x.at + env.lockout_window)
    × AllWrong env user xs

-- a failure that the window of `now` leaves out
abbrev pub is_stale_failure : Text → Time → ℕ → LoginAttempt → Bool
is_stale_failure email now window a =
    text_eq a.email email && (not a.successful && ltb (a.created_at + window) now)

abbrev failure_row : Text → RequestMeta → Time → ℕ → LoginAttempt
failure_row email meta now id = record {
  id = id;
  email = email;
  ip_address = meta.ip_address;
  successful = false;
  created_at = now;
}

-- What a login with a wrong password does.
abbrev Refused : AccountEnv → Text → RequestMeta → AuthTables → AuthTables → Type 0
Refused env email meta t t' =
    (t'.accounts ≡ t.accounts)
    × (((env.lockout_max_fails
            ≤ count_where (is_recent_failure email (now_of env) env.lockout_window)
                t.login_attempts)
          × (t'.login_attempts ≡ t.login_attempts))
        ⊎ (t'.login_attempts
            ≡ t.login_attempts ++ failure_row email meta (now_of env) t.fresh_id ∷ []))

module _ (env : AccountEnv) (email : Text) (meta : RequestMeta) (t : AuthTables) where
  abbrev name : Text
  name = normalize_email env.codes email

  abbrev failures : ℕ
  failures = count_where (is_recent_failure name (now_of env) env.lockout_window) t.login_attempts

  locked :
      (password : Text)
      → ltb 0 env.lockout_max_fails ≡ true
      → leb env.lockout_max_fails failures ≡ true
      → (login env email password meta (calm t)).0 ≡ err account_locked
  unfolding login check_lockout count_recent_failures refuse_locked create_audit exec
  locked password some_max full = elim (Bool-cases env.codes.auth.has_audit) [
    | inl a ↦ rw (some_max, full, a)
    | inr a ↦ rw (some_max, full, a)
  ]

  locked_rows :
      (password : Text)
      → ltb 0 env.lockout_max_fails ≡ true
      → leb env.lockout_max_fails failures ≡ true
      → Refused env name meta t (login env email password meta (calm t)).1.tables
  unfolding login check_lockout count_recent_failures refuse_locked create_audit exec
  locked_rows password some_max full =
      let enough : env.lockout_max_fails ≤ failures = ground arith in
      elim (Bool-cases env.codes.auth.has_audit) [
        | inl a ↦ rw (some_max, full, a) (refl, inl (enough, refl))
        | inr a ↦ rw (some_max, full, a) (refl, inl (enough, refl))
      ]

  free_rows :
      (user : Account) (password : Text)
      → ltb 0 env.lockout_max_fails ≡ true
      → leb env.lockout_max_fails failures ≡ false
      → select_one (has_email name) t.accounts ≡ some user
      → env.compare user.password_hash password ≡ false
      → Refused env name meta t (login env email password meta (calm t)).1.tables
  unfolding login check_lockout count_recent_failures refuse_locked login_unlocked login_found
      refuse_login record_login create_login_attempt get_account_by_email create_audit exec
  free_rows user password some_max free known bad = elim (Bool-cases env.codes.auth.has_audit) [
    | inl a ↦ elim (Bool-cases (is_empty user.password_hash)) [
      | inl b ↦ rw (some_max, free, known, b, a) (refl, inr refl)
      | inr b ↦ rw (some_max, free, known, b, bad, a) (refl, inr refl)
    ]
    | inr a ↦ elim (Bool-cases (is_empty user.password_hash)) [
      | inl b ↦ rw (some_max, free, known, b, a) (refl, inr refl)
      | inr b ↦ rw (some_max, free, known, b, bad, a) (refl, inr refl)
    ]
  ]

  wrong_login :
      (user : Account) (password : Text)
      → ltb 0 env.lockout_max_fails ≡ true
      → select_one (has_email name) t.accounts ≡ some user
      → env.compare user.password_hash password ≡ false
      → Refused env name meta t (login env email password meta (calm t)).1.tables
  wrong_login user password some_max known bad =
      elim (Bool-cases (leb env.lockout_max_fails failures)) [
        | inl full ↦ locked_rows password some_max full
        | inr free ↦ free_rows user password some_max free known bad
      ]

module _ (email : Text) (now window : ℕ) where
  -- a failure that an earlier window counts is counted by `now`, or stale
  earlier_failures :
      (at : Time) (xs : List LoginAttempt)
      → at ≤ now
      → count_where (is_recent_failure email at window) xs
        ≤ count_where (is_recent_failure email now window) xs
          + count_where (is_stale_failure email now window) xs
  unfolding is_recent_failure
  earlier_failures at [] h = omega arith
  earlier_failures at (x ∷ xs) h = ground (arith, earlier_failures at xs)

  one_failure :
      (meta : RequestMeta) (at : Time) (id : ℕ)
      → now ≤ at + window
      → (count_where (is_recent_failure email now window) (failure_row email meta at id ∷ []) ≡ 1)
        × (count_where (is_stale_failure email now window) (failure_row email meta at id ∷ []) ≡ 0)
  unfolding is_recent_failure
  one_failure meta at id h = ground (arith, text_eq_refl email)

-- the failures that count now
abbrev pub recent : AccountEnv → Text → AuthTables → ℕ
recent env name t =
    count_where (is_recent_failure name (now_of env) env.lockout_window) t.login_attempts

abbrev pub stale : AccountEnv → Text → AuthTables → ℕ
stale env name t =
    count_where (is_stale_failure name (now_of env) env.lockout_window) t.login_attempts

-- one more failure, or the lock holds already
one_try :
    (env : AccountEnv) (name : Text) (x : Try) (n : ℕ) (t t' : AuthTables)
    → x.at ≤ now_of env
    → now_of env ≤ x.at + env.lockout_window
    → stale env name t ≡ 0
    → env.lockout_max_fails ≤ recent env name t + suc n
    → Refused (at_time env x.at) name x.meta t t'
    → (stale env name t' ≡ 0) × (env.lockout_max_fails ≤ recent env name t' + n)
one_try env name x n t t' past within fresh many (accounts, inl (full, same)) =
    let window = env.lockout_window in
    let le = earlier_failures name (now_of env) window x.at t.login_attempts past in
    rw same (fresh, omega (arith, le, full, fresh))
one_try env name x n t t' past within fresh many (accounts, inr added) =
    let row = failure_row name x.meta x.at t.fresh_id in
    let (one, none_stale) =
      one_failure name (now_of env) env.lockout_window x.meta x.at t.fresh_id within in
    rw added (
      omega (
        arith,
        count_where-append (is_stale_failure name (now_of env) env.lockout_window) t.login_attempts
            (row ∷ []),
        none_stale,
        fresh,
      ),
      omega (
        arith,
        count_where-append (is_recent_failure name (now_of env) env.lockout_window) t.login_attempts
            (row ∷ []),
        one,
        many,
      ),
    )

-- Once as many logins with a wrong password have followed as the policy has failures left for the
-- email, every login is refused as locked, with the right password too, where no statement is
-- refused, the logins are within the window, and no failure of the email is older than the window.
pub failed_logins_lock :
    (env : AccountEnv) (email password : Text) (meta : RequestMeta) (user : Account)
    (tries : List Try) (t : AuthTables)
    → 0 < env.lockout_max_fails
    → select_one (has_email (normalize_email env.codes email)) t.accounts ≡ some user
    → AllWrong env user tries
    → stale env (normalize_email env.codes email) t ≡ 0
    → env.lockout_max_fails ≤ recent env (normalize_email env.codes email) t + length tries
    → (login env email password meta (calm (try_all env email tries t))).0 ≡ err account_locked
unfolding try_all
failed_logins_lock env email password meta user [] t some_max known wrong fresh many =
    locked env email meta t password (ground arith) (ground arith)
failed_logins_lock env email password meta user (x ∷ xs) t some_max known wrong fresh many =
    let (bad, past, within, later) = wrong in
    let name = normalize_email env.codes email in
    let r =
      wrong_login (at_time env x.at) email x.meta t user x.password (ground arith) known bad in
    let t' = (login (at_time env x.at) email x.password x.meta (calm t)).1.tables in
    let (fresh', many') = one_try env name x (length xs) t t' past within fresh many r in
    failed_logins_lock env email password meta user xs t' some_max
      (ap (select_one (has_email name)) r.0 ∙ known) later fresh' many'
