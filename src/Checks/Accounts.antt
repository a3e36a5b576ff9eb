-- ===== src/Checks/Accounts.antt =====
-- Examples of the theorems of `Auth` on accounts, on the rows of Checks.Auth.
use backend_quiz.Common.{
  inr, update_where, ◌≡◌, ◌≢◌, ◌↔◌, refl, arith, true, false, none, some, [], ◌∷◌, ◌&&◌, List,
  select_one, count_where, leb,
}
use backend_quiz.Common.{pos}
use backend_quiz.Common.Text.{Text, text_eq, trim_space}
use backend_quiz.Domain.{account_locked, ok, err}
use backend_quiz.Domain.Auth.{PasswordResetToken, AuthTables}
use backend_quiz.Db.{calm, exec, transact}
use backend_quiz.Repository.Tokens.{create_token, revoke_all, create_audit, is_live_of}
use backend_quiz.Repository.Codes.{has_email, get_account_by_email}
use backend_quiz.Repository.Accounts.{
  is_account, count_recent_failures, create_login_attempt, get_reset_token, update_password,
  consume_reset_token,
}
use backend_quiz.Auth.{no_meta, emit_audit, issue_token_pair, not_found_as}
use backend_quiz.Auth.Codes.{normalize_email}
use backend_quiz.Auth.Passwords.{
  PasswordPolicy, validate_password, validate, byte_length, is_mixed, scan, IsStrong,
  validate_password_iff,
}
use backend_quiz.Auth.Accounts.{
  AccountEnv, login, check_lockout, refuse_locked, login_unlocked, login_found, enter, check_device,
  record_login,
}
use backend_quiz.Auth.Accounts.Lockout.{Try, try_all, failed_logins_lock}
use backend_quiz.Auth.Accounts.Entered.{LoginEffect, login_effect}
use backend_quiz.Auth.Reset.{reset_password, reset_found, reset_body}
use backend_quiz.Auth.Reset.Once.{ResetEffect, reset_password_effect, reset_password_once}
use backend_quiz.Auth.Deletion.{
  request_account_deletion, cancel_account_deletion, purge_expired_accounts,
}
use backend_quiz.Auth.Deletion.Spared.{purge_expired_accounts_spares}
use backend_quiz.Auth.Deletion.Undone.{touched, cancel_account_deletion-request_account_deletion}
use backend_quiz.Checks.Auth.{account_row, rows, pair, codes_env}

abbrev policy : PasswordPolicy
policy = record {
  min_length = 2;
  max_length = 72;
  require_mixed = true;
  hibp_checker = some (λ s. none);
  is_letter = λ c. leb b'a' c && leb c b'z';
  is_digit = λ c. leb b'0' c && leb c b'9';
}

-- bcrypt with the password "h" for the hash "h"
abbrev accounts_env : AccountEnv
accounts_env = record {
  codes = codes_env;
  passwords = policy;
  hash_password = λ s. some s;
  compare = text_eq;
  require_email_verified = false;
  lockout_window = 900;
  lockout_max_fails = 2;
  reset_ttl = 600;
  deletion_grace = 1000;
  mail_sent = true;
}

abbrev strong : Text
strong = b'p' ∷ b'1' ∷ []

validate_password_iff_example : (validate_password policy strong ≡ ok tt) ↔ IsStrong policy strong
validate_password_iff_example = validate_password_iff policy strong

known_email :
    select_one (has_email (normalize_email codes_env (b'e' ∷ []))) rows.accounts ≡ some account_row
unfolding trim_space
known_email = refl

-- two wrong passwords, the first one 800 ms before
abbrev guesses : List Try
guesses =
    record { at = 4200; password = b'x' ∷ []; meta = no_meta }
    ∷ record { at = 5000; password = b'y' ∷ []; meta = no_meta }
    ∷ []

failed_logins_lock_example :
    (login accounts_env
      (b'e' ∷ [])
      (b'h' ∷ [])
      no_meta
      (calm (try_all accounts_env (b'e' ∷ []) guesses rows))).0
    ≡ err account_locked
failed_logins_lock_example =
    failed_logins_lock accounts_env (b'e' ∷ []) (b'h' ∷ []) no_meta account_row guesses rows
      (omega arith) known_email
      (refl, (omega arith), (omega arith), (refl, (omega arith), (omega arith), tt)) refl
      (omega arith)

login_ok :
    (login accounts_env (b'e' ∷ []) (b'h' ∷ []) no_meta (calm rows)).0 ≡ ok (pair, account_row)
unfolding login check_lockout count_recent_failures refuse_locked login_unlocked login_found enter
    check_device record_login create_login_attempt get_account_by_email issue_token_pair
    create_token emit_audit create_audit exec trim_space
login_ok = refl

login_effect_example :
    LoginEffect accounts_env
      (normalize_email codes_env (b'e' ∷ []))
      (b'h' ∷ [])
      no_meta
      rows
      (login accounts_env (b'e' ∷ []) (b'h' ∷ []) no_meta (calm rows)).1.tables
      pair
      account_row
login_effect_example =
    login_effect accounts_env (b'e' ∷ []) (b'h' ∷ []) no_meta (calm rows) pair account_row login_ok

abbrev reset_row : PasswordResetToken
reset_row = record {
  id = 8;
  user_id = 1;
  token_hash = b'r' ∷ [];
  expires_at = 5100;
  consumed_at = none;
  created_at = 4500;
}

abbrev reset_rows : AuthTables
reset_rows = record rows { password_reset_tokens = reset_row ∷ [] }

reset_ok : (reset_password accounts_env (b'r' ∷ []) strong (calm reset_rows)).0 ≡ ok tt
unfolding reset_password validate_password validate byte_length is_mixed scan not_found_as
    get_reset_token reset_found reset_body update_password consume_reset_token revoke_all emit_audit
    create_audit exec transact
reset_ok = refl

reset_password_effect_example :
    (token : PasswordResetToken) × (hash : Text) × ResetEffect accounts_env
      (b'r' ∷ [])
      strong
      reset_rows
      (reset_password accounts_env (b'r' ∷ []) strong (calm reset_rows)).1.tables
      token
      hash
reset_password_effect_example =
    reset_password_effect accounts_env (b'r' ∷ []) strong (calm reset_rows) tt reset_ok

reset_password_once_example :
    (reset_password accounts_env
      (b'r' ∷ [])
      strong
      (reset_password accounts_env (b'r' ∷ []) strong (calm reset_rows)).1).0
    ≢ ok tt
reset_password_once_example =
    reset_password_once accounts_env accounts_env (b'r' ∷ []) strong strong (calm reset_rows)
      (reset_password accounts_env (b'r' ∷ []) strong (calm reset_rows)).1 tt tt reset_ok refl refl

-- a request to delete the account that is within the grace period, and one that is not
abbrev deletion_rows : AuthTables
deletion_rows = record rows {
  accounts =
      record account_row { deletion_requested_at = some 4500 }
      ∷ record account_row { id = 2; deletion_requested_at = some 3500 }
      ∷ [];
}

purge_expired_accounts_spares_example :
    select_one
      (is_account 1)
      (purge_expired_accounts accounts_env (pos 10) (calm deletion_rows)).1.tables.accounts
    ≡ some (record account_row { deletion_requested_at = some 4500 })
purge_expired_accounts_spares_example =
    purge_expired_accounts_spares accounts_env (pos 10) 1
      (record account_row { deletion_requested_at = some 4500 }) (calm deletion_rows) refl refl
      (inr (4500, refl, omega arith))

cancel_account_deletion-request_account_deletion_example :
    (t' : AuthTables) × (t'
      ≡ (request_account_deletion accounts_env 1 no_meta (calm rows)).1.tables)
    × (count_where (is_live_of 1) t'.refresh_tokens ≡ 0)
    × ((cancel_account_deletion accounts_env 1 no_meta (calm t')).0
        ≡ ok (touched accounts_env account_row))
    × ((cancel_account_deletion accounts_env 1 no_meta (calm t')).1.tables.accounts
        ≡ update_where (is_account 1) (touched accounts_env) rows.accounts)
cancel_account_deletion-request_account_deletion_example =
    cancel_account_deletion-request_account_deletion accounts_env accounts_env 1 no_meta account_row
      rows refl refl refl
