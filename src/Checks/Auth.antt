-- ===== src/Checks/Auth.antt =====
-- Examples of the theorems of `Auth`.
use backend_quiz.Common.{
  List, ◌≡◌, ◌≢◌, refl, arith, true, none, some, [], ◌∷◌, select_one, count_where,
}
use backend_quiz.Common.Text.{trim_space}
use backend_quiz.Domain.{refresh_token_reuse, otp_too_many_attempts, ok, err}
use backend_quiz.Domain.Auth.{Account, EmailVerification, RefreshToken, TokenPair, AuthTables}
use backend_quiz.Db.{calm, exec, transact}
use backend_quiz.Repository.Tokens.{
  has_hash, is_live_of, create_token, get_token_by_hash, revoke_token, get_account, create_audit,
}
use backend_quiz.Auth.{
  AuthEnv, no_meta, not_found_as, any_error_as, emit_audit, issue_token_pair, rotate, refresh_live,
  refresh_stored, refresh_token,
}
use backend_quiz.Auth.Codes.{CodeEnv, normalize_email, verify_email, verify_account, accept_code}
use backend_quiz.Auth.Codes.Lock.{Try, try_all, wrong_codes_lock}
use backend_quiz.Auth.Codes.Verified.{Verified, verify_email_effect}
use backend_quiz.Repository.Codes.{
  has_email, get_account_by_email, get_active_code, consume_code, mark_email_verified,
}
use backend_quiz.Auth.Reuse.{
  Refreshed, refresh_token_effect, reuse_revokes_family, refresh_token_twice,
}
use backend_quiz.Auth.Revoked.{refresh, end_all, handle_all, revoked_token_dead}

abbrev pub env : AuthEnv
env = record {
  now = 5000;
  hash = λ s. s;
  sign = λ u. some (b'j' ∷ []);
  random_token = some (b'n' ∷ []);
  access_duration = 900;
  refresh_duration = 90000;
  has_audit = true;
}

abbrev pub live_token : RefreshToken
live_token = record {
  id = 2;
  user_id = 1;
  token_hash = b'a' ∷ [];
  parent_id = none;
  user_agent = [];
  ip_address = [];
  revoked_at = none;
  expires_at = 80000;
  created_at = 1000;
}

abbrev revoked_token : RefreshToken
revoked_token = record live_token { id = 3; token_hash = b'b' ∷ []; revoked_at = some 2000 }

abbrev pub account_row : Account
account_row = record {
  id = 1;
  email = b'e' ∷ [];
  password_hash = b'h' ∷ [];
  display_name = [];
  email_verified_at = none;
  deletion_requested_at = none;
  updated_at = 900;
}

-- the code "c", with one wrong attempt
abbrev code_row : EmailVerification
code_row = record {
  id = 4;
  user_id = 1;
  code_hash = b'c' ∷ [];
  attempts = 1;
  expires_at = 9000;
  consumed_at = none;
  created_at = 3000;
}

abbrev pub rows : AuthTables
rows = record {
  accounts = account_row ∷ [];
  email_verifications = code_row ∷ [];
  password_reset_tokens = [];
  login_attempts = [];
  oauth_accounts = [];
  refresh_tokens = live_token ∷ revoked_token ∷ [];
  audit_logs = [];
  fresh_id = 10;
}

abbrev pub pair : TokenPair
pair = record { access_token = b'j' ∷ []; refresh_token = b'n' ∷ []; expires_at = 5 }

refresh_ok : (refresh_token env (b'a' ∷ []) no_meta (calm rows)).0 ≡ ok pair
unfolding refresh_token not_found_as get_token_by_hash refresh_stored refresh_live any_error_as
    get_account rotate revoke_token issue_token_pair create_token exec transact
refresh_ok = refl

refresh_token_effect_example :
    (stored : RefreshToken) × Refreshed env
      (b'a' ∷ [])
      no_meta
      rows
      (refresh_token env (b'a' ∷ []) no_meta (calm rows)).1.tables
      pair
      stored
refresh_token_effect_example =
    refresh_token_effect env (b'a' ∷ []) no_meta (calm rows) pair refresh_ok

reuse_revokes_family_example :
    ((refresh_token env (b'b' ∷ []) no_meta (calm rows)).0 ≡ err refresh_token_reuse)
    × (count_where
          (is_live_of 1)
          (refresh_token env (b'b' ∷ []) no_meta (calm rows)).1.tables.refresh_tokens
        ≡ 0)
reuse_revokes_family_example =
    reuse_revokes_family env (b'b' ∷ []) no_meta revoked_token rows refl refl

refresh_token_twice_example :
    let t = (refresh_token env (b'a' ∷ []) no_meta (calm rows)).1.tables in
    (stored : RefreshToken) × (select_one (has_hash (b'a' ∷ [])) rows.refresh_tokens ≡ some stored)
    × ((refresh_token env (b'a' ∷ []) no_meta (calm t)).0 ≡ err refresh_token_reuse)
    × (count_where
          (is_live_of stored.user_id)
          (refresh_token env (b'a' ∷ []) no_meta (calm t)).1.tables.refresh_tokens
        ≡ 0)
refresh_token_twice_example =
    refresh_token_twice env env (b'a' ∷ []) no_meta no_meta (calm rows) pair refresh_ok refl

revoked_token_dead_example :
    (refresh_token env
      (b'b' ∷ [])
      no_meta
      (handle_all (refresh env (b'a' ∷ []) no_meta ∷ end_all env 1 ∷ []) (calm rows))).0
    ≢ ok pair
revoked_token_dead_example =
    revoked_token_dead revoked_token 2000 (refresh env (b'a' ∷ []) no_meta ∷ end_all env 1 ∷ []) env
      (b'b' ∷ []) no_meta (calm rows) pair refl refl

abbrev pub codes_env : CodeEnv
codes_env = record {
  auth = env;
  otp_max_attempts = 3;
  otp_ttl = 600;
  random_code = b'r' ∷ [];
  lower = λ c. c;
}

same_email :
    select_one (has_email (normalize_email codes_env (b'e' ∷ []))) rows.accounts ≡ some account_row
unfolding trim_space
same_email = refl

abbrev wrong_tries : List Try
wrong_tries = record { at = 5000; given = b'x' ∷ [] } ∷ record { at = 5001; given = b'y' ∷ [] } ∷ []

wrong_codes_lock_example :
    (verify_email codes_env
      (b'e' ∷ [])
      (b'c' ∷ [])
      (calm (try_all codes_env (b'e' ∷ []) wrong_tries rows))).0
    ≡ err otp_too_many_attempts
wrong_codes_lock_example =
    wrong_codes_lock codes_env (b'e' ∷ []) (b'c' ∷ []) account_row code_row wrong_tries rows
      same_email refl refl (omega arith) (refl, omega arith, (refl, omega arith, tt)) (omega arith)

verify_ok : (verify_email codes_env (b'e' ∷ []) (b'c' ∷ []) (calm rows)).0 ≡ ok tt
unfolding verify_email verify_account not_found_as get_account_by_email get_active_code accept_code
    consume_code mark_email_verified emit_audit create_audit transact exec trim_space
verify_ok = refl

verify_email_effect_example :
    (user : Account) × (code : EmailVerification) × Verified codes_env
      (b'e' ∷ [])
      (b'c' ∷ [])
      rows
      (verify_email codes_env (b'e' ∷ []) (b'c' ∷ []) (calm rows)).1.tables
      user
      code
verify_email_effect_example =
    verify_email_effect codes_env (b'e' ∷ []) (b'c' ∷ []) (calm rows) tt verify_ok
