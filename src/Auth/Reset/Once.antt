-- ===== src/Auth/Reset/Once.antt =====
-- What a ResetPassword of internal/service/auth.go without error has checked and done.
use mathlib.Core.Path.{subst, subst₂, ap₂}
use backend_quiz.Common.{
  ◌≤◌, ◌≡◌, ◌≢◌, refl, sym, ap, ◌∙◌, true, false, ◌||◌, Option, none, some, List, arith, ltb,
  is_some, ◌==◌, ==-refl, select_one, update_where,
}
use backend_quiz.Common.Text.{Text}
use backend_quiz.Domain.{reset_token_invalid, Result, ok}
use backend_quiz.Domain.Auth.{Account, PasswordResetToken, AuthTables, password_reset_completed}
use backend_quiz.Db.{World, exec, transact, ◌>>=◌, ◌>>◌}
use backend_quiz.Db.Rules.{Ensures-transact}
use backend_quiz.Db.Compose.{bind-ok, lift-ok, raise_if-ok}
use backend_quiz.Repository.Tokens.{create_audit, revoke_all, is_live_of, revoked}
use backend_quiz.Repository.Accounts.{
  is_account, is_reset_token, get_reset_token, update_password, consume_reset_token,
}
use backend_quiz.Auth.{not_found_as, or_fail, emit_audit, no_meta}
use backend_quiz.Auth.Rotation.{select_one-update_hit}
use backend_quiz.Auth.Passwords.{validate_password, validate_password_iff, IsStrong}
use backend_quiz.Auth.Accounts.{AccountEnv, auth_of, now_of}
use backend_quiz.Auth.Reset.{reset_body, reset_found, reset_password}

abbrev pub consumed : AccountEnv → PasswordResetToken → PasswordResetToken
consumed env t = record t { consumed_at = some (now_of env) }

abbrev pub with_password : AccountEnv → Text → Account → Account
with_password env hash a = record a { password_hash = hash; updated_at = now_of env }

-- the three tables after a reset
pub record AfterReset (env : AccountEnv) (token : PasswordResetToken) (hash : Text)
    (t t' : AuthTables) : Type 0 where
  pub accounts :
      t'.accounts ≡ update_where (is_account token.user_id) (with_password env hash) t.accounts
  pub spent :
      t'.password_reset_tokens
      ≡ update_where (λ x. x.id == token.id) (consumed env) t.password_reset_tokens
  pub sessions :
      t'.refresh_tokens
      ≡ update_where (is_live_of token.user_id) (revoked (now_of env)) t.refresh_tokens

-- What a reset without error was made with, and what it has done.
pub record ResetEffect (env : AccountEnv) (raw password : Text) (t t' : AuthTables)
    (token : PasswordResetToken) (hash : Text) : Type 0 where
  pub strong : IsStrong env.passwords password
  pub stored :
      select_one (is_reset_token ((auth_of env).hash raw)) t.password_reset_tokens ≡ some token
  pub unused : token.consumed_at ≡ none
  pub not_expired : now_of env ≤ token.expires_at
  pub hashed : env.hash_password password ≡ some hash
  pub after : AfterReset env token hash t t'

module _ (env : AccountEnv) where
  reset_body-ok :
      (token : PasswordResetToken) (hash : Text) (w : World AuthTables) (x : Unit {0})
      → (reset_body env token hash w).0 ≡ ok x
      → AfterReset env token hash w.tables (reset_body env token hash w).1.tables
  unfolding reset_body update_password consume_reset_token revoke_all exec
  reset_body-ok token hash w x h = record {
    accounts = ground arith;
    spent = ground arith;
    sessions = ground arith;
  }

  transact-reset_body-ok :
      (token : PasswordResetToken) (hash : Text) (w : World AuthTables) (x : Unit {0})
      → (transact (reset_body env token hash) w).0 ≡ ok x
      → AfterReset env token hash w.tables (transact (reset_body env token hash) w).1.tables
  transact-reset_body-ok token hash w x h =
      (Ensures-transact {P = λ t. t ≡ w.tables} {Q = λ _. AfterReset env token hash w.tables}
          (record {
            at = λ v y e g.
                subst (λ t. AfterReset env token hash t (reset_body env token hash v).1.tables) e
                  (reset_body-ok token hash v y g);
          })).at
        w x refl h

  emit_audit-AfterReset :
      (token : PasswordResetToken) (hash : Text) (t : AuthTables) (w : World AuthTables)
      → AfterReset env token hash t w.tables
      → AfterReset env token hash t
          (emit_audit (auth_of env) password_reset_completed token.user_id no_meta w).1.tables
  unfolding emit_audit create_audit exec
  emit_audit-AfterReset token hash t w a = record {
    accounts = ground arith;
    spent = ground arith;
    sessions = ground arith;
  }

  find-ok :
      (raw : Text) (w : World AuthTables) (token : PasswordResetToken)
      → (not_found_as reset_token_invalid (get_reset_token ((auth_of env).hash raw)) w).0 ≡ ok token
      → (select_one (is_reset_token ((auth_of env).hash raw)) w.tables.password_reset_tokens
          ≡ some token)
        × ((not_found_as reset_token_invalid (get_reset_token ((auth_of env).hash raw)) w).1.tables
            ≡ w.tables)
  unfolding not_found_as get_reset_token exec
  find-ok raw w token h = ground arith

  unused_token :
      (token : PasswordResetToken)
      → (is_some token.consumed_at || ltb token.expires_at (now_of env)) ≡ false
      → (token.consumed_at ≡ none) × (now_of env ≤ token.expires_at)
  unused_token token h = ground arith

  hashed-ok : (o : Option Text) (hash : Text) → or_fail o ≡ ok hash → o ≡ some hash
  hashed-ok o hash h = ground arith

  -- The rest of a reset, once the token is read.
  record Finished (password : Text) (token : PasswordResetToken) (t t' : AuthTables) : Type 0 where
    hash : Text
    unused : (token.consumed_at ≡ none) × (now_of env ≤ token.expires_at)
    hashed : env.hash_password password ≡ some hash
    after : AfterReset env token hash t t'

  reset_found-ok :
      (password : Text) (token : PasswordResetToken) (w : World AuthTables) (x : Unit {0})
      → (reset_found env password token w).0 ≡ ok x
      → Finished password token w.tables (reset_found env password token w).1.tables
  unfolding reset_found
  reset_found-ok password token w x h =
      let used = is_some token.consumed_at || ltb token.expires_at (now_of env) in
      let audit = emit_audit (auth_of env) password_reset_completed token.user_id no_meta in
      let (c1, h1, e1) = raise_if-ok used reset_token_invalid _ w x h in
      let (hash, a2, h2, e2) =
        lift-ok (or_fail (env.hash_password password))
          (λ hash. transact (reset_body env token hash) >> audit) w x h1 in
      let body = transact (reset_body env token hash) in
      let (y, a3, h3, e3) = bind-ok body (λ _. audit) w x h2 in
      record {
        hash = hash;
        unused = unused_token token c1;
        hashed = hashed-ok (env.hash_password password) hash a2;
        after =
            subst (AfterReset env token hash w.tables)
              (sym (ap (λ (r : Result (Unit {0}) × World AuthTables). r.1.tables) (e1 ∙ e2 ∙ e3)))
              (emit_audit-AfterReset token hash w.tables (body w).1
                (transact-reset_body-ok token hash w y a3));
      }

-- A ResetPassword that returns no error was made, whatever statements the server refuses, with a
-- strong password and a stored token that was neither used nor expired. It has stored the hash of
-- the password in the token's account, marked the token as used, and revoked all tokens of the
-- account's sessions.
pub reset_password_effect :
    (env : AccountEnv) (raw password : Text) (w : World AuthTables) (x : Unit {0})
    → (reset_password env raw password w).0 ≡ ok x
    → (token : PasswordResetToken) × (hash : Text) × ResetEffect env raw password w.tables
        (reset_password env raw password w).1.tables
        token
        hash
unfolding reset_password
reset_password_effect env raw password w x h =
    let find = not_found_as reset_token_invalid (get_reset_token ((auth_of env).hash raw)) in
    let (y, a1, h1, e1) =
      lift-ok (validate_password env.passwords password)
        (λ _. find >>= λ token. reset_found env password token) w x h in
    let (token, a2, h2, e2) = bind-ok find (λ token. reset_found env password token) w x h1 in
    let (stored, t2) = find-ok env raw w token a2 in
    let f = reset_found-ok env password token (find w).1 x h2 in
    (
      token,
      f.hash,
      record {
        strong = (validate_password_iff env.passwords password).0 a1;
        stored = stored;
        unused = f.unused.0;
        not_expired = f.unused.1;
        hashed = f.hashed;
        after =
            subst₂ (λ t t'. AfterReset env token f.hash t t') t2
              (sym (ap (λ (r : Result (Unit {0}) × World AuthTables). r.1.tables) (e1 ∙ e2)))
              f.after;
      },
    )

select_one-update_spent :
    (env : AccountEnv) (raw : Text) (token : PasswordResetToken) (ts : List PasswordResetToken)
    → select_one (is_reset_token ((auth_of env).hash raw)) ts ≡ some token
    → select_one
        (is_reset_token ((auth_of env).hash raw))
        (update_where (λ x. x.id == token.id) (consumed env) ts)
      ≡ some (consumed env token)
select_one-update_spent env raw token ts h =
    select_one-update_hit (is_reset_token ((auth_of env).hash raw)) (λ x. x.id == token.id)
      (consumed env) ts token (λ x. refl) h (==-refl token.id)

reused :
    (s t : PasswordResetToken)
    → some s ≡ some t
    → s.consumed_at ≡ none
    → is_some t.consumed_at ≡ true
    → ⊥
reused s t e u v = ground arith

-- A reset token that has been used is not accepted again, whatever the password, at whatever later
-- time, and whatever statements the server refuses.
pub reset_password_once :
    (env later : AccountEnv) (raw password second : Text) (w v : World AuthTables) (x y : Unit {0})
    → (reset_password env raw password w).0 ≡ ok x
    → (auth_of later).hash raw ≡ (auth_of env).hash raw
    → v.tables.password_reset_tokens
      ≡ (reset_password env raw password w).1.tables.password_reset_tokens
    → (reset_password later raw second v).0 ≢ ok y
reset_password_once env later raw password second w v x y h same rows h' =
    let (token, hash, e) = reset_password_effect env raw password w x h in
    let (token', hash', e') = reset_password_effect later raw second v y h' in
    let used = select_one-update_spent env raw token w.tables.password_reset_tokens e.stored in
    let both : some token' ≡ some (consumed env token) =
      sym e'.stored
      ∙ ap₂ (λ k (ts : List PasswordResetToken). select_one (is_reset_token k) ts) same
          (rows ∙ e.after.spent)
      ∙ used in
    reused token' (consumed env token) both e'.unused refl
