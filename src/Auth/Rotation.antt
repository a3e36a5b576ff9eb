-- ===== src/Auth/Rotation.antt =====
-- RefreshTokenWithMeta of internal/service/auth.go: what a rotation writes, and what a second use of
-- the same token does.
use backend_quiz.Common.{◌+◌}
use backend_quiz.Common.{
  ℕ, ◌≡◌, refl, ap, ◌∙◌, Bool, true, false, none, some, List, [], ◌∷◌, ◌++◌, arith, ◌==◌,
  select_one, update_where, count_where,
}
use backend_quiz.Common.Text.{Text}
use backend_quiz.Domain.{refresh_token_invalid, ok}
use backend_quiz.Domain.Auth.{RefreshToken, Account, RequestMeta, TokenPair, AuthTables}
use backend_quiz.Db.{World, exec, transact}
use backend_quiz.Db.Rules.{Ensures-transact}
use backend_quiz.Repository.Tokens.{
  has_hash, is_live, revoked, create_token, get_token_by_hash, revoke_token, get_account,
}
use backend_quiz.Auth.{
  AuthEnv, not_found_as, any_error_as, emit_audit, issue_token_pair, refuse_reuse, rotate,
  refresh_live, refresh_stored,
}

module _ {A : Type 0} where
  -- An update of the selected row changes what is selected.
  pub select_one-update_hit :
      (p q : A → Bool) (f : A → A) (xs : List A) (a : A)
      → ((x : A) → p (f x) ≡ p x)
      → select_one p xs ≡ some a
      → q a ≡ true
      → select_one p (update_where q f xs) ≡ some (f a)
  select_one-update_hit p q f [] a keep h g = ground arith
  select_one-update_hit p q f (x ∷ xs) a keep h g =
      ground (arith, keep x, select_one-update_hit p q f xs a keep)

  -- An update that the selected row is not part of leaves it selected.
  pub select_one-update_miss :
      (p q : A → Bool) (f : A → A) (xs : List A) (a : A)
      → ((x : A) → p (f x) ≡ p x)
      → select_one p xs ≡ some a
      → q a ≡ false
      → select_one p (update_where q f xs) ≡ some a
  select_one-update_miss p q f [] a keep h g = ground arith
  select_one-update_miss p q f (x ∷ xs) a keep h g =
      ground (arith, keep x, select_one-update_miss p q f xs a keep)

  pub count_where-update_where :
      (q : A → Bool) (f : A → A) (xs : List A)
      → ((x : A) → q (f x) ≡ false)
      → count_where q (update_where q f xs) ≡ 0
  count_where-update_where q f [] gone = refl
  count_where-update_where q f (x ∷ xs) gone =
      ground (arith, gone x, count_where-update_where q f xs gone)

module _ (env : AuthEnv) (meta : RequestMeta) (stored : RefreshToken) where
  -- the token that a rotation adds
  abbrev pub child : AuthTables → Text → RefreshToken
  child t raw = record {
    id = t.fresh_id;
    user_id = stored.user_id;
    token_hash = env.hash raw;
    parent_id = some stored.id;
    user_agent = meta.user_agent;
    ip_address = meta.ip_address;
    revoked_at = none;
    expires_at = env.now + env.refresh_duration;
    created_at = env.now;
  }

  -- the tokens after a rotation
  abbrev pub rotated : AuthTables → Text → List RefreshToken
  rotated t raw =
      update_where (is_live stored.id) (revoked env.now) t.refresh_tokens ++ child t raw ∷ []

  rotate-ok :
      (w : World AuthTables) (p : TokenPair)
      → (rotate env meta stored w).0 ≡ ok p
      → (rotate env meta stored w).1.tables.refresh_tokens ≡ rotated w.tables p.refresh_token
  unfolding rotate issue_token_pair revoke_token create_token exec
  rotate-ok w p h = ground arith

  pub transact-rotate-ok :
      (w : World AuthTables) (p : TokenPair)
      → (transact (rotate env meta stored) w).0 ≡ ok p
      → (transact (rotate env meta stored) w).1.tables.refresh_tokens
        ≡ rotated w.tables p.refresh_token
  transact-rotate-ok w p h =
      (Ensures-transact {P = λ t. t ≡ w.tables}
          {Q = λ p t. t.refresh_tokens ≡ rotated w.tables p.refresh_token}
          (record {
            at = λ v q e g. rotate-ok v q g ∙ ap (λ (t : AuthTables). rotated t q.refresh_token) e;
          })).at
        w p refl h

pub find_token-ok :
    (env : AuthEnv) (raw : Text) (w : World AuthTables) (s : RefreshToken)
    → (not_found_as refresh_token_invalid (get_token_by_hash (env.hash raw)) w).0 ≡ ok s
    → (select_one (has_hash (env.hash raw)) w.tables.refresh_tokens ≡ some s)
      × ((not_found_as refresh_token_invalid (get_token_by_hash (env.hash raw)) w).1.tables
          ≡ w.tables)
unfolding not_found_as get_token_by_hash exec
find_token-ok env raw w s h = ground arith

pub find_account-ok :
    (id : ℕ) (w : World AuthTables) (a : Account)
    → (any_error_as refresh_token_invalid (get_account id) w).0 ≡ ok a
    → (select_one (λ (x : Account). x.id == id) w.tables.accounts ≡ some a)
      × ((any_error_as refresh_token_invalid (get_account id) w).1.tables ≡ w.tables)
unfolding any_error_as get_account exec
find_account-ok id w a h = ground arith

pub refuse_reuse-fails :
    (env : AuthEnv) (meta : RequestMeta) (s : RefreshToken) (w : World AuthTables) (p : TokenPair)
    → (refuse_reuse env meta s w).0 ≡ ok p
    → ⊥
unfolding refuse_reuse emit_audit
refuse_reuse-fails env meta s w p h = ground arith

pub stored-live :
    (env : AuthEnv) (meta : RequestMeta) (s : RefreshToken) (w : World AuthTables) (p : TokenPair)
    → (refresh_stored env meta s w).0 ≡ ok p
    → (s.revoked_at ≡ none) × (refresh_stored env meta s w ≡ refresh_live env meta s w)
unfolding refresh_stored refuse_reuse emit_audit
stored-live env meta s w p h = ground arith
