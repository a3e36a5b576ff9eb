-- ===== src/Auth/Reuse.antt =====
-- RefreshTokenWithMeta of internal/service/auth.go as a whole.
use backend_quiz.Common.{
  ℕ, ◌≤◌, ◌≡◌, refl, sym, ap, ◌∙◌, Bool, true, false, not, ◌&&◌, Option, none, some, arith, ◌==◌,
  ltb, is_some, select_one, update_where, count_where, select_one-append,
}
use backend_quiz.Common.Text.{Text}
use backend_quiz.Domain.{refresh_token_invalid, refresh_token_reuse, Result, ok, err}
use backend_quiz.Domain.Card.{Time}
use backend_quiz.Domain.Auth.{RefreshToken, Account, RequestMeta, TokenPair, AuthTables}
use backend_quiz.Db.{World, exec, calm, transact}
use backend_quiz.Db.Compose.{bind-ok, raise_if-ok}
use backend_quiz.Repository.Tokens.{
  has_hash, is_live, is_live_of, revoked, get_token_by_hash, revoke_all, get_account, create_audit,
}
use backend_quiz.Auth.{
  AuthEnv, not_found_as, any_error_as, emit_audit, refuse_reuse, rotate, refresh_live,
  refresh_stored, refresh_token,
}
use backend_quiz.Auth.Rotation.{
  rotated, transact-rotate-ok, find_token-ok, find_account-ok, stored-live, select_one-update_hit,
  count_where-update_where,
}

not_expired : (expires now : ℕ) → ltb expires now ≡ false → now ≤ expires
not_expired expires now h = ground arith

gone : (b : Bool) → (b && not true) ≡ false
gone b = ground arith

live_itself : (id : ℕ) (r : Option Time) → r ≡ none → ((id == id) && not (is_some r)) ≡ true
live_itself id r h = ground arith

-- what a refresh without error has found and written
pub record Refreshed (env : AuthEnv) (raw : Text) (meta : RequestMeta) (t t' : AuthTables)
    (p : TokenPair) (stored : RefreshToken) : Type 0 where
  pub found : select_one (has_hash (env.hash raw)) t.refresh_tokens ≡ some stored
  pub live : stored.revoked_at ≡ none
  pub not_expired : env.now ≤ stored.expires_at
  pub account : Account
  pub has_account : select_one (λ (x : Account). x.id == stored.user_id) t.accounts ≡ some account
  pub tokens : t'.refresh_tokens ≡ rotated env meta stored t p.refresh_token

-- A refresh that returns no error was made with a stored token that is neither revoked nor expired,
-- of a stored user. It has revoked that token and added one child of it, of the same user, that
-- holds the hash of the new token, and changed no other token.
pub refresh_token_effect :
    (env : AuthEnv) (raw : Text) (meta : RequestMeta) (w : World AuthTables) (p : TokenPair)
    → (refresh_token env raw meta w).0 ≡ ok p
    → (stored : RefreshToken) × Refreshed env raw meta w.tables
        (refresh_token env raw meta w).1.tables
        p
        stored
unfolding refresh_token refresh_live
refresh_token_effect env raw meta w p h =
    let find = not_found_as refresh_token_invalid (get_token_by_hash (env.hash raw)) in
    let (s, a1, h1, e1) = bind-ok find (refresh_stored env meta) w p h in
    let w1 = (find w).1 in
    let (found, t1) = find_token-ok env raw w s a1 in
    let (live, e2) = stored-live env meta s w1 p h1 in
    let h2 = ap (λ (x : Result TokenPair × World AuthTables). x.0) (sym e2) ∙ h1 in
    let (c3, h3, e3) = raise_if-ok (ltb s.expires_at env.now) refresh_token_invalid _ w1 p h2 in
    let account = any_error_as refresh_token_invalid (get_account s.user_id) in
    let (a, a4, h4, e4) = bind-ok account (λ _. transact (rotate env meta s)) w1 p h3 in
    let w4 = (account w1).1 in
    let (has, t4) = find_account-ok s.user_id w1 a a4 in
    (
      s,
      record {
        found = found;
        live = live;
        not_expired = not_expired s.expires_at env.now c3;
        account = a;
        has_account =
            ap (λ (t : AuthTables). select_one (λ (x : Account). x.id == s.user_id) t.accounts)
              (sym t1)
            ∙ has;
        tokens =
            ap (λ (x : Result TokenPair × World AuthTables). x.1.tables.refresh_tokens)
              (e1 ∙ e2 ∙ e3 ∙ e4)
            ∙ transact-rotate-ok env meta s w4 p h4
            ∙ ap (λ (t : AuthTables). rotated env meta s t p.refresh_token) (t4 ∙ t1);
      },
    )

refuse_reuse-calm :
    (env : AuthEnv) (meta : RequestMeta) (s : RefreshToken) (t : AuthTables)
    → ((refuse_reuse env meta s (calm t)).0 ≡ err refresh_token_reuse)
      × ((refuse_reuse env meta s (calm t)).1.tables.refresh_tokens
          ≡ update_where (is_live_of s.user_id) (revoked env.now) t.refresh_tokens)
unfolding refuse_reuse emit_audit revoke_all create_audit exec
refuse_reuse-calm env meta s t = ground arith

refresh_revoked :
    (env : AuthEnv) (raw : Text) (meta : RequestMeta) (s : RefreshToken) (t : AuthTables)
    → select_one (has_hash (env.hash raw)) t.refresh_tokens ≡ some s
    → is_some s.revoked_at ≡ true
    → refresh_token env raw meta (calm t) ≡ refuse_reuse env meta s (calm t)
unfolding refresh_token refresh_stored not_found_as get_token_by_hash exec
refresh_revoked env raw meta s t found dead = rw (found, dead) refl

-- Where a stored token is revoked and no statement is refused, the use of it is reported as a reuse,
-- and leaves no token of its user that is not revoked.
pub reuse_revokes_family :
    (env : AuthEnv) (raw : Text) (meta : RequestMeta) (s : RefreshToken) (t : AuthTables)
    → select_one (has_hash (env.hash raw)) t.refresh_tokens ≡ some s
    → is_some s.revoked_at ≡ true
    → ((refresh_token env raw meta (calm t)).0 ≡ err refresh_token_reuse)
      × (count_where
            (is_live_of s.user_id)
            (refresh_token env raw meta (calm t)).1.tables.refresh_tokens
          ≡ 0)
reuse_revokes_family env raw meta s t found dead =
    let e = refresh_revoked env raw meta s t found dead in
    let (refused, tokens) = refuse_reuse-calm env meta s t in
    (
      ap (λ (x : Result TokenPair × World AuthTables). x.0) e ∙ refused,
      ap
            (λ (x : Result TokenPair × World AuthTables).
              count_where (is_live_of s.user_id) x.1.tables.refresh_tokens)
            e
          ∙ ap (count_where (is_live_of s.user_id)) tokens
          ∙ count_where-update_where (is_live_of s.user_id) (revoked env.now) t.refresh_tokens
              (λ x. gone (x.user_id == s.user_id)),
    )

-- A token that has been exchanged is not exchanged again: where no statement is refused, its second
-- use is reported as a reuse, and revokes every token of its user, the one that was given for it
-- included.
pub refresh_token_twice :
    (env env' : AuthEnv) (raw : Text) (meta meta' : RequestMeta) (w : World AuthTables)
    (p : TokenPair)
    → (refresh_token env raw meta w).0 ≡ ok p
    → env'.hash raw ≡ env.hash raw
    → let t = (refresh_token env raw meta w).1.tables in
      (stored : RefreshToken) × (select_one (has_hash (env.hash raw)) w.tables.refresh_tokens
        ≡ some stored)
      × ((refresh_token env' raw meta' (calm t)).0 ≡ err refresh_token_reuse)
      × (count_where
            (is_live_of stored.user_id)
            (refresh_token env' raw meta' (calm t)).1.tables.refresh_tokens
          ≡ 0)
refresh_token_twice env env' raw meta meta' w p h same =
    let (s, e) = refresh_token_effect env raw meta w p h in
    let t = (refresh_token env raw meta w).1.tables in
    let again =
      reuse_revokes_family env' raw meta' (revoked env.now s) t
        (ap (λ k. select_one (has_hash k) t.refresh_tokens) same
          ∙ ap (select_one (has_hash (env.hash raw))) e.tokens
          ∙ select_one-append (has_hash (env.hash raw)) _ _ (revoked env.now s) (
              select_one-update_hit (has_hash (env.hash raw)) (is_live s.id) (revoked env.now)
                w.tables.refresh_tokens s (λ x. refl) e.found
                (live_itself s.id s.revoked_at e.live)))
        refl in
    (s, e.found, again.0, again.1)
