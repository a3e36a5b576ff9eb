-- ===== src/Auth/Revoked.antt =====
-- A revoked token over any sequence of the requests of `Auth`.
use backend_quiz.Common.{
  ℕ, ◌≡◌, ◌≢◌, refl, sym, ◌∙◌, Bool, false, not, ◌&&◌, Option, none, some, List, [], ◌∷◌, arith,
  ◌==◌, ltb, is_some, select_one, select_one-append,
}
use backend_quiz.Common.Text.{Text}
use backend_quiz.Domain.{
  Error, refresh_token_invalid, refresh_token_reuse, session_not_found, forbidden, Result, ok, err,
}
use backend_quiz.Domain.Card.{Time}
use backend_quiz.Domain.Auth.{
  RefreshToken, AuthAuditEvent, logout, logout_all, refresh_reuse_detected, RequestMeta, TokenPair,
  AuthTables,
}
use backend_quiz.Db.{World, M, lift, ignore}
use backend_quiz.Db.Rules.{IsReadOnly, Keeps, Keeps-exec, Keeps-transact, IsReadOnly-query}
use backend_quiz.Db.Compose.{
  Keeps-bind, Keeps-if, IsReadOnly-Keeps, IsReadOnly-pure, IsReadOnly-raise, IsReadOnly-raise_if,
  IsReadOnly-bind,
}
use backend_quiz.Repository.Sessions.Laws.{IsReadOnly-or_not_found}
use backend_quiz.Repository.Tokens.{
  has_hash, is_live, is_live_of, revoked, create_token, get_token_by_hash, get_token, revoke_token,
  revoke_all, get_account, create_audit,
}
use backend_quiz.Auth.{
  AuthEnv, not_found_as, any_error_as, emit_audit, child_token, issue_token_pair, refuse_reuse,
  rotate, refresh_live, refresh_stored, refresh_token, logout_found, log_out, log_out_all,
  revoke_session, or_fail, no_meta,
}
use backend_quiz.Auth.Rotation.{select_one-update_miss}
use backend_quiz.Auth.Reuse.{refresh_token_effect}

-- a request to one of the methods on sessions
pub data AuthRequest : Type 0 where
  refresh : AuthEnv → Text → RequestMeta → AuthRequest
  end : AuthEnv → Text → AuthRequest
  end_all : AuthEnv → ℕ → AuthRequest
  revoke : AuthEnv → ℕ → ℕ → AuthRequest

-- what it leaves behind, whether it returns an error or not
unfoldable pub handle : AuthRequest → World AuthTables → World AuthTables
handle (refresh env raw meta) w = (refresh_token env raw meta w).1
handle (end env raw) w = (log_out env raw w).1
handle (end_all env u) w = (log_out_all env u w).1
handle (revoke env u k) w = (revoke_session env u k w).1

unfoldable pub handle_all : List AuthRequest → World AuthTables → World AuthTables
handle_all [] w = w
handle_all (r ∷ rs) w = handle_all rs (handle r w)

module _ {A : Type 0} {P : AuthTables → Type 0} {m : M AuthTables A} where
  Keeps-ignore : Keeps P m → Keeps P (ignore m)
  Keeps-ignore k = record { at = k.at }

  Keeps-not_found_as : (e : Error) → Keeps P m → Keeps P (not_found_as e m)
  unfolding not_found_as
  Keeps-not_found_as e k = record { at = k.at }

  Keeps-any_error_as : (e : Error) → Keeps P m → Keeps P (any_error_as e m)
  unfolding any_error_as
  Keeps-any_error_as e k = record { at = k.at }

Keeps-lift : {A : Type 0} {P : AuthTables → Type 0} (r : Result A) → Keeps P (lift r)
Keeps-lift r = record { at = λ w k. k }

ruleset reads = (IsReadOnly-or_not_found, IsReadOnly-query, IsReadOnly-bind)

IsReadOnly-get_token_by_hash : (h : Text) → IsReadOnly (get_token_by_hash h)
unfolding get_token_by_hash
IsReadOnly-get_token_by_hash h = search reads

IsReadOnly-get_token : (id : ℕ) → IsReadOnly (get_token id)
unfolding get_token
IsReadOnly-get_token id = search reads

IsReadOnly-get_account : (id : ℕ) → IsReadOnly (get_account id)
unfolding get_account
IsReadOnly-get_account id = search reads

not_live : (b : Bool) (r : Option Time) (at_ : Time) → r ≡ some at_ → (b && not (is_some r)) ≡ false
not_live b r at_ h = ground arith

module _ (h : Text) (s : RefreshToken) (at_ : Time) (dead : s.revoked_at ≡ some at_) where
  abbrev IsStored : AuthTables → Type 0
  IsStored t = select_one (has_hash h) t.refresh_tokens ≡ some s

  Keeps-create_token : (now : Time) (t : RefreshToken) → Keeps IsStored (create_token now t)
  unfolding create_token
  Keeps-create_token now t =
      Keeps-exec _ (λ u k. select_one-append (has_hash h) u.refresh_tokens _ s k)

  Keeps-revoke_token : (id : ℕ) (now : Time) → Keeps IsStored (revoke_token id now)
  unfolding revoke_token
  Keeps-revoke_token id now = Keeps-exec _ (λ u k.
      select_one-update_miss (has_hash h) (is_live id) (revoked now) u.refresh_tokens s (λ x. refl)
        k (not_live (s.id == id) s.revoked_at at_ dead))

  Keeps-revoke_all : (user_id : ℕ) (now : Time) → Keeps IsStored (revoke_all user_id now)
  unfolding revoke_all
  Keeps-revoke_all user_id now = Keeps-exec _ (λ u k.
      select_one-update_miss (has_hash h) (is_live_of user_id) (revoked now) u.refresh_tokens s
        (λ x. refl) k (not_live (s.user_id == user_id) s.revoked_at at_ dead))

  Keeps-emit_audit :
      (env : AuthEnv) (event : AuthAuditEvent) (u : ℕ) (meta : RequestMeta)
      → Keeps IsStored (emit_audit env event u meta)
  unfolding emit_audit create_audit
  Keeps-emit_audit env event u meta =
      Keeps-if env.has_audit (Keeps-ignore (Keeps-exec _ (λ t k. k)))
        (IsReadOnly-Keeps (IsReadOnly-pure tt))

  Keeps-issue_token_pair :
      (env : AuthEnv) (u : ℕ) (meta : RequestMeta) (parent : Option ℕ)
      → Keeps IsStored (issue_token_pair env u meta parent)
  unfolding issue_token_pair
  Keeps-issue_token_pair env u meta parent =
      Keeps-bind (Keeps-lift (or_fail (env.sign u))) λ access.
        Keeps-bind (Keeps-lift (or_fail env.random_token)) λ raw.
          Keeps-bind (Keeps-create_token env.now (child_token env u meta parent raw))
            λ t. record { at = λ w k. k }

  Keeps-refuse_reuse :
      (env : AuthEnv) (meta : RequestMeta) (t : RefreshToken)
      → Keeps IsStored (refuse_reuse env meta t)
  unfolding refuse_reuse
  Keeps-refuse_reuse env meta t =
      Keeps-bind (Keeps-ignore (Keeps-revoke_all t.user_id env.now)) λ x.
        Keeps-bind (Keeps-emit_audit env refresh_reuse_detected t.user_id meta)
          λ y. IsReadOnly-Keeps (IsReadOnly-raise refresh_token_reuse)

  Keeps-rotate :
      (env : AuthEnv) (meta : RequestMeta) (t : RefreshToken) → Keeps IsStored (rotate env meta t)
  unfolding rotate
  Keeps-rotate env meta t =
      Keeps-bind (Keeps-revoke_token t.id env.now)
        λ x. Keeps-issue_token_pair env t.user_id meta (some t.id)

  Keeps-refresh_live :
      (env : AuthEnv) (meta : RequestMeta) (t : RefreshToken)
      → Keeps IsStored (refresh_live env meta t)
  unfolding refresh_live
  Keeps-refresh_live env meta t =
      Keeps-bind
        (IsReadOnly-Keeps (IsReadOnly-raise_if (ltb t.expires_at env.now) refresh_token_invalid))
        λ x.
          Keeps-bind
            (Keeps-any_error_as refresh_token_invalid
              (IsReadOnly-Keeps (IsReadOnly-get_account t.user_id)))
            λ a. Keeps-transact (Keeps-rotate env meta t)

  Keeps-refresh_token :
      (env : AuthEnv) (raw : Text) (meta : RequestMeta)
      → Keeps IsStored (refresh_token env raw meta)
  unfolding refresh_token refresh_stored
  Keeps-refresh_token env raw meta =
      Keeps-bind
        (Keeps-not_found_as refresh_token_invalid
          (IsReadOnly-Keeps (IsReadOnly-get_token_by_hash (env.hash raw))))
        λ t.
          Keeps-if (is_some t.revoked_at) (Keeps-refuse_reuse env meta t)
            (Keeps-refresh_live env meta t)

  Keeps-logout_found :
      (env : AuthEnv) (r : Result RefreshToken) → Keeps IsStored (logout_found env r)
  unfolding logout_found
  Keeps-logout_found env (ok t) =
      Keeps-bind (Keeps-revoke_token t.id env.now)
        λ x. Keeps-emit_audit env logout t.user_id no_meta
  Keeps-logout_found env (err e) = record { at = λ w k. ground (arith, k) }

  handle-IsStored :
      (r : AuthRequest) (w : World AuthTables) → IsStored w.tables → IsStored (handle r w).tables
  unfolding handle log_out log_out_all revoke_session
  handle-IsStored (refresh env raw meta) w k = (Keeps-refresh_token env raw meta).at w k
  handle-IsStored (end env raw) w k =
      let (r, w') = get_token_by_hash (env.hash raw) w in
      (Keeps-logout_found env r).at w'
        ((IsReadOnly-Keeps {P = IsStored} (IsReadOnly-get_token_by_hash (env.hash raw))).at w k)
  handle-IsStored (end_all env u) w k =
      (Keeps-bind (Keeps-revoke_all u env.now) λ x. Keeps-emit_audit env logout_all u no_meta).at w
        k
  handle-IsStored (revoke env u i) w k =
      (Keeps-bind (Keeps-not_found_as session_not_found (IsReadOnly-Keeps (IsReadOnly-get_token i)))
          λ t.
            Keeps-bind (IsReadOnly-Keeps (IsReadOnly-raise_if (not (t.user_id == u)) forbidden))
              λ x.
                Keeps-if (is_some t.revoked_at) (IsReadOnly-Keeps (IsReadOnly-pure tt))
                  (Keeps-revoke_token i env.now)).at
        w k

  handle_all-IsStored :
      (rs : List AuthRequest) (w : World AuthTables)
      → IsStored w.tables
      → IsStored (handle_all rs w).tables
  unfolding handle_all
  handle_all-IsStored [] w k = k
  handle_all-IsStored (r ∷ rs) w k = handle_all-IsStored rs (handle r w) (handle-IsStored r w k)

  clash : (t : RefreshToken) → some t ≡ some s → t.revoked_at ≡ none → ⊥
  clash t e live = ground arith

-- Whatever sequence of requests follows, and whatever statements the server refuses, a token that
-- is revoked is never exchanged for new tokens.
pub revoked_token_dead :
    (s : RefreshToken) (at_ : Time) (rs : List AuthRequest) (env : AuthEnv) (raw : Text)
    (meta : RequestMeta) (w : World AuthTables) (p : TokenPair)
    → s.revoked_at ≡ some at_
    → select_one (has_hash (env.hash raw)) w.tables.refresh_tokens ≡ some s
    → (refresh_token env raw meta (handle_all rs w)).0 ≢ ok p
revoked_token_dead s at_ rs env raw meta w p dead found h =
    let (t, e) = refresh_token_effect env raw meta (handle_all rs w) p h in
    let kept = handle_all-IsStored (env.hash raw) s at_ dead rs w found in
    clash (env.hash raw) s at_ dead t (sym e.found ∙ kept) e.live
