-- ===== src/Auth/Deletion/Undone.antt =====
-- RequestAccountDeletion and CancelAccountDeletion of internal/service/auth.go, one after the other.
use mathlib.Core.Path.{ap₂}
use backend_quiz.Common.{
  ℕ, ◌≡◌, refl, sym, ap, ◌∙◌, inl, inr, true, false, Bool-cases, none, some, List, [], ◌∷◌, arith,
  is_some, select_one, count_where, update_where, if◌then◌else◌,
}
use backend_quiz.Domain.{ok}
use backend_quiz.Domain.Card.{Time}
use backend_quiz.Domain.Auth.{Account, RequestMeta, AuthTables}
use backend_quiz.Db.{calm, exec, transact}
use backend_quiz.Repository.Tokens.{get_account, revoke_all, create_audit, is_live_of, revoked}
use backend_quiz.Repository.Accounts.{
  is_account, may_request, may_cancel, request_deletion, cancel_deletion,
}
use backend_quiz.Auth.{emit_audit}
use backend_quiz.Auth.Rotation.{count_where-update_where}
use backend_quiz.Auth.Accounts.{AccountEnv, now_of}
use backend_quiz.Auth.Deletion.{request_account_deletion, cancel_account_deletion}

abbrev pub requested : AccountEnv → Account → Account
requested env a = record a { deletion_requested_at = some (now_of env); updated_at = now_of env }

abbrev pub cancelled : AccountEnv → Account → Account
cancelled env a = record a { deletion_requested_at = none; updated_at = now_of env }

-- the same account, with another time of its last change
abbrev pub touched : AccountEnv → Account → Account
touched env a = record a { updated_at = now_of env }

may_request-found :
    (id : ℕ) (xs : List Account) (a : Account)
    → select_one (is_account id) xs ≡ some a
    → a.deletion_requested_at ≡ none
    → select_one (may_request id) xs ≡ some a
may_request-found id [] a h n = ground arith
may_request-found id (x ∷ xs) a h n = ground (arith, may_request-found id xs a)

request-calm :
    (env : AccountEnv) (id : ℕ) (meta : RequestMeta) (a : Account) (t : AuthTables)
    → select_one (is_account id) t.accounts ≡ some a
    → a.deletion_requested_at ≡ none
    → ((request_account_deletion env id meta (calm t)).0
        ≡ ok (record a { deletion_requested_at = some (now_of env) }))
      × ((request_account_deletion env id meta (calm t)).1.tables.accounts
          ≡ update_where (may_request id) (requested env) t.accounts)
      × ((request_account_deletion env id meta (calm t)).1.tables.refresh_tokens
          ≡ update_where (is_live_of id) (revoked (now_of env)) t.refresh_tokens)
unfolding request_account_deletion get_account request_deletion revoke_all emit_audit create_audit
    transact exec
request-calm env id meta a t stored live =
    let found = may_request-found id t.accounts a stored live in
    elim (Bool-cases env.codes.auth.has_audit) [
      | inl h ↦ rw (stored, live, found, h) (refl, refl, refl)
      | inr h ↦ rw (stored, live, found, h) (refl, refl, refl)
    ]

may_cancel-found :
    (id : ℕ) (xs : List Account) (a : Account)
    → select_one (is_account id) xs ≡ some a
    → is_some a.deletion_requested_at ≡ true
    → select_one (may_cancel id) xs ≡ some a
may_cancel-found id [] a h n = ground arith
may_cancel-found id (x ∷ xs) a h n = ground (arith, may_cancel-found id xs a)

cancel-calm :
    (env : AccountEnv) (id : ℕ) (meta : RequestMeta) (a : Account) (t : AuthTables)
    → select_one (is_account id) t.accounts ≡ some a
    → is_some a.deletion_requested_at ≡ true
    → ((cancel_account_deletion env id meta (calm t)).0
        ≡ ok (record a { deletion_requested_at = none }))
      × ((cancel_account_deletion env id meta (calm t)).1.tables.accounts
          ≡ update_where (may_cancel id) (cancelled env) t.accounts)
unfolding cancel_account_deletion get_account cancel_deletion emit_audit create_audit exec
cancel-calm env id meta a t stored pending =
    let found = may_cancel-found id t.accounts a stored pending in
    elim (Bool-cases env.codes.auth.has_audit) [
      | inl h ↦ rw (stored, pending, found, h) (refl, refl)
      | inr h ↦ rw (stored, pending, found, h) (refl, refl)
    ]

module _ (env later : AccountEnv) (id : ℕ) where
  requested-found :
      (xs : List Account) (a : Account)
      → select_one (is_account id) xs ≡ some a
      → a.deletion_requested_at ≡ none
      → select_one (is_account id) (update_where (may_request id) (requested env) xs)
        ≡ some (requested env a)
  requested-found [] a h n = ground arith
  requested-found (x ∷ xs) a h n = ground (arith, requested-found xs a)

  restored :
      (x : Account) (now : Time)
      → x.deletion_requested_at ≡ none
      → record x { deletion_requested_at = none; updated_at = now } ≡ record x { updated_at = now }
  restored x now h = ap (λ d. record x { deletion_requested_at = d; updated_at = now }) (sym h)

  pending_row :
      (x : Account) (xs : List Account)
      → count_where (may_cancel id) (x ∷ xs) ≡ 0
      → (may_cancel id x ≡ false) × (count_where (may_cancel id) xs ≡ 0)
  pending_row x xs h = ground arith

  -- what the cancellation does to a row
  abbrev cancel_row : Account → Account
  cancel_row y = if may_cancel id y then cancelled later y else y

  requested_row :
      (x : Account)
      → may_request id x ≡ true
      → (may_cancel id (requested env x) ≡ true)
        × (x.deletion_requested_at ≡ none)
        × (is_account id x ≡ true)
  requested_row x h = ground arith

  other_row :
      (x : Account) → may_request id x ≡ false → may_cancel id x ≡ false → is_account id x ≡ false
  other_row x h k = ground arith

  undone_row :
      (x : Account)
      → may_cancel id x ≡ false
      → cancel_row (if may_request id x then requested env x else x)
        ≡ (if is_account id x then touched later x else x)
  undone_row x h = elim (Bool-cases (may_request id x)) [
    | inl e ↦
        let (again, n, own) = requested_row x e in
        ap (λ b. cancel_row (if b then requested env x else x)) e
        ∙ ap (λ b. if b then cancelled later (requested env x) else requested env x) again
        ∙ restored x (now_of later) n
        ∙ ap (λ b. if b then touched later x else x) (sym own)
    | inr e ↦
        ap (λ b. cancel_row (if b then requested env x else x)) e
        ∙ ap (λ b. if b then cancelled later x else x) h
        ∙ ap (λ b. if b then touched later x else x) (sym (other_row x e h))
  ]

  undone :
      (xs : List Account)
      → count_where (may_cancel id) xs ≡ 0
      → update_where
          (may_cancel id)
          (cancelled later)
          (update_where (may_request id) (requested env) xs)
        ≡ update_where (is_account id) (touched later) xs
  undone [] h = refl
  undone (x ∷ xs) h =
      let (row, rest) = pending_row x xs h in
      ap₂ (λ y ys. y ∷ ys) (undone_row x row) (undone xs rest)

-- With no statement refused, a request to delete a stored account that is not pending succeeds and
-- revokes all tokens of its sessions, and the cancellation after it succeeds, gives back the account
-- as the request left it but not pending, and leaves every account as it was before the request, but
-- for the time of the last change of the accounts of the id, which is the time of the cancellation,
-- where no stored account of the id was pending.
pub cancel_account_deletion-request_account_deletion :
    (env later : AccountEnv) (id : ℕ) (meta : RequestMeta) (a : Account) (t : AuthTables)
    → select_one (is_account id) t.accounts ≡ some a
    → a.deletion_requested_at ≡ none
    → count_where (may_cancel id) t.accounts ≡ 0
    → (t' : AuthTables) × (t' ≡ (request_account_deletion env id meta (calm t)).1.tables)
      × (count_where (is_live_of id) t'.refresh_tokens ≡ 0)
      × ((cancel_account_deletion later id meta (calm t')).0 ≡ ok (touched env a))
      × ((cancel_account_deletion later id meta (calm t')).1.tables.accounts
          ≡ update_where (is_account id) (touched later) t.accounts)
cancel_account_deletion-request_account_deletion env later id meta a t stored live single =
    let (done, accounts, tokens) = request-calm env id meta a t stored live in
    let t' = (request_account_deletion env id meta (calm t)).1.tables in
    let found =
      ap (select_one (is_account id)) accounts
      ∙ requested-found env later id t.accounts a stored live in
    let (back, rows) = cancel-calm later id meta (requested env a) t' found refl in
    (
      t',
      refl,
      ap (count_where (is_live_of id)) tokens
          ∙ count_where-update_where (is_live_of id) (revoked (now_of env)) t.refresh_tokens
              (λ x. ground arith),
      back ∙ ap ok (restored env later id a (now_of env) live),
      rows
          ∙ ap (update_where (may_cancel id) (cancelled later)) accounts
          ∙ undone env later id t.accounts single,
    )
