-- ===== src/Auth/Deletion/Spared.antt =====
-- Which accounts PurgeExpiredAccounts of internal/service/auth.go deletes.
use mathlib.Core.Path.{subst}
use mathlib.Core.Option.{some_inj}
use backend_quiz.Common.{
  if◌then◌else◌, ℕ, zero, suc, ◌≡◌, refl, sym, ap, ◌∙◌, inl, inr, true, false, ◌⊎◌, none, ◌<◌, ◌+◌,
  ◌&&◌, Bool-cases, some, List, [], ◌∷◌, map, arith, ◌==◌, ltb, length, take, select_one,
  select_where, count_where, select_one-delete_where,
}
use mathlib.Core.Option.{some_inj}
use backend_quiz.Common.{if◌then◌else◌, ℤ, sub_ℕ}
use backend_quiz.Domain.{Result, ok, err}
use backend_quiz.Domain.Card.{Time}
use backend_quiz.Domain.Auth.{Account, AuthTables, account_deleted}
use backend_quiz.Db.{World, exec}
use backend_quiz.Db.Rules.{IsReadOnly, Keeps, Keeps-exec, IsReadOnly-query}
use backend_quiz.Db.Compose.{Keeps-bind, bind-at, IsReadOnly-Keeps, IsReadOnly-pure, query-ok}
use backend_quiz.Repository.Tokens.{create_audit}
use backend_quiz.Repository.Accounts.{
  is_account, is_expired, insert_account, order_accounts, or_hundred, list_expired_deletions,
  delete_account,
}
use backend_quiz.Auth.{emit_audit, no_meta}
use backend_quiz.Auth.Accounts.{AccountEnv, auth_of, now_of}
use backend_quiz.Auth.Deletion.{log_deleted, purge_one, purge_all, purge_expired_accounts}

-- no account of a list has an id
abbrev Absent : ℕ → List Account → Type 0
Absent id as_ = count_where (is_account id) as_ ≡ 0

module _ (id : ℕ) where
  Absent-insert_account :
      (a : Account) (as_ : List Account) → Absent id (a ∷ as_) → Absent id (insert_account a as_)
  Absent-insert_account a [] h = h
  Absent-insert_account a (b ∷ bs) h = ground (arith, Absent-insert_account a bs)

  Absent-order_accounts : (as_ : List Account) → Absent id as_ → Absent id (order_accounts as_)
  unfolding order_accounts
  Absent-order_accounts [] h = refl
  Absent-order_accounts (a ∷ as_) h =
      Absent-insert_account a (order_accounts as_) (ground (arith, Absent-order_accounts as_))

  Absent-take : (n : ℕ) (as_ : List Account) → Absent id as_ → Absent id (take n as_)
  Absent-take zero as_ h = refl
  Absent-take (suc n) [] h = refl
  Absent-take (suc n) (a ∷ as_) h = ground (arith, Absent-take n as_)

  Absent-select_where :
      (cutoff : ℤ) (as_ : List Account)
      → count_where (λ a. is_account id a && is_expired cutoff a) as_ ≡ 0
      → Absent id (select_where (is_expired cutoff) as_)
  Absent-select_where cutoff [] h = refl
  Absent-select_where cutoff (a ∷ as_) h = ground (arith, Absent-select_where cutoff as_)

  module _ (a : Account) where
    abbrev IsStored : AuthTables → Type 0
    IsStored t = select_one (is_account id) t.accounts ≡ some a

    Keeps-emit_audit :
        (env : AccountEnv) (i : ℕ)
        → Keeps IsStored (emit_audit (auth_of env) account_deleted i no_meta)
    unfolding emit_audit create_audit exec
    Keeps-emit_audit env i = record { at = λ w h. ground arith }

    Keeps-log_deleted :
        (env : AccountEnv) (i : ℕ) (r : Result (Unit {0})) → Keeps IsStored (log_deleted env i r)
    Keeps-log_deleted env i (ok x) = Keeps-emit_audit env i
    Keeps-log_deleted env i (err e) = IsReadOnly-Keeps (IsReadOnly-pure tt)

    Keeps-delete_account : (i : ℕ) → (i == id) ≡ false → Keeps IsStored (delete_account i)
    unfolding delete_account
    Keeps-delete_account i ne = Keeps-exec _ λ t h.
        select_one-delete_where (is_account id) (is_account i) t.accounts (λ x e. ground arith) ∙ h

    Keeps-purge_one :
        (env : AccountEnv) (i : ℕ) → (i == id) ≡ false → Keeps IsStored (purge_one env i)
    unfolding purge_one
    Keeps-purge_one env i ne = record {
      at = λ w h.
          let (r, w') = delete_account i w in
          (Keeps-log_deleted env i r).at w' ((Keeps-delete_account i ne).at w h);
    }

    Keeps-purge_all :
        (env : AccountEnv) (as_ : List Account)
        → Absent id as_
        → Keeps IsStored (purge_all env (map (λ (b : Account). b.id) as_))
    unfolding purge_all
    Keeps-purge_all env [] h = IsReadOnly-Keeps (IsReadOnly-pure tt)
    Keeps-purge_all env (b ∷ bs) h =
        Keeps-bind (Keeps-purge_one env b.id (ground arith))
          λ x. Keeps-purge_all env bs (ground arith)

-- the time before which a deletion has to be requested
abbrev pub cutoff_of : AccountEnv → ℤ
cutoff_of env = sub_ℕ (now_of env) env.deletion_grace

listed-ok :
    (env : AccountEnv) (batch : ℤ) (w : World AuthTables) (ids : List ℕ)
    → (list_expired_deletions (cutoff_of env) batch w).0 ≡ ok ids
    → ids
      ≡ map
          (λ (b : Account). b.id)
          (take
            (or_hundred batch)
            (order_accounts (select_where (is_expired (cutoff_of env)) w.tables.accounts)))
unfolding list_expired_deletions
listed-ok env batch w ids h = query-ok _ w ids h

IsReadOnly-list_expired_deletions :
    (cutoff batch : ℤ) → IsReadOnly (list_expired_deletions cutoff batch)
unfolding list_expired_deletions
IsReadOnly-list_expired_deletions cutoff batch = IsReadOnly-query _

-- The deletion of the account is not requested, or was requested within the grace period.
abbrev pub IsSpared : AccountEnv → Account → Type 0
IsSpared env a =
    (a.deletion_requested_at ≡ none)
    ⊎ ((t : Time) × (a.deletion_requested_at ≡ some t) × (now_of env < t + env.deletion_grace))

never : (cutoff : ℤ) (a : Account) → a.deletion_requested_at ≡ none → is_expired cutoff a ≡ false
never cutoff a e = ground (arith, e)

kept_time :
    (now grace t : ℕ) (a : Account)
    → a.deletion_requested_at ≡ some t
    → now < t + grace
    → is_expired (sub_ℕ now grace) a ≡ false
kept_time now grace t a e h = ground (arith, e)

is_expired-spared :
    (env : AccountEnv) (a : Account) → IsSpared env a → is_expired (cutoff_of env) a ≡ false
is_expired-spared env a (inl e) = never (cutoff_of env) a e
is_expired-spared env a (inr (t, e, h)) = kept_time (now_of env) env.deletion_grace t a e h

none_of :
    (cutoff : ℤ) (id : ℕ) (as_ : List Account)
    → count_where (is_account id) as_ ≡ 0
    → count_where (λ b. is_account id b && is_expired cutoff b) as_ ≡ 0
none_of cutoff id [] h = refl
none_of cutoff id (b ∷ bs) h = ground (arith, none_of cutoff id bs)

found_first :
    (id : ℕ) (a b : Account) (bs : List Account)
    → is_account id b ≡ true
    → select_one (is_account id) (b ∷ bs) ≡ some a
    → count_where (is_account id) (b ∷ bs) ≡ 1
    → (b ≡ a) × (count_where (is_account id) bs ≡ 0)
found_first id a b bs m h k = (
  some_inj.0 (ap (λ c. if c then some b else select_one (is_account id) bs) (sym m) ∙ h),
  ground arith,
)

-- the only account of an id is not due
none_due :
    (cutoff : ℤ) (id : ℕ) (a : Account) (as_ : List Account)
    → select_one (is_account id) as_ ≡ some a
    → count_where (is_account id) as_ ≡ 1
    → is_expired cutoff a ≡ false
    → count_where (λ b. is_account id b && is_expired cutoff b) as_ ≡ 0
none_due cutoff id a [] h k e = refl
none_due cutoff id a (b ∷ bs) h k e = elim (Bool-cases (is_account id b)) [
  | inl m ↦
      let (same, rest) = found_first id a b bs m h k in
      let spared = ap (is_expired cutoff) same ∙ e in
      let others = none_of cutoff id bs rest in ground (arith, m, spared, others)
  | inr m ↦ ground (arith, m, none_due cutoff id a bs)
]

-- Whatever statements the server refuses, the purge keeps a stored account whose deletion is not
-- requested, or was requested less than the grace period before, where no other account has its id.
pub purge_expired_accounts_spares :
    (env : AccountEnv) (batch : ℤ) (id : ℕ) (a : Account) (w : World AuthTables)
    → select_one (is_account id) w.tables.accounts ≡ some a
    → count_where (is_account id) w.tables.accounts ≡ 1
    → IsSpared env a
    → select_one (is_account id) (purge_expired_accounts env batch w).1.tables.accounts ≡ some a
unfolding purge_expired_accounts
purge_expired_accounts_spares env batch id a w stored single kept =
    let spared =
      none_due (cutoff_of env) id a w.tables.accounts stored single
        (is_expired-spared env a kept) in
    let read = list_expired_deletions (cutoff_of env) batch in
    let t1 = (IsReadOnly-list_expired_deletions (cutoff_of env) batch).tables w in
    let here : IsStored id a (read w).1.tables =
      ap (λ (t : AuthTables). select_one (is_account id) t.accounts) t1 ∙ stored in
    elim (Bool-cases (ltb 0 env.deletion_grace)) [
      | inl e ↦ rw e (
          bind-at (IsStored id a) read _ w here λ ids h.
            let due = select_where (is_expired (cutoff_of env)) w.tables.accounts in
            let none_listed = Absent-take id (or_hundred batch) (order_accounts due) (
              Absent-order_accounts id due
                (Absent-select_where id (cutoff_of env) w.tables.accounts spared)) in
            (Keeps-bind
                (subst (λ xs. Keeps (IsStored id a) (purge_all env xs))
                  (sym (listed-ok env batch w ids h)) (Keeps-purge_all id a env _ none_listed))
                (λ x. IsReadOnly-Keeps (IsReadOnly-pure (length ids)))).at
              (read w).1 here)
      | inr e ↦ rw e stored
    ]
