-- ===== src/Db/Rules.antt =====
-- Rules for requests that are built from statements and transactions (internal/repository/uow.go):
-- what leaves the rows alone, what is all or nothing, what keeps an invariant of the rows, and
-- what a result without error ensures.
use backend_quiz.Common.{Bool, true, false, ◌≡◌, refl, sym, ◌⊎◌, inl, inr, arith}
use mathlib.Core.Path.{subst, subst₂}
use backend_quiz.Domain.{Error, database, Result, ok, err}
use backend_quiz.Db.{
  Tx, idle, active, aborted, World, M, query, exec, transact, run_statement, exec_in, begin, finish,
  do_in, next_fault, later_faults,
}

pub record IsReadOnly {T A : Type 0} (m : M T A) : Type 0 where
  pub tables : (w : World T) → (m w).1.tables ≡ w.tables
  pub tx : (w : World T) → w.tx ≡ idle → (m w).1.tx ≡ idle

-- From outside a transaction: an error has changed no row.
pub record IsAtomic {T A : Type 0} (m : M T A) : Type 0 where
  pub tx : (w : World T) → w.tx ≡ idle → (m w).1.tx ≡ idle
  pub failed : (w : World T) (e : Error) → w.tx ≡ idle → (m w).0 ≡ err e → (m w).1.tables ≡ w.tables

-- Whatever is refused, rows with `P` stay rows with `P`.
pub record Keeps {T A : Type 0} (P : T → Type 0) (m : M T A) : Type 0 where
  pub at : (w : World T) → P w.tables → P (m w).1.tables

-- From rows with `P`, a result without error and the rows that it leaves are related by `Q`.
pub record Ensures {T A : Type 0} (P : T → Type 0) (m : M T A) (Q : A → T → Type 0) : Type 0 where
  pub at : (w : World T) (a : A) → P w.tables → (m w).0 ≡ ok a → Q a (m w).1.tables

-- What one statement does: its work, or nothing.
abbrev Ran : {T A : Type 0} → (T → A × T) → T → Result A × World T → Type 0
Ran op t (r, w) =
    ((r ≡ ok (op t).0) × (w.tables ≡ (op t).1)) ⊎ ((r ≡ err database) × (w.tables ≡ t))

module _ {T A : Type 0} where
  run_statement-Ran :
      (f : Bool) (op : T → A × T) (w : World T) → Ran op w.tables (run_statement f op w)
  unfolding run_statement
  run_statement-Ran true op w = inr (refl, refl)
  run_statement-Ran false op w = inl (refl, refl)

  exec_in-Ran : (x : Tx) (op : T → A × T) (w : World T) → Ran op w.tables (exec_in x op w)
  unfolding exec_in
  exec_in-Ran aborted op w = inr (refl, refl)
  exec_in-Ran _ op w = run_statement-Ran _ op _

  pub exec-Ran : (op : T → A × T) (w : World T) → Ran op w.tables (exec op w)
  unfolding exec
  exec-Ran op w = exec_in-Ran w.tx op w

  exec-tx : (op : T → A × T) (w : World T) → w.tx ≡ idle → (exec op w).1.tx ≡ idle
  unfolding exec
  exec-tx op w h = ground arith

  finish-tx : (before : T) (r : Result A) (w : World T) → (finish before r w).1.tx ≡ idle
  unfolding finish
  finish-tx before r w = ground arith

  begin-tx : (f : Bool) (body : M T A) (w : World T) → w.tx ≡ idle → (begin f body w).1.tx ≡ idle
  unfolding begin
  begin-tx true body w h = h
  begin-tx false body w h = let (r, w') = body (record w { tx = active }) in finish-tx w.tables r w'

  do_in-tx :
      (x : Tx) (body : M T A) (w : World T) → x ≡ idle → w.tx ≡ idle → (do_in x body w).1.tx ≡ idle
  unfolding do_in
  do_in-tx idle body w e h = begin-tx _ body _ h
  do_in-tx active body w e h = cc
  do_in-tx aborted body w e h = cc

  -- An error of the body, of BEGIN or of COMMIT leaves the rows as they were before BEGIN.
  finish-failed :
      (before : T) (r : Result A) (w : World T) (e : Error)
      → (finish before r w).0 ≡ err e
      → (finish before r w).1.tables ≡ before
  unfolding finish
  finish-failed before r w e h = ground arith

  begin-failed :
      (f : Bool) (body : M T A) (w : World T) (e : Error)
      → (begin f body w).0 ≡ err e
      → (begin f body w).1.tables ≡ w.tables
  unfolding begin
  begin-failed true body w e h = refl
  begin-failed false body w e h =
      let (r, w') = body (record w { tx = active }) in finish-failed w.tables r w' e h

  do_in-failed :
      (x : Tx) (body : M T A) (w : World T) (e : Error)
      → x ≡ idle
      → (do_in x body w).0 ≡ err e
      → (do_in x body w).1.tables ≡ w.tables
  unfolding do_in
  do_in-failed idle body w e i h = begin-failed _ body _ e h
  do_in-failed active body w e i h = cc
  do_in-failed aborted body w e i h = cc

  -- A transaction that ends without error has kept what its body did.
  finish-ok :
      (before : T) (r : Result A) (w : World T) (a : A)
      → (finish before r w).0 ≡ ok a
      → (r ≡ ok a) × ((finish before r w).1.tables ≡ w.tables)
  unfolding finish
  finish-ok before r w a h = ground arith

  begin-ok :
      (f : Bool) (body : M T A) (w : World T) (a : A)
      → (begin f body w).0 ≡ ok a
      → ((body (record w { tx = active })).0 ≡ ok a)
        × ((begin f body w).1.tables ≡ (body (record w { tx = active })).1.tables)
  unfolding begin
  begin-ok true body w a h = cc
  begin-ok false body w a h = finish-ok _ _ _ a h

  do_in-Ensures :
      {P : T → Type 0} {body : M T A} {Q : A → T → Type 0}
      → Ensures P body Q
      → (x : Tx) (w : World T) (a : A) → P w.tables
      → (do_in x body w).0 ≡ ok a
      → Q a (do_in x body w).1.tables
  unfolding do_in
  do_in-Ensures {body} {Q} b idle w a p h =
      let (h', t) =
        begin-ok (next_fault w.faults) body (record w { faults = later_faults w.faults }) a h in
      rw t (b.at _ a p h')
  do_in-Ensures b active w a p h = b.at w a p h
  do_in-Ensures b aborted w a p h = b.at w a p h

  finish-tables :
      (before : T) (r : Result A) (w : World T)
      → ((finish before r w).1.tables ≡ before) ⊎ ((finish before r w).1.tables ≡ w.tables)
  unfolding finish
  finish-tables before (err e) w = inl refl
  finish-tables before (ok a) w = ground arith

  begin-Keeps :
      {P : T → Type 0} {body : M T A}
      → Keeps P body
      → (f : Bool) (w : World T) → P w.tables
      → P (begin f body w).1.tables
  unfolding begin
  begin-Keeps k true w p = p
  begin-Keeps {P} {body} k false w p =
      let (r, w') = body (record w { tx = active }) in
      elim (finish-tables w.tables r w') [
        | inl e ↦ subst P (sym e) p
        | inr e ↦ subst P (sym e) (k.at (record w { tx = active }) p)
      ]

  do_in-Keeps :
      {P : T → Type 0} {body : M T A}
      → Keeps P body
      → (x : Tx) (w : World T) → P w.tables
      → P (do_in x body w).1.tables
  unfolding do_in
  do_in-Keeps k idle w p =
      begin-Keeps k (next_fault w.faults) (record w { faults = later_faults w.faults }) p
  do_in-Keeps k active w p = k.at w p
  do_in-Keeps k aborted w p = k.at w p

-- The rules for single statements and for transactions.
module _ {T A : Type 0} where
  pub IsReadOnly-query : (f : T → A) → IsReadOnly (query f)
  IsReadOnly-query f = record {
    tables = λ w. elim (exec-Ran (λ t. (f t, t)) w) [ inl h ↦ h.1 | inr h ↦ h.1 ];
    tx = exec-tx (λ t. (f t, t));
  }

  pub IsAtomic-exec : (op : T → A × T) → IsAtomic (exec op)
  IsAtomic-exec op = record {
    tx = exec-tx op;
    failed = λ w e i h. elim (exec-Ran op w) [ inl g ↦ cc | inr g ↦ g.1 ];
  }

  pub IsAtomic-transact : (body : M T A) → IsAtomic (transact body)
  unfolding transact
  IsAtomic-transact body = record {
    tx = λ w i. do_in-tx w.tx body w i i;
    failed = λ w e i h. do_in-failed w.tx body w e i h;
  }

  pub Keeps-exec :
      {P : T → Type 0} (op : T → A × T) → ((t : T) → P t → P (op t).1) → Keeps P (exec op)
  Keeps-exec {P} op k = record {
    at = λ w p. elim (exec-Ran op w) [
      | inl h ↦ subst P (sym h.1) (k w.tables p)
      | inr h ↦ subst P (sym h.1) p
    ];
  }

  pub Keeps-transact : {P : T → Type 0} {body : M T A} → Keeps P body → Keeps P (transact body)
  unfolding transact
  Keeps-transact k = record { at = λ w p. do_in-Keeps k w.tx w p }

  pub Ensures-exec :
      {P : T → Type 0} {Q : A → T → Type 0} (op : T → A × T)
      → ((t : T) → P t → Q (op t).0 (op t).1)
      → Ensures P (exec op) Q
  Ensures-exec {P} {Q} op k = record {
    at = λ w a p h. elim (exec-Ran op w) [
      | inl g ↦ subst₂ Q (let e : (op w.tables).0 ≡ a = cc in e) (sym g.1) (k w.tables p)
      | inr g ↦ cc
    ];
  }

  pub Ensures-transact :
      {P : T → Type 0} {body : M T A} {Q : A → T → Type 0}
      → Ensures P body Q
      → Ensures P (transact body) Q
  unfolding transact
  Ensures-transact b = record { at = λ w a p h. do_in-Ensures b w.tx w a p h }
