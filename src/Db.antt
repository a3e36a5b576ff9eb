-- ===== src/Db.antt =====
-- The transactions of internal/repository/uow.go, over the rows `T` of a database. PostgreSQL is
-- not the program's: which statements the server refuses (a lost connection, a violated
-- constraint) is an input, `faults`, with a flag for each statement, BEGIN and COMMIT that will be
-- sent. Where no flag is left, none is refused.
pub mod Rules
pub mod Compose
use backend_quiz.Common.{Bool, true, false, List, [], ◌∷◌, if◌then◌else◌}
use backend_quiz.Domain.{Error, database, Result, ok, err}

-- The transaction in the context of a request. The server refuses every statement of an aborted
-- transaction, and turns its COMMIT into a rollback.
pub data Tx : Type 0 where
  idle active aborted : Tx

pub record World (T : Type 0) : Type 0 where
  pub tables : T
  pub tx : Tx
  pub faults : List Bool

abbrev pub M : Type 0 → Type 0 → Type 0
M T A = World T → Result A × World T

module _ {T A : Type 0} where
  abbrev pub pure : A → M T A
  pure a w = (ok a, w)

  abbrev pub raise : Error → M T A
  raise e w = (err e, w)

module _ {T A B : Type 0} where
  abbrev pub continue : Result A → (A → M T B) → M T B
  continue (ok a) f w = f a w
  continue (err e) f w = (err e, w)

  infixl 5 ◌>>=◌ ◌>>◌
  -- `if err != nil { return err }` between two calls
  abbrev pub ◌>>=◌ : M T A → (A → M T B) → M T B
  ◌>>=◌ m f w = let (r, w') = m w in continue r f w'

  abbrev pub ◌>>◌ : M T A → M T B → M T B
  m >> n = m >>= λ _. n

-- a check that reads no row
abbrev pub lift : {T A : Type 0} → Result A → M T A
lift r w = (r, w)

module _ {T : Type 0} where
  -- `if c { return err }`
  abbrev pub raise_if : Bool → Error → M T (Unit {0})
  raise_if true e w = (err e, w)
  raise_if false e w = (ok tt, w)

  -- an error that the source drops or only logs
  abbrev pub ignore : {A : Type 0} → M T A → M T (Unit {0})
  ignore m w = let (_, w') = m w in (ok tt, w')

next_fault : List Bool → Bool
next_fault [] = false
next_fault (f ∷ fs) = f

later_faults : List Bool → List Bool
later_faults [] = []
later_faults (f ∷ fs) = fs

-- a refused statement aborts the transaction that it is part of
refused : Tx → Tx
refused idle = idle
refused active = aborted
refused aborted = aborted

module _ {T A : Type 0} where
  run_statement : Bool → (T → A × T) → M T A
  unfolding refused
  run_statement true op w = (err database, record w { tx = refused w.tx })
  run_statement false op w = let (a, t) = op w.tables in (ok a, record w { tables = t })

  exec_in : Tx → (T → A × T) → M T A
  unfolding run_statement next_fault later_faults
  exec_in aborted op w = (err database, w)
  exec_in _ op w =
      run_statement (next_fault w.faults) op (record w { faults = later_faults w.faults })

  -- one statement, on the pool or in the transaction of the context (`querier`, `conn`)
  unfoldable pub exec : (T → A × T) → M T A
  unfolding exec_in
  exec op w = exec_in w.tx op w

  rollback : T → Error → M T A
  rollback before e w = (err e, record w { tables = before; tx = idle })

  commit_flag : Bool → T → A → M T A
  unfolding rollback
  commit_flag true before a w = rollback before database w
  commit_flag false before a w = (ok a, record w { tx = idle })

  -- tx.Commit, and the deferred tx.Rollback where it fails
  commit : Tx → T → A → M T A
  unfolding commit_flag next_fault later_faults rollback
  commit aborted before a w = rollback before database w
  commit _ before a w =
      commit_flag (next_fault w.faults) before a (record w { faults = later_faults w.faults })

  finish : T → Result A → M T A
  unfolding commit rollback
  finish before (ok a) w = commit w.tx before a w
  finish before (err e) w = rollback before e w

  begin : Bool → M T A → M T A
  unfolding finish
  begin true body w = (err database, w)
  begin false body w = let (r, w') = body (record w { tx = active }) in finish w.tables r w'

  do_in : Tx → M T A → M T A
  unfolding begin next_fault later_faults
  do_in idle body w = begin (next_fault w.faults) body (record w { faults = later_faults w.faults })
  do_in _ body w = body w

  -- PgxUnitOfWork.Do, and beginOrJoin with its Commit: nested calls join the outer transaction
  unfoldable pub transact : M T A → M T A
  unfolding do_in
  transact body w = do_in w.tx body w

-- SELECT
abbrev pub query : {T A : Type 0} → (T → A) → M T A
query f = exec (λ t. (f t, t))

-- INSERT, UPDATE, DELETE
abbrev pub modify : {T : Type 0} → (T → T) → M T (Unit {0})
modify f = exec (λ t. (tt, f t))

-- no request under way, and no statement will be refused
abbrev pub calm : {T : Type 0} → T → World T
calm t = record { tables = t; tx = idle; faults = [] }
