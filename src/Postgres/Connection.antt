-- ===== src/Postgres/Connection.antt =====
-- How a method of the repository talks to the database: `pool.Begin`, `tx.Exec`, `tx.QueryRow`,
-- `tx.Commit`, the deferred `tx.Rollback`, and the calls on the pool outside a transaction.
use family_tree_identity_mic.Shared.{ℕ, String}
use family_tree_identity_mic.Domain.Errors.{
  DriverError, Error, driver, wrap, sentinel, DomainError, Result, ok, err,
}
use family_tree_identity_mic.Postgres.Tables.{Db}

-- How a round trip ends: the server's answer arrives, or the call fails before it took effect (the
-- context is cancelled, the server reports any error that the tables do not explain), or the
-- server has carried it out and its answer is lost.
pub data Reply : Type 0 where
  answered refused lost : Reply

-- The replies to a method's round trips, in the order in which it makes them.
abbrev pub Network : Type 0
Network = ℕ → Reply

-- Every round trip is answered.
abbrev pub steady : Network
steady _ = answered

-- What a statement does to the tables.
pub data Outcome (A : Type 0) : Type 0 where
  done : A → Db → Outcome A
  failed : DriverError → Outcome A

abbrev pub Sql : Type 0 → Type 0
Sql A = Db → Outcome A

-- The committed tables, and the copy that the open transaction works on.
pub record Connection : Type 0 where
  pub stored : Db
  pub working : Db

abbrev pub Action : Type 0 → Type 0
Action A = Connection → Result A × Connection

module _ {A : Type 0} where
  abbrev pub pure : A → Action A
  pure a c = (ok a, c)

  abbrev pub raise : Error → Action A
  raise e c = (err e, c)

  abbrev pub raise_domain : DomainError → Action A
  raise_domain e = raise (sentinel e)

  -- `if err != nil { return ..., fmt.Errorf("context: %w", err) }`.
  abbrev pub wrapping : String → Action A → Action A
  wrapping s m c = let (r, c') = m c in elim r [ ok a ↦ (ok a, c') | err e ↦ (err (wrap s e), c') ]

  -- The error as a value, for the code that tells errors apart.
  abbrev pub try : Action A → Action (Result A)
  try m c = let (r, c') = m c in (ok r, c')

  abbrev pub in_working : Connection → Outcome A → Result A × Connection
  in_working c (done a db) = (ok a, record c { working = db })
  in_working c (failed e) = (err (driver e), c)

  -- `tx.Exec` and `tx.QueryRow`.
  abbrev pub tx_exec : Reply → Sql A → Action A
  tx_exec answered statement c = in_working c (statement c.working)
  tx_exec refused statement c = (err (driver DriverError.disconnected), c)
  tx_exec lost statement c = (err (driver DriverError.disconnected), c)

  abbrev pub in_stored : Connection → Outcome A → Result A × Connection
  in_stored c (done a db) = (ok a, record c { stored = db })
  in_stored c (failed e) = (err (driver e), c)

  abbrev pub unanswered : Result A × Connection → Result A × Connection
  unanswered (r, c) = (err (driver DriverError.disconnected), c)

  -- `pool.Exec` and `pool.QueryRow`, each its own transaction.
  abbrev pub pool_exec : Reply → Sql A → Action A
  pool_exec answered statement c = in_stored c (statement c.stored)
  pool_exec refused statement c = (err (driver DriverError.disconnected), c)
  pool_exec lost statement c = unanswered (in_stored c (statement c.stored))

infixl 5 ◌>>=◌ ◌>>◌
abbrev pub ◌>>=◌ : {A B : Type 0} → Action A → (A → Action B) → Action B
◌>>=◌ m f c = let (r, c') = m c in elim r [ ok a ↦ f a c' | err e ↦ (err e, c') ]

abbrev pub ◌>>◌ : {A B : Type 0} → Action A → Action B → Action B
m >> k = m >>= λ _. k

abbrev pub begin : Reply → Action (Unit {0})
begin answered c = (ok tt, record c { working = c.stored })
begin refused c = (err (driver DriverError.disconnected), c)
begin lost c = (err (driver DriverError.disconnected), c)

abbrev pub commit : Reply → Action (Unit {0})
commit answered c = (ok tt, record c { stored = c.working })
commit refused c = (err (driver DriverError.disconnected), c)
commit lost c = (err (driver DriverError.disconnected), record c { stored = c.working })

-- A method, from the committed tables to the committed tables: what is not committed when it
-- returns is rolled back.
abbrev pub run : {A : Type 0} → Action A → Db → Result A × Db
run m db = let (r, c) = m (record { stored = db; working = db }) in (r, c.stored)
