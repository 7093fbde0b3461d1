-- ===== src/Lib.antt =====
-- A server for a commission marketplace: points that users charge, spend, transfer and let expire;
-- a typed financial ledger of lots, reservations and transfers, on which a buyer pays for a
-- commission, a worker settles it and withdraws the income; users with a status; feature flags that
-- gate and change these; and the units of work, advisory locks and error classes that all of them
-- stand on. The code separates pure decisions (`*.core.ts`, `user.state.ts`) from executors
-- (`*.repo.ts`) and from the use-cases that read, decide and execute in one transaction
-- (`*.service.ts`); the modules here follow it.
--
-- Base, Int, Decimal: shared names, integers over the native numbers, `String(n)`.
-- Failure: src/foundation/errors.ts and the modules' error classes, and functions that may throw.
-- Tx: code inside a transaction, which may throw; Uow: src/db/uow.ts, over a database that is a
--   parameter, with what `$transaction` and the lock statements document as the laws of Uow/Atomic.
-- Locks: src/db/locks.ts (`orderLocks` and `defineLocks`); Locks/Registry and Locks/Hash:
--   src/db/lock-registry.ts.
-- Time: src/foundation/time.ts, over the date library as a parameter.
-- Point: src/modules/point. Point/Data, States, Spend, Balance and Expiry are point.core.ts; Point/Ids
--   is the `Set` of the users whom an audit checks; Point/Client is the database client as the module
--   calls it, with Point/Tables as the client whose state is the tables of prisma/schema.prisma and
--   their CHECK constraints; Point/Repo is point.write.repo.ts and Point/Service is
--   point.service.ts. Point/Sound has the invariant of the ledger, and what each use-case does to it.
-- Store: the tables of the marketplace and its ledger, from prisma/schema.prisma; Store/Tables: their
--   keys and constraints; Store/Client: the calls of the database client on a table.
-- Runtime: what else the services use of the database and of node, a parameter.
-- Flow: src/modules/transaction-flow/transaction-flow.core.ts; Flow/Repo: transaction-flow.repo.ts.
-- Ledger: src/modules/financial-ledger/financial-ledger.core.ts; Ledger/Loads, Sources and Writes:
--   financial-ledger.repo.ts. Ledger/Conserved says what it is that the books balance.
-- Commerce: order.repo.ts, slot.repo.ts, contract.repo.ts and commission-type.repo.ts, each in the
--   folder of src/modules that is named like it.
-- PointCharge, Checkout, Settlement, Withdrawal: the decisions of src/modules/point-charge,
--   commission-checkout, commission-settlement and income-withdrawal (`*.core.ts`); the Service below
--   each is its `*.service.ts`, with the `*.repo.ts` of the folder; Checkout/Stored is the replay of
--   commission-checkout.service.ts and commission-checkout.repo.ts, and Settlement/Data the types of
--   commission-settlement.core.ts. Loaded, Posted, Decided and Aliased below some of them say what a
--   part of the use-case reads and leaves, and Once composes these for a command that is repeated.
-- Books: each service keeps the books, call by call; Books/Reached has the stores that the services
--   reach.
-- User: src/modules/user/user.state.ts; User/Email: user.value.ts, over `toLowerCase` as a parameter;
--   User/Table: user.repo.ts and `changeStatus` of user.service.ts; User/Registered: its creation of
--   users; User/Interleaved: the server's steps when several requests run at once.
-- Flag: src/modules/feature-flag/feature-flag.core.ts; Flag/Drift: its report of the names that are
--   stored and those that are declared, whose order of texts is an argument.
-- Tests: runs on concrete data.
--
-- Numbers. Amounts are whole numbers of either sign, and what a caller passes is a `Number`, which
-- may also be a fraction; the int4 bound of a column is not modelled. Identifiers are natural
-- numbers. An instant is its milliseconds since the epoch. Texts are compared as they are.
--
-- Identifiers that the database makes up are numbered by one counter of the store for all tables;
-- a UUID column has the text that the parameter Runtime gives for the number.
--
-- Bounds. All loops are over lists and need no fuel, but for the digits of a number, whose fuel is
-- the number itself and one more: each round divides by ten.
--
-- State. The table of users has the instant of its next statement, which every write of a row stamps
-- into `updatedAt`. A transaction runs alone on the state it started in: what others commit meanwhile
-- shows as a guarded write that misses or as a serialization failure, both of which are error
-- results. The ledger's theorems are about the client whose state is the tables. `changeStatus` runs
-- in no transaction, so any statements of others may stand between its read and its write. A
-- financial use-case reads outside of its transaction whom to lock: what others do in between is a
-- function on the store, an argument of the use-case.
--
-- The deferred constraints that `SET CONSTRAINTS … IMMEDIATE` checks, SHA-256, JSON and `Number` are
-- fields of Runtime. A lookup for a command takes the flow's id to be empty, since none is read.
--
-- Not modelled: foreign keys, but the one of a command to its flow's policy, CHECKs on texts and
-- triggers, which only refuse; the text of error messages, the label of a lock key, the spends' and charges'
-- creation columns that only the database fills, GraphQL, logging, the scheduler's library, HTTP.
pub mod Base
pub mod Int
pub mod Failure
pub mod Point
pub mod Locks
pub mod Tx
pub mod Uow
pub mod Time
pub mod Store
pub mod Runtime
pub mod Commerce
pub mod Books
pub mod Decimal
pub mod Ledger
pub mod Withdrawal
pub mod Checkout
pub mod Settlement
pub mod PointCharge
pub mod User
pub mod Flag
pub mod Flow
pub mod Tests
