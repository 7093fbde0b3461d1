-- ===== src/Point/Client.antt =====
-- The database client as src/modules/point uses it: an interface of calls, and the laws that say
-- how a call acts on the tables. `memory` is a client whose state is the tables themselves.
use ts_graphql_reference.Base.{ℕ, Bool, Option, List}
use ts_graphql_reference.Tx.{Tx}
use ts_graphql_reference.Uow.{Database}
use ts_graphql_reference.Uow.Atomic.{IsAtomic, IsQuiet}
use ts_graphql_reference.Uow.Alone.{alone, alone-IsAtomic, alone-IsQuiet}
use ts_graphql_reference.Point.Data.{PointSnapshot}
use ts_graphql_reference.Point.Tables
use ts_graphql_reference.Point.Tables.{Tables, ChargeRow, BalanceRow, SpendRow}

pub record PointDb : Type 1 where
  pub base : Database
  pub open base use *
  pub find_unique_balance : ℕ → Tx State (Option PointSnapshot)
  pub find_usable_charges : ℕ → Tx State (List ChargeRow)
  pub find_balance_users : Tx State (List ℕ)
  pub find_usable_users : Tx State (List ℕ)
  pub update_charges : (ChargeRow → Bool) → (ChargeRow → ChargeRow) → Tx State ℕ
  pub update_balances : (BalanceRow → Bool) → (PointSnapshot → PointSnapshot) → Tx State ℕ
  pub create_charge : (ℕ → ChargeRow) → Tx State ChargeRow
  pub create_spend : (ℕ → SpendRow) → Tx State SpendRow
  pub upsert_balance : ℕ → PointSnapshot → (PointSnapshot → PointSnapshot) → Tx State Unit

-- A client whose state is the tables, alone on its database.
abbrev pub memory_base : Database
memory_base = alone Tables

abbrev pub memory : PointDb
memory = record {
  base = memory_base;
  find_unique_balance = Tables.find_unique_balance;
  find_usable_charges = Tables.find_usable_charges;
  find_balance_users = Tables.find_balance_users;
  find_usable_users = Tables.find_usable_users;
  update_charges = Tables.update_charges;
  update_balances = Tables.update_balances;
  create_charge = Tables.create_charge;
  create_spend = Tables.create_spend;
  upsert_balance = Tables.upsert_balance;
}

pub memory-IsAtomic : IsAtomic memory_base
memory-IsAtomic = alone-IsAtomic

pub memory-IsQuiet : IsQuiet memory_base
memory-IsQuiet = alone-IsQuiet
