-- ===== src/Books/Writes.antt =====
-- The books through the repositories of flows, orders, slots and contracts, and through the reads.
use ts_graphql_reference.Base.{sym, ◌∙◌, subst, Option, none, some, List, String, ℕ}
use ts_graphql_reference.Tx.Keeps.{
  Keeps, Keeps-read, Keeps-pure, Keeps-throw_if, Keeps-bind, Keeps-then,
}
use ts_graphql_reference.Flow.{TransactionFlowKind, FinancialCommandKind}
use ts_graphql_reference.Runtime.{Runtime}
use ts_graphql_reference.Store.{Store}
use ts_graphql_reference.Store.Tables.{
  command_table, flow_table, policy_table, operation_table, transfer_action_table, contract_table,
  order_table, order_payment_table, order_link_table, slot_table, swap_action_table, swap_leg_table,
  reservation_table, withdrawal_table,
}
use ts_graphql_reference.Flow.Repo.{
  FinancialCommandRequest, find_command, find_completed_command_by_subject, create_command,
  start_command, create_flow, create_operation, complete_command, save_command_alias,
  assert_command_effect_completeness,
}
use ts_graphql_reference.Store.Client.Calls.{same_state}
use ts_graphql_reference.Flow.Commands.{
  find_command-run, find_completed-run, create_command-ok, completeness-ok,
}
use ts_graphql_reference.Checkout.{CheckoutContract, PaidOrder, OccupiedSlot}
use ts_graphql_reference.Commerce.{
  apply_commission_checkout_contract_formation, apply_commission_checkout_payment,
  apply_commission_checkout_slot_occupation,
}
use ts_graphql_reference.Ledger.Conserved.{IsConserved}
use ts_graphql_reference.Ledger.Writes.{create_transfer_action}
use ts_graphql_reference.Books.{
  reads, IsAside, Keeps-find_unique, Keeps-find_unique_or_throw, Keeps-find_many,
  Keeps-set_constraints, add-IsConserved, Keeps-create, Keeps-create_many, Keeps-update_many,
  Keeps-update,
}

command_table-IsAside : IsAside command_table
command_table-IsAside = record {
  books = λ rows s c. record { accounted = c.accounted; moved = c.moved };
}

flow_table-IsAside : IsAside flow_table
flow_table-IsAside = record {
  books = λ rows s c. record { accounted = c.accounted; moved = c.moved };
}

policy_table-IsAside : IsAside policy_table
policy_table-IsAside = record {
  books = λ rows s c. record { accounted = c.accounted; moved = c.moved };
}

operation_table-IsAside : IsAside operation_table
operation_table-IsAside = record {
  books = λ rows s c. record { accounted = c.accounted; moved = c.moved };
}

transfer_action_table-IsAside : IsAside transfer_action_table
transfer_action_table-IsAside = record {
  books = λ rows s c. record { accounted = c.accounted; moved = c.moved };
}

contract_table-IsAside : IsAside contract_table
contract_table-IsAside = record {
  books = λ rows s c. record { accounted = c.accounted; moved = c.moved };
}

order_table-IsAside : IsAside order_table
order_table-IsAside = record {
  books = λ rows s c. record { accounted = c.accounted; moved = c.moved };
}

order_payment_table-IsAside : IsAside order_payment_table
order_payment_table-IsAside = record {
  books = λ rows s c. record { accounted = c.accounted; moved = c.moved };
}

order_link_table-IsAside : IsAside order_link_table
order_link_table-IsAside = record {
  books = λ rows s c. record { accounted = c.accounted; moved = c.moved };
}

slot_table-IsAside : IsAside slot_table
slot_table-IsAside = record {
  books = λ rows s c. record { accounted = c.accounted; moved = c.moved };
}

pub swap_action_table-IsAside : IsAside swap_action_table
swap_action_table-IsAside = record {
  books = λ rows s c. record { accounted = c.accounted; moved = c.moved };
}

pub swap_leg_table-IsAside : IsAside swap_leg_table
swap_leg_table-IsAside = record {
  books = λ rows s c. record { accounted = c.accounted; moved = c.moved };
}

pub reservation_table-IsAside : IsAside reservation_table
reservation_table-IsAside = record {
  books = λ rows s c. record { accounted = c.accounted; moved = c.moved };
}

pub withdrawal_table-IsAside : IsAside withdrawal_table
withdrawal_table-IsAside = record {
  books = λ rows s c. record { accounted = c.accounted; moved = c.moved };
}

-- The look-ups of commands.
module _ {P : Store → Type 0} where
  pub Keeps-find_command :
      (principal : ℕ) (kind : FinancialCommandKind) (key : String)
      → Keeps P (find_command principal kind key)
  Keeps-find_command principal kind key =
      Keeps-read _ (λ s t a e. same_state (sym (find_command-run principal kind key s) ∙ e))

  pub Keeps-find_completed_command_by_subject :
      (flow_kind : TransactionFlowKind) (kind : FinancialCommandKind) (namespace key : String)
      → Keeps P (find_completed_command_by_subject flow_kind kind namespace key)
  Keeps-find_completed_command_by_subject flow_kind kind namespace key =
      Keeps-read _
        (λ s t a e. same_state (sym (find_completed-run flow_kind kind namespace key s) ∙ e))

module _ (runtime : Runtime) where
  pub Keeps-assert_command_effect_completeness :
      {P : Store → Type 0} → Keeps P (assert_command_effect_completeness runtime)
  Keeps-assert_command_effect_completeness = Keeps-read _ (λ s t a e. completeness-ok runtime s e)

  Keeps-create_command :
      (input : FinancialCommandRequest) (result : Option String)
      → Keeps IsConserved (create_command runtime input result)
  Keeps-create_command input result = record {
    at = λ {s} e c.
        let made = create_command-ok runtime input result s e in
        subst IsConserved made.state (add-IsConserved command_table-IsAside _ s c);
  }

  pub Keeps-start_command :
      (input : FinancialCommandRequest) → Keeps IsConserved (start_command runtime input)
  unfolding start_command
  Keeps-start_command input = Keeps-create_command input none

  pub Keeps-save_command_alias :
      (input : FinancialCommandRequest) (operation : String)
      → Keeps IsConserved (save_command_alias runtime input operation)
  unfolding save_command_alias
  Keeps-save_command_alias input operation = Keeps-create_command input (some operation)

  pub Keeps-complete_command :
      (command operation : String) → Keeps IsConserved (complete_command runtime command operation)
  unfolding complete_command
  Keeps-complete_command command operation = Keeps-update command_table-IsAside _ _

  pub Keeps-create_flow :
      (kind : TransactionFlowKind) (allowed : List FinancialCommandKind)
      → Keeps IsConserved (create_flow runtime kind allowed)
  unfolding create_flow
  Keeps-create_flow kind allowed =
      Keeps-bind _ _ (Keeps-create flow_table-IsAside _)
        λ flow r. Keeps-then _ _ (Keeps-create_many policy_table-IsAside _) (Keeps-pure flow)

  pub Keeps-create_operation :
      (flow : String) (kind : FinancialCommandKind) (command : String)
      → Keeps IsConserved (create_operation runtime flow kind command)
  unfolding create_operation
  Keeps-create_operation flow kind command = Keeps-create operation_table-IsAside _

  pub Keeps-create_transfer_action :
      (operation flow : String) (kind : FinancialCommandKind)
      → Keeps IsConserved (create_transfer_action runtime operation flow kind)
  unfolding create_transfer_action
  Keeps-create_transfer_action operation flow kind = Keeps-create transfer_action_table-IsAside _

pub Keeps-apply_commission_checkout_contract_formation :
    (formation : CheckoutContract)
    → Keeps IsConserved (apply_commission_checkout_contract_formation formation)
unfolding apply_commission_checkout_contract_formation
Keeps-apply_commission_checkout_contract_formation formation = Keeps-create contract_table-IsAside _

pub Keeps-apply_commission_checkout_payment :
    (input : PaidOrder) (reservation : ℕ)
    → Keeps IsConserved (apply_commission_checkout_payment input reservation)
unfolding apply_commission_checkout_payment
Keeps-apply_commission_checkout_payment input reservation =
    Keeps-bind _ _ (Keeps-update_many order_payment_table-IsAside _ _) λ payments r1.
      Keeps-then _ _ (Keeps-throw_if _ _) (
        Keeps-bind _ _ (Keeps-update_many order_table-IsAside _ _) λ orders r3.
          Keeps-then _ _ (Keeps-throw_if _ _) (Keeps-create order_link_table-IsAside _))

pub Keeps-apply_commission_checkout_slot_occupation :
    (input : OccupiedSlot) → Keeps IsConserved (apply_commission_checkout_slot_occupation input)
unfolding apply_commission_checkout_slot_occupation
Keeps-apply_commission_checkout_slot_occupation input =
    Keeps-bind _ _ (Keeps-update_many slot_table-IsAside _ _) λ slots r. Keeps-throw_if _ _

-- A block of reads, decisions and writes that the books do not see.
pub ruleset writes = (
  reads, Keeps-find_command, Keeps-find_completed_command_by_subject,
  Keeps-assert_command_effect_completeness, Keeps-start_command, Keeps-save_command_alias,
  Keeps-complete_command, Keeps-create_flow, Keeps-create_operation, Keeps-create_transfer_action,
)
