-- ===== src/Flow/Reference.antt =====
-- A reference names one flow, and an identifier one command or one operation.
use Prim.Native.String.{[], ◌∷◌, ◌++◌}
use Prim.Native.String.append
use Prim.Native.Char.{Char, code}
use text.Mathlib.TextLemmas.{append_cancel_left}
use ts_graphql_reference.Base.{
  ℕ, ◌≡◌, sym, ap, ◌∙◌, Bool, true, false, Bool-cases, inl, inr, String, ◌==◌, if◌then◌else◌,
  str_eq, eq_iff,
}
use ts_graphql_reference.Flow.{
  TransactionFlowKind, commission, withdrawal, point_charge, FinancialCommandKind, pay, extra_pay,
  settle, refund, cancel, withdraw, charge, flow_kind_text, command_kind_text,
  format_transaction_reference, format_command_id, format_operation_id,
}

-- The kind that a text begins with, by its first letters.
abbrev flow_kind_at : ℕ → TransactionFlowKind
flow_kind_at c = if c == 67 then commission else if c == 87 then withdrawal else point_charge

abbrev flow_kind_of : String → TransactionFlowKind
flow_kind_of [] = point_charge
flow_kind_of (c ∷ s) = flow_kind_at (code c)

flow_kind_of-text :
    (k : TransactionFlowKind) (rest : String) → flow_kind_of (flow_kind_text k ++ rest) ≡ k
unfolding flow_kind_text
flow_kind_of-text commission rest = ap flow_kind_of (append.cons "C" "OMMISSION" rest)
flow_kind_of-text withdrawal rest = ap flow_kind_of (append.cons "W" "ITHDRAWAL" rest)
flow_kind_of-text point_charge rest = ap flow_kind_of (append.cons "P" "OINT_CHARGE" rest)

abbrev command_kind_at : ℕ → ℕ → FinancialCommandKind
command_kind_at c d =
    if c == 80
    then pay
    else if c == 69
    then extra_pay
    else if c == 83
    then settle
    else if c == 82
    then refund
    else if c == 87
    then withdraw
    else if d == 65
    then cancel
    else charge

abbrev command_kind_of : String → FinancialCommandKind
command_kind_of (c ∷ d ∷ s) = command_kind_at (code c) (code d)
command_kind_of _ = charge

two : (c d : Char) (s rest : String) → (c ∷ d ∷ s) ++ rest ≡ c ∷ d ∷ (s ++ rest)
two c d s rest = append.cons c (d ∷ s) rest ∙ ap (λ t. c ∷ t) (append.cons d s rest)

command_kind_of-text :
    (k : FinancialCommandKind) (rest : String) → command_kind_of (command_kind_text k ++ rest) ≡ k
unfolding command_kind_text
command_kind_of-text pay rest = ap command_kind_of (two "P" "A" "Y" rest)
command_kind_of-text extra_pay rest = ap command_kind_of (two "E" "X" "TRA_PAY" rest)
command_kind_of-text settle rest = ap command_kind_of (two "S" "E" "TTLE" rest)
command_kind_of-text refund rest = ap command_kind_of (two "R" "E" "FUND" rest)
command_kind_of-text cancel rest = ap command_kind_of (two "C" "A" "NCEL" rest)
command_kind_of-text withdraw rest = ap command_kind_of (two "W" "I" "THDRAW" rest)
command_kind_of-text charge rest = ap command_kind_of (two "C" "H" "ARGE" rest)

-- Two flows have the same reference only when they are of one kind and have one identifier.
pub format_transaction_reference-injective :
    (k l : TransactionFlowKind) (a b : String)
    → format_transaction_reference k a ≡ format_transaction_reference l b
    → (k ≡ l) × (a ≡ b)
unfolding format_transaction_reference
format_transaction_reference-injective k l a b h =
    let q =
      sym (flow_kind_of-text k ("-" ++ a)) ∙ ap flow_kind_of h ∙ flow_kind_of-text l ("-" ++ b) in
    let r : flow_kind_text l ++ ("-" ++ a) ≡ flow_kind_text l ++ ("-" ++ b) =
      ap (λ x. flow_kind_text x ++ ("-" ++ a)) (sym q) ∙ h in
    (q, append_cancel_left "-" a b (append_cancel_left (flow_kind_text l) ("-" ++ a) ("-" ++ b) r))

kinds :
    (k l : FinancialCommandKind) (a b : String)
    → command_kind_text k ++ ("-" ++ a) ≡ command_kind_text l ++ ("-" ++ b)
    → (k ≡ l) × (a ≡ b)
kinds k l a b h =
    let q =
      sym (command_kind_of-text k ("-" ++ a))
      ∙ ap command_kind_of h
      ∙ command_kind_of-text l ("-" ++ b) in
    let r : command_kind_text l ++ ("-" ++ a) ≡ command_kind_text l ++ ("-" ++ b) =
      ap (λ x. command_kind_text x ++ ("-" ++ a)) (sym q) ∙ h in
    (
      q,
      append_cancel_left "-" a b (append_cancel_left (command_kind_text l) ("-" ++ a) ("-" ++ b) r),
    )

-- Two commands have the same public identifier only when they are of one kind and have one
-- identifier.
format_command_id-injective :
    (k l : FinancialCommandKind) (a b : String)
    → format_command_id k a ≡ format_command_id l b
    → (k ≡ l) × (a ≡ b)
unfolding format_command_id
format_command_id-injective k l a b h = kinds k l a b (append_cancel_left "CMD-" _ _ h)

format_operation_id-injective :
    (k l : FinancialCommandKind) (a b : String)
    → format_operation_id k a ≡ format_operation_id l b
    → (k ≡ l) × (a ≡ b)
unfolding format_operation_id
format_operation_id-injective k l a b h = kinds k l a b (append_cancel_left "OP-" _ _ h)

abbrev is_empty : String → Bool
is_empty [] = true
is_empty (c ∷ s) = false

-- The reference of an operation is never the empty text.
pub operation_reference :
    (kind : FinancialCommandKind) (i : String) → str_eq (format_operation_id kind i) "" ≡ false
unfolding format_operation_id
operation_reference kind i = elim (Bool-cases (str_eq (format_operation_id kind i) "")) [
  | inl e ↦
      let starts = append.cons "O" "P-" (command_kind_text kind ++ ("-" ++ i)) in
      cc (ap is_empty (sym starts ∙ (eq_iff (format_operation_id kind i) "").0 e))
  | inr e ↦ e
]
