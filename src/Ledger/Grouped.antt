-- ===== src/Ledger/Grouped.antt =====
-- The sources of a withdrawal: each commission's share of the allocations.
use ts_graphql_reference.Base.{
  ℕ, ◌≤◌, arith, ◌≡◌, refl, sym, ap, ◌∙◌, Bool, true, false, some, List, [], ◌∷◌, String,
  Bool-cases, Option-cases, inl, inr, not, ◌||◌, str_eq, eq_iff,
}
use ts_graphql_reference.Int.{ℤ, ◌+ℤ◌, int_laws, total_of}
use ts_graphql_reference.Failure.{ok, >>=-ok}
use ts_graphql_reference.Tx.{lift-ok, >>=-ok as step-ok}
use ts_graphql_reference.Flow.{commission}
use ts_graphql_reference.Point.Tables.{count_where}
use ts_graphql_reference.Store.{Store, LotRow}
use ts_graphql_reference.Store.Tables.{is_text, same_flow_kind}
use ts_graphql_reference.Ledger.Conserved.{if_ℤ}
use ts_graphql_reference.Ledger.Sources.{
  FundedAllocation, WithdrawalSource, add_source, commission_source, group_sources,
  load_allocations, load_income_withdrawal_sources,
}

-- What the list says of a flow, and what the allocations have taken from lots of the flow.
abbrev pub listed : String → List WithdrawalSource → ℤ
listed flow = total_of (λ x. if_ℤ (str_eq x.flow_id flow) x.amount)

abbrev pub taken_from : String → List FundedAllocation → ℤ
taken_from flow = total_of (λ p. if_ℤ (is_text p.1.source_flow_id flow) p.0.amount)

if_sum : (b : Bool) (m n : ℤ) → if_ℤ b (m +ℤ n) ≡ if_ℤ b m +ℤ if_ℤ b n
if_sum true m n = refl
if_sum false m n = omega int_laws

add_source-listed :
    (flow from : String) (n : ℤ) (l : List WithdrawalSource)
    → listed flow (add_source from n l) ≡ listed flow l +ℤ if_ℤ (str_eq from flow) n
unfolding add_source
add_source-listed flow from n [] = omega int_laws
add_source-listed flow from n (x ∷ l) = elim (Bool-cases (str_eq x.flow_id from)) [
  | inl e ↦
      let same = (eq_iff x.flow_id from).0 e in
      let sum = if_sum (str_eq x.flow_id flow) x.amount n in
      let own : if_ℤ (str_eq x.flow_id flow) n ≡ if_ℤ (str_eq from flow) n =
        ap (λ i. if_ℤ (str_eq i flow) n) same in
      rw e (omega (int_laws, sum, own))
  | inr e ↦ let ih = add_source-listed flow from n l in rw e (omega (int_laws, ih))
]

commission_source-ok :
    (lot : LotRow) {flow : String}
    → commission_source lot ≡ ok flow
    → lot.source_flow_id ≡ some flow
unfolding commission_source
commission_source-ok lot h = elim (Option-cases lot.source_flow_id) [
  | inl e ↦ cc (rw (e, commission_source) at h)
  | inr (flow_id, e) ↦ elim (Option-cases lot.source_flow_kind) [
    | inl k ↦ cc (rw (e, k, commission_source) at h)
    | inr (kind, k) ↦
        elim (Bool-cases (str_eq flow_id "" || not (same_flow_kind kind commission))) [
          | inl b ↦ cc (rw (e, k, b, commission_source) at h)
          | inr b ↦ e ∙ ap some (cc (rw (e, k, b, commission_source) at h))
        ]
  ]
]

group_sources-listed :
    (flow : String) (l : List FundedAllocation) (amounts : List WithdrawalSource)
    {r : List WithdrawalSource}
    → group_sources l amounts ≡ ok r
    → listed flow r ≡ listed flow amounts +ℤ taken_from flow l
unfolding group_sources
group_sources-listed flow [] amounts {r} h =
    let same : amounts ≡ r = cc h in rw (← same) (omega int_laws)
group_sources-listed flow ((a, lot) ∷ l) amounts h =
    let (from, e, g) = >>=-ok (commission_source lot) _ h in
    let ih = group_sources-listed flow l (add_source from a.amount amounts) g in
    let added = add_source-listed flow from a.amount amounts in
    let own : if_ℤ (is_text lot.source_flow_id flow) a.amount ≡ if_ℤ (str_eq from flow) a.amount =
      ap (λ o. if_ℤ (is_text o flow) a.amount) (commission_source-ok lot e) in
    omega (int_laws, ih, added, own)

abbrev pub listings : String → List WithdrawalSource → ℕ
listings flow = count_where (λ x. str_eq x.flow_id flow)

add_source-other :
    (flow from : String) (n : ℤ) (l : List WithdrawalSource)
    → str_eq from flow ≡ false
    → listings flow (add_source from n l) ≡ listings flow l
unfolding add_source count_where
add_source-other flow from n [] ne = rw ne refl
add_source-other flow from n (x ∷ l) ne = elim (Bool-cases (str_eq x.flow_id from)) [
  | inl e ↦ rw e refl
  | inr e ↦ rw (e, add_source-other flow from n l ne) refl
]

other_flow : (a b c : String) → str_eq a b ≡ false → str_eq a c ≡ true → str_eq b c ≡ false
other_flow a b c ne e = elim (Bool-cases (str_eq b c)) [
  | inl f ↦
      let same : str_eq a b ≡ true = (eq_iff a b).1 ((eq_iff a c).0 e ∙ sym ((eq_iff b c).0 f)) in
      cc (ne, same)
  | inr f ↦ f
]

listings-tail :
    (flow : String) (x : WithdrawalSource) (l : List WithdrawalSource)
    → listings flow (x ∷ l) ≤ 1
    → listings flow l ≤ 1
unfolding count_where
listings-tail flow x l h = elim (Bool-cases (str_eq x.flow_id flow)) [
  | inl e ↦ let g = rw e at h in omega (arith, g)
  | inr e ↦ rw e at h
]

-- Each flow is listed at most once.
add_source-once :
    (from : String) (n : ℤ) (l : List WithdrawalSource)
    → ((flow : String) → listings flow l ≤ 1)
    → (flow : String) → listings flow (add_source from n l) ≤ 1
unfolding add_source count_where
add_source-once from n [] once flow = elim (Bool-cases (str_eq from flow)) [
  | inl e ↦ rw e (omega arith)
  | inr e ↦ rw e (omega arith)
]
add_source-once from n (x ∷ l) once flow = elim (Bool-cases (str_eq x.flow_id from)) [
  | inl e ↦ rw e (once flow)
  | inr e ↦ elim (Bool-cases (str_eq x.flow_id flow)) [
    | inl d ↦
        let own = other_flow x.flow_id from flow e d in
        let before = once flow in rw (e, d, add_source-other flow from n l own) (rw d at before)
    | inr d ↦
        let fewer : (f : String) → listings f l ≤ 1 = λ f. listings-tail f x l (once f) in
        let ih = add_source-once from n l fewer flow in rw (e, d) ih
  ]
]

group_sources-once :
    (l : List FundedAllocation) (amounts : List WithdrawalSource) {r : List WithdrawalSource}
    → ((flow : String) → listings flow amounts ≤ 1)
    → group_sources l amounts ≡ ok r
    → (flow : String) → listings flow r ≤ 1
unfolding group_sources
group_sources-once [] amounts {r} once h = let same : amounts ≡ r = cc h in rw (← same) once
group_sources-once ((a, lot) ∷ l) amounts once h =
    let (from, _, g) = >>=-ok (commission_source lot) _ h in
    group_sources-once l (add_source from a.amount amounts)
      (add_source-once from a.amount amounts once) g

-- When the sources of a reservation are loaded, every flow is listed at most once, and what the list says of a flow is the sum of the allocations from lots of that flow.
pub load_income_withdrawal_sources_add_up :
    (reservation : ℕ) (s t : Store) {sources : List WithdrawalSource}
    → load_income_withdrawal_sources reservation s ≡ ok (sources, t)
    → (allocations : List FundedAllocation) × (u : Store) × (load_allocations reservation s
        ≡ ok (allocations, u))
      × ((flow : String) → listings flow sources ≤ 1)
      × ((flow : String) → listed flow sources ≡ taken_from flow allocations)
unfolding load_income_withdrawal_sources count_where
load_income_withdrawal_sources_add_up reservation s t h =
    let (l, u, e, g) = step-ok (load_allocations reservation) _ s h in
    let (r, _) = lift-ok (group_sources l []) u g in
    (
      l,
      u,
      e,
      group_sources-once l [] (λ flow. omega arith) r,
      λ flow. let sum = group_sources-listed flow l [] r in omega (int_laws, sum),
    )
