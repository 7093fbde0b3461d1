-- ===== src/PointCharge/Funding.antt =====
-- The purchases that funded a commission: a source for every allocation, or none at all.
use ts_graphql_reference.Base.{
  ℕ, ◌≡◌, refl, ap, ap₂, subst, Option, none, some, List, [], ◌∷◌, String, Bool-cases, inl, inr,
  str_eq, str_ne, str_ne-false,
}
use ts_graphql_reference.Int.{◌+ℤ◌, total_of}
use ts_graphql_reference.Failure.{Result, ok, err, >>=-ok}
use ts_graphql_reference.PointCharge.{
  CommissionPointFundingAllocation, PointChargeFundingSource, required, required_kind,
  identify_source, identify_point_charge_funding_sources,
}

-- The source of an allocation.
pub record IsSource (a : CommissionPointFundingAllocation) (s : PointChargeFundingSource)
    : Type 0 where
  pub lot : s.lot_id ≡ a.lot_id
  pub amount : s.amount ≡ a.amount
  pub flow : a.source_flow_id ≡ some s.flow_id
  pub flow_kind : a.source_flow_kind ≡ some "POINT_CHARGE"
  pub operation : a.source_operation_id ≡ some s.operation_id
  pub operation_kind : a.source_operation_kind ≡ some "CHARGE"
  pub reason : a.issuance_reason ≡ some s.issuance_reason
  pub category : a.accounting_category ≡ some s.accounting_category
  pub version : a.accounting_policy_version ≡ some s.accounting_policy_version

-- One source for each allocation, in order.
abbrev pub AreSources :
    List CommissionPointFundingAllocation → List PointChargeFundingSource → Type 0
AreSources [] [] = Unit
AreSources (a ∷ l) (s ∷ sources) = IsSource a s × AreSources l sources
AreSources _ _ = ⊥

required-ok : (o : Option String) (lot : ℕ) {s : String} → required o lot ≡ ok s → o ≡ some s
unfolding required
required-ok none lot h = cc h
required-ok (some x) lot {s} h = elim (Bool-cases (str_eq x "")) [
  | inl e ↦ cc (rw e at h)
  | inr e ↦ (let g : ok x ≡ ok s = rw e at h in let q : x ≡ s = cc g in ap some q)
]

required_kind-ok :
    (o : Option String) (kind : String) (lot : ℕ) → required_kind o kind lot ≡ ok tt → o ≡ some kind
unfolding required_kind
required_kind-ok none kind lot h = cc h
required_kind-ok (some x) kind lot h = elim (Bool-cases (str_ne x kind)) [
  | inl e ↦ cc (rw e at h)
  | inr e ↦ ap some (str_ne-false x kind e)
]

abbrev source_or :
    PointChargeFundingSource → Result PointChargeFundingSource → PointChargeFundingSource
source_or d (ok s) = s
source_or d (err e) = d

identify_source-IsSource :
    (a : CommissionPointFundingAllocation) {s : PointChargeFundingSource}
    → identify_source a ≡ ok s
    → IsSource a s
unfolding identify_source
identify_source-IsSource a {s} h =
    let (flow, e₁, h₁) = >>=-ok (required a.source_flow_id a.lot_id) _ h in
    let (u, e₂, h₂) = >>=-ok (required_kind a.source_flow_kind "POINT_CHARGE" a.lot_id) _ h₁ in
    let (operation, e₃, h₃) = >>=-ok (required a.source_operation_id a.lot_id) _ h₂ in
    let (v, e₄, h₄) = >>=-ok (required_kind a.source_operation_kind "CHARGE" a.lot_id) _ h₃ in
    let (reason, e₅, h₅) = >>=-ok (required a.issuance_reason a.lot_id) _ h₄ in
    let (category, e₆, h₆) = >>=-ok (required a.accounting_category a.lot_id) _ h₅ in
    let (version, e₇, h₇) = >>=-ok (required a.accounting_policy_version a.lot_id) _ h₆ in
    subst (IsSource a) (ap (source_or s) h₇) (record {
      lot = refl;
      amount = refl;
      flow = required-ok a.source_flow_id a.lot_id e₁;
      flow_kind = required_kind-ok a.source_flow_kind "POINT_CHARGE" a.lot_id e₂;
      operation = required-ok a.source_operation_id a.lot_id e₃;
      operation_kind = required_kind-ok a.source_operation_kind "CHARGE" a.lot_id e₄;
      reason = required-ok a.issuance_reason a.lot_id e₅;
      category = required-ok a.accounting_category a.lot_id e₆;
      version = required-ok a.accounting_policy_version a.lot_id e₇;
    })

AreSources-total :
    (l : List CommissionPointFundingAllocation) (sources : List PointChargeFundingSource)
    → AreSources l sources
    → total_of (λ s. s.amount) sources ≡ total_of (λ a. a.amount) l
AreSources-total [] [] h = refl
AreSources-total (a ∷ l) (s ∷ sources) h =
    ap₂ (λ x y. x +ℤ y) h.0.amount (AreSources-total l sources h.1)
AreSources-total [] (s ∷ sources) h = absurd h
AreSources-total (a ∷ l) [] h = absurd h

identified :
    (l : List CommissionPointFundingAllocation) {sources : List PointChargeFundingSource}
    → identify_point_charge_funding_sources l ≡ ok sources
    → AreSources l sources
unfolding identify_point_charge_funding_sources
identified [] {sources} h = (let q : [] ≡ sources = cc h in subst (AreSources []) q tt)
identified (a ∷ l) {sources} h =
    let (s, e, h₁) = >>=-ok (identify_source a) _ h in
    let (rest, f, h₂) = >>=-ok (identify_point_charge_funding_sources l) _ h₁ in
    let q : s ∷ rest ≡ sources = cc h₂ in
    subst (AreSources (a ∷ l)) q (identify_source-IsSource a e, identified l f)

-- When the sources are identified there is one for each allocation, in order, each a completed
-- purchase with its lot and its amount; so the purchases account for all that was allocated.
pub identify_point_charge_funding_sources-AreSources :
    (l : List CommissionPointFundingAllocation) {sources : List PointChargeFundingSource}
    → identify_point_charge_funding_sources l ≡ ok sources
    → AreSources l sources × (total_of (λ s. s.amount) sources ≡ total_of (λ a. a.amount) l)
identify_point_charge_funding_sources-AreSources l {sources} h =
    let a = identified l h in (a, AreSources-total l sources a)
