-- ===== src/Settlement/Start.antt =====
-- How a repeated settlement is answered.
use ts_graphql_reference.Base.{
  ◌≡◌, ◌↔◌, refl, sym, ap, Bool, true, false, ◌||◌, not, Option, none, some, ||-false, not-false,
  str_ne, str_ne-false, str_eq_refl, present,
}
use ts_graphql_reference.Failure.{ok, throw_if-ok, commission_settlement_state}
use ts_graphql_reference.Settlement.{
  StoredCommissionSettlementCommand, RequestedSettlement, SettlementStart, proceed, replay, alias,
  plan_commission_settlement_start,
}

-- A stored command that is the request's, and has been completed.
pub record IsCompleted (stored : StoredCommissionSettlementCommand)
    (requested : RequestedSettlement) : Type 0 where
  pub flow_kind : stored.flow_kind ≡ requested.flow_kind
  pub kind : stored.kind ≡ requested.kind
  pub payload : stored.payload_hash ≡ requested.payload_hash
  pub namespace : stored.subject_namespace ≡ requested.subject_namespace
  pub subject : stored.subject_key ≡ requested.subject_key
  pub recorded : present stored.operation_db_id ≡ true
  pub completed : present stored.operation_id ≡ true

-- What the start of a settlement may be, from what is stored.
abbrev pub IsStart :
    Option StoredCommissionSettlementCommand
    → Option StoredCommissionSettlementCommand
    → RequestedSettlement
    → SettlementStart
    → Type 0
IsStart (some existing) completed requested p =
    IsCompleted existing requested × (p ≡ replay existing)
IsStart none (some completed) requested p = IsCompleted completed requested × (p ≡ alias completed)
IsStart none none requested p = p ≡ proceed

module _ (stored : StoredCommissionSettlementCommand) (requested : RequestedSettlement) where
  mismatch : Bool
  mismatch =
      str_ne stored.flow_kind requested.flow_kind
      || str_ne stored.kind requested.kind
      || str_ne stored.payload_hash requested.payload_hash
      || str_ne stored.subject_namespace requested.subject_namespace
      || str_ne stored.subject_key requested.subject_key

  unfinished : Bool
  unfinished = not (present stored.operation_db_id) || not (present stored.operation_id)

  checks-IsCompleted : mismatch ≡ false → unfinished ≡ false → IsCompleted stored requested
  unfolding mismatch unfinished
  checks-IsCompleted identity done =
      let a = str_ne stored.flow_kind requested.flow_kind in
      let b = str_ne stored.kind requested.kind in
      let c = str_ne stored.payload_hash requested.payload_hash in
      let d = str_ne stored.subject_namespace requested.subject_namespace in
      let e = str_ne stored.subject_key requested.subject_key in
      let x = not (present stored.operation_db_id) in
      let y = not (present stored.operation_id) in
      let (abcd, not_e) = ||-false (a || b || c || d) e identity in
      let (abc, not_d) = ||-false (a || b || c) d abcd in
      let (ab, not_c) = ||-false (a || b) c abc in
      let (not_a, not_b) = ||-false a b ab in
      let (not_x, not_y) = ||-false x y done in
      record {
        flow_kind = str_ne-false stored.flow_kind requested.flow_kind not_a;
        kind = str_ne-false stored.kind requested.kind not_b;
        payload = str_ne-false stored.payload_hash requested.payload_hash not_c;
        namespace = str_ne-false stored.subject_namespace requested.subject_namespace not_d;
        subject = str_ne-false stored.subject_key requested.subject_key not_e;
        recorded = not-false (present stored.operation_db_id) not_x;
        completed = not-false (present stored.operation_id) not_y;
      }

  IsCompleted-checks : IsCompleted stored requested → (mismatch ≡ false) × (unfinished ≡ false)
  unfolding mismatch unfinished
  IsCompleted-checks c = (
    rw
        (
          c.flow_kind,
          c.kind,
          c.payload,
          c.namespace,
          c.subject,
          str_eq_refl requested.flow_kind,
          str_eq_refl requested.kind,
          str_eq_refl requested.payload_hash,
          str_eq_refl requested.subject_namespace,
          str_eq_refl requested.subject_key,
        )
        refl,
    rw (c.recorded, c.completed) refl,
  )

-- The command's own record decides first, as a replay; else the completed settlement of the same
-- subject, as an alias; each for the same identity and a completed operation; with neither stored,
-- the settlement goes on.
pub plan_commission_settlement_start_iff :
    (existing completed : Option StoredCommissionSettlementCommand)
    (requested : RequestedSettlement) (p : SettlementStart)
    → (plan_commission_settlement_start existing completed requested ≡ ok p)
      ↔ IsStart existing completed requested p
unfolding plan_commission_settlement_start mismatch unfinished
plan_commission_settlement_start_iff (some existing) completed requested p = (
  λ h.
      let (a, h₁) =
        throw_if-ok (mismatch existing requested)
          (commission_settlement_state "Settlement command key identity mismatch") _ h in
      let (b, h₂) =
        throw_if-ok (unfinished existing requested)
          (commission_settlement_state "Settlement command has no completed operation") _ h₁ in
      (checks-IsCompleted existing requested a b, cc h₂),
  λ s. let (a, b) = IsCompleted-checks existing requested s.0 in rw (a, b) (ap ok (sym s.1)),
)
plan_commission_settlement_start_iff none (some completed) requested p = (
  λ h.
      let (a, h₁) =
        throw_if-ok (mismatch completed requested)
          (commission_settlement_state "Settlement command key identity mismatch") _ h in
      let (b, h₂) =
        throw_if-ok (unfinished completed requested)
          (commission_settlement_state "Settlement command has no completed operation") _ h₁ in
      (checks-IsCompleted completed requested a b, cc h₂),
  λ s. let (a, b) = IsCompleted-checks completed requested s.0 in rw (a, b) (ap ok (sym s.1)),
)
plan_commission_settlement_start_iff none none requested p = (λ h. cc h, λ s. ap ok (sym s))
