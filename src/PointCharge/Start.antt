-- ===== src/PointCharge/Start.antt =====
-- When points are charged anew, and how a repeated charge is answered.
use ts_graphql_reference.Base.{
  ◌≡◌, ◌↔◌, refl, sym, ap, subst, Bool, true, false, ◌||◌, not, Option, none, some, ◌==◌, ||-false,
  not-false, str_ne, str_ne-false, str_eq, str_eq_refl, present, or_else, ==_refl, ==-not-false,
  Bool-cases, inl, inr,
}
use ts_graphql_reference.Int.{
  ℤ, pos, ◌≤ℤ◌, ◌<ℤ◌, leb_ℤ, ltb_ℤ, leb_ℤ→gt, ltb_ℤ→ge, Number, whole, fractional, max_safe_integer,
}
use ts_graphql_reference.Failure.{Result, ok, err, >>=-ok, throw_if-ok, point_charge_state}
use ts_graphql_reference.PointCharge.{
  PointChargeInput, PointChargeWorld, PointChargePlan, StoredPointCharge, RequestedPointCharge,
  PointChargeStart, proceed, replay, assert_point_charge_identity, plan_point_charge_start,
  assert_charge_amount, plan_point_charge, plan_point_charge_command,
}

-- A stored charge that is the request's, whatever its key, and has been completed.
pub record IsCompleted (stored : StoredPointCharge) (requested : RequestedPointCharge)
    : Type 0 where
  pub flow_kind : stored.command.flow_kind ≡ requested.command.flow_kind
  pub kind : stored.command.kind ≡ requested.command.kind
  pub principal : stored.command.principal_id ≡ requested.command.principal_id
  pub payload : stored.payload_hash ≡ requested.payload_hash
  pub namespace : stored.command.subject_namespace ≡ requested.command.subject_namespace
  pub subject : stored.command.subject_key ≡ requested.command.subject_key
  pub recorded : present stored.operation_db_id ≡ true
  pub completed : present stored.operation_id ≡ true

abbrev pub IsStart : Option StoredPointCharge → RequestedPointCharge → PointChargeStart → Type 0
IsStart (some stored) requested p = IsCompleted stored requested × (p ≡ replay stored)
IsStart none requested p = p ≡ proceed

module _ (stored : StoredPointCharge) (requested : RequestedPointCharge) where
  mismatch : Bool
  mismatch =
      str_ne stored.command.flow_kind requested.command.flow_kind
      || str_ne stored.command.kind requested.command.kind
      || not (stored.command.principal_id == requested.command.principal_id)
      || str_ne stored.payload_hash requested.payload_hash
      || str_ne stored.command.subject_namespace requested.command.subject_namespace
      || str_ne stored.command.subject_key requested.command.subject_key

  unfinished : Bool
  unfinished = not (present stored.operation_db_id) || not (present stored.operation_id)

  checks-IsCompleted : mismatch ≡ false → unfinished ≡ false → IsCompleted stored requested
  unfolding mismatch unfinished
  checks-IsCompleted identity done =
      let s = stored.command in
      let r = requested.command in
      let a = str_ne s.flow_kind r.flow_kind in
      let b = str_ne s.kind r.kind in
      let c = not (s.principal_id == r.principal_id) in
      let d = str_ne stored.payload_hash requested.payload_hash in
      let e = str_ne s.subject_namespace r.subject_namespace in
      let f = str_ne s.subject_key r.subject_key in
      let x = not (present stored.operation_db_id) in
      let y = not (present stored.operation_id) in
      let (abcde, not_f) = ||-false (a || b || c || d || e) f identity in
      let (abcd, not_e) = ||-false (a || b || c || d) e abcde in
      let (abc, not_d) = ||-false (a || b || c) d abcd in
      let (ab, not_c) = ||-false (a || b) c abc in
      let (not_a, not_b) = ||-false a b ab in
      let (not_x, not_y) = ||-false x y done in
      record {
        flow_kind = str_ne-false s.flow_kind r.flow_kind not_a;
        kind = str_ne-false s.kind r.kind not_b;
        principal = ==-not-false s.principal_id r.principal_id not_c;
        payload = str_ne-false stored.payload_hash requested.payload_hash not_d;
        namespace = str_ne-false s.subject_namespace r.subject_namespace not_e;
        subject = str_ne-false s.subject_key r.subject_key not_f;
        recorded = not-false (present stored.operation_db_id) not_x;
        completed = not-false (present stored.operation_id) not_y;
      }

  IsCompleted-checks : IsCompleted stored requested → (mismatch ≡ false) × (unfinished ≡ false)
  unfolding mismatch unfinished
  IsCompleted-checks c = (
    rw
        (
          c.flow_kind,
          c.kind,
          c.principal,
          c.payload,
          c.namespace,
          c.subject,
          str_eq_refl requested.command.flow_kind,
          str_eq_refl requested.command.kind,
          ==_refl requested.command.principal_id,
          str_eq_refl requested.payload_hash,
          str_eq_refl requested.command.subject_namespace,
          str_eq_refl requested.command.subject_key,
        )
        refl,
    rw (c.recorded, c.completed) refl,
  )

  identity-ok : assert_point_charge_identity stored requested ≡ ok tt → IsCompleted stored requested
  unfolding assert_point_charge_identity mismatch unfinished
  identity-ok h =
      let (a, h₁) =
        throw_if-ok mismatch (point_charge_state "Point charge command identity mismatch") _ h in
      elim (Bool-cases unfinished) [ inl e ↦ cc (rw e at h₁) | inr e ↦ checks-IsCompleted a e ]

  IsCompleted-ok :
      IsCompleted stored requested → assert_point_charge_identity stored requested ≡ ok tt
  unfolding assert_point_charge_identity mismatch unfinished
  IsCompleted-ok c = let (a, b) = IsCompleted-checks c in rw (a, b) refl

  replays_iff :
      (p : PointChargeStart)
      → (plan_point_charge_start (some stored) none requested ≡ ok p)
        ↔ IsStart (some stored) requested p
  unfolding plan_point_charge_start
  replays_iff p = (
    λ h.
        let (a, e, k) =
          >>=-ok (assert_point_charge_identity stored requested) (λ _. ok (replay stored)) h in
        (identity-ok e, cc k),
    λ s. rw (IsCompleted-ok s.0) (ap ok (sym s.1)),
  )

-- A stored command, or else the stored charge of the same payment, is replayed when it is the
-- request's and has been completed, and is refused otherwise; with neither stored, the charge goes
-- on.
pub plan_point_charge_start_iff :
    (command payment : Option StoredPointCharge) (requested : RequestedPointCharge)
    (p : PointChargeStart)
    → (plan_point_charge_start command payment requested ≡ ok p)
      ↔ IsStart (or_else command payment) requested p
unfolding plan_point_charge_start
plan_point_charge_start_iff (some command) payment requested p = replays_iff command requested p
plan_point_charge_start_iff none (some payment) requested p = replays_iff payment requested p
plan_point_charge_start_iff none none requested p = (λ h. cc h, λ s. ap ok (sym s))

-- What a planned charge says.
pub record IsPointCharge (world : PointChargeWorld) (input : PointChargeInput) (p : PointChargePlan)
    : Type 0 where
  pub asked : input.amount ≡ whole p.lot_request.amount
  pub positive : pos 0 <ℤ p.lot_request.amount
  pub safe : p.lot_request.amount ≤ℤ max_safe_integer
  pub payment : str_eq p.command_request.subject_key "" ≡ false
  pub key : str_eq p.command_request.idempotency_key "" ≡ false
  pub own_payment : p.command_request.subject_key ≡ input.external_payment_id
  pub account : p.lot_request.account_id ≡ world.available_account_id
  pub holder : p.lot_request.holder_id ≡ world.holder_id
  pub command : p.command_request ≡ plan_point_charge_command input

assert_charge_amount-ok :
    (amount : Number) {n : ℤ}
    → assert_charge_amount amount ≡ ok n
    → (amount ≡ whole n) × (pos 0 <ℤ n) × (n ≤ℤ max_safe_integer)
unfolding assert_charge_amount
assert_charge_amount-ok (whole m) {n} h =
    elim (Bool-cases (leb_ℤ m (pos 0) || ltb_ℤ max_safe_integer m)) [
      | inl e ↦ cc (rw e at h)
      | inr e ↦
          let g : ok m ≡ ok n = rw e at h in
          let q : m ≡ n = cc g in
          let (a, b) = ||-false (leb_ℤ m (pos 0)) (ltb_ℤ max_safe_integer m) e in
          (
            ap whole q,
            subst (λ x. pos 0 <ℤ x) q (leb_ℤ→gt m (pos 0) a),
            subst (λ x. x ≤ℤ max_safe_integer) q (ltb_ℤ→ge max_safe_integer m b),
          )
    ]
assert_charge_amount-ok fractional h = cc

-- A planned charge is of a positive safe integer, under a payment and a key that are not empty, and
-- asks for one lot of that amount in the holder's account.
pub plan_point_charge-IsPointCharge :
    (world : PointChargeWorld) (input : PointChargeInput) {p : PointChargePlan}
    → plan_point_charge world input ≡ ok p
    → IsPointCharge world input p
unfolding plan_point_charge plan_point_charge_command
plan_point_charge-IsPointCharge world input {p} h =
    let (n, e, h₁) = >>=-ok (assert_charge_amount input.amount) _ h in
    let (a, pos_n, safe) = assert_charge_amount-ok input.amount e in
    let (x, h₂) =
      throw_if-ok (str_eq input.external_payment_id "")
        (point_charge_state "External payment id is required") _ h₁ in
    let (y, h₃) =
      throw_if-ok (str_eq input.command_key "") (point_charge_state "Command key is required") _
        h₂ in
    subst (IsPointCharge world input) (ap (plan_or p) h₃) (record {
      asked = a;
      positive = pos_n;
      safe = safe;
      payment = x;
      key = y;
      own_payment = refl;
      account = refl;
      holder = refl;
      command = refl;
    })
  where
    plan_or : PointChargePlan → Result PointChargePlan → PointChargePlan
    plan_or q (ok r) = r
    plan_or q (err e) = q
