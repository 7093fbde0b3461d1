-- ===== src/Checkout/Start.antt =====
-- How a repeated checkout is answered.
use ts_graphql_reference.Base.{
  ℕ, ◌≡◌, ◌↔◌, refl, sym, ap, subst, true, false, ◌||◌, not, Option, none, some, String, ◌==◌,
  ||-false, str_ne, str_ne-false, str_eq_refl, ==_refl, ==-not-false, Bool-cases, inl, inr,
}
use ts_graphql_reference.Failure.{
  ok, throw_if-ok, commission_checkout_actor, commission_checkout_idempotency,
}
use ts_graphql_reference.Checkout.{
  ReplayIdentity, ExistingCommissionCheckout, CommissionCheckoutStartPlan, proceed, replay,
  assert_commission_checkout_actor, assert_commission_checkout_replay_identity,
  plan_commission_checkout_start,
}

-- What the start of a checkout may be, from what is stored.
abbrev pub IsStart :
    Option ExistingCommissionCheckout
    → Option ExistingCommissionCheckout
    → String
    → ℕ
    → CommissionCheckoutStartPlan
    → Type 0
IsStart (some command) payment hash actor p =
    (command.payload_hash ≡ hash) × (p ≡ replay command.economic_result false)
IsStart none (some payment) hash actor p =
    (payment.buyer_id ≡ actor) × (p ≡ replay payment.economic_result true)
IsStart none none hash actor p = p ≡ proceed

-- The stored command decides first: its own result for the same payload, and else an error; a paid
-- payment is replayed under a new command for its buyer alone; and with neither the checkout goes on.
pub plan_commission_checkout_start_iff :
    (command payment : Option ExistingCommissionCheckout) (hash : String) (actor : ℕ)
    (p : CommissionCheckoutStartPlan)
    → (plan_commission_checkout_start command payment hash actor ≡ ok p)
      ↔ IsStart command payment hash actor p
unfolding plan_commission_checkout_start assert_commission_checkout_actor
plan_commission_checkout_start_iff (some command) payment hash actor p = (
  λ h.
      let (a, q) =
        throw_if-ok (str_ne command.payload_hash hash) commission_checkout_idempotency _ h in
      (str_ne-false command.payload_hash hash a, cc q),
  λ s. rw (s.0, str_eq_refl hash) (ap ok (sym s.1)),
)
plan_commission_checkout_start_iff none (some payment) hash actor p = (
  λ h.
      let (a, q) = throw_if-ok (not (payment.buyer_id == actor)) commission_checkout_actor _ h in
      (==-not-false payment.buyer_id actor a, cc q),
  λ s. rw (s.0, ==_refl actor) (ap ok (sym s.1)),
)
plan_commission_checkout_start_iff none none hash actor p = (λ h. cc h, λ s. ap ok (sym s))

identity-eq :
    {a b : ReplayIdentity}
    → a.flow_kind ≡ b.flow_kind
    → a.kind ≡ b.kind
    → a.payload_hash ≡ b.payload_hash
    → a.subject_namespace ≡ b.subject_namespace
    → a.subject_key ≡ b.subject_key
    → a ≡ b
identity-eq f k h n s = λ i. record {
  flow_kind = f i;
  kind = k i;
  payload_hash = h i;
  subject_namespace = n i;
  subject_key = s i;
}

identity_refl : (a : ReplayIdentity) → assert_commission_checkout_replay_identity a a ≡ ok tt
unfolding assert_commission_checkout_replay_identity
identity_refl a =
    rw
      (
        str_eq_refl a.flow_kind,
        str_eq_refl a.kind,
        str_eq_refl a.payload_hash,
        str_eq_refl a.subject_namespace,
        str_eq_refl a.subject_key,
      )
      refl

-- A stored command is replayed exactly when the request's whole identity is its own.
pub assert_commission_checkout_replay_identity_iff :
    (stored requested : ReplayIdentity)
    → (assert_commission_checkout_replay_identity stored requested ≡ ok tt) ↔ (stored ≡ requested)
unfolding assert_commission_checkout_replay_identity
assert_commission_checkout_replay_identity_iff stored requested =
    let a = str_ne stored.flow_kind requested.flow_kind in
    let b = str_ne stored.kind requested.kind in
    let c = str_ne stored.payload_hash requested.payload_hash in
    let d = str_ne stored.subject_namespace requested.subject_namespace in
    let e = str_ne stored.subject_key requested.subject_key in
    (
      λ h. elim (Bool-cases (a || b || c || d || e)) [
        | inl t ↦ cc (rw t at h)
        | inr t ↦
            let (abcd, not_e) = ||-false (a || b || c || d) e t in
            let (abc, not_d) = ||-false (a || b || c) d abcd in
            let (ab, not_c) = ||-false (a || b) c abc in
            let (not_a, not_b) = ||-false a b ab in
            identity-eq {a = stored} {b = requested}
              (str_ne-false stored.flow_kind requested.flow_kind not_a)
              (str_ne-false stored.kind requested.kind not_b)
              (str_ne-false stored.payload_hash requested.payload_hash not_c)
              (str_ne-false stored.subject_namespace requested.subject_namespace not_d)
              (str_ne-false stored.subject_key requested.subject_key not_e)
      ],
      λ q.
          subst (λ x. assert_commission_checkout_replay_identity stored x ≡ ok tt) q
            (identity_refl stored),
    )
