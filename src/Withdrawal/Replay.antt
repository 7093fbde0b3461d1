-- ===== src/Withdrawal/Replay.antt =====
-- When a stored withdrawal command is replayed.
use ts_graphql_reference.Base.{
  ◌≡◌, ◌↔◌, refl, true, ◌||◌, not, String, ||-false, not-false, present, str_ne, str_ne-false,
  str_eq_refl,
}
use ts_graphql_reference.Failure.{ok, throw_if-ok, income_withdrawal}
use ts_graphql_reference.Withdrawal.{
  WithdrawalReplayIdentity, assert_income_withdrawal_replay, income_withdrawal_namespace,
}

-- A stored command that repeats the request and has been completed.
pub record IsReplay (stored : WithdrawalReplayIdentity) (hash : String) : Type 0 where
  pub flow_kind : stored.flow_kind ≡ "WITHDRAWAL"
  pub kind : stored.kind ≡ "WITHDRAW"
  pub payload : stored.payload_hash ≡ hash
  pub namespace : stored.subject_namespace ≡ income_withdrawal_namespace
  pub own_flow : stored.subject_key ≡ stored.flow_id
  pub recorded : present stored.operation_db_id ≡ true
  pub completed : present stored.operation_id ≡ true

replays :
    (stored : WithdrawalReplayIdentity) (hash : String)
    → IsReplay stored hash
    → assert_income_withdrawal_replay stored hash ≡ ok stored
unfolding assert_income_withdrawal_replay
replays stored hash r =
    rw
      (
        r.flow_kind,
        r.kind,
        r.payload,
        r.namespace,
        r.own_flow,
        str_eq_refl hash,
        str_eq_refl stored.flow_id,
        r.recorded,
        r.completed,
      )
      refl

-- A stored command is replayed exactly when it repeats the request, on its own flow, and has been
-- completed; what is returned is the stored command.
pub assert_income_withdrawal_replay_iff :
    (stored : WithdrawalReplayIdentity) (hash : String)
    → (assert_income_withdrawal_replay stored hash ≡ ok stored) ↔ IsReplay stored hash
unfolding assert_income_withdrawal_replay
assert_income_withdrawal_replay_iff stored hash =
    let a = str_ne stored.flow_kind "WITHDRAWAL" in
    let b = str_ne stored.kind "WITHDRAW" in
    let c = str_ne stored.payload_hash hash in
    let d = str_ne stored.subject_namespace income_withdrawal_namespace in
    let e = str_ne stored.subject_key stored.flow_id in
    let x = not (present stored.operation_db_id) in
    let y = not (present stored.operation_id) in
    (
      λ h.
          let (identity, h₁) =
            throw_if-ok (a || b || c || d || e)
              (income_withdrawal "Withdrawal command key identity mismatch") _ h in
          let (done, h₂) =
            throw_if-ok (x || y) (income_withdrawal "Withdrawal command has no completed operation")
              _ h₁ in
          let (abcd, not_e) = ||-false (a || b || c || d) e identity in
          let (abc, not_d) = ||-false (a || b || c) d abcd in
          let (ab, not_c) = ||-false (a || b) c abc in
          let (not_a, not_b) = ||-false a b ab in
          let (not_x, not_y) = ||-false x y done in
          record {
            flow_kind = str_ne-false stored.flow_kind "WITHDRAWAL" not_a;
            kind = str_ne-false stored.kind "WITHDRAW" not_b;
            payload = str_ne-false stored.payload_hash hash not_c;
            namespace = str_ne-false stored.subject_namespace income_withdrawal_namespace not_d;
            own_flow = str_ne-false stored.subject_key stored.flow_id not_e;
            recorded = not-false (present stored.operation_db_id) not_x;
            completed = not-false (present stored.operation_id) not_y;
          },
      replays stored hash,
    )
