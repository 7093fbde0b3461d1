-- ===== src/User/Guarded.antt =====
-- What interleaved requests do to the status of a user.
use ts_graphql_reference.Base.{
  ℕ, ◌≡◌, refl, sym, ap, ◌∙◌, subst, Option, none, some, List, [], ◌∷◌, All, Bool-cases,
  Option-cases, inl, inr, ◌==◌, str_eq, eq_iff, &&-true,
}
use ts_graphql_reference.Failure.{ok, >>=-ok}
use ts_graphql_reference.User.{
  UserStatus, deactivated, status_text, parse_user_status, TransitionPlan, noop, transition,
  plan_transition,
}
use ts_graphql_reference.User.Lifecycle.{
  step, Life, stay, move, deactivated-final, parse_user_status_iff, plan_transition-IsPlan,
}
use ts_graphql_reference.User.Table.{
  UserRow, Users, UserWriteData, find_where, has_email, holds, find_by_id, get_by_id, with_email,
  with_status, new_user, inserted, create_user, upsert_by_email, transition_status, read_and_decide,
  or_conflict, execute,
}
use ts_graphql_reference.User.Interleaved.{
  Waiting, Server, Takes, first, later, Serves, decides, writes, leaves, creates, logs_in, passes,
  Run, done, next, find-update, find-append,
}

-- The plan of a request is one that the state machine makes.
abbrev pub IsPlanned : Waiting → Type 0
IsPlanned w =
    (f g : UserStatus) → w.plan ≡ transition f g → plan_transition f g ≡ ok (transition f g)

planned_for :
    (a b : UserStatus) {f g : UserStatus}
    → plan_transition a b ≡ ok (transition f g)
    → plan_transition f g ≡ ok (transition f g)
planned_for a b {f} {g} h = elim (plan_transition-IsPlan a b) [
  | inl (q, e) ↦ cc
  | inr (inl (can, e)) ↦
      let k : ok (transition a b) ≡ ok (transition f g) = sym e ∙ h in
      let p : a ≡ f = cc k in
      let q : b ≡ g = cc k in
      subst (λ x. plan_transition x g ≡ ok (transition x g)) p
        (subst (λ y. plan_transition a y ≡ ok (transition a y)) q e)
  | inr (inr (cannot, e)) ↦ cc
]

decided-IsPlanned :
    (t : Users) (to_status : UserStatus) (w : Waiting)
    → read_and_decide w.id to_status t ≡ ok (w.current, w.plan)
    → IsPlanned w
unfolding read_and_decide
decided-IsPlanned t to_status w h f g e =
    let (current, read, h1) = >>=-ok (get_by_id w.id t) _ h in
    let (from_status, parsed, h2) = >>=-ok (parse_user_status current.status) _ h1 in
    let (plan, made, h3) = >>=-ok (plan_transition from_status to_status) _ h2 in
    let q : plan ≡ w.plan = cc h3 in
    planned_for from_status to_status (made ∙ ap (λ x. ok x) (q ∙ e))

All-taken :
    {w : Waiting} {ws rest : List Waiting}
    → Takes w ws rest
    → All IsPlanned ws
    → IsPlanned w × All IsPlanned rest
All-taken first h = h
All-taken (later taken) h = let (it, others) = All-taken taken h.1 in (it, (h.0, others))

Life-trans : {a b c : UserStatus} → Life a b → Life b c → Life a c
Life-trans stay l = l
Life-trans (move s k) l = move s (Life-trans k l)

-- The user of an identifier is there and has that status.
pub record HasStatus (u : ℕ) (a : UserStatus) (t : Users) : Type 0 where
  pub row : UserRow
  pub is_there : find_by_id u t ≡ some row
  pub is_status : row.status ≡ status_text a

-- The user is still there, and has come to the status by planned moves.
pub record HasLived (u : ℕ) (a : UserStatus) (t : Users) : Type 0 where
  pub status : UserStatus
  pub has_status : HasStatus u status t
  pub life : Life a status

same_text : (a b : UserStatus) → status_text a ≡ status_text b → a ≡ b
same_text a b e =
    let p = (parse_user_status_iff (status_text b) a).1 e in
    let q = (parse_user_status_iff (status_text b) b).1 refl in
    let k : ok a ≡ ok b = sym p ∙ q in cc k

-- The guarded write moves the user from the status that the plan was made for, or is of another.
transition-HasLived :
    (u i : ℕ) (f g a : UserStatus) (t : Users)
    → plan_transition f g ≡ ok (transition f g)
    → HasStatus u a t
    → HasLived u a (transition_status i f g t).1
unfolding transition_status find_by_id
transition-HasLived u i f g a t made h = elim (Option-cases (find_where (holds i f) t.rows)) [
  | inl none_there ↦
      rw (none_there, transition_status) (record { status = a; has_status = h; life = stay })
  | inr (r, there) ↦
      let found = find-update (holds i f) (with_status t.now g) (λ x. refl) u t.rows h.is_there in
      rw (there, transition_status)
        (elim (Bool-cases (holds i f h.row)) [
          | inl e ↦
              let (same_id, same) =
                &&-true (h.row.id == i) (str_eq h.row.status (status_text f)) e in
              let q : f ≡ a =
                same_text f a (sym ((eq_iff h.row.status (status_text f)).0 same) ∙ h.is_status) in
              record {
                status = g;
                has_status = record {
                  row = with_status t.now g h.row;
                  is_there = rw e at found;
                  is_status = refl;
                };
                life = subst (λ x. Life x g) q (move (step made) stay);
              }
          | inr e ↦ record {
            status = a;
            has_status = record { row = h.row; is_there = rw e at found; is_status = h.is_status };
            life = stay;
          }
        ])
]

upsert-HasLived :
    (u : ℕ) (a : UserStatus) (input : UserWriteData) (t : Users)
    → HasStatus u a t
    → HasLived u a (upsert_by_email input t).1
unfolding upsert_by_email find_by_id
upsert-HasLived u a input t h = elim (Option-cases (find_where (has_email input.email) t.rows)) [
  | inl none_there ↦
      rw (none_there, upsert_by_email)
        (record {
          status = a;
          has_status = record {
            row = h.row;
            is_there = find-append u t.rows (new_user t.now input t.next_id ∷ []) h.is_there;
            is_status = h.is_status;
          };
          life = stay;
        })
  | inr (r, there) ↦
      let found =
        find-update (has_email input.email) (with_email t.now input.email) (λ x. refl) u t.rows
          h.is_there in
      rw (there, upsert_by_email)
        (elim (Bool-cases (has_email input.email h.row)) [
          | inl e ↦ record {
            status = a;
            has_status = record {
              row = with_email t.now input.email h.row;
              is_there = rw e at found;
              is_status = h.is_status;
            };
            life = stay;
          }
          | inr e ↦ record {
            status = a;
            has_status = record { row = h.row; is_there = rw e at found; is_status = h.is_status };
            life = stay;
          }
        ])
]

create-HasLived :
    (u : ℕ) (a : UserStatus) (input : UserWriteData) (t : Users) {r : UserRow} {t' : Users}
    → create_user input t ≡ ok (r, t')
    → HasStatus u a t
    → HasLived u a t'
unfolding create_user find_by_id
create-HasLived u a input t {r} {t'} made h =
    elim (Option-cases (find_where (has_email input.email) t.rows)) [
      | inl none_there ↦
          let k : ok (inserted input t) ≡ ok (r, t') = rw (none_there, create_user) at made in
          let q : (inserted input t).1 ≡ t' = cc k in
          subst (HasLived u a) q (record {
            status = a;
            has_status = record {
              row = h.row;
              is_there = find-append u t.rows (new_user t.now input t.next_id ∷ []) h.is_there;
              is_status = h.is_status;
            };
            life = stay;
          })
      | inr (x, there) ↦ cc (rw (there, create_user) at made)
    ]

or_conflict-ok :
    (i : ℕ) (p : Option UserRow × Users) {r : UserRow} {t' : Users}
    → or_conflict i p ≡ ok (r, t')
    → p.1 ≡ t'
or_conflict-ok i (some r, t) h = cc h
or_conflict-ok i (none, t) h = cc h

execute-HasLived :
    (u : ℕ) (a : UserStatus) (i : ℕ) (current : UserRow) (plan : TransitionPlan) (t : Users)
    {r : UserRow} {t' : Users}
    → ((f g : UserStatus) → plan ≡ transition f g → plan_transition f g ≡ ok (transition f g))
    → execute i current plan t ≡ ok (r, t')
    → HasStatus u a t
    → HasLived u a t'
unfolding execute
execute-HasLived u a i current noop t {r} {t'} planned h s =
    let q : t ≡ t' = cc h in
    subst (HasLived u a) q (record { status = a; has_status = s; life = stay })
execute-HasLived u a i current (transition f g) t planned h s =
    subst (HasLived u a) (or_conflict-ok i (transition_status i f g t) h)
      (transition-HasLived u i f g a t (planned f g refl) s)

Serves-HasLived :
    (u : ℕ) (a : UserStatus) {s s' : Server}
    → Serves s s'
    → All IsPlanned s.waiting
    → HasStatus u a s.table
    → HasLived u a s'.table × All IsPlanned s'.waiting
unfolding find_by_id
Serves-HasLived u a (decides {t} {ws} {w} to_status h) p s =
    (record { status = a; has_status = s; life = stay }, (decided-IsPlanned t to_status w h, p))
Serves-HasLived u a (writes {t} {t'} {ws} {rest} {w} taken h) p s =
    let (it, others) = All-taken taken p in
    (execute-HasLived u a w.id w.current w.plan t it h s, others)
Serves-HasLived u a (leaves taken) p s =
    let (it, others) = All-taken taken p in
    (record { status = a; has_status = s; life = stay }, others)
Serves-HasLived u a (creates {t} input h) p s = (create-HasLived u a input t h s, p)
Serves-HasLived u a (passes to_instant) p s = (
  record {
    status = a;
    has_status = record { row = s.row; is_there = s.is_there; is_status = s.is_status };
    life = stay;
  },
  p,
)
Serves-HasLived u a (logs_in {t} input) p s = (upsert-HasLived u a input t s, p)

-- However the requests interleave, from a server where each waiting request has a plan of the state
-- machine (none may wait), a user is still there at the end, and its status has come about by a
-- sequence of changes that the state machine plans.
pub Run-HasLived :
    (u : ℕ) (a : UserStatus) {s s' : Server}
    → Run s s'
    → All IsPlanned s.waiting
    → HasStatus u a s.table
    → HasLived u a s'.table
Run-HasLived u a done p h = record { status = a; has_status = h; life = stay }
Run-HasLived u a (next serves run) p h =
    let (lived, planned) = Serves-HasLived u a serves p h in
    let after = Run-HasLived u lived.status run planned lived.has_status in
    record {
      status = after.status;
      has_status = after.has_status;
      life = Life-trans lived.life after.life;
    }

-- However the requests interleave, from a server where no request has decided yet, a deactivated
-- user is still there and deactivated at the end: a change that was decided before and is written
-- later does not bring the user back.
pub deactivated-interleaved :
    (u : ℕ) {s s' : Server}
    → s.waiting ≡ []
    → Run s s'
    → HasStatus u deactivated s.table
    → HasStatus u deactivated s'.table
deactivated-interleaved u {s} {s'} none_waits run h =
    let lived = Run-HasLived u deactivated run (subst (All IsPlanned) (sym none_waits) tt) h in
    subst (λ x. HasStatus u x s'.table) (deactivated-final refl lived.life) lived.has_status
