-- ===== src/Uow/Alone.antt =====
-- A database on which one transaction runs at a time: a body that throws leaves the state as it was.
use ts_graphql_reference.Base.{◌≡◌, sym, ap, true}
use ts_graphql_reference.Failure.{Error, Result, ok, err}
use ts_graphql_reference.Tx.{snd_or}
use ts_graphql_reference.Uow.{Database}
use ts_graphql_reference.Uow.Atomic.{IsAtomic, IsQuiet}

abbrev pub alone : Type 0 → Database
alone S = record {
  State = S;
  transaction = λ A body s. elim (body s) [ ok r ↦ (ok r.0, r.1) | err e ↦ (err e, s) ];
  set_snapshot = λ s. ok (tt, s);
  advisory_lock = λ key s. ok (tt, s);
  try_advisory_lock = λ key s. ok (true, s);
}

closed : {A S : Type 0} → Result (A × S) → S → Result A × S
closed r s = elim r [ ok p ↦ (ok p.0, p.1) | err e ↦ (err e, s) ]

abbrev reopened : {A S : Type 0} → Result A × S → Result (A × S)
reopened (ok a, s) = ok (a, s)
reopened (err e, s) = err e

closed-ok :
    {A S : Type 0} (r : Result (A × S)) (s : S) {a : A} {t : S}
    → closed r s ≡ (ok a, t)
    → r ≡ ok (a, t)
unfolding closed
closed-ok (ok p) s h = ap reopened h
closed-ok (err e) s h = cc

closed-err :
    {A S : Type 0} (r : Result (A × S)) (s : S) {e : Error} {t : S}
    → closed r s ≡ (err e, t)
    → t ≡ s
unfolding closed
closed-err (ok p) s h = cc
closed-err (err e) s h = sym (ap (λ q. q.1) h)

closed-thrown :
    {A S : Type 0} (r : Result (A × S)) (s : S) {e : Error} → r ≡ err e → closed r s ≡ (err e, s)
unfolding closed
closed-thrown r s h = ap (λ x. closed x s) h

pub alone-IsAtomic : {S : Type 0} → IsAtomic (alone S)
unfolding closed
alone-IsAtomic = record {
  committed = λ body s h. closed-ok (body s) s h;
  thrown = λ body s h. closed-thrown (body s) s h;
  rolled_back = λ body s h. closed-err (body s) s h;
}

pub alone-IsQuiet : {S : Type 0} → IsQuiet (alone S)
alone-IsQuiet = record {
  begin_quiet = λ {s} h. sym (ap (snd_or s) h);
  lock_quiet = λ {key} {s} h. sym (ap (snd_or s) h);
  try_quiet = λ {key} {b} {s} h. sym (ap (snd_or s) h);
}
