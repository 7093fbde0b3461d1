-- ===== src/Tx.antt =====
-- Code that runs inside one database transaction: it may throw, and what it wrote before that is
-- rolled back, so a throw carries no state.
pub mod Keeps
use ts_graphql_reference.Base.{◌≡◌, refl, ap, Bool, true, false, List, [], ◌∷◌, if◌then◌else◌}
use ts_graphql_reference.Failure.{Error, Result, ok, err}

abbrev pub Tx : Type 0 → Type 0 → Type 0
Tx S A = S → Result (A × S)

module _ {S : Type 0} where
  abbrev pub pure : {A : Type 0} → A → Tx S A
  pure a s = ok (a, s)

  abbrev pub throw : {A : Type 0} → Error → Tx S A
  throw e s = err e

  -- A pure decision inside the transaction.
  abbrev pub lift : {A : Type 0} → Result A → Tx S A
  lift (ok a) s = ok (a, s)
  lift (err e) s = err e

  infixl 5 ◌>>=◌ ◌>>◌
  abbrev pub ◌>>=◌ : {A B : Type 0} → Tx S A → (A → Tx S B) → Tx S B
  ◌>>=◌ m f s = elim (m s) [ ok r ↦ f r.0 r.1 | err e ↦ err e ]

  abbrev pub ◌>>◌ : {A B : Type 0} → Tx S A → Tx S B → Tx S B
  m >> k = m >>= λ _. k

  -- `if (test) throw e;`
  abbrev pub throw_if : Bool → Error → Tx S Unit
  throw_if b e = if b then throw e else pure tt

  -- `for (const item of items) await f(item);`
  unfoldable pub for_each : {A : Type 0} → (A → Tx S Unit) → List A → Tx S Unit
  for_each f [] = pure tt
  for_each f (a ∷ l) = let rest = for_each f l in f a >> rest

  -- Inversion of a bind that has not thrown.
  pub >>=-ok :
      {A B : Type 0} (m : Tx S A) (f : A → Tx S B) (s : S) {b : B} {t : S}
      → (m >>= f) s ≡ ok (b, t)
      → (a : A) × (s' : S) × (m s ≡ ok (a, s')) × (f a s' ≡ ok (b, t))
  >>=-ok {A} {B} m f s {b} {t} h = go (m s) refl h
    where
      go :
          (r : Result (A × S))
          → m s ≡ r
          → elim r [ ok p ↦ f p.0 p.1 | err e ↦ err e ] ≡ ok (b, t)
          → (a : A) × (s' : S) × (m s ≡ ok (a, s')) × (f a s' ≡ ok (b, t))
      go (ok (a, s')) e k = (a, s', e, k)
      go (err x) e k = cc

  -- A bind goes on from what the first part returned.
  pub >>=-run :
      {A B : Type 0} (m : Tx S A) (f : A → Tx S B) (s : S) {a : A} {t : S}
      → m s ≡ ok (a, t)
      → (m >>= f) s ≡ f a t
  >>=-run m f s e = rw (e, ◌>>=◌) refl

-- The parts of a result, to take an equation of results apart.
abbrev pub snd_or : {A S : Type 0} → S → Result (A × S) → S
snd_or s (ok r) = r.1
snd_or s (err e) = s

abbrev pub first_of_ok : {A S : Type 0} → Result (A × S) → Result A
first_of_ok (ok r) = ok r.0
first_of_ok (err e) = err e

-- A test that has not thrown was false, and has changed nothing.
pub throw_if-ok :
    {S : Type 0} (b : Bool) (e : Error) (s : S) {u : Unit} {t : S}
    → throw_if b e s ≡ ok (u, t)
    → (b ≡ false) × (s ≡ t)
throw_if-ok true e s h = cc
throw_if-ok false e s h = (refl, ap (snd_or s) h)

pub lift-ok :
    {S A : Type 0} (r : Result A) (s : S) {a : A} {t : S}
    → lift r s ≡ ok (a, t)
    → (r ≡ ok a) × (s ≡ t)
lift-ok (ok a) s h = (ap first_of_ok h, ap (snd_or s) h)
lift-ok (err e) s h = cc
