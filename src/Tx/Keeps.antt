-- ===== src/Tx/Keeps.antt =====
-- What code inside a transaction keeps when it returns, with one rule for each way to build it.
use ts_graphql_reference.Base.{◌≡◌, refl, ap, subst, Bool}
use ts_graphql_reference.Failure.{Error, Result, ok}
use ts_graphql_reference.Tx.{
  Tx, pure, lift, throw_if, ◌>>=◌, ◌>>◌, >>=-ok, lift-ok, throw_if-ok, snd_or,
}

-- `m` keeps `P` when it returns; what it wrote before a throw is rolled back.
pub record Keeps {S A : Type 0} (P : S → Type 0) (m : Tx S A) : Type 0 where
  pub at : {s t : S} {a : A} → m s ≡ ok (a, t) → P s → P t

-- `m` has returned `a` in some state.
abbrev pub Returned : {S A : Type 0} → Tx S A → A → Type 0
Returned {S} m a = (s : S) × (t : S) × (m s ≡ ok (a, t))

module _ {S A : Type 0} {P : S → Type 0} where
  -- A call that changes nothing.
  pub Keeps-read : (m : Tx S A) → ((s t : S) (a : A) → m s ≡ ok (a, t) → s ≡ t) → Keeps P m
  Keeps-read m quiet = record { at = λ {s} {t} {a} e h. subst P (quiet s t a e) h }

  pub Keeps-pure : (a : A) → Keeps P (pure a)
  Keeps-pure a = record { at = λ {s} {t} {a = b} e h. subst P (ap (snd_or s) e) h }

  pub Keeps-lift : (r : Result A) → Keeps P (lift r)
  Keeps-lift r = Keeps-read (lift r) (λ s t a e. (lift-ok r s e).1)

module _ {S : Type 0} {P : S → Type 0} where
  pub Keeps-throw_if : (b : Bool) (e : Error) → Keeps P (throw_if b e)
  Keeps-throw_if b e = Keeps-read (throw_if b e) (λ s t a h. (throw_if-ok b e s h).1)

module _ {S A B : Type 0} {P : S → Type 0} where
  -- What follows may use what has been returned.
  pub Keeps-bind :
      (m : Tx S A) (f : A → Tx S B)
      → Keeps P m
      → ((a : A) → Returned m a → Keeps P (f a))
      → Keeps P (m >>= f)
  Keeps-bind m f km kf = record {
    at = λ {s} {t} {a = b} e h.
        let (a, u, d, g) = >>=-ok m f s e in (kf a (s, u, d)).at g (km.at d h);
  }

  pub Keeps-then : (m : Tx S A) (k : Tx S B) → Keeps P m → Keeps P k → Keeps P (m >> k)
  Keeps-then m k km kk = Keeps-bind m (λ _. k) km (λ a r. kk)

-- A call that keeps the very state changes nothing.
pub Keeps-quiet :
    {S A : Type 0} {m : Tx S A} {s t : S} {a : A} → Keeps (λ x. s ≡ x) m → m s ≡ ok (a, t) → s ≡ t
Keeps-quiet k e = k.at e refl
