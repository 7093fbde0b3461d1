-- ===== src/Locks/Registry/Separate.antt =====
-- When two keys of the registry are the same lock.
use ts_graphql_reference.Base.{
  ℕ, suc, ◌<◌, ◌≡◌, refl, sym, ap, ◌∙◌, subst, Bool, true, false, ◌||◌, Option, none, some, List,
  [], ◌∷◌, String, str_eq, eq_iff, if◌then◌else◌, Bool-cases, inl, inr, arith,
}
use ts_graphql_reference.Locks.{define_from, define_locks}
use ts_graphql_reference.Locks.Registry.{
  LockNamespace, point_balance, order_payment, financial_holder, commission_slot,
  commission_checkout_command, commission_contract, income_withdrawal_command,
  commission_settlement_command, point_charge_payment, point_charge_command, namespace_text,
  entities, Parameter, number, text, ValueOf, parameter_of, to_obj_id, find_ordinal, ordinal,
  lock_key,
}

-- The list declares the name.
abbrev declares : String → List LockNamespace → Bool
declares name [] = false
declares name (x ∷ l) = str_eq (namespace_text x) name || declares name l

-- What is declared has a later position than what has come before.
find_ordinal-above :
    (name : String) (index : ℕ) (l : List LockNamespace)
    → declares name l ≡ true
    → index < find_ordinal name (define_from index l)
unfolding find_ordinal define_from
find_ordinal-above name index [] h = cc h
find_ordinal-above name index (x ∷ l) h = elim (Bool-cases (str_eq (namespace_text x) name)) [
  | inl e ↦ rw e (omega arith)
  | inr e ↦
      let rest = find_ordinal-above name (suc index) l (rw e at h) in rw e (omega (arith, rest))
]

-- Whatever is declared, and in whatever order, two names of one position are the same.
find_ordinal-injective :
    (a b : String) (index : ℕ) (l : List LockNamespace)
    → declares a l ≡ true
    → declares b l ≡ true
    → find_ordinal a (define_from index l) ≡ find_ordinal b (define_from index l)
    → a ≡ b
unfolding find_ordinal define_from
find_ordinal-injective a b index [] h k q = cc h
find_ordinal-injective a b index (x ∷ l) h k q = elim (Bool-cases (str_eq (namespace_text x) a)) [
  | inl e ↦ elim (Bool-cases (str_eq (namespace_text x) b)) [
    | inl f ↦ sym ((eq_iff (namespace_text x) a).0 e) ∙ (eq_iff (namespace_text x) b).0 f
    | inr f ↦
        let above = find_ordinal-above b (suc index) l (rw f at k) in
        let same : suc index ≡ find_ordinal b (define_from (suc index) l) = rw (e, f) at q in
        absurd (omega (arith, above, same))
  ]
  | inr e ↦ elim (Bool-cases (str_eq (namespace_text x) b)) [
    | inl f ↦
        let above = find_ordinal-above a (suc index) l (rw e at h) in
        let same : find_ordinal a (define_from (suc index) l) ≡ suc index = rw (e, f) at q in
        absurd (omega (arith, above, same))
    | inr f ↦ find_ordinal-injective a b (suc index) l (rw e at h) (rw f at k) (rw (e, f) at q)
  ]
]

declared : (n : LockNamespace) → declares (namespace_text n) entities ≡ true
unfolding namespace_text
declared point_balance = refl
declared order_payment = refl
declared financial_holder = refl
declared commission_slot = refl
declared commission_checkout_command = refl
declared commission_contract = refl
declared income_withdrawal_command = refl
declared commission_settlement_command = refl
declared point_charge_payment = refl
declared point_charge_command = refl

-- The entry of a name, in the order of declaration.
named : String → List LockNamespace → LockNamespace
named name [] = point_balance
named name (x ∷ l) = let rest = named name l in if str_eq (namespace_text x) name then x else rest

named_text : (n : LockNamespace) → named (namespace_text n) entities ≡ n
unfolding namespace_text named
named_text point_balance = refl
named_text order_payment = refl
named_text financial_holder = refl
named_text commission_slot = refl
named_text commission_checkout_command = refl
named_text commission_contract = refl
named_text income_withdrawal_command = refl
named_text commission_settlement_command = refl
named_text point_charge_payment = refl
named_text point_charge_command = refl

-- The identifier that an entry was asked with, if it is one.
abbrev pub id_of : (p : Parameter) → ValueOf p → Option ℕ
id_of number id = some id
id_of text value = none

same_id : (p : Parameter) (i j : ValueOf p) → to_obj_id p i ≡ to_obj_id p j → id_of p i ≡ id_of p j
unfolding to_obj_id
same_id number i j h = let q : i ≡ j = cc h in ap some q
same_id text i j h = refl

-- Two keys of the registry are one lock only when they are of the same entry, and then, where it is
-- asked with identifiers, of the same identifier.
pub lock_key-separates :
    (n m : LockNamespace) (i : ValueOf (parameter_of n)) (j : ValueOf (parameter_of m))
    → lock_key n i ≡ lock_key m j
    → (n ≡ m) × (id_of (parameter_of n) i ≡ id_of (parameter_of m) j)
unfolding lock_key ordinal define_locks
lock_key-separates n m i j h =
    let q =
      find_ordinal-injective (namespace_text n) (namespace_text m) 0 entities (declared n)
        (declared m) (ap (λ k. k.ns) h) in
    let same : n ≡ m = sym (named_text n) ∙ ap (λ x. named x entities) q ∙ named_text m in
    (same, by_entry m j same i (ap (λ k. k.obj) h))
  where
    by_entry :
        (m : LockNamespace) (j : ValueOf (parameter_of m)) {n : LockNamespace}
        → n ≡ m
        → (i : ValueOf (parameter_of n))
        → to_obj_id (parameter_of n) i ≡ to_obj_id (parameter_of m) j
        → id_of (parameter_of n) i ≡ id_of (parameter_of m) j
    by_entry m j same =
        subst
          (λ x.
            (i : ValueOf (parameter_of x))
            → to_obj_id (parameter_of x) i ≡ to_obj_id (parameter_of m) j
            → id_of (parameter_of x) i ≡ id_of (parameter_of m) j)
          (sym same) (λ i. same_id (parameter_of m) i j)
