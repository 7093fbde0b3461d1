-- ===== src/Flag/Reconciled.antt =====
-- What the drift report says of a name: how often each of its lists has it.
use ts_graphql_reference.Base.{
  ℕ, suc, ◌+◌, ◌≡◌, refl, sym, ap, ◌∙◌, Bool, true, false, ◌&&◌, ◌||◌, not, List, [], ◌∷◌, ◌++◌,
  String, str_eq, eq_iff, if◌then◌else◌, is_some, Bool-cases, inl, inr, arith,
}
use ts_graphql_reference.Flag.Drift.{
  FlagNameRow, includes, add_name, add_live, collect_names, filter_names, insert_name, sort_names,
  reconcile_flag_names,
}

-- How often a list has a name.
abbrev pub times : String → List String → ℕ
times name [] = 0
times name (x ∷ l) = let rest = times name l in if str_eq x name then suc rest else rest

abbrev pub bit : Bool → ℕ
bit b = if b then 1 else 0

-- Some row of the name is live; there is some row of the name.
abbrev pub has_live : String → List FlagNameRow → Bool
has_live name [] = false
has_live name (row ∷ rows) =
    (str_eq row.name name && not (is_some row.deleted_at)) || has_live name rows

abbrev pub has_row : String → List FlagNameRow → Bool
has_row name [] = false
has_row name (row ∷ rows) = str_eq row.name name || has_row name rows

times-insert_name :
    (before : String → String → Bool) (name x : String) (l : List String)
    → times name (insert_name before x l) ≡ times name (x ∷ l)
unfolding insert_name
times-insert_name before name x [] = refl
times-insert_name before name x (y ∷ l) = elim (Bool-cases (before y x)) [
  | inr b ↦ rw b refl
  | inl b ↦
      let ih = times-insert_name before name x l in
      rw b (elim (Bool-cases (str_eq y name)) [
        | inl e ↦ elim (Bool-cases (str_eq x name)) [
          | inl f ↦ rw (e, f) (ap suc (rw f at ih))
          | inr f ↦ rw (e, f) (ap suc (rw f at ih))
        ]
        | inr e ↦ rw e ih
      ])
]

times-sort_names :
    (before : String → String → Bool) (name : String) (l : List String)
    → times name (sort_names before l) ≡ times name l
unfolding sort_names
times-sort_names before name [] = refl
times-sort_names before name (x ∷ l) =
    let ih = times-sort_names before name l in
    times-insert_name before name x (sort_names before l)
    ∙ ap (λ n. if str_eq x name then suc n else n) ih

times-filter_names :
    (p : String → Bool) (name : String) (l : List String)
    → times name (filter_names p l) ≡ (if p name then times name l else 0)
unfolding filter_names
times-filter_names p name [] = elim (Bool-cases (p name)) [ inl e ↦ rw e refl | inr e ↦ rw e refl ]
times-filter_names p name (x ∷ l) = elim (Bool-cases (str_eq x name)) [
  | inl e ↦
      let same : p x ≡ p name = ap p ((eq_iff x name).0 e) in
      let ih = times-filter_names p name l in
      elim (Bool-cases (p name)) [
        | inl f ↦ rw (same, f, e) (ap suc (rw f at ih))
        | inr f ↦ rw (same, f) (rw f at ih)
      ]
  | inr e ↦
      let ih = times-filter_names p name l in
      elim (Bool-cases (p x)) [ inl f ↦ rw (e, f, e) ih | inr f ↦ rw (e, f) ih ]
]

times_app :
    (name x : String) (l : List String)
    → times name (l ++ (x ∷ [])) ≡ times name l + bit (str_eq x name)
times_app name x [] = omega arith
times_app name x (y ∷ l) =
    let ih = times_app name x l in
    elim (Bool-cases (str_eq y name)) [ inl e ↦ rw e (omega (arith, ih)) | inr e ↦ rw e ih ]

-- The list has each name that `f` accepts, once.
abbrev IsNames : (String → Bool) → List String → Type 0
IsNames f l = (name : String) → times name l ≡ bit (f name)

includes-times :
    (name : String) (l : List String) (b : Bool) → times name l ≡ bit b → includes l name ≡ b
unfolding includes
includes-times name [] true h = ground arith
includes-times name [] false h = refl
includes-times name (x ∷ l) true h = elim (Bool-cases (str_eq x name)) [
  | inl e ↦ rw e refl
  | inr e ↦ rw e (includes-times name l true (rw e at h))
]
includes-times name (x ∷ l) false h = elim (Bool-cases (str_eq x name)) [
  | inl e ↦ let absurd : suc (times name l) ≡ 0 = rw e at h in ground arith
  | inr e ↦ rw e (includes-times name l false (rw e at h))
]

add_name-IsNames :
    (f : String → Bool) (x : String) (l : List String)
    → IsNames f l
    → IsNames (λ name. str_eq x name || f name) (add_name x l)
unfolding add_name
add_name-IsNames f x l h name =
    let own = includes-times x l (f x) (h x) in
    elim (Bool-cases (str_eq x name)) [
      | inl e ↦
          let same : f x ≡ f name = ap f ((eq_iff x name).0 e) in
          elim (Bool-cases (f x)) [
            | inl g ↦ rw (own, g, e) (h name ∙ ap bit (sym same ∙ g))
            | inr g ↦
                let none_yet : times name l ≡ 0 = h name ∙ ap bit (sym same ∙ g) in
                let app = times_app name x l in rw (own, g, e) (app ∙ (rw (none_yet, e) refl))
          ]
      | inr e ↦ elim (Bool-cases (f x)) [
        | inl g ↦ rw (own, g, e) (h name)
        | inr g ↦
            let app = times_app name x l in
            let last : bit (str_eq x name) ≡ 0 = ap bit e in
            let before = h name in rw (own, g, e) (omega (arith, app, last, before))
      ]
    ]

add_live-IsNames :
    (f : String → Bool) (row : FlagNameRow) (l : List String)
    → IsNames f l
    → IsNames
        (λ name. (str_eq row.name name && not (is_some row.deleted_at)) || f name)
        (add_live row l)
unfolding add_live
add_live-IsNames f row l h name = elim (Bool-cases (is_some row.deleted_at)) [
  | inl d ↦ elim (Bool-cases (str_eq row.name name)) [
    | inl e ↦ rw (d, e) (h name)
    | inr e ↦ rw (d, e) (h name)
  ]
  | inr d ↦
      let added = add_name-IsNames f row.name l h name in
      elim (Bool-cases (str_eq row.name name)) [
        | inl e ↦ rw (d, e) (rw e at added)
        | inr e ↦ rw (d, e) (rw e at added)
      ]
]

or_later : (a b c : Bool) → (b || (a || c)) ≡ ((a || b) || c)
or_later true true c = refl
or_later true false c = refl
or_later false b c = refl

collect_names-live :
    (f : String → Bool) (rows : List FlagNameRow) (live stored : List String)
    → IsNames f live
    → IsNames (λ name. has_live name rows || f name) (collect_names rows live stored).0
unfolding collect_names
collect_names-live f [] live stored h name = h name
collect_names-live f (row ∷ rows) live stored h name =
    collect_names-live (λ n. (str_eq row.name n && not (is_some row.deleted_at)) || f n) rows
      (add_live row live) (add_name row.name stored) (add_live-IsNames f row live h) name
    ∙ ap bit (
        or_later (str_eq row.name name && not (is_some row.deleted_at)) (has_live name rows)
          (f name))

collect_names-stored :
    (f : String → Bool) (rows : List FlagNameRow) (live stored : List String)
    → IsNames f stored
    → IsNames (λ name. has_row name rows || f name) (collect_names rows live stored).1
unfolding collect_names
collect_names-stored f [] live stored h name = h name
collect_names-stored f (row ∷ rows) live stored h name =
    collect_names-stored (λ n. str_eq row.name n || f n) rows (add_live row live)
      (add_name row.name stored) (add_name-IsNames f row.name stored h) name
    ∙ ap bit (or_later (str_eq row.name name) (has_row name rows) (f name))

or_false : (a : Bool) → (a || false) ≡ a
or_false true = refl
or_false false = refl

selected : (a b : Bool) → (if a then bit b else 0) ≡ bit (b && a)
selected true true = refl
selected true false = refl
selected false true = refl
selected false false = refl

-- Whatever the order of texts, a name is listed as an orphan, once, exactly when a row of it is live and it is not declared, and as killed, once, exactly when it has rows, none of them live, and is declared.
pub reconcile_flag_names_lem :
    (before : String → String → Bool) (rows : List FlagNameRow) (declared : List String)
    (name : String)
    → (times name (reconcile_flag_names before rows declared).orphan_live
        ≡ bit (has_live name rows && not (includes declared name)))
      × (times name (reconcile_flag_names before rows declared).killed_but_declared
          ≡ bit (has_row name rows && (not (has_live name rows) && includes declared name)))
unfolding reconcile_flag_names
reconcile_flag_names_lem before rows declared name =
    let live =
      collect_names-live (λ n. false) rows [] [] (λ n. refl) name
      ∙ ap bit (or_false (has_live name rows)) in
    let stored =
      collect_names-stored (λ n. false) rows [] [] (λ n. refl) name
      ∙ ap bit (or_false (has_row name rows)) in
    let (lives, all) = collect_names rows [] [] in
    let known = includes-times name lives (has_live name rows) live in
    let orphan = λ (n : String). not (includes declared n) in
    let killed = λ (n : String). not (includes lives n) && includes declared n in
    (
      times-sort_names before name (filter_names orphan lives)
          ∙ times-filter_names orphan name lives
          ∙ ap (λ n. if orphan name then n else 0) live
          ∙ selected (orphan name) (has_live name rows),
      times-sort_names before name (filter_names killed all)
          ∙ times-filter_names killed name all
          ∙ ap (λ n. if killed name then n else 0) stored
          ∙ selected (killed name) (has_row name rows)
          ∙ ap (λ b. bit (has_row name rows && (not b && includes declared name))) known,
    )
