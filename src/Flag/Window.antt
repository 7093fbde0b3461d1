-- ===== src/Flag/Window.antt =====
-- What the window of a flag means, and what an accepted upsert promises of it.
use ts_graphql_reference.Base.{
  ◌≡◌, refl, sym, ◌∙◌, subst, true, false, ◌&&◌, not, Option, none, some, String, &&-true,
  not-false, is_some, arith, ◌↔◌, ap, List, [], ◌∷◌, str_eq, eq_iff, Bool-cases, Option-cases, inl,
  inr,
}
use ts_graphql_reference.Int.{ℤ, ◌≤ℤ◌, leb_ℤ→le, le→leb_ℤ, ltb_ℤ→ge}
use ts_graphql_reference.Failure.{ok, throw_if-ok, invalid_flag_window, unknown_flag_stage}
use ts_graphql_reference.Flag.{
  Stage, local, dev, qa, stg, prod, parse_stage, stage_text, stages, find_stage, same_stage,
  is_stage_of, FlagRow, enabled, not_disabled, is_active, FlagUpsert, ends_early, assert_stage,
  plan_flag_upsert,
}

-- The four conditions of an active flag.
record Holds (row : FlagRow) (stage : Stage) (now : ℤ) : Type 0 where
  live : not (is_some row.deleted_at) ≡ true
  here : is_stage_of (parse_stage row.stage) stage ≡ true
  begun : enabled row.enable_after now ≡ true
  lasting : not_disabled row.disable_after now ≡ true

is_active-Holds :
    (row : FlagRow) (stage : Stage) (now : ℤ) → is_active row stage now ≡ true → Holds row stage now
unfolding is_active
is_active-Holds row stage now h =
    let a = not (is_some row.deleted_at) in
    let b = is_stage_of (parse_stage row.stage) stage in
    let c = enabled row.enable_after now in
    let (abc, d) = &&-true (a && b && c) (not_disabled row.disable_after now) h in
    let (ab, c') = &&-true (a && b) c abc in
    let (a', b') = &&-true a b ab in record { live = a'; here = b'; begun = c'; lasting = d }

Holds-is_active :
    (row : FlagRow) (stage : Stage) (now : ℤ) → Holds row stage now → is_active row stage now ≡ true
unfolding is_active
Holds-is_active row stage now h = rw (h.live, h.here, h.begun) h.lasting

same_stage-eq : (a b : Stage) → same_stage a b ≡ true → a ≡ b
same_stage-eq local local h = refl
same_stage-eq dev dev h = refl
same_stage-eq qa qa h = refl
same_stage-eq stg stg h = refl
same_stage-eq prod prod h = refl
same_stage-eq local dev h = cc h
same_stage-eq local qa h = cc h
same_stage-eq local stg h = cc h
same_stage-eq local prod h = cc h
same_stage-eq dev local h = cc h
same_stage-eq dev qa h = cc h
same_stage-eq dev stg h = cc h
same_stage-eq dev prod h = cc h
same_stage-eq qa local h = cc h
same_stage-eq qa dev h = cc h
same_stage-eq qa stg h = cc h
same_stage-eq qa prod h = cc h
same_stage-eq stg local h = cc h
same_stage-eq stg dev h = cc h
same_stage-eq stg qa h = cc h
same_stage-eq stg prod h = cc h
same_stage-eq prod local h = cc h
same_stage-eq prod dev h = cc h
same_stage-eq prod qa h = cc h
same_stage-eq prod stg h = cc h

same_stage_refl : (a : Stage) → same_stage a a ≡ true
same_stage_refl local = refl
same_stage_refl dev = refl
same_stage_refl qa = refl
same_stage_refl stg = refl
same_stage_refl prod = refl

-- What it means that a flag is on: no one has deleted it, the text of its stage is that of the
-- server's, it has a time of enabling that has come, and its time of disabling, if any, has not passed.
pub record IsOn (row : FlagRow) (stage : Stage) (now : ℤ) : Type 0 where
  pub live : row.deleted_at ≡ none
  pub here : row.stage ≡ some (stage_text stage)
  pub begins : ℤ
  pub has_begin : row.enable_after ≡ some begins
  pub begun : begins ≤ℤ now
  pub lasting : (ends : ℤ) → row.disable_after ≡ some ends → now ≤ℤ ends

not_deleted : (o : Option ℤ) → not (is_some o) ≡ true → o ≡ none
not_deleted none h = refl
not_deleted (some t) h = cc h

find_stage-text :
    (l : List Stage) (value : String) {s : Stage}
    → find_stage l value ≡ some s
    → value ≡ stage_text s
unfolding find_stage
find_stage-text [] value h = cc h
find_stage-text (x ∷ l) value {s} h = elim (Bool-cases (str_eq (stage_text x) value)) [
  | inl e ↦
      let g : some x ≡ some s = rw e at h in
      let q : x ≡ s = cc g in
      subst (λ y. value ≡ stage_text y) q (sym ((eq_iff (stage_text x) value).0 e))
  | inr e ↦ find_stage-text l value (rw e at h)
]

text-find_stage : (s : Stage) → find_stage stages (stage_text s) ≡ some s
unfolding find_stage stage_text
text-find_stage local = refl
text-find_stage dev = refl
text-find_stage qa = refl
text-find_stage stg = refl
text-find_stage prod = refl

here-text :
    (o : Option String) (s : Stage) → is_stage_of (parse_stage o) s ≡ true → o ≡ some (stage_text s)
unfolding parse_stage
here-text none s h = cc h
here-text (some value) s h = elim (Option-cases (find_stage stages value)) [
  | inl e ↦ cc (rw (parse_stage, e) at h)
  | inr (x, e) ↦
      let same : x ≡ s = same_stage-eq x s (rw (parse_stage, e) at h) in
      ap some (find_stage-text stages value e ∙ ap stage_text same)
]

text-here :
    (o : Option String) (s : Stage) → o ≡ some (stage_text s) → is_stage_of (parse_stage o) s ≡ true
unfolding parse_stage
text-here o s h =
    subst (λ x. is_stage_of (parse_stage x) s ≡ true) (sym h)
      (ap (λ x. is_stage_of x s) (text-find_stage s) ∙ same_stage_refl s)

has_begun : (o : Option ℤ) (now : ℤ) → enabled o now ≡ true → (t : ℤ) × (o ≡ some t) × (t ≤ℤ now)
has_begun none now h = cc h
has_begun (some t) now h = (t, refl, leb_ℤ→le t now h)

not_ended : (o : Option ℤ) (now : ℤ) → not_disabled o now ≡ true → (t : ℤ) → o ≡ some t → now ≤ℤ t
not_ended none now h t e = cc e
not_ended (some x) now h t e = let q : x ≡ t = cc e in subst (λ y. now ≤ℤ y) q (leb_ℤ→le now x h)

lasts : (o : Option ℤ) (now : ℤ) → ((t : ℤ) → o ≡ some t → now ≤ℤ t) → not_disabled o now ≡ true
lasts none now f = refl
lasts (some t) now f = le→leb_ℤ now t (f t refl)

-- A flag is on at a stage and an instant exactly when no one has deleted it, the text of its stage is
-- that stage's, it has a time of enabling that is not after the instant, and a time of disabling, if it
-- has one, that is not before it.
pub is_active_iff :
    (row : FlagRow) (stage : Stage) (now : ℤ)
    → (is_active row stage now ≡ true) ↔ IsOn row stage now
is_active_iff row stage now = (
  λ h.
      let x = is_active-Holds row stage now h in
      let (t, e, le) = has_begun row.enable_after now x.begun in
      record {
        live = not_deleted row.deleted_at x.live;
        here = here-text row.stage stage x.here;
        begins = t;
        has_begin = e;
        begun = le;
        lasting = not_ended row.disable_after now x.lasting;
      },
  λ p. Holds-is_active row stage now (record {
    live = ap (λ o. not (is_some o)) p.live;
    here = text-here row.stage stage p.here;
    begun = ap (λ o. enabled o now) p.has_begin ∙ le→leb_ℤ p.begins now p.begun;
    lasting = lasts row.disable_after now p.lasting;
  }),
)

-- The row that an upsert of `input` leaves live.
abbrev pub row_of : FlagUpsert → FlagRow
row_of input = record {
  stage = input.stage;
  enable_after = input.enable_after;
  disable_after = input.disable_after;
  deleted_at = none;
}

abbrev pub at_stage : FlagUpsert → String → ℤ → FlagUpsert
at_stage input value t = record input { stage = some value; enable_after = some t }

lasting_at_start : (t : ℤ) (o : Option ℤ) → ends_early (some t) o ≡ false → not_disabled o t ≡ true
lasting_at_start t none h = refl
lasting_at_start t (some d) h = le→leb_ℤ t d (ltb_ℤ→ge d t h)

stage_found : (o : Option Stage) → is_some o ≡ true → (s : Stage) × (is_stage_of o s ≡ true)
stage_found none h = cc h
stage_found (some s) h = (s, same_stage_refl s)

-- An accepted upsert with a stage and an enable time is a window that opens: some stage has it on
-- at the enable time.
pub plan_flag_upsert-opens :
    (input : FlagUpsert) (value : String) (t : ℤ) {r : FlagUpsert}
    → plan_flag_upsert (at_stage input value t) ≡ ok r
    → (s : Stage) × (is_active (row_of r) s t ≡ true)
unfolding plan_flag_upsert assert_stage
plan_flag_upsert-opens input value t {r} h =
    let (a, h₁) =
      throw_if-ok (not (is_some (parse_stage (some value)))) (unknown_flag_stage value) _ h in
    let (b, h₂) = throw_if-ok (ends_early (some t) input.disable_after) invalid_flag_window _ h₁ in
    let q : at_stage input value t ≡ r = cc h₂ in
    let (s, here) =
      stage_found (parse_stage (some value)) (not-false (is_some (parse_stage (some value))) a) in
    (
      s,
      subst (λ x. is_active (row_of x) s t ≡ true) q
          (Holds-is_active (row_of (at_stage input value t)) s t (record {
            live = refl;
            here = here;
            begun = le→leb_ℤ t t (omega arith);
            lasting = lasting_at_start t input.disable_after b;
          })),
    )
