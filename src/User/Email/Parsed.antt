-- ===== src/User/Email/Parsed.antt =====
-- Parsing a text that is an email already.
use Prim.Native.Char.{Char, code}
use Prim.Native.String.{[], ◌∷◌}
use text.Mathlib.TextEquality.{Char-path}
use ts_graphql_reference.Base.{
  ◌≡◌, refl, sym, ap, ◌∙◌, Bool, true, false, ◌&&◌, not, not-true, String, inl, inr, Bool-cases,
  &&-true, ◌==◌, ==→eq,
}
use ts_graphql_reference.Failure.{ok}
use ts_graphql_reference.User.Email.{
  at, dot, is_space, is_plain, all_plain, matches_end, matches_then, matches_some_then,
  matches_domain, is_email, trim_start, trim_end, keep_end, trim, parse_email,
}
use ts_graphql_reference.User.Email.Parts.{or_cases}

-- No white space, anywhere.
HasNoSpace : String → Type 0
HasNoSpace [] = Unit
HasNoSpace (c ∷ s) = (is_space c ≡ false) × HasNoSpace s

plain_no_space : (c : Char) → is_plain c ≡ true → is_space c ≡ false
unfolding is_plain
plain_no_space c h =
    not-true (is_space c) (&&-true (not (is_space c)) (not (code c == code at)) h).0

all_plain-HasNoSpace : (s : String) → all_plain s ≡ true → HasNoSpace s
unfolding all_plain HasNoSpace
all_plain-HasNoSpace [] h = tt
all_plain-HasNoSpace (c ∷ s) h =
    let (p, q) = &&-true (is_plain c) (all_plain s) h in
    (plain_no_space c p, all_plain-HasNoSpace s q)

matches_end-HasNoSpace : (s : String) → matches_end s ≡ true → HasNoSpace s
unfolding matches_end HasNoSpace
matches_end-HasNoSpace [] h = tt
matches_end-HasNoSpace (c ∷ s) h =
    let (p, q) = &&-true (is_plain c) (all_plain s) h in
    (plain_no_space c p, all_plain-HasNoSpace s q)

module _ (x : Char) (tail : String → Bool) (no_space : is_space x ≡ false)
    (tail_no_space : (s : String) → tail s ≡ true → HasNoSpace s) where
  matches_then-HasNoSpace : (s : String) → matches_then x tail s ≡ true → HasNoSpace s
  unfolding matches_then HasNoSpace
  matches_then-HasNoSpace [] h = tt
  matches_then-HasNoSpace (c ∷ s) h =
      elim (or_cases (code c == code x && tail s) (is_plain c && matches_then x tail s) h) [
        | inl k ↦
            let (e, t) = &&-true (code c == code x) (tail s) k in
            let same = Char-path c x (==→eq (code c) (code x) e) in
            (ap is_space same ∙ no_space, tail_no_space s t)
        | inr k ↦
            let (p, t) = &&-true (is_plain c) (matches_then x tail s) k in
            (plain_no_space c p, matches_then-HasNoSpace s t)
      ]

  matches_some_then-HasNoSpace : (s : String) → matches_some_then x tail s ≡ true → HasNoSpace s
  unfolding matches_some_then HasNoSpace
  matches_some_then-HasNoSpace [] h = tt
  matches_some_then-HasNoSpace (c ∷ s) h =
      let (p, t) = &&-true (is_plain c) (matches_then x tail s) h in
      (plain_no_space c p, matches_then-HasNoSpace s t)

is_email-HasNoSpace : (s : String) → is_email s ≡ true → HasNoSpace s
unfolding is_email matches_domain is_space
is_email-HasNoSpace =
    matches_some_then-HasNoSpace at matches_domain refl
      (matches_some_then-HasNoSpace dot matches_end refl matches_end-HasNoSpace)

keep_end-same : (c : Char) (s : String) → is_space c ≡ false → keep_end c s ≡ c ∷ s
unfolding keep_end
keep_end-same c [] h = rw h refl
keep_end-same c (d ∷ s) h = refl

trim_end-same : (s : String) → HasNoSpace s → trim_end s ≡ s
unfolding trim_end HasNoSpace
trim_end-same [] h = refl
trim_end-same (c ∷ s) h = ap (keep_end c) (trim_end-same s h.1) ∙ keep_end-same c s h.0

trim_start-same : (s : String) → HasNoSpace s → trim_start s ≡ s
unfolding trim_start HasNoSpace
trim_start-same [] h = refl
trim_start-same (c ∷ s) h = rw h.0 refl

trim-same : (s : String) → HasNoSpace s → trim s ≡ s
unfolding trim
trim-same s h = ap trim_end (trim_start-same s h) ∙ trim_end-same s h

-- What is parsed is the text, trimmed and in lower case, and it is an email.
pub parse_email-ok :
    (lower : String → String) (value : String) {e : String}
    → parse_email lower value ≡ ok e
    → (lower (trim value) ≡ e) × (is_email e ≡ true)
unfolding parse_email
parse_email-ok lower value {e} h = elim (Bool-cases (is_email (lower (trim value)))) [
  | inl k ↦
      let g : ok (lower (trim value)) ≡ ok e = rw (k, parse_email) at h in
      let q : lower (trim value) ≡ e = cc g in (q, ap is_email (sym q) ∙ k)
  | inr k ↦ cc (rw (k, parse_email) at h)
]

-- An email that was parsed is parsed to itself, where writing a text in lower case a second time
-- changes nothing.
pub parse_email-again :
    (lower : String → String) (value : String) {e : String}
    → ((s : String) → lower (lower s) ≡ lower s)
    → parse_email lower value ≡ ok e
    → parse_email lower e ≡ ok e
unfolding parse_email
parse_email-again lower value {e} twice h =
    let (q, k) = parse_email-ok lower value h in
    let same : lower (trim e) ≡ e =
      ap lower (trim-same e (is_email-HasNoSpace e k))
      ∙ ap lower (sym q)
      ∙ twice (trim value)
      ∙ q in
    rw (same, k) refl
