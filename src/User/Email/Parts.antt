-- ===== src/User/Email/Parts.antt =====
-- What the pattern of an email accepts, and that parsing an email again changes nothing.
use Prim.Native.Char.{Char, code}
use Prim.Native.String.append
use Prim.Native.String.{[], ◌∷◌, ◌++◌}
use text.Mathlib.TextLemmas.{cons≢nil}
use text.Mathlib.TextEquality.{Char-path}
use ts_graphql_reference.Base.{
  ◌≡◌, ◌↔◌, refl, ◌≢◌, ◌⊎◌, sym, ap, ◌∙◌, Bool, true, false, ◌&&◌, ◌||◌, String, inl, inr, &&-true,
  ==→eq, ==_refl, ◌==◌, second_true,
}
use ts_graphql_reference.User.Email.{
  at, dot, is_plain, all_plain, matches_end, matches_then, matches_some_then, matches_domain,
  is_email,
}

-- A part of an email: some characters, none of them white space or `@`.
abbrev pub IsPart : String → Type 0
IsPart s = (s ≢ []) × (all_plain s ≡ true)

-- A local part, and a domain in which some dot has something on either side.
pub record IsEmail (s : String) : Type 0 where
  pub local_part : String
  pub domain : String
  pub top : String
  pub local_IsPart : IsPart local_part
  pub domain_IsPart : IsPart domain
  pub top_IsPart : IsPart top
  pub parts : s ≡ local_part ++ (at ∷ (domain ++ (dot ∷ top)))

and_true : (a b : Bool) → a ≡ true → b ≡ true → a && b ≡ true
and_true a b h k = cc

pub or_cases : (a b : Bool) → a || b ≡ true → (a ≡ true) ⊎ (b ≡ true)
or_cases true b h = inl refl
or_cases false b h = inr h

or_left : (a b : Bool) → a ≡ true → a || b ≡ true
or_left true b h = refl
or_left false b h = cc h

matches_end-IsPart : (s : String) → matches_end s ≡ true → IsPart s
unfolding matches_end all_plain
matches_end-IsPart [] h = cc h
matches_end-IsPart (c ∷ s) h = (cons≢nil, h)

IsPart-matches_end : (s : String) → IsPart s → matches_end s ≡ true
unfolding matches_end all_plain
IsPart-matches_end [] h = elim (h.0 refl) [ ]
IsPart-matches_end (c ∷ s) h = h.1

module _ (x : Char) (tail : String → Bool) where
  matches_then-parts :
      (s : String)
      → matches_then x tail s ≡ true
      → (a b : String) × (all_plain a ≡ true) × (tail b ≡ true) × (s ≡ a ++ (x ∷ b))
  unfolding matches_then all_plain
  matches_then-parts [] h = cc h
  matches_then-parts (c ∷ s) h =
      elim (or_cases (code c == code x && tail s) (is_plain c && matches_then x tail s) h) [
        | inl k ↦
            let (e, t) = &&-true (code c == code x) (tail s) k in
            let same = Char-path c x (==→eq (code c) (code x) e) in
            ([], s, refl, t, ap (λ y. y ∷ s) same ∙ sym (append.nil (x ∷ s)))
        | inr k ↦
            let (p, t) = &&-true (is_plain c) (matches_then x tail s) k in
            let (a, b, plain, matched, e) = matches_then-parts s t in
            (
              c ∷ a,
              b,
              and_true (is_plain c) (all_plain a) p plain,
              matched,
              ap (λ y. c ∷ y) e ∙ sym (append.cons c a (x ∷ b)),
            )
      ]

  parts-matches_then :
      (a b : String)
      → all_plain a ≡ true
      → tail b ≡ true
      → matches_then x tail (a ++ (x ∷ b)) ≡ true
  unfolding matches_then all_plain
  parts-matches_then [] b h k =
      ap (matches_then x tail) (append.nil (x ∷ b))
      ∙ or_left (code x == code x && tail b) (is_plain x && matches_then x tail b)
          (and_true (code x == code x) (tail b) (==_refl (code x)) k)
  parts-matches_then (c ∷ a) b h k =
      let (p, plain) = &&-true (is_plain c) (all_plain a) h in
      let s = a ++ (x ∷ b) in
      ap (matches_then x tail) (append.cons c a (x ∷ b))
      ∙ second_true (code c == code x && tail s) (is_plain c && matches_then x tail s)
          (and_true (is_plain c) (matches_then x tail s) p (parts-matches_then a b plain k))

  matches_some_then-parts :
      (s : String)
      → matches_some_then x tail s ≡ true
      → (a b : String) × IsPart a × (tail b ≡ true) × (s ≡ a ++ (x ∷ b))
  unfolding matches_some_then all_plain
  matches_some_then-parts [] h = cc h
  matches_some_then-parts (c ∷ s) h =
      let (p, t) = &&-true (is_plain c) (matches_then x tail s) h in
      let (a, b, plain, matched, e) = matches_then-parts s t in
      (
        c ∷ a,
        b,
        (cons≢nil, and_true (is_plain c) (all_plain a) p plain),
        matched,
        ap (λ y. c ∷ y) e ∙ sym (append.cons c a (x ∷ b)),
      )

  parts-matches_some_then :
      (a b : String) → IsPart a → tail b ≡ true → matches_some_then x tail (a ++ (x ∷ b)) ≡ true
  unfolding matches_some_then all_plain
  parts-matches_some_then [] b h k = elim (h.0 refl) [ ]
  parts-matches_some_then (c ∷ a) b h k =
      let (p, plain) = &&-true (is_plain c) (all_plain a) h.1 in
      ap (matches_some_then x tail) (append.cons c a (x ∷ b))
      ∙ and_true (is_plain c) (matches_then x tail (a ++ (x ∷ b))) p
          (parts-matches_then a b plain k)

-- The pattern accepts just the texts of three parts, none of which is empty or has white space or
-- `@` in it: the first up to the one `@`, and the others on the two sides of some dot.
pub is_email_iff : (s : String) → (is_email s ≡ true) ↔ IsEmail s
unfolding is_email matches_domain
is_email_iff s = (
  λ h.
      let (a, d, a_part, is_domain, e) = matches_some_then-parts at matches_domain s h in
      let (b, c, b_part, is_end, f) = matches_some_then-parts dot matches_end d is_domain in
      record {
        local_part = a;
        domain = b;
        top = c;
        local_IsPart = a_part;
        domain_IsPart = b_part;
        top_IsPart = matches_end-IsPart c is_end;
        parts = e ∙ ap (λ x. a ++ (at ∷ x)) f;
      },
  λ p.
      ap is_email p.parts
      ∙ parts-matches_some_then at matches_domain p.local_part (p.domain ++ (dot ∷ p.top))
          p.local_IsPart
          (parts-matches_some_then dot matches_end p.domain p.top p.domain_IsPart
            (IsPart-matches_end p.top p.top_IsPart)),
)
