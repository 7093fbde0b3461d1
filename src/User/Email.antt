-- ===== src/User/Email.antt =====
-- src/modules/user/user.value.ts: an email, from a raw text.
pub mod Parts
pub mod Parsed
use Prim.Native.Char.{Char, code}
use Prim.Native.String.{[], ◌∷◌}
use ts_graphql_reference.Base.{
  ℕ, Bool, true, false, ◌&&◌, ◌||◌, not, String, ◌==◌, leb, if◌then◌else◌,
}
use ts_graphql_reference.Failure.{Result, ok, err, invalid_email}

-- The white space of the language, which `\s` and `trim` agree on.
abbrev pub is_space_code : ℕ → Bool
is_space_code n =
    (leb 9 n && leb n 13)
    || n == 32
    || n == 160
    || n == 5760
    || (leb 8192 n && leb n 8202)
    || n == 8232
    || n == 8233
    || n == 8239
    || n == 8287
    || n == 12288
    || n == 65279

unfoldable pub is_space : Char → Bool
is_space c = is_space_code (code c)

abbrev pub at : Char
at = "@"

abbrev pub dot : Char
dot = "."

-- `[^\s@]`
unfoldable pub is_plain : Char → Bool
unfolding is_space
is_plain c = not (is_space c) && not (code c == code at)

unfoldable pub all_plain : String → Bool
unfolding is_plain
all_plain [] = true
all_plain (c ∷ s) = let rest = all_plain s in is_plain c && rest

-- `[^\s@]+$`
unfoldable pub matches_end : String → Bool
unfolding all_plain
matches_end [] = false
matches_end (c ∷ s) = is_plain c && all_plain s

-- `[^\s@]*`, the character, and then what the rest of the pattern matches.
unfoldable pub matches_then : Char → (String → Bool) → String → Bool
unfolding is_plain
matches_then x tail [] = false
matches_then x tail (c ∷ s) =
    let rest = matches_then x tail s in (code c == code x && tail s) || (is_plain c && rest)

-- The same from `[^\s@]+`.
unfoldable pub matches_some_then : Char → (String → Bool) → String → Bool
unfolding matches_then
matches_some_then x tail [] = false
matches_some_then x tail (c ∷ s) = is_plain c && matches_then x tail s

-- `[^\s@]+\.[^\s@]+$`
unfoldable pub matches_domain : String → Bool
unfolding matches_some_then matches_end
matches_domain s = matches_some_then dot matches_end s

-- `EMAIL_RE.test(value)`
unfoldable pub is_email : String → Bool
unfolding matches_domain
is_email s = matches_some_then at matches_domain s

unfoldable pub trim_start : String → String
unfolding is_space
trim_start [] = []
trim_start (c ∷ s) = let rest = trim_start s in if is_space c then rest else c ∷ s

-- A character in front of a text that has been trimmed.
unfoldable pub keep_end : Char → String → String
unfolding is_space
keep_end c [] = if is_space c then [] else c ∷ []
keep_end c (d ∷ s) = c ∷ d ∷ s

unfoldable pub trim_end : String → String
unfolding keep_end
trim_end [] = []
trim_end (c ∷ s) = keep_end c (trim_end s)

unfoldable pub trim : String → String
unfolding trim_start trim_end
trim s = trim_end (trim_start s)

-- `toLowerCase` is the argument `lower`.
unfoldable pub parse_email : (String → String) → String → Result String
unfolding trim is_email
parse_email lower value =
    let normalized = lower (trim value) in
    if is_email normalized then ok normalized else err (invalid_email value)
