-- ===== src/Prelude/Texts.antt =====
-- Texts as JavaScript strings: trimming, prefixes, and the length in UTF-16 code units.
use Prim.Native.Nat.{ℕ, ◌+◌}
use Prim.Native.Char.{Char, code}
use Prim.Native.String.{String, ◌++◌}
use mathlib.Core.Bool.{Bool, true, false, ◌&&◌, ◌||◌}
use mathlib.Core.List.{List, [], ◌∷◌}
use remote_ops_mcp.Prelude.Tests.{ltb, leb, eqb, if◌then◌else◌}

-- s.length: a code point above 0xFFFF counts as two units.
unfoldable pub text_length : String → ℕ
text_length String.[] = 0
text_length (String.◌∷◌ c s) = (if ltb 0xFFFF (code c) then 2 else 1) + text_length s

-- The white space and line terminators that `trim` and `\s` take.
unfoldable pub is_space : Char → Bool
is_space c =
    let n = code c in
    (leb 9 n && leb n 13)
    || eqb n 32
    || eqb n 160
    || eqb n 0x1680
    || (leb 0x2000 n && leb n 0x200A)
    || eqb n 0x2028
    || eqb n 0x2029
    || eqb n 0x202F
    || eqb n 0x205F
    || eqb n 0x3000
    || eqb n 0xFEFF

unfoldable pub trim_start : String → String
unfolding is_space
trim_start String.[] = String.[]
trim_start (String.◌∷◌ c s) = let rest = trim_start s in if is_space c then rest else String.◌∷◌ c s

-- Puts `c` before a text that has been trimmed at its end.
unfoldable pub add_trimmed : Char → String → String
unfolding is_space
add_trimmed c String.[] = if is_space c then String.[] else String.◌∷◌ c String.[]
add_trimmed c (String.◌∷◌ d s) = String.◌∷◌ c (String.◌∷◌ d s)

unfoldable pub trim_end : String → String
unfolding add_trimmed
trim_end String.[] = String.[]
trim_end (String.◌∷◌ c s) = add_trimmed c (trim_end s)

-- s.trim()
unfoldable pub trim : String → String
unfolding trim_start trim_end
trim s = trim_end (trim_start s)

-- s.replace(/\s+/g, "")
unfoldable pub remove_spaces : String → String
unfolding is_space
remove_spaces String.[] = String.[]
remove_spaces (String.◌∷◌ c s) =
    let rest = remove_spaces s in if is_space c then rest else String.◌∷◌ c rest

-- a + b
abbrev pub concat : String → String → String
concat a b = a ++ b

-- a + b, by clauses, for proofs that take the text apart
unfoldable pub append : String → String → String
append String.[] t = t
append (String.◌∷◌ c s) t = String.◌∷◌ c (append s t)

-- Does every character have a code that passes `p`?
unfoldable pub all_codes : (ℕ → Bool) → String → Bool
all_codes p String.[] = true
all_codes p (String.◌∷◌ c s) = p (code c) && all_codes p s

-- Does some character have a code that passes `p`?
unfoldable pub any_code : (ℕ → Bool) → String → Bool
any_code p String.[] = false
any_code p (String.◌∷◌ c s) = p (code c) || any_code p s

-- [A-Za-z0-9]
abbrev pub is_alphanumeric : ℕ → Bool
is_alphanumeric n = (leb 48 n && leb n 57) || ((leb 65 n && leb n 90) || (leb 97 n && leb n 122))

-- [a-z0-9]
abbrev pub is_lower_or_digit : ℕ → Bool
is_lower_or_digit n = (leb 48 n && leb n 57) || (leb 97 n && leb n 122)

-- /[\0\r\n]/
abbrev pub is_break : ℕ → Bool
is_break n = eqb n 0 || (eqb n 13 || eqb n 10)

-- Puts `c` before the first part of a split text.
unfoldable pub add_to_first : Char → List String → List String
add_to_first c [] = String.◌∷◌ c String.[] ∷ []
add_to_first c (p ∷ ps) = String.◌∷◌ c p ∷ ps

-- s.split(sep), for a separator of one character
unfoldable pub split_on : ℕ → String → List String
unfolding add_to_first
split_on sep String.[] = String.[] ∷ []
split_on sep (String.◌∷◌ c s) =
    let parts = split_on sep s in
    if eqb (code c) sep then String.[] ∷ parts else add_to_first c parts

-- Puts `c` before a text that has lost its last slashes.
unfoldable pub add_before_slashes : Char → String → String
add_before_slashes c String.[] = if eqb (code c) b'/' then String.[] else String.◌∷◌ c String.[]
add_before_slashes c (String.◌∷◌ d s) = String.◌∷◌ c (String.◌∷◌ d s)

-- s.replace(/\/+$/, "")
unfoldable pub strip_slashes : String → String
unfolding add_before_slashes
strip_slashes String.[] = String.[]
strip_slashes (String.◌∷◌ c s) = add_before_slashes c (strip_slashes s)
