-- ===== src/Remote/Quote.antt =====
-- Command lines for a remote shell (src/lib/quote.ts).
pub mod Reading
use Prim.Native.Char.{Char, code}
use remote_ops_mcp.Prelude.{
  ℕ, String, Bool, false, append, ◌&&◌, ◌||◌, List, [], ◌∷◌, if◌then◌else◌, eqb, leb, text_length,
  all_codes, is_alphanumeric,
}
use remote_ops_mcp.Errors.{Result, ok, err, invalid_argument}

-- s.replace(/'/g, "'\\''")
unfoldable pub replace_quotes : String → String
unfolding append
replace_quotes String.[] = String.[]
replace_quotes (String.◌∷◌ c s) =
    let rest = replace_quotes s in
    if eqb (code c) b'\'' then append "'\\''" rest else String.◌∷◌ c rest

unfoldable pub shq : String → String
unfolding replace_quotes append
shq s = append "'" (append (replace_quotes s) "'")

-- parts.join(" ")
unfoldable pub join_spaces : List String → String
unfolding append
join_spaces [] = ""
join_spaces (s ∷ []) = s
join_spaces (s ∷ t ∷ ss) = append s (append " " (join_spaces (t ∷ ss)))

-- argv.map(shq)
unfoldable pub shq_all : List String → List String
unfolding shq
shq_all [] = []
shq_all (s ∷ ss) = shq s ∷ shq_all ss

unfoldable pub build_remote_command : List String → String
unfolding shq_all join_spaces
build_remote_command argv = join_spaces (shq_all argv)

-- [A-Za-z0-9_.@+-]
abbrev pub is_identifier_char : ℕ → Bool
is_identifier_char n =
    is_alphanumeric n || (eqb n b'_' || (eqb n b'.' || (eqb n b'@' || (eqb n b'+' || eqb n b'-'))))

abbrev pub is_identifier : String → Bool
is_identifier String.[] = false
is_identifier (String.◌∷◌ c s) =
    is_alphanumeric (code c) && (all_codes is_identifier_char s && leb (text_length s) 99)

-- The label is part of the message only.
unfoldable pub assert_identifier : String → Result String
unfolding all_codes text_length
assert_identifier value = if is_identifier value then ok value else err invalid_argument
