-- ===== src/Remote/Quote/Reading.antt =====
-- A POSIX shell reads the command line of `buildRemoteCommand` as the arguments it was built from.
use Prim.Native.Char.{Char, code}
use text.Mathlib.TextEquality.{Char-path}
use remote_ops_mcp.Prelude.{
  append, ℕ, String, ◌≡◌, refl, sym, ap, ◌∙◌, Bool, true, Option, none, some, List, [], ◌∷◌,
  if◌then◌else◌, eqb, arith, Bool-cases, inl, inr,
}
use remote_ops_mcp.Remote.Quote.{replace_quotes, shq_all, shq, join_spaces, build_remote_command}

-- Where the shell is: between words, in a word outside quotes, inside single quotes, after a backslash.
pub data Mode : Type 0 where
  between bare quoted escaped : Mode

-- Puts `c` before the first word; the first word of a text that is inside a word is its rest.
unfoldable add_char : Char → Option (List String) → Option (List String)
add_char c (some (w ∷ ws)) = some (String.◌∷◌ c w ∷ ws)
add_char c _ = none

-- A word that ends here.
unfoldable end_word : Option (List String) → Option (List String)
end_word (some ws) = some ("" ∷ ws)
end_word none = none

-- The words of a command line by the quoting rules of POSIX. `none` when a quote is open at the end,
-- or when a character stands outside quotes that is no quote, blank or escaped character: the
-- shell could expand it or run something else.
unfoldable pub words : Mode → String → Option (List String)
unfolding add_char end_word
words between String.[] = some []
words bare String.[] = some ("" ∷ [])
words quoted String.[] = none
words escaped String.[] = none
words between (String.◌∷◌ c s) =
    let next = words between s in
    let inside = words quoted s in
    let after = words escaped s in
    if eqb (code c) b' '
    then next
    else if eqb (code c) b'\''
    then inside
    else if eqb (code c) b'\\'
    then after
    else none
words bare (String.◌∷◌ c s) =
    let next = words between s in
    let inside = words quoted s in
    let after = words escaped s in
    if eqb (code c) b' '
    then end_word next
    else if eqb (code c) b'\''
    then inside
    else if eqb (code c) b'\\'
    then after
    else none
words quoted (String.◌∷◌ c s) =
    let out = words bare s in
    let rest = words quoted s in if eqb (code c) b'\'' then out else add_char c rest
words escaped (String.◌∷◌ c s) = add_char c (words bare s)

-- Puts a text before the first word.
unfoldable add_text : String → Option (List String) → Option (List String)
unfolding add_char
add_text String.[] o = o
add_text (String.◌∷◌ c s) o = add_char c (add_text s o)

abbrev is_quote : Char → Bool
is_quote c = eqb (code c) b'\''

eqb_eq : (a b : ℕ) → eqb a b ≡ true → a ≡ b
eqb_eq a b e = ground (arith, e)

-- A quoted text is read as itself.
words-replace_quotes :
    (s t : String)
    → words quoted (append (replace_quotes s) (append "'" t)) ≡ add_text s (words bare t)
unfolding words replace_quotes add_text append
words-replace_quotes String.[] t = refl
words-replace_quotes (String.◌∷◌ c s) t = elim (Bool-cases (is_quote c)) [
  | inl quote ↦ rw (quote, Char-path c "'" (eqb_eq (code c) b'\'' quote), words-replace_quotes s t)
  | inr other ↦ rw (other, other, words-replace_quotes s t)
]

add_text-end_word : (s : String) (ws : List String) → add_text s (some ("" ∷ ws)) ≡ some (s ∷ ws)
unfolding add_text add_char
add_text-end_word String.[] ws = refl
add_text-end_word (String.◌∷◌ c s) ws = rw (add_text-end_word s ws)

append_assoc : (a b c : String) → append (append a b) c ≡ append a (append b c)
unfolding append
append_assoc String.[] b c = refl
append_assoc (String.◌∷◌ x a) b c = ap (String.◌∷◌ x) (append_assoc a b c)

-- A quoted argument is read as itself, and as no more.
words-shq : (s t : String) → words between (append (shq s) t) ≡ add_text s (words bare t)
unfolding words shq append
words-shq s t = ap (words quoted) (append_assoc (replace_quotes s) "'" t) ∙ words-replace_quotes s t

append-nil : (a : String) → append a "" ≡ a
unfolding append
append-nil String.[] = refl
append-nil (String.◌∷◌ x a) = ap (String.◌∷◌ x) (append-nil a)

-- A blank ends a word.
words-blank : (t : String) → words bare (append " " t) ≡ end_word (words between t)
unfolding words append
words-blank t = refl

-- For all arguments, whatever their characters, the command line of `buildRemoteCommand` is read by
-- a POSIX shell as these arguments, each as one word, with no character left to be expanded.
pub shell_reads_arguments :
    (argv : List String) → words between (build_remote_command argv) ≡ some argv
unfolding build_remote_command join_spaces shq_all words end_word
shell_reads_arguments [] = refl
shell_reads_arguments (s ∷ []) =
    ap (words between) (sym (append-nil (shq s))) ∙ words-shq s "" ∙ add_text-end_word s []
shell_reads_arguments (s ∷ t ∷ ss) =
    words-shq s (append " " (join_spaces (shq_all (t ∷ ss))))
    ∙ ap (add_text s) (
        words-blank (join_spaces (shq_all (t ∷ ss))) ∙ ap end_word (shell_reads_arguments (t ∷ ss)))
    ∙ add_text-end_word s (t ∷ ss)
