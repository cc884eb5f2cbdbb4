-- ===== src/Security/Cleaning.antt =====
-- A cleaned path is in normal form: cleaning it again changes nothing.
use Prim.Native.Char.{Char, code}
use Prim.Native.String.append as native_append
use Prim.Native.String.{◌++◌}
use text.Mathlib.TextPositions.{starts_with_of_prefix}
use remote_ops_mcp.Prelude.{
  String, ◌≡◌, refl, sym, ap, ◌∙◌, Bool, true, false, not, ◌&&◌, ◌||◌, List, [], ◌∷◌, ◌==◌, arith,
  eqb, any, if◌then◌else◌, any_code, filter, All, is_break, split_on, add_to_first, append,
  starts_with, includes,
}
use remote_ops_mcp.Errors.{ok}
use remote_ops_mcp.Security.SecretPaths.{deny_secret_path}
use remote_ops_mcp.Security.Paths.{
  sanitize_segments, segments, join_segments, is_empty, normalized_path,
}

IsPlain : String → Type 0
IsPlain s = any_code (λ n. eqb n b'/' || is_break n) s ≡ false

-- The test by which `segments` keeps a part.
abbrev keeps : String → Bool
keeps s = not (s == "") && not (s == ".")

split-append :
    (s t : String) (parts : List String)
    → IsPlain s
    → split_on b'/' t ≡ "" ∷ parts
    → split_on b'/' (append s t) ≡ s ∷ parts
unfolding IsPlain any_code split_on add_to_first append
split-append String.[] t parts plain h = h
split-append (String.◌∷◌ c s) t parts plain h = ground (arith, plain, split-append s t parts, h)

split-join_segments :
    (segs : List String) → All IsPlain segs → split_on b'/' (join_segments segs) ≡ "" ∷ segs
unfolding join_segments split_on append
split-join_segments [] plain = refl
split-join_segments (s ∷ segs) plain =
    ap (λ parts. "" ∷ parts)
      (split-append s (join_segments segs) segs plain.0 (split-join_segments segs plain.1))

add_to_first-IsPlain :
    (c : Char) (parts : List String)
    → (eqb (code c) b'/' || is_break (code c)) ≡ false
    → All IsPlain parts
    → All IsPlain (add_to_first c parts)
unfolding IsPlain any_code add_to_first
add_to_first-IsPlain c [] h plain = (ground (arith, h), tt)
add_to_first-IsPlain c (p ∷ parts) h plain = (ground (arith, h, plain.0), plain.1)

if_All :
    (b : Bool) (xs ys : List String)
    → (b ≡ true → All IsPlain xs)
    → (b ≡ false → All IsPlain ys)
    → All IsPlain (if b then xs else ys)
if_All true xs ys h k = h refl
if_All false xs ys h k = k refl

split-IsPlain : (p : String) → any_code is_break p ≡ false → All IsPlain (split_on b'/' p)
unfolding IsPlain any_code split_on
split-IsPlain String.[] h = (refl, tt)
split-IsPlain (String.◌∷◌ c p) h =
    if_All (eqb (code c) b'/') ("" ∷ split_on b'/' p) (add_to_first c (split_on b'/' p))
      (λ slash. (refl, split-IsPlain p (ground (arith, h))))
      (λ e.
        add_to_first-IsPlain c (split_on b'/' p) (ground (arith, e, h))
          (split-IsPlain p (ground (arith, h))))

filter-All :
    (P : String → Type 0) (p : String → Bool) (xs : List String) → All P xs → All P (filter p xs)
unfolding filter
filter-All P p [] h = tt
filter-All P p (x ∷ xs) h = ground (arith, filter-All P p xs h.1, h.0)

filter-filter : (p : String → Bool) (xs : List String) → filter p (filter p xs) ≡ filter p xs
unfolding filter
filter-filter p [] = refl
filter-filter p (x ∷ xs) = ground (arith, filter-filter p xs)

sanitize_has_no_break : (s : String) → any_code is_break (sanitize_segments s) ≡ false
unfolding sanitize_segments any_code
sanitize_has_no_break String.[] = refl
sanitize_has_no_break (String.◌∷◌ c s) = ground (arith, sanitize_has_no_break s)

sanitize_keeps : (s : String) → any_code is_break s ≡ false → sanitize_segments s ≡ s
unfolding sanitize_segments any_code
sanitize_keeps String.[] h = refl
sanitize_keeps (String.◌∷◌ c s) h = ground (arith, h, sanitize_keeps s)

append_has_no_break :
    (s t : String)
    → IsPlain s
    → any_code is_break t ≡ false
    → any_code is_break (append s t) ≡ false
unfolding IsPlain any_code append
append_has_no_break String.[] t plain h = h
append_has_no_break (String.◌∷◌ c s) t plain h = ground (arith, plain, append_has_no_break s t, h)

join_has_no_break :
    (segs : List String) → All IsPlain segs → any_code is_break (join_segments segs) ≡ false
unfolding join_segments any_code append
join_has_no_break [] plain = refl
join_has_no_break (s ∷ segs) plain =
    append_has_no_break s (join_segments segs) plain.0 (join_has_no_break segs plain.1)

segments-IsPlain : (s : String) → All IsPlain (segments (sanitize_segments s))
unfolding segments
segments-IsPlain s =
    filter-All IsPlain keeps (split_on b'/' (sanitize_segments s))
      (split-IsPlain (sanitize_segments s) (sanitize_has_no_break s))

-- The segments of a joined path are those it was joined from.
segments-join_segments :
    (s : String)
    → segments (join_segments (segments (sanitize_segments s))) ≡ segments (sanitize_segments s)
unfolding segments filter
segments-join_segments s =
    ap (filter keeps) (split-join_segments (segments (sanitize_segments s)) (segments-IsPlain s))
    ∙ filter-filter keeps (split_on b'/' (sanitize_segments s))

-- The path that is let through is the joined segments of the input, and passed each check.
pub normalized_path-checks :
    (input p : String)
    → normalized_path input ≡ ok p
    → (p ≡ join_segments (segments (sanitize_segments input)))
      × (is_empty (segments (sanitize_segments input)) ≡ false)
      × (includes ".." (segments (sanitize_segments input)) ≡ false)
      × (deny_secret_path p ≡ false)
unfolding normalized_path
normalized_path-checks input p h = ground (arith, h)

slash_append : (s : String) → "/" ++ s ≡ String.◌∷◌ "/" s
slash_append s = native_append.cons "/" "" s ∙ ap (String.◌∷◌ "/") (native_append.nil s)

join_is_absolute :
    (segs : List String) → is_empty segs ≡ false → starts_with (join_segments segs) "/" ≡ true
unfolding is_empty join_segments append
join_is_absolute [] h = absurd (cc)
join_is_absolute (s ∷ segs) h =
    starts_with_of_prefix "/" (join_segments (s ∷ segs))
      (append s (join_segments segs), slash_append (append s (join_segments segs)))

-- What each path is that passes: absolute, with no ".." between two slashes, and not secret.
abbrev pub IsClean : String → Type 0
IsClean p =
    (starts_with p "/" ≡ true)
    × (includes ".." (split_on b'/' p) ≡ false)
    × (deny_secret_path p ≡ false)

pub normalized_path-IsClean : (input p : String) → normalized_path input ≡ ok p → IsClean p
unfolding includes any
normalized_path-IsClean input p h =
    let (joined, some_left, no_dots, plain) = normalized_path-checks input p h in
    let segs = segments (sanitize_segments input) in
    (
      ap (λ q. starts_with q "/") joined ∙ join_is_absolute segs some_left,
      ap (λ q. includes ".." (split_on b'/' q)) joined
          ∙ ap (includes "..") (split-join_segments segs (segments-IsPlain input))
          ∙ no_dots,
      plain,
    )

normalized_path-passes :
    (input : String) (segs : List String)
    → starts_with (sanitize_segments input) "/" ≡ true
    → segments (sanitize_segments input) ≡ segs
    → is_empty segs ≡ false
    → includes ".." segs ≡ false
    → deny_secret_path (join_segments segs) ≡ false
    → normalized_path input ≡ ok (join_segments segs)
unfolding normalized_path
normalized_path-passes input segs absolute same some_left no_dots plain =
    ground (arith, absolute, same, some_left, no_dots, plain)

-- A path that is let through, given again, is let through as it is.
pub normalized_path-normalized_path :
    (input p : String) → normalized_path input ≡ ok p → normalized_path p ≡ ok p
normalized_path-normalized_path input p h =
    let (joined, some_left, no_dots, plain) = normalized_path-checks input p h in
    let segs = segments (sanitize_segments input) in
    let clean =
      sanitize_keeps (join_segments segs) (join_has_no_break segs (segments-IsPlain input)) in
    let again =
      normalized_path-passes (join_segments segs) segs
        (ap (λ q. starts_with q "/") clean ∙ join_is_absolute segs some_left)
        (ap segments clean ∙ segments-join_segments input) some_left no_dots
        (ap deny_secret_path (sym joined) ∙ plain) in
    ap normalized_path joined ∙ again ∙ ap ok (sym joined)
