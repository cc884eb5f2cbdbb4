-- ===== src/Exec/Output.antt =====
-- What a session keeps of its output, and what a reader gets of it.
use remote_ops_mcp.Prelude.{
  ℕ, zero, suc, ◌+◌, ◌-◌, ◌≤◌, ◌<◌, ◌≡◌, refl, sym, ◌∙◌, ap, false, List, [], ◌∷◌, ◌++◌,
  if◌then◌else◌, arith, ltb, leb, length, take, drop, Bool-cases, inl, inr,
}
use remote_ops_mcp.Exec.Sessions.{
  Session, max_output, byte_length, last_units, append, read_session,
}

length-byte_length : (s : List ℕ) → length s ≤ byte_length s
unfolding byte_length
length-byte_length [] = ground arith
length-byte_length (u ∷ []) = ground arith
length-byte_length (u ∷ v ∷ s) = ground (arith, length-byte_length (v ∷ s), length-byte_length s)

length-drop : (n : ℕ) (s : List ℕ) → length (drop n s) ≡ length s - n
length-drop zero s = ground arith
length-drop (suc n) [] = ground arith
length-drop (suc n) (u ∷ s) = ground (arith, length-drop n s)

-- The text of `append`, for any limit.
abbrev cut : ℕ → List ℕ → List ℕ
cut max s = if ltb max (byte_length s) then last_units max s else s

length-cut : (max : ℕ) (s : List ℕ) → length (cut max s) ≤ max
unfolding last_units
length-cut max s = ground (arith, length-drop (length s - max) s, length-byte_length s)

cut-drop : (max : ℕ) (s : List ℕ) → (n : ℕ) × (cut max s ≡ drop n s)
unfolding last_units
cut-drop max s = elim (Bool-cases (ltb max (byte_length s))) [
  | inl over ↦ (length s - max, ground (arith, over))
  | inr fits ↦ (0, ground (arith, fits))
]

-- After any chunk of output a session keeps at most `MAX_OUTPUT` units, and they are the last ones of
-- what it kept before and the chunk.
pub output_is_recent :
    (label chunk : List ℕ) (s : Session)
    → (length (append label chunk s).output ≤ max_output)
      × ((n : ℕ) × ((append label chunk s).output ≡ drop n (s.output ++ (label ++ chunk))))
unfolding append
output_is_recent label chunk s = (
  length-cut max_output (s.output ++ (label ++ chunk)),
  cut-drop max_output (s.output ++ (label ++ chunk)),
)

drop-all : (n : ℕ) (s : List ℕ) → length s ≤ n → drop n s ≡ []
drop-all zero [] h = refl
drop-all zero (u ∷ s) h = ground arith
drop-all (suc n) [] h = refl
drop-all (suc n) (u ∷ s) h = drop-all n s (ground arith)

take-none : (n : ℕ) → take {A = ℕ} n [] ≡ []
take-none zero = refl
take-none (suc n) = refl

read_past :
    (offset limit : ℕ) (s : Session)
    → length s.output ≤ offset
    → ((read_session offset limit s).text ≡ []) × ((read_session offset limit s).truncated ≡ false)
unfolding read_session
read_past offset limit s h =
    let text : take limit (drop offset s.output) ≡ [] =
      ap (take limit) (drop-all offset s.output h) ∙ take-none limit in
    (text, ground (arith, text))

-- Once a session's output has `MAX_OUTPUT` units, a reader that has read it all gets nothing of what
-- the child writes from then on, and is told that nothing more follows: after any chunk, a read from
-- the offset `MAX_OUTPUT` returns no text and is not truncated.
pub full_output_reads_nothing :
    (label chunk : List ℕ) (limit : ℕ) (s : Session)
    → ((read_session max_output limit (append label chunk s)).text ≡ [])
      × ((read_session max_output limit (append label chunk s)).truncated ≡ false)
full_output_reads_nothing label chunk limit s =
    read_past max_output limit (append label chunk s) (output_is_recent label chunk s).0

suc_add : (n m : ℕ) → suc n + m ≡ suc (n + m)
suc_add n m = ground arith

take-drop :
    (n m : ℕ) (s : List ℕ)
    → n ≤ length s
    → take n s ++ take m (drop n s) ≡ take (n + length (take m (drop n s))) s
take-drop zero zero s h = ground arith
take-drop zero (suc m) [] h = ground arith
take-drop zero (suc m) (u ∷ s) h = ground (arith, take-drop zero m s)
take-drop (suc n) m [] h = ground arith
take-drop (suc n) m (u ∷ s) h =
    ap (λ t. u ∷ t) (take-drop n m s (ground (arith, h)))
    ∙ sym (ap (λ k. take k (u ∷ s)) (suc_add n (length (take m (drop n s)))))

length-take : (n : ℕ) (s : List ℕ) → length (take n s) ≡ (if leb n (length s) then n else length s)
length-take zero s = ground arith
length-take (suc n) [] = ground arith
length-take (suc n) (u ∷ s) = ground (arith, length-take n s)

-- A read from an offset inside the output returns what follows there: with what stands before the
-- offset it is the output up to the next offset. It tells whether more follows, and if more
-- follows than nothing was read, the next offset is larger.
pub read_continues :
    (offset limit : ℕ) (s : Session)
    → offset ≤ length s.output
    → 0 < limit
    → (take offset s.output ++ (read_session offset limit s).text
        ≡ take (read_session offset limit s).next_offset s.output)
      × ((read_session offset limit s).next_offset ≤ length s.output)
      × ((read_session offset limit s).truncated
          ≡ ltb (read_session offset limit s).next_offset (length s.output))
      × (offset < length s.output → offset < (read_session offset limit s).next_offset)
unfolding read_session
read_continues offset limit s inside some_limit = (
  take-drop offset limit s.output inside,
  ground (arith, length-take limit (drop offset s.output), length-drop offset s.output),
  refl,
  ground (arith, length-take limit (drop offset s.output), length-drop offset s.output),
)
