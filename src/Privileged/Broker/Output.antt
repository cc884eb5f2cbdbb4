-- ===== src/Privileged/Broker/Output.antt =====
-- The captured output is the beginning of what the process wrote.
use remote_ops_mcp.Prelude.{
  ℕ, zero, suc, ◌+◌, ◌-◌, ◌≤◌, ◌≡◌, refl, ap, ◌∙◌, sym, Bool, false, ◌||◌, List, [], ◌∷◌, ◌++◌,
  arith, ltb, leb, Bool-cases, inl, inr, length, take, length-append, length-take-le,
}
use mathlib.Core.List.{append_assoc, append-nil}
use remote_ops_mcp.Privileged.Broker.{append_output}

-- All chunks in turn; the `Bool` is the flag `truncated`.
pub collect : ℕ → List ℕ → Bool → List (List ℕ) → List ℕ × Bool
collect max current cut [] = (current, cut)
collect max current cut (c ∷ cs) =
    let (next, now_cut) = append_output max current c in collect max next (cut || now_cut) cs

abbrev pub joined : List (List ℕ) → List ℕ
joined [] = []
joined (c ∷ cs) = c ++ joined cs

take-append_le :
    (n : ℕ) (xs ys : List ℕ) → length xs ≤ n → take n (xs ++ ys) ≡ xs ++ take (n - length xs) ys
take-append_le n [] ys h = ap (λ (m : ℕ). take m ys) (omega arith)
take-append_le zero (x ∷ xs) ys h = absurd (omega arith)
take-append_le (suc n) (x ∷ xs) ys h =
    ap (◌∷◌ x)
      (take-append_le n xs ys (omega arith) ∙ ap (λ (m : ℕ). xs ++ take m ys) (omega arith))

take_all : (n : ℕ) (xs : List ℕ) → length xs ≤ n → take n xs ≡ xs
take_all zero [] h = refl
take_all zero (x ∷ xs) h = absurd (omega arith)
take_all (suc n) [] h = refl
take_all (suc n) (x ∷ xs) h = ap (◌∷◌ x) (take_all n xs (omega arith))

take-take_append : (n : ℕ) (xs ys : List ℕ) → take n (take n xs ++ ys) ≡ take n (xs ++ ys)
take-take_append zero xs ys = refl
take-take_append (suc n) [] ys = refl
take-take_append (suc n) (x ∷ xs) ys = ap (◌∷◌ x) (take-take_append n xs ys)

append_output-take :
    (max : ℕ) (current chunk : List ℕ)
    → length current ≤ max
    → (append_output max current chunk).0 ≡ take max (current ++ chunk)
unfolding append_output
append_output-take max current chunk h = elim (Bool-cases (leb max (length current))) [
  | inl full ↦
      let none_left : max - length current ≡ 0 = ground arith in
      rw full (
        sym (
          take-append_le max current chunk h
          ∙ ap (λ (m : ℕ). current ++ take m chunk) none_left
          ∙ append-nil current))
  | inr room ↦ elim (Bool-cases (ltb max (length current + length chunk))) [
    | inl over ↦ rw (room, over) (sym (take-append_le max current chunk h))
    | inr fits ↦
        let all_fit : length (current ++ chunk) ≤ max =
          ground (arith, length-append current chunk) in
        rw (room, fits) (sym (take_all max (current ++ chunk) all_fit))
  ]
]

collect-take :
    (max : ℕ) (current : List ℕ) (cut : Bool) (cs : List (List ℕ))
    → length current ≤ max
    → (collect max current cut cs).0 ≡ take max (current ++ joined cs)
unfolding collect
collect-take max current cut [] h =
    sym (take_all max (current ++ []) (rw append-nil h) ∙ append-nil current)
collect-take max current cut (c ∷ cs) h =
    let next = (append_output max current c).0 in
    let e = append_output-take max current c h in
    let bound : length next ≤ max = rw e (length-take-le max (current ++ c)) in
    collect-take max next (cut || (append_output max current c).1) cs bound
    ∙ ap (λ (xs : List ℕ). take max (xs ++ joined cs)) e
    ∙ take-take_append max (current ++ c) (joined cs)
    ∙ ap (take max) (append_assoc current c (joined cs))

-- Whatever chunks a process writes, the captured output is what it wrote in all, cut at the limit.
pub output_is_prefix :
    (max : ℕ) (cs : List (List ℕ)) → (collect max [] false cs).0 ≡ take max (joined cs)
output_is_prefix max cs = collect-take max [] false cs (omega arith)
