-- ===== src/Docker/Proxy/Names.antt =====
-- Which containers of a list have an allowed name.
use mathlib.Core.Path.{subst}
use remote_ops_mcp.Prelude.{
  String, ◌≡◌, ◌⊎◌, inl, inr, refl, sym, Bool, true, false, some, List, [], ◌∷◌, arith, any, filter,
  includes, ◌==◌, ◌||◌, if◌then◌else◌, starts_with, eq_iff, Bool-cases, Option-cases,
}
use remote_ops_mcp.Security.SecretPaths.{after_prefix}
use remote_ops_mcp.Docker.Json.{Json, text, get, items_of}
use remote_ops_mcp.Docker.Exec.{without_slash, is_name_in, has_name_in}

-- The value stands on the list.
abbrev pub Stands : {A : Type 0} → A → List A → Type 0
Stands x [] = ⊥
Stands x (y ∷ ys) = (x ≡ y) ⊎ Stands x ys

-- The text is the name with one slash before it, or the name, and then it starts with none.
abbrev pub IsNameOf : String → String → Type 0
IsNameOf t name =
    ((starts_with t "/" ≡ true) × (after_prefix "/" t ≡ name))
    ⊎ ((starts_with t "/" ≡ false) × (t ≡ name))

-- `Names` of the container is a list on which a text for an allowed name stands.
abbrev pub HasAllowedName : List String → Json → Type 0
HasAllowedName allowed value =
    (names : List Json) × (items_of (get "Names" value) ≡ some names)
    × (t : String) × Stands (text t) names
    × (name : String) × Stands name allowed
    × IsNameOf t name

module _ {A : Type 0} (p : A → Bool) where
  taken_or_later :
      (b : Bool) (x y : A) (rest : List A)
      → Stands x (if b then y ∷ rest else rest)
      → ((x ≡ y) × (b ≡ true)) ⊎ Stands x rest
  taken_or_later true x y rest (inl h) = inl (h, refl)
  taken_or_later true x y rest (inr h) = inr h
  taken_or_later false x y rest h = inr h

  take_or_later :
      (b : Bool) (x y : A) (rest : List A)
      → ((x ≡ y) × (b ≡ true)) ⊎ Stands x rest
      → Stands x (if b then y ∷ rest else rest)
  take_or_later true x y rest (inl (h, e)) = inl h
  take_or_later true x y rest (inr h) = inr h
  take_or_later false x y rest (inl (h, e)) = absurd (cc)
  take_or_later false x y rest (inr h) = h

  pub filter-Stands : (x : A) (xs : List A) → Stands x (filter p xs) → Stands x xs × (p x ≡ true)
  unfolding filter
  filter-Stands x [] h = absurd h
  filter-Stands x (y ∷ ys) h = elim (taken_or_later (p y) x y (filter p ys) h) [
    | inl (same, good) ↦ (inl same, subst (λ z. p z ≡ true) (sym same) good)
    | inr later ↦ let (stands, good) = filter-Stands x ys later in (inr stands, good)
  ]

  pub Stands-filter : (x : A) (xs : List A) → Stands x xs → p x ≡ true → Stands x (filter p xs)
  unfolding filter
  Stands-filter x [] h good = absurd h
  Stands-filter x (y ∷ ys) (inl same) good =
      take_or_later (p y) x y (filter p ys) (inl (same, subst (λ z. p z ≡ true) same good))
  Stands-filter x (y ∷ ys) (inr later) good =
      take_or_later (p y) x y (filter p ys) (inr (Stands-filter x ys later good))

  first_or_later : (b c : Bool) → (b || c) ≡ true → (b ≡ true) ⊎ (c ≡ true)
  first_or_later true c h = inl refl
  first_or_later false c h = inr h

  pub any-Stands : (xs : List A) → any p xs ≡ true → (x : A) × Stands x xs × (p x ≡ true)
  unfolding any
  any-Stands [] h = absurd (cc)
  any-Stands (y ∷ ys) h = elim (first_or_later (p y) (any p ys) h) [
    | inl good ↦ (y, inl refl, good)
    | inr later ↦ let (x, stands, good) = any-Stands ys later in (x, inr stands, good)
  ]

  pub Stands-any : (x : A) (xs : List A) → Stands x xs → p x ≡ true → any p xs ≡ true
  unfolding any
  Stands-any x [] h good = absurd h
  Stands-any x (y ∷ ys) (inl same) good = ground (arith, subst (λ z. p z ≡ true) same good)
  Stands-any x (y ∷ ys) (inr later) good = ground (arith, Stands-any x ys later good)

without_slash_lem : (t : String) → IsNameOf t (without_slash t)
unfolding without_slash
without_slash_lem t = elim (Bool-cases (starts_with t "/")) [
  | inl slash ↦ inl (slash, ground (arith, slash))
  | inr plain ↦ inr (plain, ground (arith, plain))
]

IsNameOf-without_slash : (t name : String) → IsNameOf t name → without_slash t ≡ name
unfolding without_slash
IsNameOf-without_slash t name (inl (slash, same)) = ground (arith, slash, same)
IsNameOf-without_slash t name (inr (plain, same)) = ground (arith, plain, same)

is_name_in-Stands :
    (allowed : List String) (value : Json)
    → is_name_in allowed value ≡ true
    → (t : String) × (value ≡ text t) × (name : String) × Stands name allowed × IsNameOf t name
unfolding is_name_in includes
is_name_in-Stands allowed (text t) h =
    let (name, stands, same) = any-Stands (λ x. x == without_slash t) allowed h in
    (
      t,
      refl,
      name,
      stands,
      subst (IsNameOf t) (sym ((eq_iff name (without_slash t)).0 same)) (without_slash_lem t),
    )
is_name_in-Stands allowed value h = absurd (cc)

Stands-is_name_in :
    (allowed : List String) (t name : String)
    → Stands name allowed
    → IsNameOf t name
    → is_name_in allowed (text t) ≡ true
unfolding is_name_in includes
Stands-is_name_in allowed t name stands named =
    Stands-any (λ x. x == without_slash t) name allowed stands
      ((eq_iff name (without_slash t)).1 (sym (IsNameOf-without_slash t name named)))

pub has_name_in-HasAllowedName :
    (allowed : List String) (value : Json)
    → has_name_in allowed value ≡ true
    → HasAllowedName allowed value
unfolding has_name_in
has_name_in-HasAllowedName allowed value h = elim (Option-cases (items_of (get "Names" value))) [
  | inl none_there ↦ absurd (ground (arith, none_there, h))
  | inr (names, there) ↦
      let found : any (is_name_in allowed) names ≡ true = ground (arith, there, h) in
      let (v, stands, good) = any-Stands (is_name_in allowed) names found in
      let (t, same, name, on_list, named) = is_name_in-Stands allowed v good in
      (names, there, t, subst (λ x. Stands x names) same stands, name, on_list, named)
]

pub HasAllowedName-has_name_in :
    (allowed : List String) (value : Json)
    → HasAllowedName allowed value
    → has_name_in allowed value ≡ true
unfolding has_name_in
HasAllowedName-has_name_in allowed value (names, there, t, stands, name, on_list, named) = ground (
  arith,
  there,
  Stands-any (is_name_in allowed) (text t) names stands
      (Stands-is_name_in allowed t name on_list named),
)
