-- ===== src/Docker/Postgres/Allowlist.antt =====
-- The list of verifiers that is read from the environment.
use mathlib.Core.Path.{subst}
use remote_ops_mcp.Prelude.{
  String, ◌≡◌, refl, Bool, true, false, not, ◌&&◌, some, List, [], ◌∷◌, arith, ◌==◌, eq_iff,
  Option-cases, Bool-cases, inl, inr, trim,
}
use remote_ops_mcp.Dict.{Dict, lookup, insert, Unique, lookup-insert}
use remote_ops_mcp.Dict.Keys.{insert-Unique}
use remote_ops_mcp.Docker.Json.{Host, Made, made, unless_thrown, bind_made}
use remote_ops_mcp.Docker.Settings.{csv_items}
use remote_ops_mcp.Docker.Postgres.{
  is_verifier_id, is_sha256, cut, read_entry, is_absent, read_entries,
  parse_postgres_verifier_allowlist,
}

abbrev is_pinned : String × String → Bool
is_pinned (id, hash) = is_verifier_id id && is_sha256 hash

made_injective : {A : Type 0} {x y : A} → made x ≡ made y → x ≡ y
made_injective h = cc

-- The keys are unique; each is a verifier's id, with a hash.
IsAllowlist : Dict String → Type 0
IsAllowlist d =
    Unique d × ((id hash : String) → lookup id d ≡ some hash → is_pinned (id, hash) ≡ true)

thrown_then :
    {A : Type 0} (b : Bool) (m : String) (rest : Made A) (x : A)
    → unless_thrown b m rest ≡ made x
    → (b ≡ true) × (rest ≡ made x)
thrown_then true m rest x h = (refl, h)
thrown_then false m rest x h = absurd (cc)

checked_entry :
    (a b : Bool) (m : String) (made_of kv : String × String)
    → unless_thrown (a && (b && is_pinned made_of)) m (made made_of) ≡ made kv
    → is_pinned kv ≡ true
checked_entry a b m made_of kv h =
    let (tests, same) = thrown_then (a && (b && is_pinned made_of)) m (made made_of) kv h in
    subst (λ x. is_pinned x ≡ true) (made_injective same) (ground (arith, tests))

read_entry_lem :
    (os : Host) (entry : String) (kv : String × String)
    → read_entry os entry ≡ made kv
    → is_pinned kv ≡ true
unfolding read_entry
read_entry_lem os entry kv h = elim (Option-cases (cut entry)) [
  | inl e ↦ absurd (ground (arith, e, h))
  | inr ((name, value), e) ↦
      checked_entry (not (name == "")) (not (value == "")) "invalid_postgres_verifier_allowlist"
        (trim name, os.to_lower_case (trim value)) kv (ground (arith, e, h))
]

inserted :
    (kv : String × String) (id hash : String) (out : Dict String)
    → is_pinned kv ≡ true
    → (lookup id out ≡ some hash → is_pinned (id, hash) ≡ true)
    → lookup id (insert kv.0 kv.1 out) ≡ some hash
    → is_pinned (id, hash) ≡ true
inserted (k, v) id hash out good old found = elim (Bool-cases (k == id)) [
  | inl e ↦ ground (arith, e, good, (eq_iff k id).0 e, lookup-insert k id v out, found)
  | inr e ↦ old (ground (arith, e, lookup-insert k id v out, found))
]

read_entries-IsAllowlist :
    (os : Host) (out : Dict String) (entries : List String) (d : Dict String)
    → IsAllowlist out
    → read_entries os out entries ≡ made d
    → IsAllowlist d
unfolding read_entries IsAllowlist
read_entries-IsAllowlist os out [] d ok h = subst IsAllowlist (made_injective h) ok
read_entries-IsAllowlist os out (entry ∷ entries) d ok h =
    let (kv, read, rest) = bind_made (read_entry os entry) _ d h in
    let (new, later) = thrown_then (is_absent (lookup kv.0 out)) _ _ d rest in
    read_entries-IsAllowlist os (insert kv.0 kv.1 out) entries d
      (
        insert-Unique kv.0 kv.1 out ok.0,
        λ id hash found.
            inserted kv id hash out (read_entry_lem os entry kv read) (ok.1 id hash) found,
      )
      later

-- A list that is read has each verifier once; each key is an id of the allowed form, and each value a
-- SHA-256 hash in lower-case hexadecimal.
pub allowlist_is_valid :
    (os : Host) (raw : String) (d : Dict String)
    → parse_postgres_verifier_allowlist os raw ≡ made d
    → Unique d
      × ((id hash : String)
          → lookup id d ≡ some hash
          → (is_verifier_id id && is_sha256 hash) ≡ true)
unfolding parse_postgres_verifier_allowlist IsAllowlist lookup
allowlist_is_valid os raw d h =
    read_entries-IsAllowlist os [] (csv_items raw) d (tt, λ id hash e. absurd (cc)) h
