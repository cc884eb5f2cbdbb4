-- ===== src/Docker/Settings.antt =====
-- The settings of the proxy, read from the environment when it starts (src/docker/read-proxy.ts).
use remote_ops_mcp.Prelude.{
  ℕ, String, Bool, true, false, not, ◌&&◌, Option, none, some, List, [], ◌∷◌, ◌==◌, eqb,
  if◌then◌else◌, any, all, filter, includes, split_on, trim, or_else,
}
use remote_ops_mcp.Dict.{Dict}
use remote_ops_mcp.Docker.Checks.{is_container_ref, is_port}

-- A JavaScript set of texts or numbers is the list of its elements in the order of insertion.
pub record Settings : Type 0 where
  pub allowed : List String
  pub exec_containers : List String
  pub exec_programs : List String
  pub allowed_actions : List String
  pub image_load_roots : List String
  pub candidate_image_prefixes : List String
  pub candidate_networks : List String
  pub candidate_name_prefixes : List String
  pub candidate_host_ports : List ℕ
  pub candidate_container_ports : List ℕ
  pub postgres_container : String
  pub postgres_verifiers : Dict String
  pub postgres_exec_user : String
  pub postgres_db_user : String
  pub postgres_db_name : String
  pub paperclip_container : String

-- The environment: each variable, `none` where it is not set.
pub record Environment : Type 0 where
  pub port : Option String
  pub allowed : Option String
  pub exec_containers : Option String
  pub exec_programs : Option String
  pub actions : Option String
  pub image_load_roots : Option String
  pub image_prefixes : Option String
  pub networks : Option String
  pub name_prefixes : Option String
  pub host_ports : Option String
  pub container_ports : Option String
  pub postgres_container : Option String
  pub postgres_verifiers : Option String
  pub postgres_exec_user : Option String
  pub postgres_db_user : Option String
  pub postgres_db_name : Option String
  pub paperclip_container : Option String

-- new Set(xs)
unfoldable pub set_of : List String → List String → List String
unfolding includes
set_of seen [] = []
set_of seen (x ∷ xs) =
    let new = set_of (x ∷ seen) xs in
    let old = set_of seen xs in if includes x seen then old else x ∷ new

unfoldable pub trim_all : List String → List String
unfolding trim
trim_all [] = []
trim_all (x ∷ xs) = trim x ∷ trim_all xs

-- raw.split(",").map((x) => x.trim()).filter(Boolean)
unfoldable pub csv_items : String → List String
unfolding trim_all split_on filter
csv_items raw = filter (λ x. not (x == "")) (trim_all (split_on b',' raw))

unfoldable pub csv_set : Option String → List String
unfolding set_of csv_items
csv_set raw = set_of [] (csv_items (or_else raw ""))

unfoldable pub has_number : ℕ → List ℕ → Bool
unfolding any
has_number n = any (λ m. eqb m n)

-- The numbers of the items; `none`: it throws. `to_natural` is Number(s), where that is a natural
-- number.
unfoldable pub port_set : (String → Option ℕ) → List ℕ → List String → Option (List ℕ)
unfolding has_number is_port
port_set to_natural seen [] = some []
port_set to_natural seen (x ∷ xs) = elim (to_natural x) [
  | none ↦ none
  | some n ↦
      if not (is_port n)
      then none
      else if has_number n seen
      then port_set to_natural seen xs
      else elim (port_set to_natural (n ∷ seen) xs) [ none ↦ none | some ns ↦ some (n ∷ ns) ]
]

unfoldable pub csv_number_set : (String → Option ℕ) → Option String → Option (List ℕ)
unfolding port_set csv_items
csv_number_set to_natural raw = port_set to_natural [] (csv_items (or_else raw ""))

abbrev pub known_actions : List String
known_actions =
    "start" ∷ "stop" ∷ "restart" ∷ "load_image" ∷ "candidate_run" ∷ "candidate_remove" ∷ []

unfoldable pub is_unset : List String → Bool
is_unset [] = true
is_unset (x ∷ xs) = false

-- Is the PostgreSQL readback left out, or complete, with a container of a valid name that is allowed?
unfoldable pub is_postgres_setting : Settings → Bool
unfolding is_container_ref includes
is_postgres_setting s =
    if s.postgres_container == ""
    then (elim s.postgres_verifiers [ [] ↦ true | v ∷ vs ↦ false ])
    else (elim s.postgres_verifiers [ [] ↦ false | v ∷ vs ↦ true ])
      && (is_container_ref s.postgres_container && includes s.postgres_container s.allowed)

-- The tests after which the proxy starts.
unfoldable pub is_setting : Settings → Bool
unfolding is_unset is_postgres_setting all includes
is_setting s =
    not (is_unset s.allowed)
    && (is_postgres_setting s && all (λ a. includes a known_actions) s.allowed_actions)

infixl 5 ◌>>=◌
abbrev ◌>>=◌ : {A B : Type 0} → Option A → (A → Option B) → Option B
none >>= next = none
some value >>= next = next value

abbrev pub trimmed : Option String → String → String
trimmed raw default = trim (or_else raw default)

-- The module's initialisation; `none`: it throws. `parse_verifiers` is
-- `parsePostgresVerifierAllowlist`.
unfoldable pub configure :
    (String → Option ℕ) → (String → Option (Dict String)) → Environment → Option Settings
unfolding csv_set csv_number_set is_setting is_port trim
configure to_natural parse_verifiers e = do
  host_ports ← csv_number_set to_natural e.host_ports
  container_ports ← csv_number_set to_natural e.container_ports
  verifiers ← parse_verifiers (or_else e.postgres_verifiers "")
  port ← to_natural (or_else e.port "2375")
  let s : Settings = record {
    allowed = csv_set e.allowed;
    exec_containers = csv_set e.exec_containers;
    exec_programs = csv_set e.exec_programs;
    allowed_actions = csv_set e.actions;
    image_load_roots = csv_set e.image_load_roots;
    candidate_image_prefixes = csv_set e.image_prefixes;
    candidate_networks = csv_set e.networks;
    candidate_name_prefixes = csv_set e.name_prefixes;
    candidate_host_ports = host_ports;
    candidate_container_ports = container_ports;
    postgres_container = trimmed e.postgres_container "";
    postgres_verifiers = verifiers;
    postgres_exec_user = trimmed e.postgres_exec_user "postgres";
    postgres_db_user = trimmed e.postgres_db_user "postgres";
    postgres_db_name = trimmed e.postgres_db_name "postgres";
    paperclip_container =
        let name = trimmed e.paperclip_container "" in
        if name == "" then "wandora-paperclip" else name;
  }
  if is_port port && is_setting s then some s else none
