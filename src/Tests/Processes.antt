-- ===== src/Tests/Processes.antt =====
-- Sessions, command lines and the registry at concrete data.
use remote_ops_mcp.Prelude.{
  ℕ, ◌≤◌, String, ◌≡◌, refl, true, false, none, some, List, [], ◌∷◌, arith, ◌==◌, if◌then◌else◌,
  any,
}
use remote_ops_mcp.Errors.{ok}
use remote_ops_mcp.Dict.{Dict, lookup}
use remote_ops_mcp.Config.Target.{TargetConfig, operator, production}
use remote_ops_mcp.Config.Presets.{base_target, preset_target, read_only_preset}
use remote_ops_mcp.Config.Baseline.{Order}
use remote_ops_mcp.Config.Registry.{
  targets, Registry, load_registry, add_targets, parse_registry_file, is_valid_agent_target,
  has_device_id, upsert_dynamic_agent_target,
}
use remote_ops_mcp.Config.Registry.Upsert.{IsLoaded, NotStatic, upsert_changes_one_target}
use remote_ops_mcp.Remote.Quote.{build_remote_command}
use remote_ops_mcp.Remote.Quote.Reading.{between, words, shell_reads_arguments}
use remote_ops_mcp.Exec.Arguments.{Host}
use remote_ops_mcp.Exec.Sessions.{
  Session, Event, started, wrote, closed, requested, run, active_session_count, append, max_output,
  read_session,
}
use remote_ops_mcp.Exec.Capacity.{capacity_is_kept}
use remote_ops_mcp.Exec.Output.{full_output_reads_nothing}

abbrev host : Host
host = record {
  roots = "/w" ∷ [];
  programs = "git" ∷ [];
  max_active_sessions = 1;
  normalize = λ s. s;
  realpath = λ s. some s;
  from_base64 = λ s. [];
}

abbrev events : List (Event × ℕ)
events =
    (started "/w" "git" ("status" ∷ []) "ps_1", 10)
    ∷ (started "/w" "git" [] "ps_2", 11)
    ∷ (wrote "ps_1" [] (65 ∷ []), 12)
    ∷ (closed "ps_1" (some 0), 13)
    ∷ (requested, 14)
    ∷ []

capacity_example : active_session_count (run host events []) ≤ 1
unfolding active_session_count
capacity_example = capacity_is_kept host events [] (ground arith)

abbrev session : Session
session = record {
  started_at = 10;
  cwd = "/w";
  program = "git";
  output = 65 ∷ 66 ∷ 67 ∷ [];
  exit_code = none;
  closed_at = none;
}

full_example :
    ((read_session max_output 10 (append [] (68 ∷ []) session)).text ≡ [])
    × ((read_session max_output 10 (append [] (68 ∷ []) session)).truncated ≡ false)
full_example = full_output_reads_nothing [] (68 ∷ []) 10 session

abbrev argv : List String
argv = "docker" ∷ "it's" ∷ "" ∷ "$(id); ls" ∷ []

quote_example : words between (build_remote_command argv) ≡ some argv
quote_example = shell_reads_arguments argv

abbrev make : String → TargetConfig
make id = preset_target read_only_preset (
    base_target
      (record {
        target_id = id;
        device_id = "dev_abcdefgh";
        environment = production;
        preset = read_only_preset;
      })
      operator)

abbrev fixed : TargetConfig
fixed = make "fixed"

abbrev pub old : TargetConfig
old = make "agent-one"

abbrev pub new : TargetConfig
new = record old { allowed_paths = [] }

abbrev pub registry : Registry
registry = record {
  files = record { static_file = targets (fixed ∷ []); dynamic_file = targets (old ∷ []) };
  loaded = some (("fixed", fixed) ∷ ("agent-one", old) ∷ []);
}

abbrev pub keep_order : Order
keep_order = λ a b. true

registry-IsLoaded : IsLoaded registry (("fixed", fixed) ∷ ("agent-one", old) ∷ [])
unfolding load_registry add_targets parse_registry_file is_valid_agent_target preset_target
    base_target
registry-IsLoaded = record { from_files = refl; in_memory = refl }

not_static : NotStatic "agent-one" registry.files
unfolding parse_registry_file any preset_target base_target
not_static ts e = ground (arith, e)

upsert_example :
    (m : Dict TargetConfig) × ((upsert_dynamic_agent_target keep_order (λ t. some t) new registry).1
      ≡ ok new)
    × IsLoaded (upsert_dynamic_agent_target keep_order (λ t. some t) new registry).0 m
    × ((id : String)
        → lookup id m ≡ (
            if new.id == id
            then some new
            else lookup id (("fixed", fixed) ∷ ("agent-one", old) ∷ [])))
unfolding preset_target base_target has_device_id
upsert_example =
    upsert_changes_one_target keep_order (λ t. some t) new new registry
      (("fixed", fixed) ∷ ("agent-one", old) ∷ []) registry-IsLoaded refl refl not_static
