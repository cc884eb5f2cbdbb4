-- ===== src/Store/Targets.antt =====
-- Target controls, target activity and monthly usage (src/state/store.ts).
use remote_ops_mcp.Prelude.{
  ℕ, ◌+◌, String, Bool, true, false, Option, none, some, ◌==◌, if◌then◌else◌, or_else,
}
use remote_ops_mcp.Dict.{lookup, insert}
use remote_ops_mcp.Store.Model.{
  TargetControl, TargetActivity, ToolResult, UsageBucket, Process, persist, set_target_controls,
  set_target_activity, set_usage_monthly,
}

-- The static registry says whether a target is enabled at all; the control can only take that away.
unfoldable pub effective_target_enabled : String → Bool → Process → Bool
unfolding lookup
effective_target_enabled target_id registry_enabled p =
    if registry_enabled
    then (elim (lookup target_id p.target_controls) [
      | none ↦ true
      | some control ↦ control.enabled
    ])
    else false

-- `clip` is `reason?.slice(0, 200)`.
unfoldable pub set_target_enabled :
    (Option String → Option String) → String → Bool → Option String → ℕ → Process → Process
unfolding insert persist
set_target_enabled clip target_id enabled reason now p = persist (
    set_target_controls p (
      insert target_id (record { enabled = enabled; updated_at = now; reason = clip reason })
        p.target_controls))

unfoldable pub get_target_control : String → Process → Option TargetControl
unfolding lookup
get_target_control target_id p = lookup target_id p.target_controls

unfoldable pub get_target_activity : String → Process → Option TargetActivity
unfolding lookup
get_target_activity target_id p = lookup target_id p.target_activity

abbrev pub empty_bucket : UsageBucket
empty_bucket = record { tool_calls = 0; ok = 0; denied = 0; error = 0 }

-- bucket.tool_calls++; bucket[result]++
unfoldable pub count_result : ToolResult → UsageBucket → UsageBucket
count_result ToolResult.ok b = record b { tool_calls = b.tool_calls + 1; ok = b.ok + 1 }
count_result ToolResult.denied b = record b { tool_calls = b.tool_calls + 1; denied = b.denied + 1 }
count_result ToolResult.error b = record b { tool_calls = b.tool_calls + 1; error = b.error + 1 }

abbrev pub last_ok_of : Option TargetActivity → Option ℕ
last_ok_of none = none
last_ok_of (some a) = a.last_ok_at

abbrev pub last_error_of : Option TargetActivity → Option ℕ
last_error_of none = none
last_error_of (some a) = a.last_error_at

unfoldable pub next_activity :
    Option TargetActivity → String → ToolResult → Option String → ℕ → TargetActivity
next_activity prev tool result error_code now = record {
  last_seen_at = now;
  last_ok_at = elim result [ ToolResult.ok ↦ some now | _ ↦ last_ok_of prev ];
  last_error_at = elim result [ ToolResult.error ↦ some now | _ ↦ last_error_of prev ];
  last_tool = some tool;
  last_result = result;
  last_error_code = error_code;
}

-- `if (input.target)`
unfoldable pub note_activity :
    Option String → String → ToolResult → Option String → ℕ → Process → Process
unfolding insert lookup next_activity
note_activity none tool result error_code now p = p
note_activity (some target) tool result error_code now p =
    if target == ""
    then p
    else set_target_activity p (
        insert target (next_activity (lookup target p.target_activity) tool result error_code now)
          p.target_activity)

-- `month_of` is `new Date(now).toISOString().slice(0, 7)`.
unfoldable pub record_tool_result :
    (ℕ → String) → Option String → String → ToolResult → Option String → ℕ → Process → Process
unfolding insert lookup persist count_result note_activity
record_tool_result month_of target tool result error_code now p =
    let month = month_of now in
    let bucket = or_else (lookup month p.usage_monthly) empty_bucket in
    persist (
      note_activity target tool result error_code now
        (set_usage_monthly p (insert month (count_result result bucket) p.usage_monthly)))

unfoldable pub record_target_probe : String → Bool → Option String → ℕ → Process → Process
unfolding insert lookup persist next_activity
record_target_probe target ok error_code now p = persist (
    set_target_activity p (
      insert target
        (next_activity (lookup target p.target_activity) "admin_probe"
          (if ok then ToolResult.ok else ToolResult.error) error_code now)
        p.target_activity))

unfoldable pub usage_for_month : String → Process → UsageBucket
unfolding lookup
usage_for_month month p = or_else (lookup month p.usage_monthly) empty_bucket
