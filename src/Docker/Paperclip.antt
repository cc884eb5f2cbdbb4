-- ===== src/Docker/Paperclip.antt =====
-- src/docker/paperclip-semantic.ts: the payloads of the semantic operations, and the command that
-- runs one of them.
use Prim.Native.Char.{code}
use remote_ops_mcp.Prelude.{
  ℕ, String, Bool, true, false, not, ◌&&◌, ◌||◌, none, some, List, [], ◌∷◌, ◌==◌, leb, eqb,
  if◌then◌else◌, length, includes, text_length, all_codes, is_alphanumeric, split_on, trim, concat,
}
use remote_ops_mcp.Exec.Arguments.{lower}
use remote_ops_mcp.Docker.Json.{
  undefined, Json, null, boolean, number, text, array, object, Items, no_item, item, Fields,
  no_field, field, Host, get, is_nullish, items_of, text_or_empty, or_value, Made, made, failed,
  ◌>>=◌, unless_thrown,
}
use remote_ops_mcp.Docker.Checks.{is_hex_char}

pub data Operation : Type 0 where
  task_drain_status task_drain_start task_drain_stop : Operation
  tool_policies_list tool_connection_activity_safe : Operation
  tool_policy_test tool_policy_create tool_policy_delete : Operation

-- The operation as it is spelled in paths and commands.
abbrev pub name_of : Operation → String
name_of task_drain_status = "task-drain-status"
name_of task_drain_start = "task-drain-start"
name_of task_drain_stop = "task-drain-stop"
name_of tool_policies_list = "tool-policies-list"
name_of tool_connection_activity_safe = "tool-connection-activity-safe"
name_of tool_policy_test = "tool-policy-test"
name_of tool_policy_create = "tool-policy-create"
name_of tool_policy_delete = "tool-policy-delete"

abbrev pub is_hex_of_length : ℕ → String → Bool
is_hex_of_length n s = all_codes is_hex_char s && eqb (text_length s) n

unfoldable pub first_code_is : (ℕ → Bool) → String → Bool
first_code_is p String.[] = false
first_code_is p (String.◌∷◌ c s) = p (code c)

-- /^[0-9a-f]{8}-[0-9a-f]{4}-[1-8][0-9a-f]{3}-[89ab][0-9a-f]{3}-[0-9a-f]{12}$/i
unfoldable pub is_guid_parts : List String → Bool
unfolding all_codes text_length first_code_is
is_guid_parts (a ∷ (b ∷ (c ∷ (d ∷ (e ∷ []))))) =
    is_hex_of_length 8 a
    && (is_hex_of_length 4 b
        && (is_hex_of_length 4 c
            && (first_code_is (λ n. leb 49 n && leb n 56) c
                && (is_hex_of_length 4 d
                    && (first_code_is
                          (λ n. eqb n 56 || (eqb n 57 || (eqb (lower n) 97 || eqb (lower n) 98))) d
                        && is_hex_of_length 12 e)))))
is_guid_parts _ = false

unfoldable pub is_guid : String → Bool
unfolding is_guid_parts split_on
is_guid s = is_guid_parts (split_on b'-' s)

-- Is it an object, and no array? Only those pass `asRecord`.
abbrev pub as_record : Json → Made Json
as_record (object fields) = made (object fields)
as_record _ = failed "invalid_payload"

unfoldable pub require_guid : Host → Json → String → Made String
unfolding is_guid
require_guid os value label =
    let s = text_or_empty os value in unless_thrown (is_guid s) (concat "invalid_" label) (made s)

-- [A-Za-z0-9_.:-]
abbrev pub is_tool_char : ℕ → Bool
is_tool_char n = is_alphanumeric n || (eqb n b'_' || (eqb n b'.' || (eqb n b':' || eqb n b'-')))

unfoldable pub is_tool_name : String → Bool
unfolding text_length all_codes
is_tool_name s = not (s == "") && (leb (text_length s) 240 && all_codes is_tool_char s)

unfoldable pub require_tool_name : Host → Json → String → Made String
unfolding is_tool_name trim
require_tool_name os value label =
    let s = trim (text_or_empty os value) in
    unless_thrown (is_tool_name s) (concat "invalid_" label) (made s)

unfoldable pub require_tool_names : Host → List Json → Made Items
unfolding require_tool_name
require_tool_names os [] = made no_item
require_tool_names os (v ∷ vs) = require_tool_name os v "selector_tool_name" >>= λ s.
    require_tool_names os vs >>= λ rest. made (item (text s) rest)

unfoldable pub has_only : List String → Fields → Bool
unfolding includes
has_only allowed no_field = true
has_only allowed (field name v rest) = includes name allowed && has_only allowed rest

-- A new key comes after the others.
unfoldable pub add_last : String → Json → Fields → Fields
add_last name v no_field = field name v no_field
add_last name v (field k w rest) = field k w (add_last name v rest)

-- The value of a selector, if it is given and not null, is checked and added.
unfoldable pub add_selector : (Json → Made Json) → String → Json → (Fields → Made Fields)
unfolding get add_last
add_selector check name input rest =
    if is_nullish (get name input)
    then made rest
    else check (get name input) >>= λ v. made (add_last name v rest)

abbrev pub guid_selector : Host → String → Json → Made Json
guid_selector os label v = require_guid os v label >>= λ s. made (text s)

unfoldable pub tool_names_selector : Host → Json → Made Json
unfolding items_of require_tool_names
tool_names_selector os v = elim (items_of v) [
  | none ↦ failed "invalid_selector_tool_names"
  | some vs ↦
      unless_thrown (leb 1 (length vs) && leb (length vs) 32) "invalid_selector_tool_names"
        (require_tool_names os vs >>= λ names. made (array names))
]

abbrev pub fields_of : Json → Fields
fields_of (object fields) = fields
fields_of _ = no_field

abbrev pub is_no_field : Fields → Bool
is_no_field no_field = true
is_no_field (field n v rest) = false

unfoldable pub normalize_selectors : Host → Json → Made Json
unfolding has_only add_selector tool_names_selector require_tool_name
normalize_selectors os value = as_record value >>= λ input.
    unless_thrown
      (has_only ("agentId" ∷ "connectionId" ∷ "catalogEntryId" ∷ "toolName" ∷ "toolNames" ∷ [])
        (fields_of input))
      "unsupported_selector"
      (add_selector (guid_selector os "selector_agent_id") "agentId" input no_field >>= λ a.
        add_selector (guid_selector os "selector_connection_id") "connectionId" input a >>= λ b.
        add_selector (guid_selector os "selector_catalog_entry_id") "catalogEntryId" input b
        >>= λ c.
            add_selector (λ v. require_tool_name os v "selector_tool_name" >>= λ s. made (text s))
              "toolName" input c
            >>= λ d. add_selector (tool_names_selector os) "toolNames" input d >>= λ out.
                unless_thrown (not (is_no_field out)) "empty_selectors" (made (object out)))

-- The natural number of a value, if it lies between the bounds.
unfoldable pub require_between : Host → ℕ → ℕ → Json → String → Made ℕ
require_between os low high value message = elim (os.to_natural value) [
  | none ↦ failed message
  | some n ↦ unless_thrown (leb low n && leb n high) message (made n)
]

-- A text that is trimmed, not empty and not too long.
unfoldable pub require_text : Host → ℕ → Json → String → Made String
unfolding trim text_length
require_text os max value message =
    let s = trim (text_or_empty os value) in
    unless_thrown (not (s == "") && leb (text_length s) max) message (made s)

unfoldable pub require_description : Host → Json → Made Json
unfolding text_length
require_description os value =
    if is_nullish value
    then made null
    else unless_thrown (leb (text_length (os.to_text value)) 4000) "invalid_policy_description"
        (made (text (os.to_text value)))

unfoldable pub key_items : Host → List Json → Made Items
unfolding includes
key_items os [] = made no_item
key_items os (v ∷ vs) =
    unless_thrown (includes (os.to_text v) ("agent" ∷ "tool" ∷ "connection" ∷ [])) "invalid_key_by"
      (key_items os vs >>= λ rest. made (item (text (os.to_text v)) rest))

unfoldable pub rate_limit : Host → Json → Made Json
unfolding get require_between items_of key_items
rate_limit os value = as_record value >>= λ c.
    require_between os 1 1000 (get "limit" c) "invalid_rate_limit" >>= λ limit.
    require_between os 1 86_400 (get "windowSeconds" c) "invalid_window_seconds" >>= λ window.
    elim (items_of (get "keyBy" c)) [
      | none ↦ failed "invalid_key_by"
      | some keys ↦ unless_thrown (leb 1 (length keys) && leb (length keys) 4) "invalid_key_by" (
          key_items os keys >>= λ key_by. made (
            object (
              field "limit" (number limit)
                (field "windowSeconds" (number window) (field "keyBy" (array key_by) no_field)))))
    ]

-- A rate limit needs its numbers; a block takes no configuration.
unfoldable pub policy_config : Host → String → Json → Made Json
unfolding rate_limit
policy_config os policy_type value =
    if policy_type == "rate_limit"
    then rate_limit os value
    else unless_thrown (is_nullish value) "block_config_not_allowed" (made null)

unfoldable pub normalize_create : Host → String → Json → Made Json
unfolding get require_text require_description require_between normalize_selectors policy_config
normalize_create os company payload =
    require_text os 160 (get "name" payload) "invalid_policy_name" >>= λ name.
    require_description os (get "description" payload) >>= λ description.
    let policy_type = text_or_empty os (get "policyType" payload) in
    unless_thrown (policy_type == "block" || policy_type == "rate_limit") "unsupported_policy_type"
      (require_between os 0 10_000 (or_value (get "priority" payload) (number 100))
          "invalid_policy_priority"
        >>= λ priority. normalize_selectors os (get "selectors" payload) >>= λ selectors.
            policy_config os policy_type (get "config" payload) >>= λ config. made (
              object (
                field "companyId" (text company) (
                  field "name" (text name) (
                    field "description" description (
                      field "policyType" (text policy_type) (
                        field "priority" (number priority) (
                          field "enabled" (boolean true) (
                            field "selectors" selectors
                              (field "conditions" null (field "config" config no_field)))))))))))

unfoldable pub normalize_activity : Host → Json → Made Json
unfolding get require_guid require_between require_tool_name
normalize_activity os payload =
    require_guid os (get "companyId" payload) "company_id" >>= λ company.
    require_guid os (get "connectionId" payload) "connection_id" >>= λ connection.
    require_between os 1 100 (or_value (get "limit" payload) (number 20)) "invalid_activity_limit"
    >>= λ limit. require_guid os (get "runId" payload) "run_id" >>= λ run.
        require_tool_name os (get "toolName" payload) "tool_name" >>= λ tool. made (
          object (
            field "companyId" (text company) (
              field "connectionId" (text connection) (
                field "limit" (number limit)
                  (field "runId" (text run) (field "toolName" (text tool) no_field))))))

unfoldable pub normalize_delete : Host → String → Json → Made Json
unfolding get require_guid require_text
normalize_delete os company payload =
    require_guid os (get "policyId" payload) "policy_id" >>= λ policy.
    require_text os 160 (get "expectedName" payload) "invalid_expected_name" >>= λ expected. made (
      object (
        field "companyId" (text company)
          (field "policyId" (text policy) (field "expectedName" (text expected) no_field))))

-- A record, or null where the value is null or left out.
abbrev pub record_or_null : Json → Made Json
record_or_null undefined = made null
record_or_null null = made null
record_or_null value = as_record value

unfoldable pub normalize_test : Host → String → Json → Made Json
unfolding get includes require_text
normalize_test os company payload = as_record (get "actor" payload) >>= λ actor.
    as_record (get "request" payload) >>= λ request.
    unless_thrown
      (includes (text_or_empty os (get "actorType" actor))
        ("agent" ∷ "user" ∷ "system" ∷ "plugin" ∷ []))
      "invalid_actor_type"
      (require_text os 240 (get "actorId" actor) "invalid_actor_id" >>= λ actor_id.
        require_text os 240 (get "toolName" request) "invalid_tool_name" >>= λ tool_name.
        record_or_null (get "runContext" payload) >>= λ run_context. made (
          object (
            field "companyId" (text company) (
              field "actor" actor (
                field "runContext" run_context (
                  field "request" request (
                    field "consumeRateLimit" (boolean false)
                      (field "writeAuditEvent" (boolean false) no_field))))))))

-- The operations that name a company first.
unfoldable pub normalize_company : Host → Operation → String → Json → Made Json
unfolding normalize_delete normalize_create normalize_test
normalize_company os tool_policies_list company payload =
    made (object (field "companyId" (text company) no_field))
normalize_company os tool_policy_delete company payload = normalize_delete os company payload
normalize_company os tool_policy_create company payload = normalize_create os company payload
normalize_company os _ company payload = normalize_test os company payload

unfoldable pub normalize_operation : Host → Operation → Json → Made Json
unfolding get require_between require_guid normalize_activity normalize_company
normalize_operation os task_drain_status payload = made (object no_field)
normalize_operation os task_drain_stop payload = made (object no_field)
normalize_operation os task_drain_start payload =
    require_between os 1 86_400_000 (get "ttlMs" payload) "invalid_ttl_ms" >>= λ ttl.
    made (object (field "ttlMs" (number ttl) no_field))
normalize_operation os tool_connection_activity_safe payload = normalize_activity os payload
normalize_operation os op payload =
    require_guid os (get "companyId" payload) "company_id" >>= λ company.
    normalize_company os op company payload

unfoldable pub normalize_paperclip_semantic_payload : Host → Operation → Json → Made Json
unfolding normalize_operation
normalize_paperclip_semantic_payload os op value =
    as_record (or_value value (object no_field)) >>= normalize_operation os op

abbrev pub tsx_loader : String
tsx_loader = "/app/server/node_modules/tsx/dist/loader.mjs"

unfoldable pub paperclip_semantic_exec_command : Host → Operation → Json → Made (List String)
unfolding text_length
paperclip_semantic_exec_command os op payload =
    unless_thrown (leb (text_length (os.base64url payload)) 180_000) "paperclip_payload_too_large" (
      made (
        "node"
        ∷ "--import"
        ∷ tsx_loader
        ∷ "--input-type=module"
        ∷ "-e"
        ∷ os.semantic_script
        ∷ name_of op
        ∷ os.base64url payload
        ∷ []))
