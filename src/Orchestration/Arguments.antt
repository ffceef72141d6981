-- ===== src/Orchestration/Arguments.antt =====
-- src/erp_ai/orchestration/models.py: the JSON text of a tool call's arguments, and the model of a
-- tool call with the check that the text and the parsed value agree. Freezing a value and thawing
-- it again are the identity on the values of the model.
use Prim.Native.String.{len}
use ai_systems_try.Base.{
  ℕ, String, Bool, true, false, not, ◌&&◌, ◌||◌, Option, none, some, ltb, contains, ◌==◌, string_eq,
  if◌then◌else◌,
}
use ai_systems_try.Json.{
  Json, null, boolean, integer, float, text, array, object, Items, none_left, item, Fields, end,
  field, field_names, has_safe_numbers, json_depth_and_nodes,
}
use ai_systems_try.Orchestration.{ModelToolCall, Validation, JsonText}

abbrev pub maximum_tool_argument_bytes : ℕ
maximum_tool_argument_bytes = 16_384

abbrev pub maximum_argument_depth : ℕ
maximum_argument_depth = 10

abbrev pub maximum_argument_nodes : ℕ
maximum_argument_nodes = 512

-- Whether `_object_without_duplicate_keys` returns on every object of the value.
unfoldable mutual
  pub has_unique_keys : Json → Bool
  has_unique_keys null = true
  has_unique_keys (boolean b) = true
  has_unique_keys (integer s n) = true
  has_unique_keys (float t f) = true
  has_unique_keys (text t) = true
  has_unique_keys (array xs) = items_unique xs
  has_unique_keys (object fs) = fields_unique fs

  pub items_unique : Items → Bool
  items_unique none_left = true
  items_unique (item x xs) = has_unique_keys x && items_unique xs

  pub fields_unique : Fields → Bool
  fields_unique end = true
  fields_unique (field key x fs) =
      not (contains (field_names fs) key) && has_unique_keys x && fields_unique fs

abbrev pub is_object : Json → Bool
is_object (object fs) = true
is_object _ = false

-- The tests on a parsed value, in the order of the code.
unfoldable pub accepts_arguments : Json → Bool
accepts_arguments parsed =
    has_unique_keys parsed
    && is_object parsed
    && has_safe_numbers parsed
    && not (
        ltb maximum_argument_depth (json_depth_and_nodes parsed 1).0
        || ltb maximum_argument_nodes (json_depth_and_nodes parsed 1).1)

abbrev accepted : Option Json → Option Json
accepted none = none
accepted (some parsed) = if accepts_arguments parsed then some parsed else none

-- `_parse_arguments_json`; `none` stands for its `ValueError`.
unfoldable pub parse_arguments_json : JsonText → String → Option Json
unfolding accepts_arguments
parse_arguments_json json value =
    if ltb maximum_tool_argument_bytes (len value) then none else accepted (json.loads value)

-- `_json_values_equivalent`: the canonical texts are equal.
unfoldable pub json_values_equivalent : JsonText → Json → Json → Bool
json_values_equivalent json left right = json.dumps left == json.dumps right

-- `raw_and_parsed_arguments_match`
abbrev pub arguments_match : JsonText → ModelToolCall → Option Json → Bool
arguments_match json call none = false
arguments_match json call (some parsed) = json_values_equivalent json parsed call.arguments

abbrev checked_call : JsonText → Option ModelToolCall → Option ModelToolCall
checked_call json none = none
checked_call json (some call) =
    if arguments_match json call (parse_arguments_json json call.arguments_json)
    then some call
    else none

abbrev built_call :
    Validation → JsonText → String → String → String → String → Option Json → Option ModelToolCall
built_call pydantic json call_id tool_name version arguments_json none = none
built_call pydantic json call_id tool_name version arguments_json (some parsed) =
    checked_call json (
      pydantic.validate_call (record {
        call_id = call_id;
        tool_name = tool_name;
        version = version;
        arguments_json = arguments_json;
        arguments = parsed;
      }))

-- `from_arguments_json`; `none` stands for an exception.
unfoldable pub from_arguments_json :
    Validation → JsonText → String → String → String → String → Option ModelToolCall
from_arguments_json pydantic json call_id tool_name version arguments_json =
    built_call pydantic json call_id tool_name version arguments_json
      (parse_arguments_json json arguments_json)
