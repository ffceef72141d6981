-- ===== src/Orchestration/Transcript.antt =====
-- src/erp_ai/orchestration/models.py and service.py: the pairing of a call with its result, the
-- rules of a model turn, and the recomputation of every transcript budget.
pub mod Laws
use Prim.Native.String.{len}
use ai_systems_try.Base.{
  ℕ, ◌+◌, String, Bool, true, false, not, ◌&&◌, ◌||◌, Option, none, some, List, [], ◌∷◌, ◌++◌, map,
  ltb, length, all, contains, has_unique, ◌==◌, string_eq, nat_eq, option_eq, if◌then◌else◌,
}
use ai_systems_try.Context.{is_some}
use ai_systems_try.Json.{json_depth_and_nodes}
use ai_systems_try.Capability.Access.{is_empty}
use ai_systems_try.Tools.{
  ToolErrorCode, ToolOutput, PublicToolSuccess, PublicToolFailure, PublicToolResult, success,
  failure,
}
use ai_systems_try.Orchestration.{
  AgentErrorCode, agent_limit_reached, invalid_model_response, ToolSelectionMode, no_tools,
  required_exact_tool, final_only, ModelToolSelection, ModelToolDefinition, ModelToolCall,
  ToolResultMessage, ModelToolInteraction, ModelTurnRequest, AgentLimits, Validation, JsonText,
  validate_selection,
}
use ai_systems_try.Orchestration.Arguments.{from_arguments_json}

abbrev pub result_name : PublicToolResult → String
result_name (success s) = s.tool_name
result_name (failure f) = f.tool_name

abbrev pub result_version : PublicToolResult → String
result_version (success s) = s.version
result_version (failure f) = f.version

-- The equations of `pair_call_and_result`.
abbrev pub is_paired : ModelToolInteraction → Bool
is_paired interaction =
    let call = interaction.assistant_call in
    let message = interaction.tool_result in
    call.call_id == message.call_id
    && call.tool_name == message.tool_name
    && call.tool_name == result_name message.result
    && call.version == result_version message.result

-- `pair_call_and_result`, the validation of an interaction: whether it returns.
unfoldable pub validate_interaction : Validation → JsonText → ModelToolInteraction → Bool
validate_interaction pydantic json interaction =
    let call = interaction.assistant_call in
    is_some (
      from_arguments_json pydantic json call.call_id call.tool_name call.version
        call.arguments_json)
    && pydantic.accepts_message interaction.tool_result
    && is_paired interaction

abbrev pub call_ids_of : List ModelToolInteraction → List String
call_ids_of = map (λ interaction. interaction.assistant_call.call_id)

abbrev is_success_result : PublicToolResult → Bool
is_success_result (success s) = true
is_success_result (failure f) = false

abbrev pub is_exact_catalog : List ModelToolDefinition → ModelToolSelection → Bool
is_exact_catalog (exposed ∷ []) selection =
    some exposed.tool_name == selection.tool_name && some exposed.version == selection.version
is_exact_catalog _ selection = false

abbrev pub is_one_success : List ModelToolInteraction → Bool
is_one_success (interaction ∷ []) = is_success_result interaction.tool_result.result
is_one_success _ = false

-- The rules for each selection mode: which tools and interactions the turn may carry.
abbrev pub fits_selection : ToolSelectionMode → ModelTurnRequest → Bool
fits_selection no_tools turn = is_empty turn.tools && is_empty turn.interactions
fits_selection required_exact_tool turn =
    is_empty turn.interactions && is_exact_catalog turn.tools turn.tool_selection
fits_selection final_only turn = is_empty turn.tools && is_one_success turn.interactions

-- `validate_interactions`, the validation of a turn: whether it returns.
unfoldable pub validate_turn : Validation → JsonText → ModelTurnRequest → Bool
unfolding validate_interaction validate_selection
validate_turn pydantic json turn =
    pydantic.accepts_turn turn
    && validate_selection turn.tool_selection
    && has_unique (call_ids_of turn.interactions)
    && all (validate_interaction pydantic json) turn.interactions
    && fits_selection turn.tool_selection.mode turn

-- The reasons that the orchestrator records.
pub data AgentReason : Type 0 where
  invalid_route user_message_limit_reached tool_catalog_limit_reached : AgentReason
  route_not_authorized route_resource_limit_reached tool_call_limit_reached : AgentReason
  duplicate_call_id tool_argument_limit_reached invalid_interaction_transcript : AgentReason
  tool_result_size_limit_reached model_provider_failed required_tool_call_missing : AgentReason
  final_answer_limit_reached citation_validation_failed completed : AgentReason
  wrong_model_response tool_call_not_allowed invalid_model_tool_call : AgentReason
  routed_tool_mismatch tool_audit_unavailable routed_tool_failed : AgentReason
  citation_metadata_conflict route_not_completed : AgentReason

abbrev pub Failure : Type 0
Failure = AgentErrorCode × AgentReason

-- The three limits on a call's arguments, also tested before the tool runs.
abbrev pub exceeds_argument_limits : AgentLimits → ModelToolCall → Bool
exceeds_argument_limits limits call =
    let (depth, nodes) = json_depth_and_nodes call.arguments 1 in
    ltb limits.maximum_tool_argument_bytes (len call.arguments_json)
    || ltb limits.maximum_argument_depth depth
    || ltb limits.maximum_argument_nodes nodes

module _ (pydantic : Validation) (json : JsonText) (limits : AgentLimits) where
  abbrev result_bytes : ModelToolInteraction → ℕ
  result_bytes interaction = len (json.dumps (pydantic.dump_message interaction.tool_result))

  -- The loop of `_transcript_failure`, over the call IDs and the bytes so far.
  scan_transcript : List ModelToolInteraction → List String → ℕ → Option Failure
  scan_transcript [] call_ids bytes =
      if ltb limits.maximum_tool_result_bytes bytes
      then some (agent_limit_reached, tool_result_size_limit_reached)
      else none
  scan_transcript (interaction ∷ rest) call_ids bytes =
      let call = interaction.assistant_call in
      let more =
        scan_transcript rest (call.call_id ∷ call_ids) (bytes + result_bytes interaction) in
      if not (validate_interaction pydantic json interaction)
      then some (invalid_model_response, invalid_interaction_transcript)
      else if contains call_ids call.call_id
      then some (invalid_model_response, duplicate_call_id)
      else if exceeds_argument_limits limits call
      then some (agent_limit_reached, tool_argument_limit_reached)
      else more

  -- `_transcript_failure`
  unfoldable pub transcript_failure : List ModelToolInteraction → Option Failure
  unfolding scan_transcript
  transcript_failure interactions =
      if ltb limits.maximum_tool_calls (length interactions)
      then some (agent_limit_reached, tool_call_limit_reached)
      else scan_transcript interactions [] 0
