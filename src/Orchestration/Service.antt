-- ===== src/Orchestration/Service.antt =====
-- src/erp_ai/orchestration/service.py: one bounded agent run. The state is what the run did to the
-- outside: the model turns sent, the tool calls and records made, and the audit events. The model
-- provider and the audit sink answer by that state.
pub mod Turn
pub mod Run
use Prim.Native.String.{count, len}
use ai_systems_try.Base.{
  ℕ, ◌+◌, String, Bool, true, false, not, ◌&&◌, ◌||◌, Option, none, some, List, [], ◌∷◌, ◌++◌, map,
  ltb, length, keep, contains, ◌==◌, Eq, string_eq, nat_eq, option_eq, if◌then◌else◌,
}
use ai_systems_try.Base.Sort.{sorted, string_ord}
use ai_systems_try.Context.{TrustedRequestContext}
use ai_systems_try.Json.{Json, array, Items, none_left, item}
use ai_systems_try.Capability.{DataClassification, restricted, ToolDescriptor}
use ai_systems_try.Capability.Registry.Laws.{all_tools}
use ai_systems_try.Capability.Access.{ModelToolDescriptor, evaluate_capability_access}
use ai_systems_try.Knowledge.{classification_rank}
use ai_systems_try.Tools.{Trace, Outcome, succeeded, failed}
use ai_systems_try.Tools.Gateway
use ai_systems_try.Tools.Gateway.{ReadToolGateway, exposed_tools}
use ai_systems_try.Orchestration.{
  AgentErrorCode, agent_unavailable, agent_limit_reached, agent_catalog_limit,
  invalid_model_response, audit_unavailable, AgentRoutingPolicy, PublicChatResult, chat_success,
  chat_failure, ModelToolDefinition, ModelFinalAnswer, ModelToolCall, ModelTurnRequest, AgentLimits,
  Validation, JsonText,
}
use ai_systems_try.Orchestration.Transcript.{AgentReason, Failure}

pub record AgentAuditEvent : Type 0 where
  pub request_id : String
  pub customer_environment_id : String
  pub user_id : String
  pub purpose : String
  pub outcome : Outcome
  pub internal_reason : AgentReason

unfoldable pub create_agent_audit_event :
    TrustedRequestContext → Outcome → AgentReason → AgentAuditEvent
create_agent_audit_event context outcome internal_reason = record {
  request_id = context.request_id;
  customer_environment_id = context.customer_environment_id;
  user_id = context.user_id;
  purpose = context.purpose;
  outcome = outcome;
  internal_reason = internal_reason;
}

pub record PublicChatRequest : Type 0 where
  pub message : String
  pub preferred_response_language : Option String

-- What `complete_turn` does: it raises, or returns an answer, a tool call or something else.
pub data ModelReply : Type 0 where
  provider_raised other_response : ModelReply
  final_answer : ModelFinalAnswer → ModelReply
  tool_call : ModelToolCall → ModelReply

pub record AgentState : Type 0 where
  pub turns : List ModelTurnRequest
  pub tools : Trace
  pub audits : List AgentAuditEvent

pub record AgentOrchestrator : Type 0 where
  pub tool_gateway : ReadToolGateway
  pub complete_turn : AgentState → ModelTurnRequest → ModelReply
  pub delivers : AgentState → AgentAuditEvent → Bool
  pub limits : AgentLimits
  pub pydantic : Validation
  pub json : JsonText

-- _SAFE_MESSAGES
unfoldable pub safe_message : AgentErrorCode → String
safe_message agent_unavailable = "The assistant is temporarily unavailable."
safe_message agent_limit_reached = "The assistant could not complete within safe limits."
safe_message agent_catalog_limit = "The authorized tool catalog exceeds safe limits."
safe_message invalid_model_response = "The assistant returned an invalid response."
safe_message audit_unavailable = "The assistant response could not be safely recorded."

abbrev pub public_failure : AgentErrorCode → PublicChatResult
public_failure code =
    chat_failure (record { safe_error_code = code; safe_message = safe_message code })

-- A run returns a result or, with `none`, lets an exception out.
abbrev pub Run : Type 0
Run = Option PublicChatResult × AgentState

abbrev catalog_items : Validation → List ModelToolDefinition → Items
catalog_items pydantic [] = none_left
catalog_items pydantic (tool ∷ rest) = item (pydantic.dump_tool tool) (catalog_items pydantic rest)

module _ (agent : AgentOrchestrator) where
  open agent use {tool_gateway, limits, pydantic, json}

  -- `_finish`
  unfoldable pub finish :
      TrustedRequestContext → PublicChatResult → Outcome → AgentReason → AgentState → Run
  unfolding create_agent_audit_event
  finish context result outcome internal_reason state =
      let event = create_agent_audit_event context outcome internal_reason in
      (
        some (if agent.delivers state event then result else public_failure audit_unavailable),
        record state { audits = state.audits ++ event ∷ [] },
      )

  -- `_finish_failure`
  unfoldable pub finish_failure :
      TrustedRequestContext → AgentErrorCode → AgentReason → AgentState → Run
  finish_failure context code internal_reason state =
      finish context (public_failure code) failed internal_reason state

  -- The loop of `_authorized_catalog`. An installed tool has a schema, so none is left out for
  -- want of one.
  definitions : List String → List ModelToolDescriptor → List ModelToolDefinition
  definitions installed [] = []
  definitions installed (tool ∷ rest) =
      let more = definitions installed rest in
      if not (contains installed tool.tool_name)
      then more
      else elim (Gateway.public_input_schema tool_gateway tool.tool_name) [
        | none ↦ more
        | some schema ↦
            record { tool_name = tool.tool_name; version = tool.version; input_schema = schema }
            ∷ more
      ]

  -- `_authorized_catalog`
  unfoldable pub authorized_catalog : TrustedRequestContext → List ModelToolDefinition
  unfolding definitions
  authorized_catalog context =
      let decision = evaluate_capability_access tool_gateway.registry context true in
      let installed = map (λ tool. tool.tool_name) (Gateway.available_tools tool_gateway context) in
      sorted (λ definition. definition.tool_name)
        (definitions installed (exposed_tools decision.model_capabilities))

  unfoldable pub exceeds_catalog_limits : List ModelToolDefinition → Bool
  exceeds_catalog_limits tools =
      ltb limits.maximum_model_tools (length tools)
      || ltb limits.maximum_tool_catalog_bytes
          (len (json.dumps (array (catalog_items pydantic tools))))

  unfoldable pub response_language : TrustedRequestContext → PublicChatRequest → String
  response_language context request = elim request.preferred_response_language [
    | none ↦ context.locale
    | some preferred ↦ if preferred == "" then context.locale else preferred
  ]

  -- `max((RESTRICTED, classification), key=...)`: the first of equal ranks.
  unfoldable pub maximum_classification : DataClassification → DataClassification
  maximum_classification classification =
      if ltb (classification_rank restricted) (classification_rank classification)
      then classification
      else restricted

abbrev pub is_routed : AgentRoutingPolicy → String → String → Bool
is_routed routing tool_name version =
    some tool_name == routing.tool_name && some version == routing.version
