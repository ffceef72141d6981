-- ===== src/Orchestration/Service/Run.antt =====
-- src/erp_ai/orchestration/service.py: `execute`, from the validation of the route to the rounds.
pub mod Endings
pub mod Rounds
pub mod Laws
pub mod Audit
pub mod Success
use Prim.Native.String.{count}
use ai_systems_try.Base.{
  ℕ, String, Bool, true, false, not, ◌&&◌, ◌||◌, Option, none, some, List, [], ◌∷◌, keep, ltb, ◌==◌,
  string_eq, option_eq, if◌then◌else◌,
}
use ai_systems_try.Context.{TrustedRequestContext}
use ai_systems_try.Capability.{DataClassification, restricted, ToolDescriptor}
use ai_systems_try.Capability.Registry.Laws.{all_tools}
use ai_systems_try.Orchestration.{
  agent_limit_reached, agent_catalog_limit, invalid_model_response, AgentRouteMode, general_only,
  exact_read_then_final, AgentRoutingPolicy, validate_route, ModelToolDefinition,
}
use ai_systems_try.Orchestration.Transcript.{
  invalid_route, user_message_limit_reached, tool_catalog_limit_reached, route_not_authorized,
  route_resource_limit_reached,
}
use ai_systems_try.Orchestration.Service.{
  PublicChatRequest, AgentState, AgentOrchestrator, Run, finish_failure, authorized_catalog,
  exceeds_catalog_limits, response_language, maximum_classification, is_routed,
}
use ai_systems_try.Orchestration.Service.Turn.{Request, Progress, rounds}

abbrev pub no_progress : Progress
no_progress = record { interactions = []; citations = []; successful_calls = [] }

module _ (agent : AgentOrchestrator) (context : TrustedRequestContext) (request : PublicChatRequest)
    (routing : AgentRoutingPolicy) where
  open agent use {tool_gateway, limits}

  -- The values that the rounds of this run share.
  abbrev pub run_request : List ModelToolDefinition → DataClassification → Request
  run_request tools classification = record {
    context = context;
    message = request.message;
    response_language = response_language agent context request;
    routing = routing;
    tools = tools;
    maximum_data_classification = classification;
  }

  unfoldable pub execute_exact : List ModelToolDefinition → List ToolDescriptor → AgentState → Run
  execute_exact (tool ∷ []) (descriptor ∷ []) state =
      if ltb limits.maximum_tool_calls 1 || ltb limits.maximum_model_turns 2
      then finish_failure agent context agent_limit_reached route_resource_limit_reached state
      else let classification = maximum_classification agent descriptor.data_classification in
        rounds agent (run_request (tool ∷ []) classification) 2 1 no_progress state
  execute_exact tools descriptors state =
      finish_failure agent context invalid_model_response route_not_authorized state

  -- The part of `execute` behind the limits on the catalog.
  unfoldable pub execute_route : AgentRouteMode → List ModelToolDefinition → AgentState → Run
  execute_route general_only authorized_tools state =
      rounds agent (run_request [] restricted) 1 1 no_progress state
  execute_route exact_read_then_final authorized_tools state =
      execute_exact (keep (λ tool. is_routed routing tool.tool_name tool.version) authorized_tools)
        (keep (λ tool. is_routed routing tool.tool_name tool.version)
          (all_tools tool_gateway.registry.manifests))
        state

  unfoldable pub execute : AgentState → Run
  execute state =
      let authorized_tools = authorized_catalog agent context in
      if not (validate_route routing)
      then finish_failure agent context invalid_model_response invalid_route state
      else if ltb limits.maximum_user_message_characters (count request.message)
      then finish_failure agent context agent_limit_reached user_message_limit_reached state
      else if exceeds_catalog_limits agent authorized_tools
      then finish_failure agent context agent_catalog_limit tool_catalog_limit_reached state
      else execute_route routing.mode authorized_tools state
