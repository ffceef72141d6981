-- ===== src/Orchestration/Service/Run/Laws.antt =====
-- Every run of the orchestrator ends in an exception, a failure or an accepted answer.
use Prim.Native.String.{count}
use ai_systems_try.Base.{
  ◌≡◌, refl, Bool, true, false, not, ◌||◌, List, [], ◌∷◌, ltb, string_eq, if◌then◌else◌,
}
use ai_systems_try.Context.{TrustedRequestContext}
use ai_systems_try.Capability.{DataClassification, ToolDescriptor}
use ai_systems_try.Orchestration.{
  agent_limit_reached, agent_catalog_limit, invalid_model_response, AgentRouteMode, general_only,
  exact_read_then_final, AgentRoutingPolicy, validate_route, ModelToolDefinition,
}
use ai_systems_try.Orchestration.Transcript.{
  invalid_route, user_message_limit_reached, tool_catalog_limit_reached, route_not_authorized,
  route_resource_limit_reached,
}
use ai_systems_try.Orchestration.Service.{
  PublicChatRequest, AgentState, AgentOrchestrator, Run, finish_failure, authorized_catalog,
  exceeds_catalog_limits, maximum_classification,
}
use ai_systems_try.Orchestration.Service.Run.{execute_exact, execute_route, execute}
use ai_systems_try.Orchestration.Service.Run.Rounds.{
  RunEnding, fails_early, general_rounds, exact_rounds,
}

module _ (agent : AgentOrchestrator) (context : TrustedRequestContext) (request : PublicChatRequest)
    (routing : AgentRoutingPolicy) where
  open agent use {limits}

  if_Ending :
      (mode : AgentRouteMode) (before : AgentState) (b : Bool) (x y : Run)
      → RunEnding agent context request routing mode before x
      → RunEnding agent context request routing mode before y
      → RunEnding agent context request routing mode before (if b then x else y)
  if_Ending mode before true x y f g = f
  if_Ending mode before false x y f g = g

  not_authorized :
      (before : AgentState)
      → RunEnding agent context request routing exact_read_then_final before
          (finish_failure agent context invalid_model_response route_not_authorized before)
  not_authorized before =
      fails_early agent context request routing exact_read_then_final before invalid_model_response
        route_not_authorized refl

  exact_ending :
      (tools : List ModelToolDefinition) (descriptors : List ToolDescriptor) (before : AgentState)
      → routing.mode ≡ exact_read_then_final
      → RunEnding agent context request routing exact_read_then_final before
          (execute_exact agent context request routing tools descriptors before)
  unfolding execute_exact
  exact_ending (tool ∷ []) (descriptor ∷ []) before m =
      if_Ending exact_read_then_final before
        (ltb limits.maximum_tool_calls 1 || ltb limits.maximum_model_turns 2) _ _
        (fails_early agent context request routing exact_read_then_final before agent_limit_reached
          route_resource_limit_reached refl)
        (exact_rounds agent context request routing (tool ∷ [])
          (maximum_classification agent descriptor.data_classification) before m)
  exact_ending [] descriptors before m = not_authorized before
  exact_ending (tool ∷ more ∷ tools) descriptors before m = not_authorized before
  exact_ending (tool ∷ []) [] before m = not_authorized before
  exact_ending (tool ∷ []) (descriptor ∷ more ∷ descriptors) before m = not_authorized before

  route-Ending :
      (mode : AgentRouteMode) (tools : List ModelToolDefinition) (before : AgentState)
      → routing.mode ≡ mode
      → RunEnding agent context request routing mode before
          (execute_route agent context request routing mode tools before)
  unfolding execute_route
  route-Ending general_only tools before m =
      general_rounds agent context request routing [] DataClassification.restricted before m
  route-Ending exact_read_then_final tools before m = exact_ending _ _ before m

  -- Every run ends in one of the three ways.
  pub execute-Ending :
      (before : AgentState)
      → RunEnding agent context request routing routing.mode before
          (execute agent context request routing before)
  unfolding execute
  execute-Ending before =
      if_Ending routing.mode before (not (validate_route routing)) _ _
        (fails_early agent context request routing routing.mode before invalid_model_response
          invalid_route refl)
        (if_Ending routing.mode before
          (ltb limits.maximum_user_message_characters (count request.message)) _ _
          (fails_early agent context request routing routing.mode before agent_limit_reached
            user_message_limit_reached refl)
          (if_Ending routing.mode before
            (exceeds_catalog_limits agent (authorized_catalog agent context)) _ _
            (fails_early agent context request routing routing.mode before agent_catalog_limit
              tool_catalog_limit_reached refl)
            (route-Ending routing.mode (authorized_catalog agent context) before refl)))
