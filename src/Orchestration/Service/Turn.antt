-- ===== src/Orchestration/Service/Turn.antt =====
-- src/erp_ai/orchestration/service.py: one round of the loop of `execute`, from the transcript's
-- budgets to the end of the run or the next round.
pub mod Endings
pub mod Calls
pub mod Rounds
use Prim.Native.String.{count}
use ai_systems_try.Base.{
  ℕ, ◌+◌, String, Bool, true, false, not, ◌&&◌, ◌||◌, Option, none, some, List, [], ◌∷◌, ◌++◌, ltb,
  ◌==◌, string_eq, nat_eq, option_eq, if◌then◌else◌,
}
use ai_systems_try.Base.Dict
use ai_systems_try.Context.{TrustedRequestContext}
use ai_systems_try.Capability.{DataClassification}
use ai_systems_try.Capability.Access.{is_empty}
use ai_systems_try.Tools.{
  ToolErrorCode, Outcome, succeeded, failed, PublicToolSuccess, PublicToolFailure, PublicToolResult,
  success, failure, ToolInvocation,
}
use ai_systems_try.Tools.Gateway
use ai_systems_try.Orchestration.{
  AgentErrorCode, agent_unavailable, agent_limit_reached, invalid_model_response, audit_unavailable,
  AnswerBasis, general, AgentRouteMode, general_only, exact_read_then_final, AgentRoutingPolicy,
  is_exact_route, ToolSelectionMode, no_tools, required_exact_tool, final_only, ModelToolSelection,
  PublicCitation, PublicChatSuccess, chat_success, ModelToolDefinition, ModelFinalAnswer,
  ModelToolCall, ToolResultMessage, ModelToolInteraction, ModelTurnRequest,
}
use ai_systems_try.Orchestration.Arguments.{from_arguments_json, json_values_equivalent}
use ai_systems_try.Orchestration.Transcript
use ai_systems_try.Orchestration.Transcript.{
  AgentReason, Failure, transcript_failure, validate_turn, validate_interaction,
  exceeds_argument_limits,
}
use ai_systems_try.Orchestration.Grounding.{
  Observed, Evidence, observe_citations, validate_grounding, matches_exact_route_grounding,
}
use ai_systems_try.Orchestration.Service.{
  PublicChatRequest, ModelReply, provider_raised, other_response, final_answer, tool_call,
  AgentState, AgentOrchestrator, Run, finish, finish_failure, is_routed,
}

-- What does not change in the rounds of one run.
pub record Request : Type 0 where
  pub context : TrustedRequestContext
  pub message : String
  pub response_language : String
  pub routing : AgentRoutingPolicy
  pub tools : List ModelToolDefinition
  pub maximum_data_classification : DataClassification

-- The variables of the loop.
pub record Progress : Type 0 where
  pub interactions : List ModelToolInteraction
  pub citations : Observed
  pub successful_calls : Evidence

-- A round ends the run or goes on.
pub data Round : Type 0 where
  ended : Run → Round
  next_round : Progress → AgentState → Round

-- The loop is left, or its next round Follows.
abbrev pub after_round : Round → (Progress → AgentState → Run) → Run
after_round (ended run) next = run
after_round (next_round progress state) next = next progress state

abbrev pub selection_for : AgentRoutingPolicy → ℕ → ModelToolSelection
selection_for routing turn_number =
    if not (is_exact_route routing.mode)
    then record { mode = no_tools; tool_name = none; version = none }
    else if turn_number == 1
    then record {
      mode = required_exact_tool;
      tool_name = routing.tool_name;
      version = routing.version;
    }
    else record { mode = final_only; tool_name = none; version = none }

abbrev pub turn_tools : Request → ℕ → List ModelToolDefinition
turn_tools request turn_number =
    if is_exact_route request.routing.mode && turn_number == 1 then request.tools else []

abbrev pub turn_request : Request → List ModelToolInteraction → ℕ → ModelTurnRequest
turn_request request transcript turn_number = record {
  user_message = request.message;
  response_language = request.response_language;
  tools = turn_tools request turn_number;
  tool_selection = selection_for request.routing turn_number;
  interactions = transcript;
  turn_number = turn_number;
  routing_customer_environment_id = request.context.customer_environment_id;
  maximum_data_classification = request.maximum_data_classification;
  purpose = request.context.purpose;
}

abbrev pub is_general_answer : ModelFinalAnswer → Bool
is_general_answer answer =
    (elim answer.answer_basis [ some general ↦ true | _ ↦ false ])
    && is_empty answer.evidence_call_ids
    && is_empty answer.citation_ids

-- The citations of an accepted answer: those of `_validate_grounding`, with the rules of the route.
unfoldable pub accepted_citations :
    AgentRouteMode → ModelFinalAnswer → Progress → Option (List PublicCitation)
accepted_citations mode answer progress =
    let grounded = validate_grounding answer progress.successful_calls progress.citations in
    if not (is_exact_route mode)
    then (if is_general_answer answer then grounded else none)
    else if matches_exact_route_grounding answer progress.successful_calls
    then grounded
    else none

abbrev pub interaction_of : ModelToolCall → PublicToolSuccess → ModelToolInteraction
interaction_of call result = record {
  assistant_call = call;
  tool_result = record {
    call_id = call.call_id;
    tool_name = call.tool_name;
    result = success result;
  };
}

module _ (agent : AgentOrchestrator) (request : Request) where
  open agent use {tool_gateway, limits, pydantic, json}
  open request use {context, routing}

  abbrev fail : AgentErrorCode → AgentReason → AgentState → Round
  fail code reason state = ended (finish_failure agent context code reason state)

  -- The public result is a model of its own, and its validation may raise.
  publish : ModelFinalAnswer → Option (List PublicCitation) → AgentState → Round
  publish answer none state =
      fail invalid_model_response AgentReason.citation_validation_failed state
  publish answer (some citations) state =
      let value : PublicChatSuccess = record {
        answer = answer.answer;
        response_language = request.response_language;
        citations = citations;
      } in
      if pydantic.accepts_success value
      then ended (finish agent context (chat_success value) succeeded AgentReason.completed state)
      else ended (none, state)

  unfoldable pub handle_answer : ModelFinalAnswer → Progress → ℕ → AgentState → Round
  unfolding publish accepted_citations
  handle_answer answer progress turn_number state =
      if is_exact_route routing.mode && turn_number == 1
      then fail invalid_model_response AgentReason.required_tool_call_missing state
      else if ltb limits.maximum_final_answer_characters (count answer.answer)
      then fail agent_limit_reached AgentReason.final_answer_limit_reached state
      else publish answer (accepted_citations routing.mode answer progress) state

  -- The evidence of the call is kept with the citations that it made observable.
  keep_evidence :
      ModelToolCall
      → ModelToolInteraction
      → Progress
      → Option (List String × Observed)
      → AgentState
      → Round
  keep_evidence call interaction progress none state =
      fail invalid_model_response AgentReason.citation_metadata_conflict state
  keep_evidence call interaction progress (some (call_citations, observed)) state =
      next_round
        (record {
          interactions = progress.interactions ++ interaction ∷ [];
          citations = observed;
          successful_calls =
              Dict.insert call.call_id
                (record {
                  call_id = call.call_id;
                  tool_name = call.tool_name;
                  version = call.version;
                  is_knowledge = call.tool_name == "search_hr_knowledge";
                  citation_ids = call_citations;
                })
                progress.successful_calls;
        })
        state

  -- The construction of the interaction validates it, and an exception leaves the run.
  keep_result : ModelToolCall → PublicToolSuccess → Progress → AgentState → Round
  keep_result call result progress state =
      let interaction = interaction_of call result in
      if not (validate_interaction pydantic json interaction)
      then ended (none, state)
      else elim (transcript_failure pydantic json limits
          (progress.interactions ++ interaction ∷ [])) [
            | some (code, reason) ↦ fail code reason state
            | none ↦
                keep_evidence call interaction progress
                  (observe_citations result progress.citations) state
          ]

  abbrev is_audit_failure : PublicToolFailure → Bool
  is_audit_failure f = elim f.safe_error_code [ ToolErrorCode.audit_unavailable ↦ true | _ ↦ false ]

  handle_result : ModelToolCall → PublicToolResult → Progress → AgentState → Round
  handle_result call (failure f) progress state =
      if is_audit_failure f
      then fail audit_unavailable AgentReason.tool_audit_unavailable state
      else fail agent_unavailable AgentReason.routed_tool_failed state
  handle_result call (success result) progress state = keep_result call result progress state

  -- The gateway runs on the validated call.
  invoke : ModelToolCall → Progress → AgentState → Round
  invoke call progress state =
      let (result, trace) =
        Gateway.execute tool_gateway context
          (record {
            tool_name = call.tool_name;
            version = call.version;
            arguments = call.arguments;
          })
          state.tools in
      handle_result call result progress (record state { tools = trace })

  check_call : ModelToolCall → Progress → AgentState → Round
  check_call call progress state =
      if not (is_routed routing call.tool_name call.version)
      then fail invalid_model_response AgentReason.routed_tool_mismatch state
      else if exceeds_argument_limits limits call
      then fail agent_limit_reached AgentReason.tool_argument_limit_reached state
      else invoke call progress state

  -- The call is rebuilt from its raw JSON, which must agree with the parsed value.
  pub revalidated : ModelToolCall → Option ModelToolCall
  revalidated call =
      elim (from_arguments_json pydantic json call.call_id call.tool_name call.version
        call.arguments_json) [
          | none ↦ none
          | some validated ↦
              if json_values_equivalent json validated.arguments call.arguments
              then some validated
              else none
        ]

  unfoldable pub handle_call : ModelToolCall → Progress → ℕ → AgentState → Round
  unfolding check_call invoke handle_result keep_result keep_evidence revalidated
  handle_call call progress turn_number state =
      if not (is_exact_route routing.mode) || not (turn_number == 1)
      then fail invalid_model_response AgentReason.tool_call_not_allowed state
      else elim (revalidated call) [
        | none ↦ fail invalid_model_response AgentReason.invalid_model_tool_call state
        | some validated ↦ check_call validated progress state
      ]

  handle_reply : ModelReply → Progress → ℕ → AgentState → Round
  handle_reply provider_raised progress turn_number state =
      fail agent_unavailable AgentReason.model_provider_failed state
  handle_reply other_response progress turn_number state =
      fail invalid_model_response AgentReason.wrong_model_response state
  handle_reply (final_answer answer) progress turn_number state =
      handle_answer answer progress turn_number state
  handle_reply (tool_call call) progress turn_number state =
      handle_call call progress turn_number state

  -- The turn is a model too, and an exception of its validation leaves the run.
  send_turn : Progress → ℕ → AgentState → Round
  unfolding handle_reply
  send_turn progress turn_number state =
      let turn = turn_request request progress.interactions turn_number in
      if not (validate_turn pydantic json turn)
      then ended (none, state)
      else handle_reply (agent.complete_turn state turn) progress turn_number
          (record state { turns = state.turns ++ turn ∷ [] })

  budgeted : Option Failure → Progress → ℕ → AgentState → Round
  budgeted (some (code, reason)) progress turn_number state = fail code reason state
  budgeted none progress turn_number state = send_turn progress turn_number state

  unfoldable pub round : Progress → ℕ → AgentState → Round
  unfolding send_turn budgeted
  round progress turn_number state =
      budgeted (transcript_failure pydantic json limits progress.interactions) progress turn_number
        state

  -- `for turn_number in range(...)`, with the number of rounds that are left.
  unfoldable pub rounds : ℕ → ℕ → Progress → AgentState → Run
  rounds Prim.Native.Nat.zero turn_number progress state =
      finish_failure agent context invalid_model_response AgentReason.route_not_completed state
  rounds (Prim.Native.Nat.suc left) turn_number progress state =
      after_round (round progress turn_number state)
        (λ progress' state'. rounds left (turn_number + 1) progress' state')
