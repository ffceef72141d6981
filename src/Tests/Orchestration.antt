-- ===== src/Tests/Orchestration.antt =====
-- A run of an exact route: the model calls the knowledge search and then cites its excerpt.
use ai_systems_try.Base.{
  ℕ, String, ◌≡◌, refl, Bool, true, false, Option, none, some, List, [], ◌∷◌, ◌++◌, string_eq,
  nat_eq, ◌==◌, if◌then◌else◌,
}
use ai_systems_try.Base.Dict
use ai_systems_try.Knowledge.{customer_policy}
use ai_systems_try.Json.{Json, null}
use ai_systems_try.Tools.{PublicToolSuccess}
use ai_systems_try.Orchestration.{
  AgentRoutingPolicy, exact_read_then_final, knowledge, PublicCitation, PublicChatSuccess,
  chat_success, ModelFinalAnswer, ModelToolCall, ModelTurnRequest, AgentLimits, Validation,
  JsonText,
}
use ai_systems_try.Orchestration.Grounding.{Observed, observe_citations}
use ai_systems_try.Orchestration.Grounding.Laws.{excerpts_of}
use ai_systems_try.Orchestration.Grounding.Observed.{
  Extends, AllObserved, IsObservation, observe_citations-IsObservation,
}
use ai_systems_try.Orchestration.Service.{
  PublicChatRequest, AgentState, AgentOrchestrator, ModelReply, final_answer, tool_call,
}
use ai_systems_try.Orchestration.Service.Run.{execute}
use ai_systems_try.Orchestration.Service.Run.Audit.{IsRunAudited, execute-IsRunAudited}
use ai_systems_try.Orchestration.Service.Run.Success.{
  IsBounded, execute-IsBounded, IsSuccessful, execute-IsSuccessful,
}
use ai_systems_try.Tests.Fixtures.{some_context, some_gateway, query_arguments, some_output}

abbrev some_limits : AgentLimits
some_limits = record {
  maximum_model_turns = 4;
  maximum_tool_calls = 4;
  maximum_tool_result_bytes = 1000;
  maximum_user_message_characters = 1000;
  maximum_final_answer_characters = 1000;
  maximum_tool_argument_bytes = 1000;
  maximum_argument_depth = 10;
  maximum_argument_nodes = 100;
  maximum_model_tools = 10;
  maximum_tool_catalog_bytes = 1000;
}

abbrev some_call : ModelToolCall
some_call = record {
  call_id = "call-1";
  tool_name = "search_hr_knowledge";
  version = "1.0.0";
  arguments_json = "{\"query\":\"leave\"}";
  arguments = query_arguments;
}

abbrev some_answer : ModelFinalAnswer
some_answer = record {
  answer = "Twenty days.";
  answer_basis = some knowledge;
  evidence_call_ids = "call-1" ∷ [];
  citation_ids = "cite-1" ∷ [];
}

abbrev reply_to : ModelTurnRequest → ModelReply
reply_to turn = if turn.turn_number == 1 then tool_call some_call else final_answer some_answer

abbrev accepting : Validation
accepting = record {
  validate_call = λ call. some call;
  accepts_message = λ message. true;
  accepts_turn = λ turn. true;
  accepts_success = λ value. true;
  dump_tool = λ tool. null;
  dump_message = λ message. null;
}

abbrev query_text : JsonText
query_text = record { loads = λ value. some query_arguments; dumps = λ value. "{}" }

abbrev pub some_agent : AgentOrchestrator
some_agent = record {
  tool_gateway = some_gateway;
  complete_turn = λ state turn. reply_to turn;
  delivers = λ state event. true;
  limits = some_limits;
  pydantic = accepting;
  json = query_text;
}

abbrev pub some_request : PublicChatRequest
some_request = record { message = "How much leave?"; preferred_response_language = none }

abbrev pub search_route : AgentRoutingPolicy
search_route = record {
  mode = exact_read_then_final;
  tool_name = some "search_hr_knowledge";
  version = some "1.0.0";
}

abbrev pub no_state : AgentState
no_state = record { turns = []; tools = []; audits = [] }

abbrev some_citation : PublicCitation
some_citation = record {
  citation_id = "cite-1";
  title = "Leave policy";
  section = "1";
  language = "en";
  source_type = customer_policy;
  document_version = "1.0.0";
}

abbrev pub some_success : PublicChatSuccess
some_success = record {
  answer = "Twenty days.";
  response_language = "en";
  citations = some_citation ∷ [];
}

pub execute_succeeds :
    (execute some_agent some_context some_request search_route no_state).0
    ≡ some (chat_success some_success)
unfolding execute ai_systems_try.Orchestration.validate_route
    ai_systems_try.Orchestration.Service.exceeds_catalog_limits
    ai_systems_try.Orchestration.Service.authorized_catalog ai_systems_try.Base.Sort.sorted
    ai_systems_try.Capability.Access.evaluate_capability_access string_eq
    ai_systems_try.Tools.Gateway.available_tools ai_systems_try.Tools.Gateway.public_input_schema
    Dict.get ai_systems_try.Orchestration.Service.Run.execute_route
    ai_systems_try.Orchestration.Service.Run.execute_exact ai_systems_try.Base.option_eq
    ai_systems_try.Orchestration.Service.Turn.rounds ai_systems_try.Orchestration.Service.Turn.round
    ai_systems_try.Orchestration.Transcript.transcript_failure
    ai_systems_try.Orchestration.Transcript.validate_turn nat_eq Dict.insert
    ai_systems_try.Base.list_eq ai_systems_try.Base.Text.string_le
    ai_systems_try.Json.contains_reserved_argument ai_systems_try.Json.has_safe_numbers
    ai_systems_try.Json.json_depth_and_nodes
    ai_systems_try.Orchestration.Arguments.accepts_arguments
    ai_systems_try.Orchestration.Arguments.from_arguments_json
    ai_systems_try.Orchestration.Arguments.has_unique_keys
    ai_systems_try.Orchestration.Arguments.json_values_equivalent
    ai_systems_try.Orchestration.Arguments.parse_arguments_json
    ai_systems_try.Orchestration.Grounding.basis_eq
    ai_systems_try.Orchestration.Grounding.citation_eq
    ai_systems_try.Orchestration.Grounding.fits_basis
    ai_systems_try.Orchestration.Grounding.is_well_formed
    ai_systems_try.Orchestration.Grounding.matches_exact_route_grounding observe_citations
    ai_systems_try.Orchestration.Grounding.to_citation
    ai_systems_try.Orchestration.Grounding.validate_grounding
    ai_systems_try.Orchestration.Service.Turn.accepted_citations
    ai_systems_try.Orchestration.Service.Turn.handle_answer
    ai_systems_try.Orchestration.Service.Turn.handle_call
    ai_systems_try.Orchestration.Service.finish
    ai_systems_try.Orchestration.Service.maximum_classification
    ai_systems_try.Orchestration.Service.response_language
    ai_systems_try.Orchestration.Transcript.validate_interaction
    ai_systems_try.Orchestration.validate_selection ai_systems_try.Tools.Gateway.execute
    ai_systems_try.Tools.Gateway.execute_read ai_systems_try.Tools.Gateway.finish_output
    ai_systems_try.Tools.Gateway.finish_raw ai_systems_try.Tools.Gateway.record_before_return
    ai_systems_try.Tools.Gateway.run_handler
execute_succeeds = refl

execute-IsSuccessful_example :
    IsSuccessful some_agent some_context some_request search_route no_state
      (execute some_agent some_context some_request search_route no_state).1
      some_success
execute-IsSuccessful_example =
    execute-IsSuccessful some_agent some_context some_request search_route no_state some_success
      execute_succeeds

execute-IsRunAudited_example :
    IsRunAudited some_agent some_context no_state
      (execute some_agent some_context some_request search_route no_state)
execute-IsRunAudited_example =
    execute-IsRunAudited some_agent some_context some_request search_route no_state

execute-IsBounded_example :
    IsBounded exact_read_then_final no_state
      (execute some_agent some_context some_request search_route no_state).1
execute-IsBounded_example =
    execute-IsBounded some_agent some_context some_request search_route no_state

abbrev some_result : PublicToolSuccess
some_result = record { tool_name = "search_hr_knowledge"; version = "1.0.0"; result = some_output }

abbrev observed : Observed
observed = ("cite-1", some_citation) ∷ []

observes_citation : observe_citations some_result [] ≡ some ("cite-1" ∷ [], observed)
unfolding observe_citations string_eq Dict.get ai_systems_try.Orchestration.Grounding.to_citation
    Dict.insert
observes_citation = refl

observe_citations-IsObservation_example :
    ((ids : List String) (after : Observed)
      → observe_citations some_result [] ≡ some (ids, after)
      → IsObservation some_result [] ids after)
    × ((model : Observed)
        → Extends [] model
        → AllObserved model (excerpts_of some_result)
        → (ids : List String) × (after : Observed) × (observe_citations some_result []
            ≡ some (ids, after)))
observe_citations-IsObservation_example = observe_citations-IsObservation some_result []
