-- ===== src/Tests/Application.antt =====
-- An authorised request, from the trusted reference to the orchestrator's answer.
use ai_systems_try.Base.{
  ℕ, String, ◌≡◌, ◌⊎◌, refl, true, false, Option, none, some, List, [], ◌∷◌, map, string_eq, nat_eq,
  ok, ◌↔◌, All, Distinct,
}
use ai_systems_try.Orchestration.{AgentRoutingPolicy, general_only, chat_success}
use ai_systems_try.Orchestration.Service.Run
use ai_systems_try.Application.{
  returned, TrustedRequestReference, TrustedRouteIntent, TrustedResolution, current,
  AuthorizationSnapshotDecision, ApplicationValidation,
}
use ai_systems_try.Application.Routing.{
  TrustedRouteEntry, TrustedRouteCatalog, init, resolve, is_available, index_versions,
  validate_startup,
}
use ai_systems_try.Application.Routing.Laws.{
  IsStartable, handler_name_of, intent, route_of, init-resolve, validate_startup_iff,
}
use ai_systems_try.Base.Sort.{string_ord}
use ai_systems_try.Base.Sort.Keyed.{find}
use ai_systems_try.Capability.Registry.Laws.{all_tools, names_of}
use ai_systems_try.Tools.Gateway.{index_descriptors}
use ai_systems_try.Application.Service.{ApplicationState, TrustedChatApplication, execute}
use ai_systems_try.Application.Service.Audit.{IsRunAudited, execute-IsOnceAudited}
use ai_systems_try.Application.Service.Dispatch.{
  IsDispatched, IsServed, execute-IsDispatched, execute-IsServed,
}
use ai_systems_try.Tests.Fixtures.{some_context, some_registry, some_gateway}
use ai_systems_try.Tests.Orchestration.{
  some_agent, some_request, search_route, no_state, some_success,
}

abbrev general_route : AgentRoutingPolicy
general_route = record { mode = general_only; tool_name = none; version = none }

abbrev entries : List TrustedRouteEntry
entries =
    record { intent_code = "search"; route = search_route }
    ∷ record { intent_code = "chat"; route = general_route }
    ∷ []

abbrev catalog : TrustedRouteCatalog
catalog = record {
  entries =
      record { intent_code = "chat"; route = general_route }
      ∷ record { intent_code = "search"; route = search_route }
      ∷ [];
  by_intent = ("chat", general_route) ∷ ("search", search_route) ∷ [];
}

builds_catalog : init entries ≡ ok catalog
unfolding init nat_eq string_eq ai_systems_try.Base.Sort.sorted ai_systems_try.Base.Text.string_le
    ai_systems_try.Base.Dict.insert
builds_catalog = refl

init-resolve_example :
    Distinct (map intent entries)
    × ((code : String) → resolve catalog code ≡ route_of (find intent code entries))
init-resolve_example = init-resolve entries catalog builds_catalog

starts : validate_startup catalog some_registry some_gateway ≡ ok tt
unfolding validate_startup is_available ai_systems_try.Base.Dict.get index_descriptors
    ai_systems_try.Base.Dict.insert string_eq ai_systems_try.Base.option_eq
starts = refl

different_tools : Distinct (names_of (all_tools some_registry.manifests))
unfolding string_eq
different_tools = (refl, (refl, tt))

different_handlers : Distinct (map handler_name_of some_gateway.handlers)
unfolding string_eq
different_handlers = (refl, tt)

validate_startup_iff_example :
    (validate_startup catalog some_registry some_gateway ≡ ok tt)
    ↔ All (IsStartable some_registry some_gateway) catalog.entries
validate_startup_iff_example =
    validate_startup_iff catalog some_registry some_gateway different_tools different_handlers

abbrev some_reference : TrustedRequestReference
some_reference = record { request_id = "req-1"; resolver_reference = "reference" }

abbrev some_intent : TrustedRouteIntent
some_intent = record {
  intent_code = "search";
  issued_at = 100;
  expires_at = 160;
  request_id = "req-1";
  customer_environment_id = "env-1";
  user_id = "user-1";
  authorization_snapshot_id = "snap-1";
}

abbrev accepting : ApplicationValidation
accepting = record {
  validate_request = λ request. some request;
  accepts_reference = λ reference. true;
  accepts_resolution = λ resolution. true;
  validate_context = λ context. some context;
  accepts_decision = λ decision. true;
  accepts_route = λ route. true;
  accepts_result = λ result. true;
}

abbrev some_decision : AuthorizationSnapshotDecision
some_decision = record {
  status = current;
  request_id = none;
  customer_environment_id = none;
  user_id = none;
  authorization_snapshot_id = none;
}

abbrev some_application : TrustedChatApplication
some_application = record {
  resolver = λ reference. returned (record { context = some_context; intent = some_intent });
  snapshot_verifier = λ context. returned some_decision;
  route_catalog = catalog;
  orchestrator = some_agent;
  audit_sink = λ state event. returned tt;
  clock = some 120;
  maximum_intent_lifetime = 60;
  pydantic = accepting;
}

abbrev start : ApplicationState
start = record { agent = no_state; audits = [] }

execute_serves :
    (execute some_application some_request some_reference start).0
    ≡ some (chat_success some_success)
unfolding ai_systems_try.Application.Service.execute ai_systems_try.Application.Service.accept
    ai_systems_try.Application.Service.resolve_request
    ai_systems_try.Application.Service.contextualize
    ai_systems_try.Application.Service.resolution_reason
    ai_systems_try.Application.Service.has_mismatch
    ai_systems_try.Application.Service.check_resolution ai_systems_try.Application.Service.authorize
    ai_systems_try.Application.Service.is_bound ai_systems_try.Application.Service.route_request
    ai_systems_try.Application.Service.orchestrate ai_systems_try.Application.Service.publish
    ai_systems_try.Application.Service.finish ai_systems_try.Application.Service.delivered
    ai_systems_try.Application.has_complete_bindings ai_systems_try.Application.Routing.resolve
    ai_systems_try.Orchestration.Service.Run.execute ai_systems_try.Orchestration.validate_route
    ai_systems_try.Orchestration.Service.exceeds_catalog_limits
    ai_systems_try.Orchestration.Service.authorized_catalog ai_systems_try.Base.Sort.sorted
    ai_systems_try.Capability.Access.evaluate_capability_access string_eq
    ai_systems_try.Tools.Gateway.available_tools ai_systems_try.Tools.Gateway.public_input_schema
    ai_systems_try.Base.Dict.get ai_systems_try.Orchestration.Service.Run.execute_route
    ai_systems_try.Orchestration.Service.Run.execute_exact ai_systems_try.Base.option_eq
    ai_systems_try.Orchestration.Service.Turn.rounds ai_systems_try.Orchestration.Service.Turn.round
    ai_systems_try.Orchestration.Transcript.transcript_failure
    ai_systems_try.Orchestration.Transcript.validate_turn nat_eq ai_systems_try.Base.Dict.insert
    ai_systems_try.Base.list_eq ai_systems_try.Base.Text.string_le
    ai_systems_try.Json.contains_reserved_argument ai_systems_try.Json.has_safe_numbers
    ai_systems_try.Json.json_depth_and_nodes
    ai_systems_try.Orchestration.Arguments.accepts_arguments
    ai_systems_try.Orchestration.Arguments.from_arguments_json
    ai_systems_try.Orchestration.Arguments.has_unique_keys
    ai_systems_try.Orchestration.Arguments.json_values_equivalent
    ai_systems_try.Orchestration.Arguments.parse_arguments_json
    ai_systems_try.Orchestration.Grounding.basis_eq
    ai_systems_try.Orchestration.Grounding.citation_eq
    ai_systems_try.Orchestration.Grounding.fits_basis
    ai_systems_try.Orchestration.Grounding.is_well_formed
    ai_systems_try.Orchestration.Grounding.matches_exact_route_grounding
    ai_systems_try.Orchestration.Grounding.observe_citations
    ai_systems_try.Orchestration.Grounding.to_citation
    ai_systems_try.Orchestration.Grounding.validate_grounding
    ai_systems_try.Orchestration.Service.Turn.accepted_citations
    ai_systems_try.Orchestration.Service.Turn.handle_answer
    ai_systems_try.Orchestration.Service.Turn.handle_call
    ai_systems_try.Orchestration.Service.finish
    ai_systems_try.Orchestration.Service.maximum_classification
    ai_systems_try.Orchestration.Service.response_language
    ai_systems_try.Orchestration.Transcript.validate_interaction
    ai_systems_try.Orchestration.validate_selection ai_systems_try.Tools.Gateway.execute
    ai_systems_try.Tools.Gateway.execute_read ai_systems_try.Tools.Gateway.finish_output
    ai_systems_try.Tools.Gateway.finish_raw ai_systems_try.Tools.Gateway.record_before_return
    ai_systems_try.Tools.Gateway.run_handler
execute_serves = refl

execute-IsServed_example : IsServed some_application some_request some_reference start some_success
execute-IsServed_example =
    execute-IsServed some_application some_request some_reference start some_success execute_serves

execute-IsDispatched_example :
    ((execute some_application some_request some_reference start).1.agent ≡ no_state)
    ⊎ IsDispatched some_application some_request some_reference start
        (execute some_application some_request some_reference start)
execute-IsDispatched_example =
    execute-IsDispatched some_application some_request some_reference start

execute-IsOnceAudited_example :
    IsRunAudited some_application some_request some_reference start
      (execute some_application some_request some_reference start)
execute-IsOnceAudited_example =
    execute-IsOnceAudited some_application some_request some_reference start
