-- ===== src/Orchestration/Service/Run/Endings.antt =====
-- The ways in which a whole run of the orchestrator ends.
use ai_systems_try.Base.{
  ℕ, String, ◌≡◌, refl, sym, ◌∙◌, true, some, List, [], ◌∷◌, ◌++◌, map, arith, All, ◌==◌, string_eq,
  list_eq, inl, inr,
}
use mathlib.Core.Option.{none-ne-some}
use ai_systems_try.Base.Dict
use ai_systems_try.Base.Dict.{insert-empty, get-empty}
use ai_systems_try.Context.{TrustedRequestContext}
use ai_systems_try.Capability.Access.{is_empty}
use ai_systems_try.Tools.{PublicToolSuccess, PublicToolResult, Trace, success}
use ai_systems_try.Tools.Gateway
use ai_systems_try.Orchestration.{
  AgentRouteMode, general_only, exact_read_then_final, AgentRoutingPolicy, PublicCitation,
  ModelFinalAnswer, ModelToolCall, ModelTurnRequest,
}
use ai_systems_try.Orchestration.Grounding.{
  all_some, Observed, SuccessfulEvidenceCall, citation_eq, basis_eq, expected_basis,
  matches_exact_route_grounding, observe_citations,
}
use ai_systems_try.Orchestration.Grounding.Laws.{
  excerpts_of, is_excerpted, observe_citations_sound, all_some_lem, all_some_inverse,
  validate_grounding_lookup,
}
use ai_systems_try.Orchestration.Arguments.{from_arguments_json, json_values_equivalent}
use ai_systems_try.Orchestration.Service.{
  final_answer, tool_call, AgentState, AgentOrchestrator, is_routed,
}
use ai_systems_try.Orchestration.Service.Turn.{Request, Progress, turn_request, accepted_citations}
use ai_systems_try.Orchestration.Service.Turn.Endings.{IsCalled, revalidated-some}
use ai_systems_try.Orchestration.Service.Run.{no_progress}

-- The model turns and the handler runs of a route.
abbrev pub max_turns : AgentRouteMode → ℕ
max_turns general_only = 1
max_turns exact_read_then_final = 2

abbrev pub max_runs : AgentRouteMode → ℕ
max_runs general_only = 0
max_runs exact_read_then_final = 1

-- The answer is the provider's to the last turn of the run, which was sent in the state `earlier`.
pub record IsReplied (agent : AgentOrchestrator) (before earlier after : AgentState)
    (answer : ModelFinalAnswer) : Type 0 where
  pub last : ModelTurnRequest
  pub replied : agent.complete_turn earlier last ≡ final_answer answer
  pub sent : after.turns ≡ earlier.turns ++ last ∷ []
  pub same_tools : after.tools ≡ earlier.tools
  pub audits_kept : earlier.audits ≡ before.audits

-- The gateway's run of a call.
abbrev pub executed :
    AgentOrchestrator
    → TrustedRequestContext
    → ModelToolCall
    → AgentState
    → PublicToolResult × Trace
executed agent context call before =
    Gateway.execute agent.tool_gateway context
      (record { tool_name = call.tool_name; version = call.version; arguments = call.arguments })
      before.tools

-- What an exact run's success stands on: the provider's call of the routed tool, rebuilt from its
-- JSON text, in the first turn, after which the answer's turn was sent, its result from the gateway,
-- and an answer that names that call as its only evidence, with the basis of the tool's kind. Every
-- citation is the one of an excerpt of the result, and they are those that the answer names.
pub record IsExactlyCited (agent : AgentOrchestrator) (context : TrustedRequestContext)
    (routing : AgentRoutingPolicy) (before earlier : AgentState) (answer : ModelFinalAnswer)
    (citations : List PublicCitation) : Type 0 where
  pub asked : ModelTurnRequest
  pub received : ModelToolCall
  pub requested : agent.complete_turn before asked ≡ tool_call received
  pub call : ModelToolCall
  pub rebuilt :
      from_arguments_json agent.pydantic agent.json received.call_id received.tool_name
        received.version received.arguments_json
      ≡ some call
  pub same_arguments : json_values_equivalent agent.json call.arguments received.arguments ≡ true
  pub after_call : earlier ≡ record before {
    turns = before.turns ++ asked ∷ [];
    tools = (executed agent context call before).1;
  }
  pub result : PublicToolSuccess
  pub routed : is_routed routing call.tool_name call.version ≡ true
  pub gateway_success : (executed agent context call before).0 ≡ success result
  pub evidence : answer.evidence_call_ids ≡ call.call_id ∷ []
  pub basis : answer.answer_basis ≡ some (expected_basis (call.tool_name == "search_hr_knowledge"))
  pub cited : map (λ citation. citation.citation_id) citations ≡ answer.citation_ids
  pub excerpted : All (λ citation. is_excerpted (excerpts_of result) citation ≡ true) citations

-- A general run's success has no evidence and no citation.
abbrev pub IsCited :
    AgentOrchestrator
    → TrustedRequestContext
    → AgentRoutingPolicy
    → AgentRouteMode
    → AgentState
    → AgentState
    → ModelFinalAnswer
    → List PublicCitation
    → Type 0
IsCited agent context routing general_only before earlier answer citations =
    (earlier ≡ before)
    × (answer.evidence_call_ids ≡ [])
    × (answer.citation_ids ≡ [])
    × (citations ≡ [])
IsCited agent context routing exact_read_then_final before earlier answer citations =
    IsExactlyCited agent context routing before earlier answer citations

empty_lem {ℓ} : {A : Type ℓ} (xs : List A) → is_empty xs ≡ true → xs ≡ []
empty_lem [] h = refl
empty_lem (x ∷ xs) h = cc

no_citations :
    (observed : Observed) (ids : List String) (citations : List PublicCitation)
    → ids ≡ []
    → all_some (map (λ id. Dict.get id observed) ids) ≡ some citations
    → citations ≡ []
no_citations observed [] citations e h = cc
no_citations observed (id ∷ ids) citations e h = cc

-- The acceptance of a general answer.
pub general_IsCited :
    (agent : AgentOrchestrator) (context : TrustedRequestContext) (routing : AgentRoutingPolicy)
    (before : AgentState) (answer : ModelFinalAnswer) (citations : List PublicCitation)
    → accepted_citations general_only answer no_progress ≡ some citations
    → IsCited agent context routing general_only before before answer citations
unfolding accepted_citations
general_IsCited agent context routing before answer citations h =
    let none_cited = empty_lem answer.citation_ids (ground arith) in
    (
      refl,
      empty_lem answer.evidence_call_ids (ground arith),
      none_cited,
      no_citations no_progress.citations answer.citation_ids citations none_cited (
          validate_grounding_lookup answer no_progress.successful_calls no_progress.citations
            citations (ground arith)),
    )

-- The only evidence call is the one of the exact grounding.
matches_exact_lem :
    (answer : ModelFinalAnswer) (id : String) (evidence : SuccessfulEvidenceCall)
    → matches_exact_route_grounding answer ((id, evidence) ∷ []) ≡ true
    → (answer.evidence_call_ids ≡ evidence.call_id ∷ [])
      × (answer.answer_basis ≡ some (expected_basis evidence.is_knowledge))
unfolding matches_exact_route_grounding
matches_exact_lem answer id evidence h = (ground arith, ground arith)

-- What is observed after one call comes from its result.
first_observed :
    (result : PublicToolSuccess) (ids : List String) (after : Observed) (id : String)
    (citation : PublicCitation)
    → observe_citations result no_progress.citations ≡ some (ids, after)
    → Dict.get id after ≡ some citation
    → (citation.citation_id ≡ id) × (is_excerpted (excerpts_of result) citation ≡ true)
first_observed result ids after id citation o g =
    elim (observe_citations_sound result [] ids after id citation o g) [
      | inl before ↦
          absurd (none-ne-some citation (sym (get-empty id no_progress.citations refl) ∙ before))
      | inr found ↦ found
    ]

pub exact_IsCited :
    (agent : AgentOrchestrator) (request : Request) (before earlier : AgentState)
    (progress : Progress) (answer : ModelFinalAnswer) (citations : List PublicCitation)
    → IsCalled agent request 1 no_progress before progress earlier
    → accepted_citations exact_read_then_final answer progress ≡ some citations
    → IsExactlyCited agent request.context request.routing before earlier answer citations
unfolding accepted_citations
exact_IsCited agent request before earlier progress answer citations called h =
    let evidence = called.evidence_kept ∙ insert-empty called.call.call_id called.evidence in
    let (only, basis) =
      matches_exact_lem answer called.call.call_id called.evidence
        (rw (sym evidence) (ground arith)) in
    let looked_up =
      validate_grounding_lookup answer progress.successful_calls progress.citations citations
        (ground arith) in
    let (rebuilt, same_arguments) =
      revalidated-some agent request called.received called.call called.rebuilt in
    record {
      asked = turn_request request no_progress.interactions 1;
      received = called.received;
      requested = called.replied;
      call = called.call;
      rebuilt = rebuilt;
      same_arguments = same_arguments;
      after_call = called.called;
      result = called.result;
      routed = called.routed;
      gateway_success = called.gateway_success;
      evidence = rw only (rw called.same_id refl);
      basis = rw basis (rw called.same_kind refl);
      cited =
          all_some_inverse (λ citation. citation.citation_id) (λ id. Dict.get id progress.citations)
            answer.citation_ids citations
            (λ id citation g.
              (first_observed called.result called.evidence.citation_ids progress.citations id
                citation called.citations_observed g).0)
            looked_up;
      excerpted =
          all_some_lem (λ citation. is_excerpted (excerpts_of called.result) citation ≡ true)
            (λ id. Dict.get id progress.citations) answer.citation_ids citations
            (λ id citation g.
              (first_observed called.result called.evidence.citation_ids progress.citations id
                citation called.citations_observed g).1)
            looked_up;
    }
