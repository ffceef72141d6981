-- ===== src/Application/Service.antt =====
-- src/erp_ai/application/service.py: the trusted application, which authorises a request before it
-- runs the orchestrator and audits the outcome once.
pub mod Laws
pub mod Audit
pub mod Dispatch
use ai_systems_try.Base.{
  ℕ, ◌+◌, ◌-◌, String, Bool, true, false, not, ◌&&◌, ◌||◌, Option, none, some, List, [], ◌∷◌, ◌++◌,
  ltb, leb, any, ◌==◌, string_eq, option_eq, if◌then◌else◌, Except, ok, raise,
}
use ai_systems_try.Context.{TrustedRequestContext, is_some}
use ai_systems_try.Tools.{Outcome, succeeded, failed}
use ai_systems_try.Orchestration.{
  AgentErrorCode, agent_unavailable, audit_unavailable, AgentRoutingPolicy, PublicChatResult,
  chat_success, chat_failure, validate_route,
}
use ai_systems_try.Orchestration.Service.{
  PublicChatRequest, AgentState, AgentOrchestrator, safe_message, public_failure,
}
use ai_systems_try.Orchestration.Service.Run
use ai_systems_try.Application.{
  Attempt, returned, raised, cancelled, TrustedRequestReference, TrustedRouteIntent,
  TrustedResolution, SnapshotStatus, current, AuthorizationSnapshotDecision, has_complete_bindings,
  ApplicationStage, ApplicationReason, invalid_application_input, trusted_resolution_failed,
  trusted_clock_invalid, intent_lifetime_invalid, intent_future_issued, intent_expired,
  intent_context_binding_mismatch, authorization_snapshot_rejected,
  authorization_snapshot_binding_mismatch, authorization_snapshot_unavailable,
  trusted_route_unavailable, orchestrator_failed, completed, ApplicationAuditEvent,
  ApplicationValidation,
}
use ai_systems_try.Application.Routing.{RouteError, TrustedRouteCatalog, resolve}

pub record ApplicationState : Type 0 where
  pub agent : AgentState
  pub audits : List ApplicationAuditEvent

-- The clock is read once; `none` stands for a time without a zone.
pub record TrustedChatApplication : Type 0 where
  pub resolver : TrustedRequestReference → Attempt TrustedResolution
  pub snapshot_verifier : TrustedRequestContext → Attempt AuthorizationSnapshotDecision
  pub route_catalog : TrustedRouteCatalog
  pub orchestrator : AgentOrchestrator
  pub audit_sink : ApplicationState → ApplicationAuditEvent → Attempt (Unit {0})
  pub clock : Option ℕ
  pub maximum_intent_lifetime : ℕ
  pub pydantic : ApplicationValidation

pub data ApplicationError : Type 0 where
  lifetime_not_positive : ApplicationError

-- The test of `__init__`.
unfoldable pub init : TrustedChatApplication → Except ApplicationError TrustedChatApplication
init application =
    if ltb 0 application.maximum_intent_lifetime
    then ok application
    else raise lifetime_not_positive

-- A request returns a result or, with `none`, is cancelled.
abbrev pub ApplicationRun : Type 0
ApplicationRun = Option PublicChatResult × ApplicationState

abbrev pub outcome_of : PublicChatResult → Outcome
outcome_of (chat_success value) = succeeded
outcome_of (chat_failure value) = failed

abbrev pub is_current : SnapshotStatus → Bool
is_current current = true
is_current _ = false

-- A decision without bindings is not compared.
unfoldable pub is_bound : AuthorizationSnapshotDecision → TrustedRequestContext → Bool
is_bound decision context = not (
    is_some decision.request_id
    && (not (decision.request_id == some context.request_id)
        || not (decision.customer_environment_id == some context.customer_environment_id)
        || not (decision.user_id == some context.user_id)
        || not (decision.authorization_snapshot_id == some context.authorization_snapshot_id)))

-- `any(left != right for left, right in bindings)`
unfoldable pub has_mismatch :
    TrustedRequestReference → TrustedRouteIntent → TrustedRequestContext → Bool
has_mismatch reference intent context =
    not (intent.request_id == reference.request_id)
    || not (intent.request_id == context.request_id)
    || not (intent.customer_environment_id == context.customer_environment_id)
    || not (intent.user_id == context.user_id)
    || not (intent.authorization_snapshot_id == context.authorization_snapshot_id)

-- `_resolution_reason`. The difference of the times is taken when the end lies behind the start.
unfoldable pub resolution_reason :
    ℕ
    → Option ℕ
    → TrustedRequestReference
    → TrustedRouteIntent
    → TrustedRequestContext
    → Option ApplicationReason
resolution_reason maximum none reference intent context = some trusted_clock_invalid
resolution_reason maximum (some now) reference intent context =
    if leb intent.expires_at intent.issued_at
    then some intent_lifetime_invalid
    else if ltb now intent.issued_at
    then some intent_future_issued
    else if leb intent.expires_at now
    then some intent_expired
    else if ltb maximum (intent.expires_at - intent.issued_at)
    then some intent_lifetime_invalid
    else if has_mismatch reference intent context
    then some intent_context_binding_mismatch
    else none

abbrev pub no_request_id : String
no_request_id = "unavailable"

module _ (application : TrustedChatApplication) where
  open application use {orchestrator, pydantic}

  unfoldable pub delivered : PublicChatResult → Attempt (Unit {0}) → Option PublicChatResult
  delivered result (returned u) = some result
  delivered result raised = some (public_failure audit_unavailable)
  delivered result cancelled = none

  -- `_finish`
  unfoldable pub finish :
      String
      → ApplicationStage
      → PublicChatResult
      → ApplicationReason
      → ApplicationState
      → ApplicationRun
  finish request_id stage result internal_reason state =
      let event : ApplicationAuditEvent = record {
        request_id = request_id;
        stage = stage;
        outcome = outcome_of result;
        internal_reason = internal_reason;
      } in
      (
        delivered result (application.audit_sink state event),
        record state { audits = state.audits ++ event ∷ [] },
      )

  -- `_failure`
  unfoldable pub fail :
      String → ApplicationStage → ApplicationReason → ApplicationState → ApplicationRun
  fail request_id stage internal_reason state =
      finish request_id stage (public_failure agent_unavailable) internal_reason state

  -- The orchestrator's result is validated once more.
  unfoldable pub publish : String → Option PublicChatResult → ApplicationState → ApplicationRun
  publish request_id none state =
      fail request_id ApplicationStage.orchestration orchestrator_failed state
  publish request_id (some result) state =
      if pydantic.accepts_result result
      then finish request_id ApplicationStage.orchestration result completed state
      else fail request_id ApplicationStage.orchestration orchestrator_failed state

  unfoldable pub orchestrate :
      String
      → TrustedRequestContext
      → PublicChatRequest
      → AgentRoutingPolicy
      → ApplicationState
      → ApplicationRun
  orchestrate request_id context request route state =
      let (result, agent) = Run.execute orchestrator context request route state.agent in
      publish request_id result (record state { agent = agent })

  unfoldable pub route_request :
      String
      → TrustedRequestContext
      → PublicChatRequest
      → Except RouteError AgentRoutingPolicy
      → ApplicationState
      → ApplicationRun
  route_request request_id context request (raise error) state =
      fail request_id ApplicationStage.routing trusted_route_unavailable state
  route_request request_id context request (ok route) state =
      if pydantic.accepts_route route && validate_route route
      then orchestrate request_id context request route state
      else fail request_id ApplicationStage.routing trusted_route_unavailable state

  unfoldable pub authorize :
      String
      → TrustedRequestContext
      → PublicChatRequest
      → String
      → Attempt AuthorizationSnapshotDecision
      → ApplicationState
      → ApplicationRun
  authorize request_id context request intent_code cancelled state = (none, state)
  authorize request_id context request intent_code raised state =
      fail request_id ApplicationStage.authorization authorization_snapshot_unavailable state
  authorize request_id context request intent_code (returned decision) state =
      if not (pydantic.accepts_decision decision && has_complete_bindings decision)
      then fail request_id ApplicationStage.authorization authorization_snapshot_unavailable state
      else if not (is_current decision.status)
      then fail request_id ApplicationStage.authorization authorization_snapshot_rejected state
      else if not (is_bound decision context)
      then fail request_id ApplicationStage.authorization authorization_snapshot_binding_mismatch
          state
      else route_request request_id context request (resolve application.route_catalog intent_code)
          state

  -- From the validated context on.
  unfoldable pub check_resolution :
      TrustedRequestReference
      → PublicChatRequest
      → TrustedRouteIntent
      → TrustedRequestContext
      → Option ApplicationReason
      → ApplicationState
      → ApplicationRun
  check_resolution reference request intent context (some reason) state =
      fail reference.request_id ApplicationStage.resolution reason state
  check_resolution reference request intent context none state =
      authorize reference.request_id context request intent.intent_code
        (application.snapshot_verifier context) state

  unfoldable pub contextualize :
      TrustedRequestReference
      → PublicChatRequest
      → TrustedRouteIntent
      → Option TrustedRequestContext
      → ApplicationState
      → ApplicationRun
  contextualize reference request intent none state =
      fail reference.request_id ApplicationStage.resolution trusted_resolution_failed state
  contextualize reference request intent (some context) state =
      check_resolution reference request intent context
        (resolution_reason application.maximum_intent_lifetime application.clock reference intent
          context)
        state

  unfoldable pub resolve_request :
      TrustedRequestReference
      → PublicChatRequest
      → Attempt TrustedResolution
      → ApplicationState
      → ApplicationRun
  resolve_request reference request cancelled state = (none, state)
  resolve_request reference request raised state =
      fail reference.request_id ApplicationStage.resolution trusted_resolution_failed state
  resolve_request reference request (returned resolved) state =
      if pydantic.accepts_resolution resolved
      then contextualize reference request resolved.intent
          (pydantic.validate_context resolved.context) state
      else fail reference.request_id ApplicationStage.resolution trusted_resolution_failed state

  unfoldable pub accept :
      TrustedRequestReference → Option PublicChatRequest → ApplicationState → ApplicationRun
  accept reference none state =
      fail no_request_id ApplicationStage.validation invalid_application_input state
  accept reference (some request) state =
      if pydantic.accepts_reference reference
      then resolve_request reference request (application.resolver reference) state
      else fail no_request_id ApplicationStage.validation invalid_application_input state

  unfoldable pub execute :
      PublicChatRequest → TrustedRequestReference → ApplicationState → ApplicationRun
  execute request reference state = accept reference (pydantic.validate_request request) state
