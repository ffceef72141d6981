-- ===== src/Application/Service/Laws.antt =====
-- A request reaches the orchestrator only when it is authorised, and its outcome is audited once.
use ai_systems_try.Base.{
  ℕ, ◌+◌, ◌≤◌, ◌<◌, String, ◌≡◌, refl, Bool, true, false, not, ◌&&◌, Option, none, some, arith,
  string_eq, option_eq, if◌then◌else◌, Except, ok, raise,
}
use ai_systems_try.Context.{TrustedRequestContext, is_some}
use ai_systems_try.Orchestration.{AgentRoutingPolicy, validate_route}
use ai_systems_try.Orchestration.Service.{PublicChatRequest}
use ai_systems_try.Application.{
  Attempt, returned, raised, cancelled, TrustedRequestReference, TrustedRouteIntent,
  TrustedResolution, AuthorizationSnapshotDecision, has_complete_bindings, ApplicationStage,
  ApplicationReason, completed, invalid_application_input, trusted_resolution_failed,
  authorization_snapshot_rejected, authorization_snapshot_binding_mismatch,
  authorization_snapshot_unavailable, trusted_route_unavailable,
}
use ai_systems_try.Application.Routing.{RouteError, resolve}
use ai_systems_try.Application.Service.{
  ApplicationState, TrustedChatApplication, ApplicationRun, is_current, is_bound, has_mismatch,
  resolution_reason, no_request_id, fail, orchestrate, route_request, authorize, check_resolution,
  contextualize, resolve_request, accept, execute,
}

abbrev pub is_final : ApplicationReason → Bool
is_final completed = true
is_final _ = false

-- The context and the intent of a resolution are those of the request, and in force.
pub record IsBoundIntent (maximum : ℕ) (clock : Option ℕ) (reference : TrustedRequestReference)
    (intent : TrustedRouteIntent) (context : TrustedRequestContext) : Type 0 where
  pub now : ℕ
  pub clock_read : clock ≡ some now
  pub has_begun : intent.issued_at ≤ now
  pub has_not_ended : now < intent.expires_at
  pub short : intent.expires_at ≤ intent.issued_at + maximum
  pub same_request : intent.request_id ≡ reference.request_id
  pub same_context_request : intent.request_id ≡ context.request_id
  pub same_environment : intent.customer_environment_id ≡ context.customer_environment_id
  pub same_user : intent.user_id ≡ context.user_id
  pub same_snapshot : intent.authorization_snapshot_id ≡ context.authorization_snapshot_id

-- The validation of the input: whether `execute` goes on with the request and its reference.
abbrev pub is_valid_input :
    TrustedChatApplication → PublicChatRequest → TrustedRequestReference → Bool
is_valid_input application request reference =
    is_some (application.pydantic.validate_request request)
    && application.pydantic.accepts_reference reference

-- The ID of the audit event: the reference's, or none for invalid input.
abbrev pub audit_id : TrustedChatApplication → PublicChatRequest → TrustedRequestReference → String
audit_id application request reference =
    if is_valid_input application request reference then reference.request_id else no_request_id

-- Everything that stands between a request and the orchestrator.
pub record IsAuthorized (application : TrustedChatApplication) (request : PublicChatRequest)
    (reference : TrustedRequestReference) (context : TrustedRequestContext)
    (accepted : PublicChatRequest) (route : AgentRoutingPolicy) : Type 0 where
  pub resolution : TrustedResolution
  pub decision : AuthorizationSnapshotDecision
  pub validated : application.pydantic.validate_request request ≡ some accepted
  pub reference_accepted : application.pydantic.accepts_reference reference ≡ true
  pub resolved : application.resolver reference ≡ returned resolution
  pub context_validated : application.pydantic.validate_context resolution.context ≡ some context
  pub bound :
      IsBoundIntent application.maximum_intent_lifetime application.clock reference
        resolution.intent context
  pub verified : application.snapshot_verifier context ≡ returned decision
  pub is_current_snapshot : is_current decision.status ≡ true
  pub snapshot_bound : is_bound decision context ≡ true
  pub routed : resolve application.route_catalog resolution.intent.intent_code ≡ ok route
  pub route_valid : validate_route route ≡ true

resolution_reason-none :
    (maximum : ℕ) (clock : Option ℕ) (reference : TrustedRequestReference)
    (intent : TrustedRouteIntent) (context : TrustedRequestContext)
    → resolution_reason maximum clock reference intent context ≡ none
    → IsBoundIntent maximum clock reference intent context
unfolding resolution_reason has_mismatch
resolution_reason-none maximum none reference intent context h = absurd (ground arith)
resolution_reason-none maximum (some now) reference intent context h = record {
  now = now;
  clock_read = refl;
  has_begun = ground arith;
  has_not_ended = ground arith;
  short = ground arith;
  same_request = ground arith;
  same_context_request = ground arith;
  same_environment = ground arith;
  same_user = ground arith;
  same_snapshot = ground arith;
}

resolution_reason_kind :
    (maximum : ℕ) (clock : Option ℕ) (reference : TrustedRequestReference)
    (intent : TrustedRouteIntent) (context : TrustedRequestContext) (reason : ApplicationReason)
    → resolution_reason maximum clock reference intent context ≡ some reason
    → is_final reason ≡ false
unfolding resolution_reason
resolution_reason_kind maximum none reference intent context reason h = ground arith
resolution_reason_kind maximum (some now) reference intent context reason h = ground arith

module _ (application : TrustedChatApplication) (request : PublicChatRequest)
    (reference : TrustedRequestReference) (before : ApplicationState) where
  open application use {orchestrator, pydantic}

  -- The ways in which a request ends: a cancellation or a failure before the orchestrator runs, or
  -- the publication of the orchestrator's run.
  pub data Ending (run : ApplicationRun) : Type 0 where
    dropped : run ≡ (none, before) → Ending run
    rejected :
        (request_id : String) (stage : ApplicationStage) (reason : ApplicationReason)
        → is_final reason ≡ false
        → request_id ≡ audit_id application request reference
        → run ≡ fail application request_id stage reason before
        → Ending run
    dispatched :
        (context : TrustedRequestContext) (accepted : PublicChatRequest)
        (route : AgentRoutingPolicy)
        → IsAuthorized application request reference context accepted route
        → run ≡ orchestrate application reference.request_id context accepted route before
        → Ending run

  if_Ending :
      (b : Bool) (x y : ApplicationRun)
      → (b ≡ true → Ending x)
      → (b ≡ false → Ending y)
      → Ending (if b then x else y)
  if_Ending true x y f g = f refl
  if_Ending false x y f g = g refl

  module _ (admitted : is_valid_input application request reference ≡ true) where
    rejects :
        (stage : ApplicationStage) (reason : ApplicationReason)
        → is_final reason ≡ false
        → Ending (fail application reference.request_id stage reason before)
    rejects stage reason n = rejected reference.request_id stage reason n (rw admitted refl) refl

    module _ (accepted : PublicChatRequest)
        (validated : pydantic.validate_request request ≡ some accepted)
        (resolution : TrustedResolution)
        (resolved : application.resolver reference ≡ returned resolution)
        (context : TrustedRequestContext)
        (context_validated : pydantic.validate_context resolution.context ≡ some context) where
      route-Ending :
          (decision : AuthorizationSnapshotDecision) (route : Except RouteError AgentRoutingPolicy)
          → IsBoundIntent application.maximum_intent_lifetime application.clock reference
              resolution.intent context
          → application.snapshot_verifier context ≡ returned decision
          → is_current decision.status ≡ true
          → is_bound decision context ≡ true
          → resolve application.route_catalog resolution.intent.intent_code ≡ route
          → Ending (route_request application reference.request_id context accepted route before)
      unfolding route_request
      route-Ending decision (raise error) bound verified current snapshot routed =
          rejects ApplicationStage.routing trusted_route_unavailable refl
      route-Ending decision (ok route) bound verified current snapshot routed =
          if_Ending (pydantic.accepts_route route && validate_route route) _ _
            (λ valid.
              dispatched context accepted route
                (record {
                  resolution = resolution;
                  decision = decision;
                  validated = validated;
                  reference_accepted = ground (arith, admitted);
                  resolved = resolved;
                  context_validated = context_validated;
                  bound = bound;
                  verified = verified;
                  is_current_snapshot = current;
                  snapshot_bound = snapshot;
                  routed = routed;
                  route_valid = ground arith;
                })
                refl)
            (λ invalid. rejects ApplicationStage.routing trusted_route_unavailable refl)

      authorize-Ending :
          (attempt : Attempt AuthorizationSnapshotDecision)
          → IsBoundIntent application.maximum_intent_lifetime application.clock reference
              resolution.intent context
          → application.snapshot_verifier context ≡ attempt
          → Ending (
              authorize application reference.request_id context accepted
                resolution.intent.intent_code attempt before)
      unfolding authorize
      authorize-Ending cancelled bound verified = dropped refl
      authorize-Ending raised bound verified =
          rejects ApplicationStage.authorization authorization_snapshot_unavailable refl
      authorize-Ending (returned decision) bound verified =
          if_Ending (not (pydantic.accepts_decision decision && has_complete_bindings decision)) _ _
            (λ a. rejects ApplicationStage.authorization authorization_snapshot_unavailable refl)
            (λ a.
              if_Ending (not (is_current decision.status)) _ _
                (λ b. rejects ApplicationStage.authorization authorization_snapshot_rejected refl)
                (λ current.
                  if_Ending (not (is_bound decision context)) _ _
                    (λ b.
                      rejects ApplicationStage.authorization authorization_snapshot_binding_mismatch
                        refl)
                    (λ snapshot.
                      route-Ending decision
                        (resolve application.route_catalog resolution.intent.intent_code) bound
                        verified (ground arith) (ground arith) refl)))

      check-Ending :
          (reason : Option ApplicationReason)
          → resolution_reason application.maximum_intent_lifetime application.clock reference
              resolution.intent context
            ≡ reason
          → Ending (
              check_resolution application reference accepted resolution.intent context reason
                before)
      unfolding check_resolution
      check-Ending (some reason) e = rejects ApplicationStage.resolution reason (
          resolution_reason_kind application.maximum_intent_lifetime application.clock reference
            resolution.intent context reason e)
      check-Ending none e =
          authorize-Ending (application.snapshot_verifier context)
            (resolution_reason-none application.maximum_intent_lifetime application.clock reference
              resolution.intent context e)
            refl

    context-Ending :
        (accepted : PublicChatRequest) (resolution : TrustedResolution)
        (context : Option TrustedRequestContext)
        → pydantic.validate_request request ≡ some accepted
        → application.resolver reference ≡ returned resolution
        → pydantic.validate_context resolution.context ≡ context
        → Ending (contextualize application reference accepted resolution.intent context before)
    unfolding contextualize
    context-Ending accepted resolution none v r c =
        rejects ApplicationStage.resolution trusted_resolution_failed refl
    context-Ending accepted resolution (some context) v r c =
        check-Ending accepted v resolution r context c _ refl

    resolve-Ending :
        (accepted : PublicChatRequest) (attempt : Attempt TrustedResolution)
        → pydantic.validate_request request ≡ some accepted
        → application.resolver reference ≡ attempt
        → Ending (resolve_request application reference accepted attempt before)
    unfolding resolve_request
    resolve-Ending accepted cancelled v r = dropped refl
    resolve-Ending accepted raised v r =
        rejects ApplicationStage.resolution trusted_resolution_failed refl
    resolve-Ending accepted (returned resolution) v r =
        if_Ending (pydantic.accepts_resolution resolution) _ _
          (λ a. context-Ending accepted resolution _ v r refl)
          (λ a. rejects ApplicationStage.resolution trusted_resolution_failed refl)

  accept-Ending :
      (accepted : Option PublicChatRequest)
      → pydantic.validate_request request ≡ accepted
      → Ending (accept application reference accepted before)
  unfolding accept
  accept-Ending none v =
      rejected no_request_id ApplicationStage.validation invalid_application_input refl (rw v refl)
        refl
  accept-Ending (some accepted) v =
      if_Ending (pydantic.accepts_reference reference) _ _
        (λ a. resolve-Ending (ground (arith, v, a)) accepted _ v refl)
        (λ a.
          rejected no_request_id ApplicationStage.validation invalid_application_input refl
            (rw (v, a) refl) refl)

  pub execute-Ending : Ending (execute application request reference before)
  unfolding execute
  execute-Ending = accept-Ending (pydantic.validate_request request) refl
