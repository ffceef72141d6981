-- ===== src/Application.antt =====
-- src/erp_ai/application/: models, audit events and the interfaces of the trusted application
-- boundary. An awaited call returns, raises or is cancelled.
pub mod Routing
pub mod Service
use ai_systems_try.Base.{
  ℕ, String, Bool, true, false, not, ◌&&◌, ◌||◌, Option, none, some, List, [], ◌∷◌, any, all, ◌==◌,
  string_eq, option_eq, if◌then◌else◌,
}
use ai_systems_try.Context.{TrustedRequestContext, is_some}
use ai_systems_try.Tools.{Outcome}
use ai_systems_try.Orchestration.{AgentRoutingPolicy, PublicChatResult}
use ai_systems_try.Orchestration.Service.{PublicChatRequest}

pub data Attempt {ℓ} (A : Type ℓ) : Type ℓ where
  returned : A → Attempt A
  raised cancelled : Attempt A

pub record TrustedRequestReference : Type 0 where
  pub request_id : String
  pub resolver_reference : String

pub record TrustedRouteIntent : Type 0 where
  pub intent_code : String
  pub issued_at : ℕ
  pub expires_at : ℕ
  pub request_id : String
  pub customer_environment_id : String
  pub user_id : String
  pub authorization_snapshot_id : String

pub record TrustedResolution : Type 0 where
  pub context : TrustedRequestContext
  pub intent : TrustedRouteIntent

pub data SnapshotStatus : Type 0 where
  current stale revoked mismatched : SnapshotStatus

pub record AuthorizationSnapshotDecision : Type 0 where
  pub status : SnapshotStatus
  pub request_id : Option String
  pub customer_environment_id : Option String
  pub user_id : Option String
  pub authorization_snapshot_id : Option String

-- `require_complete_optional_bindings`: whether it returns.
unfoldable pub has_complete_bindings : AuthorizationSnapshotDecision → Bool
has_complete_bindings decision =
    let bindings =
      decision.request_id ∷ decision.customer_environment_id ∷ decision.user_id
      ∷ decision.authorization_snapshot_id ∷ [] in
    not (any is_some bindings && any (λ value. not (is_some value)) bindings)

-- ApplicationStage
pub data ApplicationStage : Type 0 where
  validation resolution authorization routing orchestration : ApplicationStage

pub data ApplicationReason : Type 0 where
  invalid_application_input trusted_resolution_failed trusted_clock_invalid : ApplicationReason
  intent_lifetime_invalid intent_future_issued intent_expired : ApplicationReason
  intent_context_binding_mismatch authorization_snapshot_rejected : ApplicationReason
  authorization_snapshot_binding_mismatch authorization_snapshot_unavailable : ApplicationReason
  trusted_route_unavailable orchestrator_failed completed : ApplicationReason

pub record ApplicationAuditEvent : Type 0 where
  pub request_id : String
  pub stage : ApplicationStage
  pub outcome : Outcome
  pub internal_reason : ApplicationReason

-- What pydantic accepts of each value, where a request and a context come back normalised.
pub record ApplicationValidation : Type 0 where
  pub validate_request : PublicChatRequest → Option PublicChatRequest
  pub accepts_reference : TrustedRequestReference → Bool
  pub accepts_resolution : TrustedResolution → Bool
  pub validate_context : TrustedRequestContext → Option TrustedRequestContext
  pub accepts_decision : AuthorizationSnapshotDecision → Bool
  pub accepts_route : AgentRoutingPolicy → Bool
  pub accepts_result : PublicChatResult → Bool
