-- ===== src/Application/Service/Audit.antt =====
-- The audit of a request: at most one event, which says how the request ended.
use ai_systems_try.Base.{
  String, ◌≡◌, refl, sym, ◌⊎◌, inl, inr, Option, none, some, [], ◌∷◌, ◌++◌, string_eq, option_eq,
  Bool-cases,
}
use ai_systems_try.Context.{TrustedRequestContext}
use ai_systems_try.Orchestration.{
  AgentRoutingPolicy, agent_unavailable, audit_unavailable, PublicChatResult,
}
use ai_systems_try.Orchestration.Service.{PublicChatRequest, public_failure}
use ai_systems_try.Application.{
  Attempt, returned, raised, cancelled, TrustedRequestReference, ApplicationStage,
  ApplicationReason, completed, orchestrator_failed, ApplicationAuditEvent,
}
use ai_systems_try.Application.Service.{
  ApplicationState, TrustedChatApplication, ApplicationRun, outcome_of, delivered, finish, fail,
  publish, orchestrate, execute,
}
use ai_systems_try.Application.Service.Laws.{
  audit_id, IsAuthorized, Ending, dropped, rejected, dispatched, execute-Ending,
}

module _ (application : TrustedChatApplication) (request : PublicChatRequest)
    (reference : TrustedRequestReference) (before after : ApplicationState) where
  -- What the sink does with an event that is recorded after the request is handled.
  abbrev pub delivery_of : ApplicationAuditEvent → Attempt (Unit {0})
  delivery_of event = application.audit_sink (record after { audits = before.audits }) event

  -- One event is recorded, under the reference's ID or, for invalid input, under none. If it is
  -- delivered, it has the outcome of the result; if the sink raises, the result is the audit
  -- failure.
  pub record IsApplicationAudited (result : PublicChatResult) : Type 0 where
    pub event : ApplicationAuditEvent
    pub recorded : after.audits ≡ before.audits ++ event ∷ []
    pub identified : event.request_id ≡ audit_id application request reference
    pub told :
        ((delivery_of event ≡ returned tt) × (event.outcome ≡ outcome_of result))
        ⊎ ((delivery_of event ≡ raised) × (result ≡ public_failure audit_unavailable))

  -- A cancelled request has recorded no event, or the sink was cancelled over its only one.
  pub record IsCancelled : Type 0 where
    pub event : ApplicationAuditEvent
    pub recorded : after.audits ≡ before.audits ++ event ∷ []
    pub identified : event.request_id ≡ audit_id application request reference
    pub interrupted : delivery_of event ≡ cancelled

  abbrev pub IsOnceAudited : Option PublicChatResult → Type 0
  IsOnceAudited (some result) = IsApplicationAudited result
  IsOnceAudited none = (after.audits ≡ before.audits) ⊎ IsCancelled

abbrev pub IsRunAudited :
    TrustedChatApplication
    → PublicChatRequest
    → TrustedRequestReference
    → ApplicationState
    → ApplicationRun
    → Type 0
IsRunAudited application request reference before run =
    IsOnceAudited application request reference before run.1 run.0

module _ (application : TrustedChatApplication) (request : PublicChatRequest) where
  open application use {orchestrator, pydantic}

  finish_audited :
      (reference : TrustedRequestReference) (before after : ApplicationState) (request_id : String)
      (stage : ApplicationStage) (result : PublicChatResult) (reason : ApplicationReason)
      → after.audits ≡ before.audits
      → request_id ≡ audit_id application request reference
      → IsRunAudited application request reference before
          (finish application request_id stage result reason after)
  unfolding finish delivered
  finish_audited reference before after request_id stage result reason kept known =
      delivery (application.audit_sink after event) refl
    where
      event : ApplicationAuditEvent
      event = record {
        request_id = request_id;
        stage = stage;
        outcome = outcome_of result;
        internal_reason = reason;
      }

      delivery :
          (attempt : Attempt (Unit {0}))
          → application.audit_sink after event ≡ attempt
          → IsRunAudited application request reference before (
            delivered application result attempt,
            record after { audits = after.audits ++ event ∷ [] },
          )
      delivery (returned u) sent = record {
        event = event;
        recorded = rw kept refl;
        identified = known;
        told = inl (rw (sym kept) sent, refl);
      }
      delivery raised sent = record {
        event = event;
        recorded = rw kept refl;
        identified = known;
        told = inr (rw (sym kept) sent, refl);
      }
      delivery cancelled sent = inr (record {
        event = event;
        recorded = rw kept refl;
        identified = known;
        interrupted = rw (sym kept) sent;
      })

  fail-Audited :
      (reference : TrustedRequestReference) (before after : ApplicationState) (request_id : String)
      (stage : ApplicationStage) (reason : ApplicationReason)
      → after.audits ≡ before.audits
      → request_id ≡ audit_id application request reference
      → IsRunAudited application request reference before
          (fail application request_id stage reason after)
  unfolding fail
  fail-Audited reference before after request_id stage reason kept known =
      finish_audited reference before after request_id stage (public_failure agent_unavailable)
        reason kept known

  publish_audited :
      (reference : TrustedRequestReference) (before after : ApplicationState)
      (result : Option PublicChatResult)
      → after.audits ≡ before.audits
      → reference.request_id ≡ audit_id application request reference
      → IsRunAudited application request reference before
          (publish application reference.request_id result after)
  unfolding publish
  publish_audited reference before after none kept known =
      fail-Audited reference before after reference.request_id ApplicationStage.orchestration
        orchestrator_failed kept known
  publish_audited reference before after (some result) kept known =
      elim (Bool-cases (pydantic.accepts_result result)) [
        | inl good ↦ rw good (
            finish_audited reference before after reference.request_id
              ApplicationStage.orchestration result completed kept known)
        | inr bad ↦ rw bad (
            fail-Audited reference before after reference.request_id ApplicationStage.orchestration
              orchestrator_failed kept known)
      ]

  -- An authorised request is valid input.
  authorized_id :
      (reference : TrustedRequestReference) (context : TrustedRequestContext)
      (accepted : PublicChatRequest) (route : AgentRoutingPolicy)
      → IsAuthorized application request reference context accepted route
      → audit_id application request reference ≡ reference.request_id
  authorized_id reference context accepted route a = rw (a.validated, a.reference_accepted) refl

  Ending-audited :
      (reference : TrustedRequestReference) (before : ApplicationState) (run : ApplicationRun)
      → Ending application request reference before run
      → IsRunAudited application request reference before run
  unfolding orchestrate
  Ending-audited reference before run (dropped e) = rw e (inl refl)
  Ending-audited reference before run (rejected id stage reason n known e) =
      rw e (fail-Audited reference before before id stage reason refl known)
  Ending-audited reference before run (dispatched context accepted route a e) = rw e (
      publish_audited reference before _ _ refl
        (sym (authorized_id reference context accepted route a)))

-- A request that returns a result has recorded exactly one application event, under the reference's
-- request ID or, for invalid input, under none. If the event is delivered, it has the outcome of the
-- result, and if the sink raises, the result is the audit failure. A cancelled request has recorded
-- no event, or one over which the sink was cancelled.
pub execute-IsOnceAudited :
    (application : TrustedChatApplication) (request : PublicChatRequest)
    (reference : TrustedRequestReference) (before : ApplicationState)
    → IsRunAudited application request reference before
        (execute application request reference before)
execute-IsOnceAudited application request reference before =
    Ending-audited application request reference before _
      (execute-Ending application request reference before)
