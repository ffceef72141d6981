-- ===== src/Orchestration/Service/Run/Audit.antt =====
-- The audit of a run: one event that says how the run ended.
use ai_systems_try.Base.{
  ◌≡◌, refl, sym, ap, Bool, true, false, ◌&&◌, none, some, List, [], ◌∷◌, ◌++◌, arith, string_eq,
  if◌then◌else◌, inl, inr, ◌⊎◌,
}
use ai_systems_try.Context.{TrustedRequestContext}
use ai_systems_try.Tools.{Outcome, succeeded, failed}
use ai_systems_try.Orchestration.{
  audit_unavailable, AgentRoutingPolicy, PublicChatResult, chat_success, chat_failure,
}
use ai_systems_try.Orchestration.Transcript.{AgentReason, completed, route_not_completed}
use ai_systems_try.Orchestration.Transcript.Laws.{is_reserved}
use ai_systems_try.Orchestration.Service.{
  PublicChatRequest, AgentState, AgentOrchestrator, AgentAuditEvent, create_agent_audit_event, Run,
  finish, finish_failure, public_failure,
}
use ai_systems_try.Orchestration.Service.Run.{execute}
use ai_systems_try.Orchestration.Service.Run.Rounds.{RunEnding, raised, refused, answered}
use ai_systems_try.Orchestration.Service.Run.Laws.{execute-Ending}

abbrev pub is_completed : AgentReason → Bool
is_completed completed = true
is_completed _ = false

abbrev pub is_fall_through : AgentReason → Bool
is_fall_through route_not_completed = true
is_fall_through _ = false

abbrev pub is_chat_success : PublicChatResult → Bool
is_chat_success (chat_success value) = true
is_chat_success (chat_failure value) = false

-- What the audit of a run says: one event, for this request, with the outcome of the run.
pub record IsAgentAudited (agent : AgentOrchestrator) (context : TrustedRequestContext)
    (before : AgentState) (result : PublicChatResult) (after : AgentState) : Type 0 where
  pub event : AgentAuditEvent
  pub recorded : after.audits ≡ before.audits ++ event ∷ []
  pub same_request : event.request_id ≡ context.request_id
  pub same_environment : event.customer_environment_id ≡ context.customer_environment_id
  pub same_user : event.user_id ≡ context.user_id
  pub same_purpose : event.purpose ≡ context.purpose
  pub outcome : event.outcome ≡ (if is_completed event.internal_reason then succeeded else failed)
  pub succeeds : is_chat_success result ≡ (
      is_completed event.internal_reason
      && agent.delivers (record after { audits = before.audits }) event)
  pub undelivered :
      (agent.delivers (record after { audits = before.audits }) event ≡ true)
      ⊎ (result ≡ public_failure audit_unavailable)
  pub terminated : is_fall_through event.internal_reason ≡ false

-- A run that lets an exception out has recorded nothing.
abbrev pub IsRunAudited : AgentOrchestrator → TrustedRequestContext → AgentState → Run → Type 0
IsRunAudited agent context before (none, after) = after.audits ≡ before.audits
IsRunAudited agent context before (some result, after) =
    IsAgentAudited agent context before result after

replaced_audits :
    (after : AgentState) (audits : List AgentAuditEvent)
    → after.audits ≡ audits
    → record after { audits = audits } ≡ after
replaced_audits after audits kept = ap (λ a. record after { audits = a }) (sym kept)

-- The event of `_finish` on a state that has recorded nothing since `before`.
finish_audited :
    (agent : AgentOrchestrator) (context : TrustedRequestContext) (before after : AgentState)
    (result : PublicChatResult) (outcome : Outcome) (reason : AgentReason)
    → outcome ≡ (if is_completed reason then succeeded else failed)
    → after.audits ≡ before.audits
    → is_chat_success result ≡ is_completed reason
    → is_fall_through reason ≡ false
    → IsRunAudited agent context before (finish agent context result outcome reason after)
unfolding finish create_agent_audit_event
finish_audited agent context before after result outcome reason said kept success ends =
    let event = create_agent_audit_event context outcome reason in
    record {
      event = event;
      recorded = rw kept refl;
      same_request = refl;
      same_environment = refl;
      same_user = refl;
      same_purpose = refl;
      outcome = said;
      succeeds =
          rw (replaced_audits after before.audits kept)
            (publishes result (is_completed reason) (agent.delivers after event) success);
      undelivered =
          rw (replaced_audits after before.audits kept)
            (withholds result (agent.delivers after event));
      terminated = ends;
    }
  where
    publishes :
        (result : PublicChatResult) (c d : Bool)
        → is_chat_success result ≡ c
        → is_chat_success (if d then result else public_failure audit_unavailable) ≡ (c && d)
    publishes result c true e = ground arith
    publishes result c false e = ground arith

    withholds :
        (result : PublicChatResult) (d : Bool)
        → (d ≡ true)
          ⊎ ((if d then result else public_failure audit_unavailable)
              ≡ public_failure audit_unavailable)
    withholds result true = inl refl
    withholds result false = inr refl

not_reserved :
    (reason : AgentReason)
    → is_reserved reason ≡ false
    → (is_completed reason ≡ false) × (is_fall_through reason ≡ false)
not_reserved reason h = (ground arith, ground arith)

Ending-audited :
    (agent : AgentOrchestrator) (context : TrustedRequestContext) (request : PublicChatRequest)
    (routing : AgentRoutingPolicy) (before : AgentState) (run : Run)
    → RunEnding agent context request routing routing.mode before run
    → IsRunAudited agent context before run
unfolding finish_failure
Ending-audited agent context request routing before run (raised after w e) = rw e w.audits_kept
Ending-audited agent context request routing before run (refused after code reason w n e) =
    let (incomplete, ends) = not_reserved reason n in
    rw e (
      finish_audited agent context before after (public_failure code) failed reason
        (rw incomplete refl) w.audits_kept (rw incomplete refl) ends)
Ending-audited agent context request routing before run
      (answered after answer value earlier d p a l c e) =
    rw e (
      finish_audited agent context before after (chat_success value) succeeded completed refl
        d.audits_kept refl refl)

-- A run that returns a result has recorded exactly one audit event, which carries the identifiers of
-- the trusted context; its outcome and reason say whether the result is a success, unless the event
-- could not be delivered, when the result is the audit failure. The reason is never the one that
-- stands behind the loop. A run that lets an exception out has recorded none.
pub execute-IsRunAudited :
    (agent : AgentOrchestrator) (context : TrustedRequestContext) (request : PublicChatRequest)
    (routing : AgentRoutingPolicy) (before : AgentState)
    → IsRunAudited agent context before (execute agent context request routing before)
execute-IsRunAudited agent context request routing before =
    Ending-audited agent context request routing before _
      (execute-Ending agent context request routing before)
