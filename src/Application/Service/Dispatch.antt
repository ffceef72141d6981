-- ===== src/Application/Service/Dispatch.antt =====
-- Which requests reach the orchestrator, and what a success stands on.
use ai_systems_try.Base.{
  String, ◌≡◌, refl, sym, ap, ◌∙◌, ◌⊎◌, inl, inr, Bool, true, false, Option, none, some, arith,
  string_eq, option_eq, if◌then◌else◌, Bool-cases,
}
use ai_systems_try.Context.{TrustedRequestContext}
use ai_systems_try.Orchestration.{
  agent_unavailable, AgentRoutingPolicy, PublicChatResult, PublicChatSuccess, chat_success,
}
use ai_systems_try.Orchestration.Service.{PublicChatRequest, public_failure}
use ai_systems_try.Orchestration.Service.Run
use ai_systems_try.Application.{
  Attempt, returned, raised, cancelled, TrustedRequestReference, ApplicationStage,
  ApplicationReason, completed, orchestrator_failed,
}
use ai_systems_try.Application.Service.{
  ApplicationState, TrustedChatApplication, ApplicationRun, delivered, finish, fail, publish,
  orchestrate, execute,
}
use ai_systems_try.Application.Service.Laws.{
  IsAuthorized, Ending, dropped, rejected, dispatched, execute-Ending,
}

module _ (application : TrustedChatApplication) where
  open application use {orchestrator, pydantic}

  -- The orchestrator's part in a request.
  pub record IsDispatched (request : PublicChatRequest) (reference : TrustedRequestReference)
      (before : ApplicationState) (run : ApplicationRun) : Type 0 where
    pub context : TrustedRequestContext
    pub accepted : PublicChatRequest
    pub route : AgentRoutingPolicy
    pub authorized : IsAuthorized application request reference context accepted route
    pub orchestrated :
        run.1.agent ≡ (Run.execute orchestrator context accepted route before.agent).1

  finish_agent :
      (request_id : String) (stage : ApplicationStage) (result : PublicChatResult)
      (reason : ApplicationReason) (state : ApplicationState)
      → (finish application request_id stage result reason state).1.agent ≡ state.agent
  unfolding finish
  finish_agent request_id stage result reason state = refl

  publish_agent :
      (request_id : String) (result : Option PublicChatResult) (state : ApplicationState)
      → (publish application request_id result state).1.agent ≡ state.agent
  unfolding publish fail finish
  publish_agent request_id none state = refl
  publish_agent request_id (some result) state =
      elim (Bool-cases (pydantic.accepts_result result)) [
        | inl good ↦ rw good refl
        | inr bad ↦ rw bad refl
      ]

  Ending-agent :
      (request : PublicChatRequest) (reference : TrustedRequestReference)
      (before : ApplicationState) (run : ApplicationRun)
      → Ending application request reference before run
      → (run.1.agent ≡ before.agent) ⊎ IsDispatched request reference before run
  unfolding orchestrate fail
  Ending-agent request reference before run (dropped e) = inl (ap (λ r. r.1.agent) e)
  Ending-agent request reference before run (rejected id stage reason n known e) = inl (
      ap (λ r. r.1.agent) e
      ∙ finish_agent id stage (public_failure agent_unavailable) reason before)
  Ending-agent request reference before run (dispatched context accepted route a e) = inr (record {
    context = context;
    accepted = accepted;
    route = route;
    authorized = a;
    orchestrated = ap (λ r. r.1.agent) e ∙ publish_agent reference.request_id _ _;
  })

  finish_success :
      (request_id : String) (stage : ApplicationStage) (result : PublicChatResult)
      (reason : ApplicationReason) (state : ApplicationState) (value : PublicChatSuccess)
      → (finish application request_id stage result reason state).0 ≡ some (chat_success value)
      → result ≡ chat_success value
  unfolding finish delivered
  finish_success request_id stage result reason state value h =
      delivery (application.audit_sink state _) h
    where
      delivery :
          (attempt : Attempt (Unit {0}))
          → delivered application result attempt ≡ some (chat_success value)
          → result ≡ chat_success value
      delivery (returned u) h = ground arith
      delivery raised h = ground arith
      delivery cancelled h = ground arith

  failure_differs :
      (value : PublicChatSuccess) → public_failure agent_unavailable ≡ chat_success value → ⊥
  failure_differs value p = ground arith

  fail_success :
      (request_id : String) (stage : ApplicationStage) (reason : ApplicationReason)
      (state : ApplicationState) (value : PublicChatSuccess)
      → (fail application request_id stage reason state).0 ≡ some (chat_success value)
      → ⊥
  unfolding fail
  fail_success request_id stage reason state value h =
      failure_differs value
        (finish_success request_id stage (public_failure agent_unavailable) reason state value h)

  publish_success :
      (request_id : String) (result : Option PublicChatResult) (state : ApplicationState)
      (value : PublicChatSuccess)
      → (publish application request_id result state).0 ≡ some (chat_success value)
      → result ≡ some (chat_success value)
  unfolding publish
  publish_success request_id none state value h =
      absurd
        (fail_success request_id ApplicationStage.orchestration orchestrator_failed state value h)
  publish_success request_id (some result) state value h =
      validated (pydantic.accepts_result result) h
    where
      validated :
          (b : Bool)
          → (if b
              then finish application request_id ApplicationStage.orchestration result completed
                  state
              else fail application request_id ApplicationStage.orchestration orchestrator_failed
                  state).0
            ≡ some (chat_success value)
          → some result ≡ some (chat_success value)
      validated true h =
          ap some (
            finish_success request_id ApplicationStage.orchestration result completed state value h)
      validated false h =
          absurd (
            fail_success request_id ApplicationStage.orchestration orchestrator_failed state value
              h)

  -- An authorised request whose run of the orchestrator succeeds.
  pub record IsServed (request : PublicChatRequest) (reference : TrustedRequestReference)
      (before : ApplicationState) (value : PublicChatSuccess) : Type 0 where
    pub context : TrustedRequestContext
    pub accepted : PublicChatRequest
    pub route : AgentRoutingPolicy
    pub authorized : IsAuthorized application request reference context accepted route
    pub answered :
        (Run.execute orchestrator context accepted route before.agent).0 ≡ some (chat_success value)

  Ending-success :
      (request : PublicChatRequest) (reference : TrustedRequestReference)
      (before : ApplicationState) (run : ApplicationRun) (value : PublicChatSuccess)
      → Ending application request reference before run
      → run.0 ≡ some (chat_success value)
      → IsServed request reference before value
  unfolding orchestrate
  Ending-success request reference before run value (dropped e) h = absurd (ground arith)
  Ending-success request reference before run value (rejected id stage reason n known e) h =
      absurd (fail_success id stage reason before value (sym (ap (λ r. r.0) e) ∙ h))
  Ending-success request reference before run value (dispatched context accepted route a e) h =
      record {
        context = context;
        accepted = accepted;
        route = route;
        authorized = a;
        answered = publish_success reference.request_id _ _ value (sym (ap (λ r. r.0) e) ∙ h);
      }

-- The orchestrator's state is left as it was, or the orchestrator has run on a request that was
-- authorised: a resolution in force whose identifiers are the context's and the reference's, a
-- current authorization snapshot, and the valid route of the resolved intent.
pub execute-IsDispatched :
    (application : TrustedChatApplication) (request : PublicChatRequest)
    (reference : TrustedRequestReference) (before : ApplicationState)
    → ((execute application request reference before).1.agent ≡ before.agent)
      ⊎ IsDispatched application request reference before
          (execute application request reference before)
execute-IsDispatched application request reference before =
    Ending-agent application request reference before _
      (execute-Ending application request reference before)

-- A success is returned only to an authorised request, and is the success of the orchestrator's run
-- for it.
pub execute-IsServed :
    (application : TrustedChatApplication) (request : PublicChatRequest)
    (reference : TrustedRequestReference) (before : ApplicationState) (value : PublicChatSuccess)
    → (execute application request reference before).0 ≡ some (chat_success value)
    → IsServed application request reference before value
execute-IsServed application request reference before value h =
    Ending-success application request reference before _ value
      (execute-Ending application request reference before) h
