-- ===== src/Orchestration/Service/Turn/Calls.antt =====
-- A round with a tool call: the gateway runs on the routed tool only, and its success is kept.
use ai_systems_try.Base.{
  ℕ, ◌+◌, String, ◌≡◌, refl, true, not, ◌||◌, Option, none, some, List, [], ◌∷◌, ◌++◌, arith,
  length, ◌==◌, string_eq, nat_eq, Bool-cases, Option-cases, inl, inr,
}
use ai_systems_try.Tools.{
  Trace, ToolInvocation, PublicToolSuccess, PublicToolResult, success, failure,
}
use ai_systems_try.Tools.Gateway
use ai_systems_try.Tools.Gateway.Runs.{run_count-execute, execute-success}
use ai_systems_try.Orchestration.{
  agent_unavailable, agent_limit_reached, invalid_model_response, audit_unavailable, is_exact_route,
  ModelToolCall, ModelToolInteraction,
}
use ai_systems_try.Orchestration.Transcript.{
  AgentReason, transcript_failure, exceeds_argument_limits, validate_interaction,
}
use ai_systems_try.Orchestration.Transcript.Laws.{transcript_reason}
use ai_systems_try.Orchestration.Grounding.{Observed, observe_citations}
use ai_systems_try.Orchestration.Service.{tool_call, AgentState, AgentOrchestrator, is_routed}
use ai_systems_try.Orchestration.Service.Turn.{
  interaction_of, Request, Progress, keep_evidence, keep_result, is_audit_failure, handle_result,
  invoke, check_call, revalidated, handle_call,
}
use ai_systems_try.Orchestration.Service.Turn.Endings.{
  IsWithin, IsAfter, goes_on, is_call_turn, call_runs, Result, fails, raises, IsWithin-call,
  IsWithin-idle, reply_to, sent, sent-IsAfter, if_Result,
}

module _ (agent : AgentOrchestrator) (request : Request) where
  open agent use {tool_gateway, limits, pydantic, json}
  open request use {context, routing}

  abbrev invocation_of : ModelToolCall → ToolInvocation
  invocation_of call = record {
    tool_name = call.tool_name;
    version = call.version;
    arguments = call.arguments;
  }

  -- The call of the gateway, and the state after it.
  abbrev executed : ModelToolCall → AgentState → PublicToolResult × Trace
  executed call before = Gateway.execute tool_gateway context (invocation_of call) before.tools

  abbrev called : ModelToolCall → Progress → ℕ → AgentState → AgentState
  called call progress turn_number before =
      record (sent agent request progress turn_number before) { tools = (executed call before).1 }

  -- The model's call, from which `call` is rebuilt.
  abbrev IsReceived : ℕ → Progress → AgentState → ModelToolCall → Type 0
  IsReceived turn_number progress before call =
      (received : ModelToolCall) × (reply_to agent request turn_number progress before
        ≡ tool_call received)
      × (revalidated agent request received ≡ some call)

  -- What is known of a call whose tool has run with success.
  abbrev HasRun :
      ℕ → Progress → AgentState → AgentState → ModelToolCall → PublicToolSuccess → Type 0
  HasRun turn_number progress before after call result =
      (IsReceived turn_number progress before call
        × (after ≡ called call progress turn_number before))
      × IsAfter 1 1 before after
      × (is_call_turn agent request turn_number ≡ true)
      × (is_routed routing call.tool_name call.version ≡ true)
      × ((Gateway.execute tool_gateway context (invocation_of call) before.tools).0
          ≡ success result)

  evidence-Result :
      (turn_number : ℕ) (progress : Progress) (before after : AgentState) (call : ModelToolCall)
      (interaction : ModelToolInteraction) (result : PublicToolSuccess)
      (observed : Option (List String × Observed))
      → HasRun turn_number progress before after call result
      → observe_citations result progress.citations ≡ observed
      → Result agent request turn_number progress before
          (keep_evidence agent request call interaction progress observed after)
  unfolding keep_evidence
  evidence-Result turn_number progress before after call interaction result none
        (((received, replied, rebuilt), state), d, c, r, g) o =
      fails agent request turn_number progress before after invalid_model_response
        AgentReason.citation_metadata_conflict
        (IsWithin-call agent request turn_number 1 before after c (omega arith) d) refl
  evidence-Result turn_number progress before after call interaction result (some (ids, observed))
        (((received, replied, rebuilt), state), d, c, r, g) o =
      goes_on _ after d c
        (record {
          received = received;
          replied = replied;
          call = call;
          rebuilt = rebuilt;
          called = state;
          result = result;
          evidence = _;
          routed = r;
          gateway_success = g;
          evidence_kept = refl;
          same_id = refl;
          same_kind = refl;
          citations_observed = o;
        })
        refl

  kept-Result :
      (turn_number : ℕ) (progress : Progress) (before after : AgentState) (call : ModelToolCall)
      (result : PublicToolSuccess)
      → HasRun turn_number progress before after call result
      → Result agent request turn_number progress before
          (keep_result agent request call result progress after)
  unfolding keep_result
  kept-Result turn_number progress before after call result
        (((received, replied, rebuilt), state), d, c, r, g) =
      let within = IsWithin-call agent request turn_number 1 before after c (omega arith) d in
      let interaction = interaction_of call result in
      let candidate = progress.interactions ++ interaction ∷ [] in
      elim (Bool-cases (validate_interaction pydantic json interaction)) [
        | inl ok ↦ rw ok (elim (Option-cases (transcript_failure pydantic json limits candidate)) [
          | inl none' ↦ rw none' (
              evidence-Result turn_number progress before after call interaction result
                (observe_citations result progress.citations)
                (((received, replied, rebuilt), state), d, c, r, g) refl)
          | inr (f, e) ↦ rw e (
              fails agent request turn_number progress before after f.0 f.1 within
                (transcript_reason pydantic json limits candidate f.0 f.1 e))
        ])
        | inr bad ↦ rw bad (raises agent request turn_number progress before after within)
      ]

  called_turns :
      (call : ModelToolCall) (progress : Progress) (turn_number : ℕ) (before : AgentState)
      → length (called call progress turn_number before).turns ≡ length before.turns + 1
  called_turns call progress turn_number before =
      (sent-IsAfter agent request progress turn_number before).turns_sent

  called-IsWithin :
      (call : ModelToolCall) (progress : Progress) (turn_number : ℕ) (before : AgentState)
      → is_call_turn agent request turn_number ≡ true
      → IsWithin 1
          (call_runs agent request turn_number)
          before
          (called call progress turn_number before)
  called-IsWithin call progress turn_number before c = record {
    audits_kept = refl;
    turns_bound = omega (arith, called_turns call progress turn_number before);
    runs_bound =
        rw c (
          ground (arith, run_count-execute tool_gateway context (invocation_of call) before.tools));
  }

  -- A success means that the handler has run.
  called-IsAfter :
      (call : ModelToolCall) (progress : Progress) (turn_number : ℕ) (before : AgentState)
      (result : PublicToolSuccess)
      → (executed call before).0 ≡ success result
      → IsAfter 1 1 before (called call progress turn_number before)
  called-IsAfter call progress turn_number before result e =
      let ran =
        execute-success tool_gateway context (invocation_of call) before.tools (rw e refl) in
      record {
        audits_kept = refl;
        turns_sent = called_turns call progress turn_number before;
        runs_made =
            ground (
              arith,
              ran,
              run_count-execute tool_gateway context (invocation_of call) before.tools,
            );
      }

  gateway-Result :
      (turn_number : ℕ) (progress : Progress) (before : AgentState) (call : ModelToolCall)
      (result : PublicToolResult)
      → is_call_turn agent request turn_number ≡ true
      → is_routed routing call.tool_name call.version ≡ true
      → IsReceived turn_number progress before call
      → (executed call before).0 ≡ result
      → Result agent request turn_number progress before (
          handle_result agent request call result progress
            (called call progress turn_number before))
  unfolding handle_result
  gateway-Result turn_number progress before call (failure f) c r q e =
      let within = called-IsWithin call progress turn_number before c in
      if_Result agent request turn_number progress before (is_audit_failure agent request f) _ _
        (λ a.
          fails agent request turn_number progress before _ audit_unavailable
            AgentReason.tool_audit_unavailable within refl)
        (λ a.
          fails agent request turn_number progress before _ agent_unavailable
            AgentReason.routed_tool_failed within refl)
  gateway-Result turn_number progress before call (success s) c r q e =
      kept-Result turn_number progress before (called call progress turn_number before) call s
        ((q, refl), called-IsAfter call progress turn_number before s e, c, r, e)

  checked-Result :
      (turn_number : ℕ) (progress : Progress) (before : AgentState) (call : ModelToolCall)
      → is_call_turn agent request turn_number ≡ true
      → IsReceived turn_number progress before call
      → Result agent request turn_number progress before
          (check_call agent request call progress (sent agent request progress turn_number before))
  unfolding check_call invoke
  checked-Result turn_number progress before call c q =
      let within =
        IsWithin-idle agent request turn_number before _
          (sent-IsAfter agent request progress turn_number before) in
      if_Result agent request turn_number progress before
        (not (is_routed routing call.tool_name call.version)) _ _
        (λ a.
          fails agent request turn_number progress before _ invalid_model_response
            AgentReason.routed_tool_mismatch within refl)
        (λ r.
          if_Result agent request turn_number progress before (exceeds_argument_limits limits call)
            _ _
            (λ a.
              fails agent request turn_number progress before _ agent_limit_reached
                AgentReason.tool_argument_limit_reached within refl)
            (λ a.
              gateway-Result turn_number progress before call (executed call before).0 c
                (ground arith) q refl))

  pub handle_call-Result :
      (turn_number : ℕ) (progress : Progress) (before : AgentState) (call : ModelToolCall)
      → reply_to agent request turn_number progress before ≡ tool_call call
      → Result agent request turn_number progress before (
          handle_call agent request call progress turn_number
            (sent agent request progress turn_number before))
  unfolding handle_call
  handle_call-Result turn_number progress before call q =
      let within =
        IsWithin-idle agent request turn_number before _
          (sent-IsAfter agent request progress turn_number before) in
      if_Result agent request turn_number progress before
        (not (is_exact_route routing.mode) || not (turn_number == 1)) _ _
        (λ a.
          fails agent request turn_number progress before _ invalid_model_response
            AgentReason.tool_call_not_allowed within refl)
        (λ a. elim (Option-cases (revalidated agent request call)) [
          | inl none' ↦ rw none' (
              fails agent request turn_number progress before _ invalid_model_response
                AgentReason.invalid_model_tool_call within refl)
          | inr (validated, e) ↦
              rw e
                (checked-Result turn_number progress before validated (ground arith) (call, q, e))
        ])
