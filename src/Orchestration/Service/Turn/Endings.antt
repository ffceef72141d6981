-- ===== src/Orchestration/Service/Turn/Endings.antt =====
-- How one round of the orchestrator ends, what it costs, and what it leaves for the next one.
use ai_systems_try.Base.{
  sym, Option-cases, Bool-cases, inl, inr, ℕ, ◌+◌, ◌≤◌, ◌≡◌, refl, Bool, true, false, ◌&&◌, none,
  some, List, [], ◌∷◌, ◌++◌, arith, length, length-append, ◌==◌, string_eq, nat_eq, if◌then◌else◌,
}
use ai_systems_try.Base.Dict
use ai_systems_try.Tools.{succeeded, PublicToolSuccess, success}
use ai_systems_try.Tools.Gateway
use ai_systems_try.Tools.Gateway.Runs.{run_count}
use ai_systems_try.Orchestration.{
  AgentErrorCode, is_exact_route, PublicCitation, PublicChatSuccess, chat_success, ModelFinalAnswer,
  ModelToolCall,
}
use ai_systems_try.Orchestration.Arguments.{from_arguments_json, json_values_equivalent}
use ai_systems_try.Orchestration.Transcript.{AgentReason}
use ai_systems_try.Orchestration.Transcript.Laws.{is_reserved}
use ai_systems_try.Orchestration.Grounding.{SuccessfulEvidenceCall, observe_citations}
use ai_systems_try.Orchestration.Service.{
  ModelReply, final_answer, tool_call, AgentState, AgentOrchestrator, Run, finish, finish_failure,
  is_routed,
}
use ai_systems_try.Orchestration.Service.Turn.{
  Request, Progress, Round, ended, next_round, turn_request, accepted_citations, revalidated,
}

-- At most `turns` model turns and `runs` handler runs later, with no agent audit between.
pub record IsWithin (turns runs : ℕ) (before after : AgentState) : Type 0 where
  pub audits_kept : after.audits ≡ before.audits
  pub turns_bound : length after.turns ≤ length before.turns + turns
  pub runs_bound : run_count after.tools ≤ run_count before.tools + runs

-- Exactly so much later.
pub record IsAfter (turns runs : ℕ) (before after : AgentState) : Type 0 where
  pub audits_kept : after.audits ≡ before.audits
  pub turns_sent : length after.turns ≡ length before.turns + turns
  pub runs_made : run_count after.tools ≡ run_count before.tools + runs

module _ (agent : AgentOrchestrator) (request : Request) where
  open agent use {tool_gateway, limits, pydantic, json}
  open request use {context, routing}

  -- The tool may be called in this round.
  abbrev pub is_call_turn : ℕ → Bool
  is_call_turn turn_number = is_exact_route routing.mode && turn_number == 1

  abbrev pub call_runs : ℕ → ℕ
  call_runs turn_number = if is_call_turn turn_number then 1 else 0

  -- The success that the run publishes for an answer.
  abbrev pub published : ModelFinalAnswer → List PublicCitation → PublicChatSuccess
  published answer citations = record {
    answer = answer.answer;
    response_language = request.response_language;
    citations = citations;
  }

  -- The state after the turn is sent.
  abbrev pub sent : Progress → ℕ → AgentState → AgentState
  sent progress turn_number before = record before {
    turns = before.turns ++ turn_request request progress.interactions turn_number ∷ [];
  }

  -- What the provider answers to the turn of this round.
  abbrev pub reply_to : ℕ → Progress → AgentState → ModelReply
  reply_to turn_number progress before =
      agent.complete_turn before (turn_request request progress.interactions turn_number)

  -- The ways in which a round ends its run: an exception, a failure, or an accepted answer.
  pub data Ending (turn_number : ℕ) (progress : Progress) (before : AgentState) (run : Run)
      : Type 0 where
    raised :
        (after : AgentState)
        → IsWithin 1 (call_runs turn_number) before after
        → run ≡ (none, after)
        → Ending turn_number progress before run
    refused :
        (after : AgentState) (code : AgentErrorCode) (reason : AgentReason)
        → IsWithin 1 (call_runs turn_number) before after
        → is_reserved reason ≡ false
        → run ≡ finish_failure agent context code reason after
        → Ending turn_number progress before run
    answered :
        (after : AgentState) (answer : ModelFinalAnswer) (citations : List PublicCitation)
        → IsAfter 1 0 before after
        → is_call_turn turn_number ≡ false
        → accepted_citations routing.mode answer progress ≡ some citations
        → reply_to turn_number progress before ≡ final_answer answer
        → after ≡ sent progress turn_number before
        → run
          ≡ finish agent context
              (chat_success (published answer citations))
              succeeded
              AgentReason.completed
              after
        → Ending turn_number progress before run

  -- The model has called the routed tool, the gateway succeeded on the call that was rebuilt, and
  -- this call is the new evidence.
  pub record IsCalled (turn_number : ℕ) (progress : Progress) (before : AgentState)
      (progress' : Progress) (after : AgentState) : Type 0 where
    pub received : ModelToolCall
    pub replied : reply_to turn_number progress before ≡ tool_call received
    pub call : ModelToolCall
    pub rebuilt : revalidated agent request received ≡ some call
    pub called : after ≡ record (sent progress turn_number before) {
      tools =
          (Gateway.execute tool_gateway context
            (record {
              tool_name = call.tool_name;
              version = call.version;
              arguments = call.arguments;
            })
            before.tools).1;
    }
    pub result : PublicToolSuccess
    pub evidence : SuccessfulEvidenceCall
    pub routed : is_routed routing call.tool_name call.version ≡ true
    pub gateway_success :
        (Gateway.execute tool_gateway context
          (record {
            tool_name = call.tool_name;
            version = call.version;
            arguments = call.arguments;
          })
          before.tools).0
        ≡ success result
    pub evidence_kept :
        progress'.successful_calls ≡ Dict.insert call.call_id evidence progress.successful_calls
    pub same_id : evidence.call_id ≡ call.call_id
    pub same_kind : evidence.is_knowledge ≡ (call.tool_name == "search_hr_knowledge")
    pub citations_observed :
        observe_citations result progress.citations
        ≡ some (evidence.citation_ids, progress'.citations)

  pub data Result (turn_number : ℕ) (progress : Progress) (before : AgentState) (r : Round)
      : Type 0 where
    has_ended :
        (run : Run)
        → Ending turn_number progress before run
        → r ≡ ended run
        → Result turn_number progress before r
    goes_on :
        (progress' : Progress) (after : AgentState)
        → IsAfter 1 1 before after
        → is_call_turn turn_number ≡ true
        → IsCalled turn_number progress before progress' after
        → r ≡ next_round progress' after
        → Result turn_number progress before r

  -- A failure with the reasons that a round has.
  pub fails :
      (turn_number : ℕ) (progress : Progress) (before after : AgentState) (code : AgentErrorCode)
      (reason : AgentReason)
      → IsWithin 1 (call_runs turn_number) before after
      → is_reserved reason ≡ false
      → Result turn_number progress before (ended (finish_failure agent context code reason after))
  fails turn_number progress before after code reason w n =
      has_ended (finish_failure agent context code reason after)
        (refused after code reason w n refl) refl

  pub raises :
      (turn_number : ℕ) (progress : Progress) (before after : AgentState)
      → IsWithin 1 (call_runs turn_number) before after
      → Result turn_number progress before (ended (none, after))
  raises turn_number progress before after w = has_ended (none, after) (raised after w refl) refl

  pub IsWithin-call :
      (turn_number runs : ℕ) (before after : AgentState)
      → is_call_turn turn_number ≡ true
      → runs ≤ 1
      → IsAfter 1 runs before after
      → IsWithin 1 (call_runs turn_number) before after
  IsWithin-call turn_number runs before after c r d = record {
    audits_kept = d.audits_kept;
    turns_bound = omega (arith, d.turns_sent);
    runs_bound = rw c (omega (arith, d.runs_made, r));
  }

  pub IsWithin-idle :
      (turn_number : ℕ) (before after : AgentState)
      → IsAfter 1 0 before after
      → IsWithin 1 (call_runs turn_number) before after
  IsWithin-idle turn_number before after d = record {
    audits_kept = d.audits_kept;
    turns_bound = omega (arith, d.turns_sent);
    runs_bound = omega (arith, d.runs_made);
  }

  pub sent-IsAfter :
      (progress : Progress) (turn_number : ℕ) (before : AgentState)
      → IsAfter 1 0 before (sent progress turn_number before)
  sent-IsAfter progress turn_number before = record {
    audits_kept = refl;
    turns_sent =
        length-append before.turns (turn_request request progress.interactions turn_number ∷ []);
    runs_made = omega arith;
  }

  pub if_Result :
      (turn_number : ℕ) (progress : Progress) (before : AgentState) (b : Bool) (x y : Round)
      → (b ≡ true → Result turn_number progress before x)
      → (b ≡ false → Result turn_number progress before y)
      → Result turn_number progress before (if b then x else y)
  if_Result turn_number progress before true x y f g = f refl
  if_Result turn_number progress before false x y f g = g refl

  -- A call that is rebuilt comes from the received JSON text and agrees with its parsed value.
  pub revalidated-some :
      (received call : ModelToolCall)
      → revalidated agent request received ≡ some call
      → (from_arguments_json pydantic json received.call_id received.tool_name received.version
            received.arguments_json
          ≡ some call)
        × (json_values_equivalent json call.arguments received.arguments ≡ true)
  unfolding revalidated
  revalidated-some received call h =
      elim (Option-cases (
        from_arguments_json pydantic json received.call_id received.tool_name received.version
          received.arguments_json)) [
            | inl missing ↦ let h' = rw (revalidated, missing) at h in cc
            | inr (built, found) ↦
                let h' = rw (revalidated, found) at h in
                elim (Bool-cases (json_values_equivalent json built.arguments received.arguments)) [
                  | inl same ↦
                      let k = rw same at h' in
                      let eq : built ≡ call = cc k in rw (sym eq) (found, same)
                  | inr differs ↦ let k = rw differs at h' in cc
                ]
          ]
