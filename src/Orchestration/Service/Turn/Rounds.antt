-- ===== src/Orchestration/Service/Turn/Rounds.antt =====
-- Every round of the orchestrator ends its run or goes on after one successful tool call.
use Prim.Native.String.{count}
use ai_systems_try.Base.{
  ℕ, ◌≡◌, refl, false, not, Option, none, some, List, arith, ltb, string_eq, nat_eq, Bool-cases,
  inl, inr,
}
use ai_systems_try.Orchestration.{
  agent_unavailable, agent_limit_reached, invalid_model_response, PublicCitation, ModelFinalAnswer,
}
use ai_systems_try.Orchestration.Transcript.{
  AgentReason, Failure, transcript_failure, validate_turn,
}
use ai_systems_try.Orchestration.Transcript.Laws.{transcript_reason}
use ai_systems_try.Orchestration.Service.{
  ModelReply, provider_raised, other_response, final_answer, tool_call, AgentState,
  AgentOrchestrator,
}
use ai_systems_try.Orchestration.Service.Turn.{
  Request, Progress, turn_request, accepted_citations, publish, handle_answer, handle_reply,
  send_turn, budgeted, round,
}
use ai_systems_try.Orchestration.Service.Turn.Endings.{
  IsWithin, IsAfter, has_ended, answered, is_call_turn, call_runs, published, Result, fails, raises,
  IsWithin-idle, reply_to, sent, sent-IsAfter, if_Result,
}
use ai_systems_try.Orchestration.Service.Turn.Calls.{handle_call-Result}

module _ (agent : AgentOrchestrator) (request : Request) where
  open agent use {tool_gateway, limits, pydantic, json}
  open request use {context, routing}

  publish-Result :
      (turn_number : ℕ) (progress : Progress) (before after : AgentState)
      (answer : ModelFinalAnswer) (citations : Option (List PublicCitation))
      → IsAfter 1 0 before after
      → IsWithin 1 (call_runs agent request turn_number) before after
      → is_call_turn agent request turn_number ≡ false
      → accepted_citations routing.mode answer progress ≡ citations
      → reply_to agent request turn_number progress before ≡ final_answer answer
      → after ≡ sent agent request progress turn_number before
      → Result agent request turn_number progress before
          (publish agent request answer citations after)
  unfolding publish
  publish-Result turn_number progress before after answer none d w n e q s =
      fails agent request turn_number progress before after invalid_model_response
        AgentReason.citation_validation_failed w refl
  publish-Result turn_number progress before after answer (some citations) d w n e q s =
      elim (Bool-cases (pydantic.accepts_success (published agent request answer citations))) [
        | inl ok ↦ rw ok (has_ended _ (answered after answer citations d n e q s refl) refl)
        | inr bad ↦ rw bad (raises agent request turn_number progress before after w)
      ]

  handle_answer-Result :
      (turn_number : ℕ) (progress : Progress) (before : AgentState) (answer : ModelFinalAnswer)
      → reply_to agent request turn_number progress before ≡ final_answer answer
      → Result agent request turn_number progress before (
          handle_answer agent request answer progress turn_number
            (sent agent request progress turn_number before))
  unfolding handle_answer
  handle_answer-Result turn_number progress before answer q =
      let after = sent-IsAfter agent request progress turn_number before in
      let within = IsWithin-idle agent request turn_number before _ after in
      if_Result agent request turn_number progress before (is_call_turn agent request turn_number) _
        _
        (λ a.
          fails agent request turn_number progress before _ invalid_model_response
            AgentReason.required_tool_call_missing within refl)
        (λ n.
          if_Result agent request turn_number progress before
            (ltb limits.maximum_final_answer_characters (count answer.answer)) _ _
            (λ a.
              fails agent request turn_number progress before _ agent_limit_reached
                AgentReason.final_answer_limit_reached within refl)
            (λ a.
              publish-Result turn_number progress before _ answer
                (accepted_citations routing.mode answer progress) after within n refl q refl))

  reply-Result :
      (turn_number : ℕ) (progress : Progress) (before : AgentState) (reply : ModelReply)
      → reply_to agent request turn_number progress before ≡ reply
      → Result agent request turn_number progress before (
          handle_reply agent request reply progress turn_number
            (sent agent request progress turn_number before))
  unfolding handle_reply
  reply-Result turn_number progress before provider_raised q =
      fails agent request turn_number progress before _ agent_unavailable
        AgentReason.model_provider_failed
        (IsWithin-idle agent request turn_number before _
          (sent-IsAfter agent request progress turn_number before))
        refl
  reply-Result turn_number progress before other_response q =
      fails agent request turn_number progress before _ invalid_model_response
        AgentReason.wrong_model_response
        (IsWithin-idle agent request turn_number before _
          (sent-IsAfter agent request progress turn_number before))
        refl
  reply-Result turn_number progress before (final_answer answer) q =
      handle_answer-Result turn_number progress before answer q
  reply-Result turn_number progress before (tool_call call) q =
      handle_call-Result agent request turn_number progress before call q

  not_sent :
      (turn_number : ℕ) (before : AgentState)
      → IsWithin 1 (call_runs agent request turn_number) before before
  not_sent turn_number before = record {
    audits_kept = refl;
    turns_bound = omega arith;
    runs_bound = omega arith;
  }

  budgeted-Result :
      (turn_number : ℕ) (progress : Progress) (before : AgentState) (f : Option Failure)
      → transcript_failure pydantic json limits progress.interactions ≡ f
      → Result agent request turn_number progress before
          (budgeted agent request f progress turn_number before)
  unfolding budgeted send_turn
  budgeted-Result turn_number progress before none e =
      let turn = turn_request request progress.interactions turn_number in
      if_Result agent request turn_number progress before (not (validate_turn pydantic json turn)) _
        _
        (λ a. raises agent request turn_number progress before before (not_sent turn_number before))
        (λ a. reply-Result turn_number progress before (agent.complete_turn before turn) refl)
  budgeted-Result turn_number progress before (some (code, reason)) e =
      fails agent request turn_number progress before before code reason
        (not_sent turn_number before)
        (transcript_reason pydantic json limits progress.interactions code reason e)

  -- Every round ends its run in one of the three ways, or goes on after one successful tool call.
  pub round-Result :
      (turn_number : ℕ) (progress : Progress) (before : AgentState)
      → Result agent request turn_number progress before
          (round agent request progress turn_number before)
  unfolding round
  round-Result turn_number progress before =
      budgeted-Result turn_number progress before
        (transcript_failure pydantic json limits progress.interactions) refl
