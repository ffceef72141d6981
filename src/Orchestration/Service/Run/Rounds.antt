-- ===== src/Orchestration/Service/Run/Rounds.antt =====
-- The rounds of a general and of an exact run, from the endings of their turns.
use ai_systems_try.Base.{ℕ, ◌≡◌, refl, sym, ap, ◌∙◌, false, none, List, arith, string_eq}
use ai_systems_try.Context.{TrustedRequestContext}
use ai_systems_try.Capability.{DataClassification}
use ai_systems_try.Tools.{succeeded}
use ai_systems_try.Orchestration.{
  AgentErrorCode, AgentRouteMode, general_only, exact_read_then_final, AgentRoutingPolicy,
  PublicChatSuccess, chat_success, ModelFinalAnswer, ModelToolDefinition,
}
use ai_systems_try.Orchestration.Transcript.{AgentReason, completed}
use ai_systems_try.Orchestration.Transcript.Laws.{is_reserved}
use ai_systems_try.Orchestration.Service.{
  final_answer, PublicChatRequest, AgentState, AgentOrchestrator, Run, finish, finish_failure,
  response_language,
}
use ai_systems_try.Orchestration.Service.Turn.{
  turn_request, Request, Progress, Round, after_round, rounds,
}
use ai_systems_try.Orchestration.Service.Turn.Endings.{
  reply_to, sent, IsWithin, IsAfter, IsCalled, Ending, is_call_turn, published, Result, has_ended,
  goes_on,
}
use ai_systems_try.Orchestration.Service.Turn.Endings
use ai_systems_try.Orchestration.Service.Turn.Rounds.{round-Result}
use ai_systems_try.Orchestration.Service.Run.{no_progress, run_request}
use ai_systems_try.Orchestration.Service.Run.Endings.{
  max_turns, max_runs, IsReplied, IsCited, general_IsCited, exact_IsCited,
}

module _ (agent : AgentOrchestrator) (context : TrustedRequestContext) (request : PublicChatRequest)
    (routing : AgentRoutingPolicy) where
  -- The ways in which a run of this route ends.
  pub data RunEnding (mode : AgentRouteMode) (before : AgentState) (run : Run) : Type 0 where
    raised :
        (after : AgentState)
        → IsWithin (max_turns mode) (max_runs mode) before after
        → run ≡ (none, after)
        → RunEnding mode before run
    refused :
        (after : AgentState) (code : AgentErrorCode) (reason : AgentReason)
        → IsWithin (max_turns mode) (max_runs mode) before after
        → is_reserved reason ≡ false
        → run ≡ finish_failure agent context code reason after
        → RunEnding mode before run
    answered :
        (after : AgentState) (answer : ModelFinalAnswer) (value : PublicChatSuccess)
        (earlier : AgentState)
        → IsAfter (max_turns mode) (max_runs mode) before after
        → IsReplied agent before earlier after answer
        → value.answer ≡ answer.answer
        → value.response_language ≡ response_language agent context request
        → IsCited agent context routing mode before earlier answer value.citations
        → run ≡ finish agent context (chat_success value) succeeded completed after
        → RunEnding mode before run

  unchanged : (turns runs : ℕ) (before : AgentState) → IsWithin turns runs before before
  unchanged turns runs before = record {
    audits_kept = refl;
    turns_bound = omega arith;
    runs_bound = omega arith;
  }

  -- A run that fails before its first round.
  pub fails_early :
      (mode : AgentRouteMode) (before : AgentState) (code : AgentErrorCode) (reason : AgentReason)
      → is_reserved reason ≡ false
      → RunEnding mode before (finish_failure agent context code reason before)
  fails_early mode before code reason n =
      refused before code reason (unchanged (max_turns mode) (max_runs mode) before) n refl

  module _ (tools : List ModelToolDefinition) (classification : DataClassification) where
    abbrev fixed : Request
    fixed = run_request agent context request routing tools classification

    -- The reply to the turn of a round that ends with an answer.
    is_replied :
        (before earlier : AgentState) (progress : Progress) (turn_number : ℕ) (after : AgentState)
        (answer : ModelFinalAnswer)
        → earlier.audits ≡ before.audits
        → reply_to agent fixed turn_number progress earlier ≡ final_answer answer
        → after ≡ sent agent fixed progress turn_number earlier
        → IsReplied agent before earlier after answer
    is_replied before earlier progress turn_number after answer kept q s = record {
      last = turn_request fixed progress.interactions turn_number;
      replied = q;
      sent = ap (λ a. a.turns) s;
      same_tools = ap (λ a. a.tools) s;
      audits_kept = kept;
    }

    general_turn :
        (before after : AgentState)
        → routing.mode ≡ general_only
        → IsWithin 1 (Endings.call_runs agent fixed 1) before after
        → IsWithin 1 0 before after
    general_turn before after m w = record {
      audits_kept = w.audits_kept;
      turns_bound = w.turns_bound;
      runs_bound = ground (arith, w.runs_bound);
    }

    general_ending :
        (before : AgentState) (r : Round) (next : Progress → AgentState → Run)
        → routing.mode ≡ general_only
        → Result agent fixed 1 no_progress before r
        → RunEnding general_only before (after_round r next)
    general_ending before r next m (has_ended run (Endings.raised after w e) p) =
        rw p (raised after (general_turn before after m w) e)
    general_ending before r next m (has_ended run (Endings.refused after code reason w n e) p) =
        rw p (refused after code reason (general_turn before after m w) n e)
    general_ending before r next m
          (has_ended run (Endings.answered after answer citations d c a q s e) p) =
        rw p (
          answered after answer (published agent fixed answer citations) before d
            (is_replied before before no_progress 1 after answer refl q s) refl refl
            (general_IsCited agent context routing before answer citations (rw (sym m) a)) e)
    general_ending before r next m (goes_on progress after d c k p) = absurd (ground arith)

    first_turn :
        (before after : AgentState)
        → IsWithin 1 (Endings.call_runs agent fixed 1) before after
        → IsWithin 2 1 before after
    first_turn before after w = record {
      audits_kept = w.audits_kept;
      turns_bound = omega (arith, w.turns_bound);
      runs_bound = ground (arith, w.runs_bound);
    }

    second_turn :
        (before middle after : AgentState)
        → IsAfter 1 1 before middle
        → IsWithin 1 (Endings.call_runs agent fixed 2) middle after
        → IsWithin 2 1 before after
    second_turn before middle after d w = record {
      audits_kept = w.audits_kept ∙ d.audits_kept;
      turns_bound = omega (arith, d.turns_sent, w.turns_bound);
      runs_bound = ground (arith, d.runs_made, w.runs_bound);
    }

    second_ending :
        (before middle : AgentState) (progress : Progress) (r : Round)
        (next : Progress → AgentState → Run)
        → routing.mode ≡ exact_read_then_final
        → IsAfter 1 1 before middle
        → IsCalled agent fixed 1 no_progress before progress middle
        → Result agent fixed 2 progress middle r
        → RunEnding exact_read_then_final before (after_round r next)
    second_ending before middle progress r next m d k (has_ended run (Endings.raised after w e) p) =
        rw p (raised after (second_turn before middle after d w) e)
    second_ending before middle progress r next m d k
          (has_ended run (Endings.refused after code reason w n e) p) =
        rw p (refused after code reason (second_turn before middle after d w) n e)
    second_ending before middle progress r next m d k
          (has_ended run (Endings.answered after answer citations f c a q s e) p) =
        rw p (
          answered after answer (published agent fixed answer citations) middle
            (record {
              audits_kept = f.audits_kept ∙ d.audits_kept;
              turns_sent = omega (arith, d.turns_sent, f.turns_sent);
              runs_made = omega (arith, d.runs_made, f.runs_made);
            })
            (is_replied before middle progress 2 after answer d.audits_kept q s) refl refl
            (exact_IsCited agent fixed before middle progress answer citations k (rw (sym m) a)) e)
    second_ending before middle progress r next m d k (goes_on progress' after f c k' p) =
        absurd (ground arith)

    first_ending :
        (before : AgentState) (r : Round)
        → routing.mode ≡ exact_read_then_final
        → Result agent fixed 1 no_progress before r
        → RunEnding exact_read_then_final before
            (after_round r (λ progress state. rounds agent fixed 1 2 progress state))
    unfolding rounds
    first_ending before r m (has_ended run (Endings.raised after w e) p) =
        rw p (raised after (first_turn before after w) e)
    first_ending before r m (has_ended run (Endings.refused after code reason w n e) p) =
        rw p (refused after code reason (first_turn before after w) n e)
    first_ending before r m
          (has_ended run (Endings.answered after answer citations d c a q s e) p) =
        absurd (ground arith)
    first_ending before r m (goes_on progress middle d c k p) = rw p (
        second_ending before middle progress _ _ m d k (round-Result agent fixed 2 progress middle))

    pub general_rounds :
        (before : AgentState)
        → routing.mode ≡ general_only
        → RunEnding general_only before (rounds agent fixed 1 1 no_progress before)
    unfolding rounds
    general_rounds before m =
        general_ending before _ _ m (round-Result agent fixed 1 no_progress before)

    pub exact_rounds :
        (before : AgentState)
        → routing.mode ≡ exact_read_then_final
        → RunEnding exact_read_then_final before (rounds agent fixed 2 1 no_progress before)
    unfolding rounds
    exact_rounds before m = first_ending before _ m (round-Result agent fixed 1 no_progress before)
