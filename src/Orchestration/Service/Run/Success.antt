-- ===== src/Orchestration/Service/Run/Success.antt =====
-- The bounds of a run, and what a success of it stands on.
use ai_systems_try.Base.{◌+◌, ◌≤◌, ◌≡◌, sym, ap, ◌∙◌, some, arith, length, string_eq}
use ai_systems_try.Context.{TrustedRequestContext}
use ai_systems_try.Tools.{succeeded}
use ai_systems_try.Tools.Gateway.Runs.{run_count}
use ai_systems_try.Orchestration.{
  AgentRouteMode, AgentRoutingPolicy, PublicChatSuccess, chat_success, ModelFinalAnswer,
}
use ai_systems_try.Orchestration.Transcript.{completed}
use ai_systems_try.Orchestration.Service.{
  PublicChatRequest, AgentState, AgentOrchestrator, Run, finish, finish_failure, response_language,
}
use ai_systems_try.Orchestration.Service.Run.{execute}
use ai_systems_try.Orchestration.Service.Run.Endings.{max_turns, max_runs, IsReplied, IsCited}
use ai_systems_try.Orchestration.Service.Run.Rounds.{RunEnding, raised, refused, answered}
use ai_systems_try.Orchestration.Service.Run.Laws.{execute-Ending}

-- The model turns and the handler runs are no more than the route has.
abbrev pub IsBounded : AgentRouteMode → AgentState → AgentState → Type 0
IsBounded mode before after =
    (length after.turns ≤ length before.turns + max_turns mode)
    × (run_count after.tools ≤ run_count before.tools + max_runs mode)

ending-IsBounded :
    (agent : AgentOrchestrator) (context : TrustedRequestContext) (request : PublicChatRequest)
    (routing : AgentRoutingPolicy) (before : AgentState) (run : Run)
    → RunEnding agent context request routing routing.mode before run
    → IsBounded routing.mode before run.1
unfolding finish_failure finish
ending-IsBounded agent context request routing before run (raised after w e) =
    rw e (w.turns_bound, w.runs_bound)
ending-IsBounded agent context request routing before run (refused after code reason w n e) =
    rw e (w.turns_bound, w.runs_bound)
ending-IsBounded agent context request routing before run
      (answered after answer value earlier d p a l c e) =
    rw e (omega (arith, d.turns_sent), omega (arith, d.runs_made))

-- A general run sends at most one model turn and runs no tool handler, and an exact run sends at
-- most two turns and runs at most one handler, however the run ends.
pub execute-IsBounded :
    (agent : AgentOrchestrator) (context : TrustedRequestContext) (request : PublicChatRequest)
    (routing : AgentRoutingPolicy) (before : AgentState)
    → IsBounded routing.mode before (execute agent context request routing before).1
execute-IsBounded agent context request routing before =
    ending-IsBounded agent context request routing before _
      (execute-Ending agent context request routing before)

-- What stands behind a success: the exact costs of the route, and an answer with its citations.
pub record IsSuccessful (agent : AgentOrchestrator) (context : TrustedRequestContext)
    (request : PublicChatRequest) (routing : AgentRoutingPolicy) (before after : AgentState)
    (value : PublicChatSuccess) : Type 0 where
  pub turns_sent : length after.turns ≡ length before.turns + max_turns routing.mode
  pub runs_made : run_count after.tools ≡ run_count before.tools + max_runs routing.mode
  pub answer : ModelFinalAnswer
  pub earlier : AgentState
  pub given : IsReplied agent before earlier after answer
  pub same_answer : value.answer ≡ answer.answer
  pub same_language : value.response_language ≡ response_language agent context request
  pub cited : IsCited agent context routing routing.mode before earlier answer value.citations

published_value :
    (agent : AgentOrchestrator) (context : TrustedRequestContext) (after : AgentState)
    (value' value : PublicChatSuccess)
    → (finish agent context (chat_success value') succeeded completed after).0
      ≡ some (chat_success value)
    → value' ≡ value
unfolding finish
published_value agent context after value' value h = ground arith

Ending-success :
    (agent : AgentOrchestrator) (context : TrustedRequestContext) (request : PublicChatRequest)
    (routing : AgentRoutingPolicy) (before : AgentState) (run : Run) (value : PublicChatSuccess)
    → RunEnding agent context request routing routing.mode before run
    → run.0 ≡ some (chat_success value)
    → IsSuccessful agent context request routing before run.1 value
unfolding finish_failure finish
Ending-success agent context request routing before run value (raised after w e) h =
    absurd (ground arith)
Ending-success agent context request routing before run value (refused after code reason w n e) h =
    absurd (ground arith)
Ending-success agent context request routing before run value
      (answered after answer value' earlier d p a l c e) h =
    let same = published_value agent context after value' value (sym (ap (λ r. r.0) e) ∙ h) in
    rw e (record {
      turns_sent = d.turns_sent;
      runs_made = d.runs_made;
      answer = answer;
      earlier = earlier;
      given = record {
        last = p.last;
        replied = p.replied;
        sent = p.sent;
        same_tools = p.same_tools;
        audits_kept = p.audits_kept;
      };
      same_answer = rw (sym same) a;
      same_language = rw (sym same) l;
      cited = rw (sym same) c;
    })

-- The answer of a successful run is the provider's reply to its last turn. A successful general run
-- has sent one model turn and run no handler, and its answer cites nothing. A successful exact run
-- has sent two turns and run one handler: to the first, the provider called the routed tool, and that
-- call, rebuilt from its JSON text, returned a success through the gateway; the answer names that
-- call as its only evidence with the basis of its kind, and the citations are those that the answer
-- names, each one of an excerpt of that result.
pub execute-IsSuccessful :
    (agent : AgentOrchestrator) (context : TrustedRequestContext) (request : PublicChatRequest)
    (routing : AgentRoutingPolicy) (before : AgentState) (value : PublicChatSuccess)
    → (execute agent context request routing before).0 ≡ some (chat_success value)
    → IsSuccessful agent context request routing before
        (execute agent context request routing before).1
        value
execute-IsSuccessful agent context request routing before value h =
    Ending-success agent context request routing before _ value
      (execute-Ending agent context request routing before) h
