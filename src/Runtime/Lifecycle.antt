-- ===== src/Runtime/Lifecycle.antt =====
-- src/erp_ai/runtime/lifecycle.py: `ProductionRuntimeLifecycle`. The lock makes a startup and a
-- shutdown one step each; what a resource does depends on the calls made before.
pub mod Steps
pub mod Laws
use ai_systems_try.Base.{Bool, true, false, not, ◌&&◌, ◌||◌, List, [], ◌∷◌, ◌++◌, if◌then◌else◌}
use ai_systems_try.Application.{Attempt, returned, raised, cancelled}
use ai_systems_try.Runtime.{
  RuntimeLifecycleError, startup_unavailable, startup_failed, shutdown_unavailable, shutdown_failed,
}

pub data RuntimeState : Type 0 where
  created starting ready stopping closed failed : RuntimeState

pub data Resource : Type 0 where
  audit erp providers : Resource

-- The awaited calls, in order.
pub data Call : Type 0 where
  open_called close_called : Resource → Call

-- How a call ends: it returns, raises a lifecycle error, or raises the cancellation.
pub data Ended : Type 0 where
  done was_cancelled : Ended
  lifecycle_error : RuntimeLifecycleError → Ended

pub record ProductionRuntimeLifecycle : Type 0 where
  pub state : RuntimeState
  pub rolled_back : Bool
  pub shutdown_attempted : Bool
  pub calls : List Call

unfoldable pub init : ProductionRuntimeLifecycle
init = record { state = created; rolled_back = false; shutdown_attempted = false; calls = [] }

abbrev pub is_created : RuntimeState → Bool
is_created created = true
is_created _ = false

abbrev pub is_closed : RuntimeState → Bool
is_closed closed = true
is_closed _ = false

abbrev pub Answers : Type 0
Answers = List Call → Call → Attempt (Unit {0})

-- `_reverse_close`, on the opened resources with the last one first. What they raise is suppressed.
unfoldable pub reverse_close : List Resource → List Call → List Call
reverse_close [] calls = calls
reverse_close (resource ∷ opened) calls = reverse_close opened (calls ++ close_called resource ∷ [])

module _ (answers : Answers) where
  -- The body of the `try`: whether it returns, the opened resources and the calls. A resource counts
  -- as opened before its call.
  unfoldable pub open_all :
      List Resource → List Resource → List Call → Attempt (Unit {0}) × List Resource × List Call
  open_all [] opened calls = (returned tt, opened, calls)
  open_all (resource ∷ rest) opened calls =
      let more = open_all rest (resource ∷ opened) (calls ++ open_called resource ∷ []) in
      elim (answers calls (open_called resource)) [
        | returned u ↦ more
        | raised ↦ (raised, resource ∷ opened, calls ++ open_called resource ∷ [])
        | cancelled ↦ (cancelled, resource ∷ opened, calls ++ open_called resource ∷ [])
      ]

  unfoldable pub finish_startup :
      ProductionRuntimeLifecycle
      → Attempt (Unit {0}) × List Resource × List Call
      → Ended × ProductionRuntimeLifecycle
  finish_startup runtime (returned u, opened, calls) =
      (done, record runtime { state = ready; calls = calls })
  finish_startup runtime (raised, opened, calls) = (
    lifecycle_error startup_failed,
    record runtime { state = failed; rolled_back = true; calls = reverse_close opened calls },
  )
  finish_startup runtime (cancelled, opened, calls) = (
    was_cancelled,
    record runtime { state = failed; rolled_back = true; calls = reverse_close opened calls },
  )

  unfoldable pub startup : ProductionRuntimeLifecycle → Ended × ProductionRuntimeLifecycle
  startup runtime =
      if not (is_created runtime.state)
      then (lifecycle_error startup_unavailable, runtime)
      else finish_startup runtime (open_all (audit ∷ erp ∷ providers ∷ []) [] runtime.calls)

  -- The loop of `shutdown`: whether a resource raised, whether one was cancelled, and the calls.
  unfoldable pub close_all : List Resource → List Call → Bool × Bool × List Call
  close_all [] calls = (false, false, calls)
  close_all (resource ∷ rest) calls =
      let (errors, cancellation, after) = close_all rest (calls ++ close_called resource ∷ []) in
      elim (answers calls (close_called resource)) [
        | returned u ↦ (errors, cancellation, after)
        | raised ↦ (true, cancellation, after)
        | cancelled ↦ (errors, true, after)
      ]

  unfoldable pub finish_shutdown :
      ProductionRuntimeLifecycle → Bool × Bool × List Call → Ended × ProductionRuntimeLifecycle
  finish_shutdown runtime (errors, cancellation, calls) = (
    if cancellation
        then was_cancelled
        else if errors
        then lifecycle_error shutdown_failed
        else done,
    record runtime {
      state = if errors || cancellation then failed else closed;
      shutdown_attempted = true;
      calls = calls;
    },
  )

  unfoldable pub shutdown : ProductionRuntimeLifecycle → Ended × ProductionRuntimeLifecycle
  shutdown runtime =
      if runtime.shutdown_attempted || is_closed runtime.state
      then (lifecycle_error shutdown_unavailable, runtime)
      else if is_created runtime.state || runtime.rolled_back
      then (done, record runtime { state = closed; shutdown_attempted = true })
      else finish_shutdown runtime (close_all (providers ∷ erp ∷ audit ∷ []) runtime.calls)
