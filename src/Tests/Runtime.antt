-- ===== src/Tests/Runtime.antt =====
-- A lease that is claimed twice and committed, and a runtime whose startup fails half-way.
use ai_systems_try.Base.{ℕ, ◌≡◌, refl, true, false, none, some, List, [], ◌∷◌, nat_eq}
use ai_systems_try.Application.{returned, raised}
use ai_systems_try.Runtime.Lease.{ProviderLifecycleLease, new_lease}
use ai_systems_try.Runtime.Lease.Laws.{
  claim_op, commit_op, Ledger, perform, enter, IsReachable, IsOwned, reachable-IsOwned,
}
use ai_systems_try.Runtime.Lease.Laws
use ai_systems_try.Runtime.Lifecycle.{
  audit, erp, Call, open_called, close_called, ProductionRuntimeLifecycle, init, Answers,
}
use ai_systems_try.Runtime.Lifecycle.Laws as LifecycleLaws
use ai_systems_try.Runtime.Lifecycle.Laws.{startup_op, shutdown_op, IsSettled, reachable-IsSettled}

abbrev no_ledger : Ledger
no_ledger = record { claims = 0; releases = 0; commits = 0 }

abbrev claimed : ProviderLifecycleLease
claimed = perform claim_op new_lease

abbrev committed : ProviderLifecycleLease
committed = perform (commit_op 0) claimed

abbrev committed_ledger : Ledger
committed_ledger = enter (commit_op 0) claimed (enter claim_op new_lease no_ledger)

reaches_committed : IsReachable committed committed_ledger
reaches_committed =
    Laws.step (commit_op 0) claimed (enter claim_op new_lease no_ledger)
      (Laws.step claim_op new_lease no_ledger Laws.made_new)

commits_once : committed_ledger ≡ record { claims = 1; releases = 0; commits = 1 }
unfolding enter perform new_lease ai_systems_try.Runtime.Lease.claim
    ai_systems_try.Runtime.Lease.commit ai_systems_try.Base.option_eq nat_eq
commits_once = refl

reachable-IsOwned_example : IsOwned committed committed_ledger
reachable-IsOwned_example = reachable-IsOwned committed committed_ledger reaches_committed

-- The second resource does not open.
abbrev erp_fails : Answers
erp_fails calls (open_called erp) = raised
erp_fails calls call = returned tt

abbrev after_startup : ProductionRuntimeLifecycle
after_startup = LifecycleLaws.perform erp_fails startup_op init

rolls_back :
    after_startup.calls
    ≡ open_called audit ∷ open_called erp ∷ close_called erp ∷ close_called audit ∷ []
unfolding LifecycleLaws.perform init ai_systems_try.Runtime.Lifecycle.startup
    ai_systems_try.Runtime.Lifecycle.finish_startup ai_systems_try.Runtime.Lifecycle.open_all
    ai_systems_try.Runtime.Lifecycle.reverse_close
rolls_back = refl

reaches_startup : LifecycleLaws.IsReachable erp_fails after_startup
reaches_startup = LifecycleLaws.step startup_op init LifecycleLaws.made_new

reachable-IsSettled_example : IsSettled after_startup
reachable-IsSettled_example = reachable-IsSettled erp_fails after_startup reaches_startup
