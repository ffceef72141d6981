-- ===== src/Runtime/Lifecycle/Laws.antt =====
-- Every resource of a runtime is opened at most once and, unless the runtime is in use, closed as
-- often as it was opened, in every sequence of startups and shutdowns.
use ai_systems_try.Base.{
  ℕ, ◌+◌, ◌≤◌, ◌≡◌, refl, subst, inl, inr, Bool, true, false, not, ◌&&◌, ◌||◌, List, [], ◌∷◌, arith,
  if◌then◌else◌, Bool-cases,
}
use ai_systems_try.Application.{Attempt, returned, raised, cancelled}
use ai_systems_try.Runtime.Lifecycle.{
  RuntimeState, created, starting, ready, stopping, closed, failed, Resource, audit, erp, providers,
  Call, ProductionRuntimeLifecycle, init, is_created, is_closed, Answers, reverse_close,
  finish_startup, startup, finish_shutdown, shutdown,
}
use ai_systems_try.Runtime.Lifecycle.Steps.{
  opens, closes, total, counted, reverse_close-opens, reverse_close-closes, IsOpened,
  open_all-IsOpened, close_all_calls,
}

pub data LifecycleOp : Type 0 where
  startup_op shutdown_op : LifecycleOp

unfoldable pub perform :
    Answers → LifecycleOp → ProductionRuntimeLifecycle → ProductionRuntimeLifecycle
perform answers startup_op runtime = (startup answers runtime).1
perform answers shutdown_op runtime = (shutdown answers runtime).1

-- What can be reached from a new runtime.
pub data IsReachable (answers : Answers) : ProductionRuntimeLifecycle → Type 0 where
  made_new : IsReachable answers init
  step :
      (op : LifecycleOp) (runtime : ProductionRuntimeLifecycle)
      → IsReachable answers runtime
      → IsReachable answers (perform answers op runtime)

-- How often a resource has been opened and closed in a state that is seen between two operations.
abbrev pub Balance : RuntimeState → ℕ → ℕ → Type 0
Balance created opened closings = (opened ≡ 0) × (closings ≡ 0)
Balance ready opened closings = (opened ≡ 1) × (closings ≡ 0)
Balance failed opened closings = (opened ≤ 1) × (closings ≡ opened)
Balance closed opened closings = (opened ≤ 1) × (closings ≡ opened)
Balance starting opened closings = ⊥
Balance stopping opened closings = ⊥

abbrev pub is_ready : RuntimeState → Bool
is_ready ready = true
is_ready _ = false

abbrev pub is_failed : RuntimeState → Bool
is_failed failed = true
is_failed _ = false

pub record IsSettled (runtime : ProductionRuntimeLifecycle) : Type 0 where
  pub balance :
      (r : Resource)
      → Balance runtime.state (total (opens r) runtime.calls) (total (closes r) runtime.calls)
  -- A failed runtime has been rolled back, or its shutdown has been attempted.
  pub failure_known :
      (not (is_failed runtime.state) || runtime.rolled_back || runtime.shutdown_attempted) ≡ true
  pub fresh :
      (not (is_ready runtime.state || is_created runtime.state)
        || (not runtime.rolled_back && not runtime.shutdown_attempted))
      ≡ true

init-IsSettled : IsSettled init
unfolding init
init-IsSettled = record { balance = λ r. (refl, refl); failure_known = refl; fresh = refl }

one_each : (r : Resource) → counted r (audit ∷ erp ∷ providers ∷ []) ≡ 1
one_each audit = refl
one_each erp = refl
one_each providers = refl

one_each_reversed : (r : Resource) → counted r (providers ∷ erp ∷ audit ∷ []) ≡ 1
one_each_reversed audit = refl
one_each_reversed erp = refl
one_each_reversed providers = refl

-- Nothing has been called in a created runtime.
no_calls :
    (runtime : ProductionRuntimeLifecycle)
    → runtime.state ≡ created
    → IsSettled runtime
    → (r : Resource) → (total (opens r) runtime.calls ≡ 0) × (total (closes r) runtime.calls ≡ 0)
no_calls runtime c s r =
    subst (λ state. Balance state (total (opens r) runtime.calls) (total (closes r) runtime.calls))
      c (s.balance r)

rolled_back-Balance :
    (r : Resource) (attempt : Attempt (Unit {0})) (opened : List Resource)
    (before calls : List Call)
    → (total (opens r) before ≡ 0) × (total (closes r) before ≡ 0)
    → IsOpened r (audit ∷ erp ∷ providers ∷ []) [] before (attempt, opened, calls)
    → Balance failed
        (total (opens r) (reverse_close opened calls))
        (total (closes r) (reverse_close opened calls))
rolled_back-Balance r attempt opened before calls z o =
    let p = reverse_close-opens r opened calls in
    let q = reverse_close-closes r opened calls in
    let n = one_each r in
    (omega (arith, p, n, z.0, o.0, o.2), omega (arith, p, q, z.0, z.1, o.0, o.1))

startup-IsSettled' :
    (answers : Answers) (runtime : ProductionRuntimeLifecycle)
    (opened : Attempt (Unit {0}) × List Resource × List Call)
    → runtime.state ≡ created
    → ((r : Resource) → IsOpened r (audit ∷ erp ∷ providers ∷ []) [] runtime.calls opened)
    → IsSettled runtime
    → IsSettled (finish_startup answers runtime opened).1
unfolding finish_startup
startup-IsSettled' answers runtime (returned u, opened, calls) c o s = record {
  balance = λ r.
      let z = no_calls runtime c s r in
      let n = one_each r in
      let all_opened = (o r).3 refl in
      (omega (arith, z.0, n, (o r).0, all_opened), omega (arith, z.1, (o r).1));
  failure_known = refl;
  fresh = ground (arith, s.fresh, c);
}
startup-IsSettled' answers runtime (raised, opened, calls) c o s = record {
  balance =
      λ r. rolled_back-Balance r raised opened runtime.calls calls (no_calls runtime c s r) (o r);
  failure_known = refl;
  fresh = refl;
}
startup-IsSettled' answers runtime (cancelled, opened, calls) c o s = record {
  balance = λ r.
      rolled_back-Balance r cancelled opened runtime.calls calls (no_calls runtime c s r) (o r);
  failure_known = refl;
  fresh = refl;
}

startup-IsSettled :
    (answers : Answers) (runtime : ProductionRuntimeLifecycle)
    → IsSettled runtime
    → IsSettled (startup answers runtime).1
unfolding startup
startup-IsSettled answers runtime s = elim (Bool-cases (is_created runtime.state)) [
  | inl c ↦ rw c (
      startup-IsSettled' answers runtime _ (is_created_lem runtime.state c)
        (λ r. open_all-IsOpened answers r (audit ∷ erp ∷ providers ∷ []) [] runtime.calls) s)
  | inr n ↦ rw n s
]
  where
    is_created_lem : (state : RuntimeState) → is_created state ≡ true → state ≡ created
    is_created_lem state h = ground arith

-- A shutdown that has to close the resources finds them open.
closed-Balance :
    (state : RuntimeState) (opened closings : ℕ)
    → (is_closed state || is_created state || is_failed state) ≡ false
    → Balance state opened closings
    → (opened ≡ 1) × (closings ≡ 0)
closed-Balance created opened closings h b = absurd (ground arith)
closed-Balance starting opened closings h b = absurd b
closed-Balance ready opened closings h b = b
closed-Balance stopping opened closings h b = absurd b
closed-Balance closed opened closings h b = absurd (ground arith)
closed-Balance failed opened closings h b = absurd (ground arith)

settled_end :
    (errors cancellation : Bool) (opened closings : ℕ)
    → (opened ≡ 1) × (closings ≡ 1)
    → Balance (if errors || cancellation then failed else closed) opened closings
settled_end true c opened closings h = (omega (arith, h.0), omega (arith, h.0, h.1))
settled_end false true opened closings h = (omega (arith, h.0), omega (arith, h.0, h.1))
settled_end false false opened closings h = (omega (arith, h.0), omega (arith, h.0, h.1))

shutdown-IsSettled' :
    (answers : Answers) (runtime : ProductionRuntimeLifecycle) (end : Bool × Bool × List Call)
    → (is_closed runtime.state || is_created runtime.state || is_failed runtime.state) ≡ false
    → ((r : Resource)
        → (total (opens r) end.2 ≡ total (opens r) runtime.calls)
          × (total (closes r) end.2
              ≡ total (closes r) runtime.calls + counted r (providers ∷ erp ∷ audit ∷ [])))
    → IsSettled runtime
    → IsSettled (finish_shutdown answers runtime end).1
unfolding finish_shutdown
shutdown-IsSettled' answers runtime (errors, cancellation, calls) h k s = record {
  balance = λ r.
      let b =
        closed-Balance runtime.state (total (opens r) runtime.calls)
          (total (closes r) runtime.calls) h (s.balance r) in
      let n = one_each_reversed r in
      settled_end errors cancellation (total (opens r) calls) (total (closes r) calls)
        (omega (arith, b.0, (k r).0), omega (arith, b.1, n, (k r).1));
  failure_known = ground arith;
  fresh = ground arith;
}

-- A shutdown that closes nothing finds everything closed already.
skipped-Balance :
    (state : RuntimeState) (rolled_back attempted : Bool) (opened closings : ℕ)
    → (is_created state || rolled_back) ≡ true
    → is_closed state ≡ false
    → (not (is_ready state || is_created state) || (not rolled_back && not attempted)) ≡ true
    → Balance state opened closings
    → Balance closed opened closings
skipped-Balance created b a opened closings h c f z = (omega (arith, z.0), omega (arith, z.0, z.1))
skipped-Balance starting b a opened closings h c f z = absurd z
skipped-Balance ready b a opened closings h c f z = absurd (ground arith)
skipped-Balance stopping b a opened closings h c f z = absurd z
skipped-Balance closed b a opened closings h c f z = z
skipped-Balance failed b a opened closings h c f z = z

shutdown-IsSettled :
    (answers : Answers) (runtime : ProductionRuntimeLifecycle)
    → IsSettled runtime
    → IsSettled (shutdown answers runtime).1
unfolding shutdown
shutdown-IsSettled answers runtime s =
    elim (Bool-cases (runtime.shutdown_attempted || is_closed runtime.state)) [
      | inl over ↦ rw over s
      | inr going ↦ rw going (elim (Bool-cases (is_created runtime.state || runtime.rolled_back)) [
        | inl skips ↦ rw skips (record {
          balance = λ r.
              skipped-Balance runtime.state runtime.rolled_back runtime.shutdown_attempted
                (total (opens r) runtime.calls) (total (closes r) runtime.calls) skips
                (ground arith) s.fresh (s.balance r);
          failure_known = refl;
          fresh = refl;
        })
        | inr closes_all ↦ rw closes_all (
            shutdown-IsSettled' answers runtime _ (ground (arith, s.failure_known))
              (λ r. close_all_calls answers r (providers ∷ erp ∷ audit ∷ []) runtime.calls) s)
      ])
    ]

perform-IsSettled :
    (answers : Answers) (op : LifecycleOp) (runtime : ProductionRuntimeLifecycle)
    → IsSettled runtime
    → IsSettled (perform answers op runtime)
unfolding perform
perform-IsSettled answers startup_op runtime s = startup-IsSettled answers runtime s
perform-IsSettled answers shutdown_op runtime s = shutdown-IsSettled answers runtime s

-- In every sequence of startups and shutdowns, whatever the resources answer, each resource is
-- opened at most once; it is open and not closed when the runtime is ready, and it has been closed as
-- often as opened when the runtime is new, failed or closed. No other state is seen in between.
pub reachable-IsSettled :
    (answers : Answers) (runtime : ProductionRuntimeLifecycle)
    → IsReachable answers runtime
    → IsSettled runtime
reachable-IsSettled answers _ made_new = init-IsSettled
reachable-IsSettled answers _ (step op runtime r) =
    perform-IsSettled answers op runtime (reachable-IsSettled answers runtime r)
