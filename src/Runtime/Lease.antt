-- ===== src/Runtime/Lease.antt =====
-- src/erp_ai/runtime/lifecycle.py: `ProviderLifecycleLease`. A token is an object, known by its
-- identity: the number of objects made before it. The lock makes each operation one step.
pub mod Laws
use ai_systems_try.Base.{
  ℕ, ◌+◌, Bool, true, false, not, ◌&&◌, ◌||◌, Option, none, some, List, [], ◌∷◌, ◌==◌, nat_eq,
  option_eq, if◌then◌else◌, Except, ok, raise,
}
use ai_systems_try.Context.{is_some}
use ai_systems_try.Runtime.{RuntimeLifecycleError, ownership_unavailable}

pub record ProviderLifecycleLease : Type 0 where
  pub token : Option ℕ
  pub committed : Bool
  pub made : ℕ

unfoldable pub new_lease : ProviderLifecycleLease
new_lease = record { token = none; committed = false; made = 0 }

-- The token is made before the lock is taken, also by a claim that fails.
unfoldable pub claim :
    ProviderLifecycleLease → Except RuntimeLifecycleError ℕ × ProviderLifecycleLease
claim lease =
    let token = lease.made in
    if is_some lease.token || lease.committed
    then (raise ownership_unavailable, record lease { made = token + 1 })
    else (ok token, record lease { token = some token; made = token + 1 })

abbrev pub is_refused : ℕ → ProviderLifecycleLease → Bool
is_refused token lease = not (lease.token == some token) || lease.committed

unfoldable pub release :
    ℕ → ProviderLifecycleLease → Except RuntimeLifecycleError (Unit {0}) × ProviderLifecycleLease
release token lease =
    if is_refused token lease
    then (raise ownership_unavailable, lease)
    else (ok tt, record lease { token = none })

unfoldable pub commit :
    ℕ → ProviderLifecycleLease → Except RuntimeLifecycleError (Unit {0}) × ProviderLifecycleLease
commit token lease =
    if is_refused token lease
    then (raise ownership_unavailable, lease)
    else (ok tt, record lease { committed = true })
