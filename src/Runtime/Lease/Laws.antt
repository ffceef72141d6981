-- ===== src/Runtime/Lease/Laws.antt =====
-- The lease has one owner at a time and is committed once, in every sequence of its operations.
use ai_systems_try.Base.{
  ℕ, ◌+◌, ◌≡◌, refl, Bool, true, not, ◌||◌, arith, nat_eq, option_eq, if◌then◌else◌, Except, ok,
  raise,
}
use ai_systems_try.Context.{is_some}
use ai_systems_try.Runtime.{RuntimeLifecycleError}
use ai_systems_try.Runtime.Lease.{ProviderLifecycleLease, new_lease, claim, release, commit}

pub data LeaseOp : Type 0 where
  claim_op : LeaseOp
  release_op commit_op : ℕ → LeaseOp

-- What the operations have done: how many of each kind have succeeded.
pub record Ledger : Type 0 where
  pub claims : ℕ
  pub releases : ℕ
  pub commits : ℕ

abbrev is_ok {ℓ} : {A : Type ℓ} → Except RuntimeLifecycleError A → ℕ
is_ok (ok a) = 1
is_ok (raise e) = 0

unfoldable pub perform : LeaseOp → ProviderLifecycleLease → ProviderLifecycleLease
perform claim_op lease = (claim lease).1
perform (release_op token) lease = (release token lease).1
perform (commit_op token) lease = (commit token lease).1

-- The operation is entered when it succeeds.
unfoldable pub enter : LeaseOp → ProviderLifecycleLease → Ledger → Ledger
enter claim_op lease ledger = record ledger { claims = ledger.claims + is_ok (claim lease).0 }
enter (release_op token) lease ledger = record ledger {
  releases = ledger.releases + is_ok (release token lease).0;
}
enter (commit_op token) lease ledger = record ledger {
  commits = ledger.commits + is_ok (commit token lease).0;
}

-- What can be reached from a new lease, with its ledger.
pub data IsReachable : ProviderLifecycleLease → Ledger → Type 0 where
  made_new : IsReachable new_lease (record { claims = 0; releases = 0; commits = 0 })
  step :
      (op : LeaseOp) (lease : ProviderLifecycleLease) (ledger : Ledger)
      → IsReachable lease ledger
      → IsReachable (perform op lease) (enter op lease ledger)

abbrev pub one : Bool → ℕ
one b = if b then 1 else 0

-- Every claim but the current one has been released, a commitment has been made at most once, and
-- there is an owner as long as it stands.
pub record IsOwned (lease : ProviderLifecycleLease) (ledger : Ledger) : Type 0 where
  pub balanced : ledger.claims ≡ ledger.releases + one (is_some lease.token)
  pub committed_once : ledger.commits ≡ one lease.committed
  pub committed_owned : (not lease.committed || is_some lease.token) ≡ true

new_lease-IsOwned : IsOwned new_lease (record { claims = 0; releases = 0; commits = 0 })
unfolding new_lease
new_lease-IsOwned = record { balanced = refl; committed_once = refl; committed_owned = refl }

perform-IsOwned :
    (op : LeaseOp) (lease : ProviderLifecycleLease) (ledger : Ledger)
    → IsOwned lease ledger
    → IsOwned (perform op lease) (enter op lease ledger)
unfolding perform enter claim release commit
perform-IsOwned claim_op lease ledger o = record {
  balanced = ground (arith, o.balanced);
  committed_once = ground (arith, o.committed_once);
  committed_owned = ground (arith, o.committed_owned);
}
perform-IsOwned (release_op token) lease ledger o = record {
  balanced = ground (arith, o.balanced);
  committed_once = ground (arith, o.committed_once);
  committed_owned = ground (arith, o.committed_owned);
}
perform-IsOwned (commit_op token) lease ledger o = record {
  balanced = ground (arith, o.balanced);
  committed_once = ground (arith, o.committed_once);
  committed_owned = ground (arith, o.committed_owned);
}

-- In every sequence of operations on a new lease, every claim but the one of the current owner has
-- been released, at most one commit has succeeded, and a committed lease keeps an owner.
pub reachable-IsOwned :
    (lease : ProviderLifecycleLease) (ledger : Ledger)
    → IsReachable lease ledger
    → IsOwned lease ledger
reachable-IsOwned _ _ made_new = new_lease-IsOwned
reachable-IsOwned _ _ (step op lease ledger r) =
    perform-IsOwned op lease ledger (reachable-IsOwned lease ledger r)
