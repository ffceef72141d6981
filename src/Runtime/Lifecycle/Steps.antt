-- ===== src/Runtime/Lifecycle/Steps.antt =====
-- What the opening and the closing of the resources do to the count of the calls.
use ai_systems_try.Base.{
  ℕ, ◌+◌, ◌≤◌, ◌≡◌, refl, Bool, true, false, List, [], ◌∷◌, ◌++◌, arith, if◌then◌else◌,
}
use ai_systems_try.Application.{Attempt, returned}
use ai_systems_try.Runtime.Lifecycle.{
  Resource, audit, erp, providers, Call, open_called, close_called, Answers, reverse_close,
  open_all, close_all,
}

abbrev pub is_same : Resource → Resource → Bool
is_same audit audit = true
is_same erp erp = true
is_same providers providers = true
is_same _ _ = false

abbrev pub one : Bool → ℕ
one b = if b then 1 else 0

abbrev pub opens : Resource → Call → ℕ
opens r (open_called s) = one (is_same r s)
opens r (close_called s) = 0

abbrev pub closes : Resource → Call → ℕ
closes r (open_called s) = 0
closes r (close_called s) = one (is_same r s)

abbrev pub total : (Call → ℕ) → List Call → ℕ
total f [] = 0
total f (call ∷ calls) = f call + total f calls

abbrev pub counted : Resource → List Resource → ℕ
counted r [] = 0
counted r (s ∷ rest) = one (is_same r s) + counted r rest

pub total-append : (f : Call → ℕ) (s t : List Call) → total f (s ++ t) ≡ total f s + total f t
total-append f [] t = omega arith
total-append f (c ∷ s) t = omega (arith, total-append f s t)

pub reverse_close-opens :
    (r : Resource) (opened : List Resource) (calls : List Call)
    → total (opens r) (reverse_close opened calls) ≡ total (opens r) calls
unfolding reverse_close
reverse_close-opens r [] calls = refl
reverse_close-opens r (s ∷ opened) calls =
    let p = total-append (opens r) calls (close_called s ∷ []) in
    omega (arith, reverse_close-opens r opened (calls ++ close_called s ∷ []), p)

pub reverse_close-closes :
    (r : Resource) (opened : List Resource) (calls : List Call)
    → total (closes r) (reverse_close opened calls) ≡ total (closes r) calls + counted r opened
unfolding reverse_close
reverse_close-closes r [] calls = omega arith
reverse_close-closes r (s ∷ opened) calls =
    let p = total-append (closes r) calls (close_called s ∷ []) in
    omega (arith, reverse_close-closes r opened (calls ++ close_called s ∷ []), p)

-- What the opening has done to a resource: the calls that open it are those of the opened
-- resources, and no more than those to open; on a return, all of them.
abbrev pub IsOpened :
    Resource
    → List Resource
    → List Resource
    → List Call
    → Attempt (Unit {0}) × List Resource × List Call
    → Type 0
IsOpened r rest opened calls (attempt, opened', calls') =
    (total (opens r) calls' + counted r opened ≡ total (opens r) calls + counted r opened')
    × (total (closes r) calls' ≡ total (closes r) calls)
    × (counted r opened' ≤ counted r opened + counted r rest)
    × (attempt ≡ returned tt → counted r opened' ≡ counted r opened + counted r rest)

pub open_all-IsOpened :
    (answers : Answers) (r : Resource) (rest opened : List Resource) (calls : List Call)
    → IsOpened r rest opened calls (open_all answers rest opened calls)
unfolding open_all
open_all-IsOpened answers r [] opened calls = (omega arith, refl, omega arith, λ h. omega arith)
open_all-IsOpened answers r (s ∷ rest) opened calls =
    let p = total-append (opens r) calls (open_called s ∷ []) in
    let q = total-append (closes r) calls (open_called s ∷ []) in
    let again = open_all-IsOpened answers r rest (s ∷ opened) (calls ++ open_called s ∷ []) in
    (
      ground (arith, p, again.0),
      ground (arith, q, again.1),
      ground (arith, again.2),
      λ h. ground (arith, again.3),
    )

-- Every resource is closed, whatever the others raise.
pub close_all_calls :
    (answers : Answers) (r : Resource) (rest : List Resource) (calls : List Call)
    → (total (opens r) (close_all answers rest calls).2 ≡ total (opens r) calls)
      × (total (closes r) (close_all answers rest calls).2
          ≡ total (closes r) calls + counted r rest)
unfolding close_all
close_all_calls answers r [] calls = (refl, omega arith)
close_all_calls answers r (s ∷ rest) calls =
    let p = total-append (opens r) calls (close_called s ∷ []) in
    let q = total-append (closes r) calls (close_called s ∷ []) in
    let again = close_all_calls answers r rest (calls ++ close_called s ∷ []) in
    (ground (arith, p, again.0), ground (arith, q, again.1))
