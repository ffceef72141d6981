-- ===== src/Leave/Balances/Laws.antt =====
-- Which balances the handler passes on, and in which order.
use mathlib.Core.Option.{some-injective}
use mathlib.Core.List.{Perm}
use mathlib.Core.List.Perm
use ai_systems_try.Base.{
  ◌≡◌, refl, sym, ap, ◌∙◌, ◌↔◌, Bool, true, not, ◌&&◌, Option, none, some, List, [], ◌∷◌, map,
  arith, contains, all, All, All-of_all, all-of_All, all_new, all_new_iff, Distinct, ◌==◌,
  string_eq, nat_eq, option_eq, ok, ◌>>=◌, ◌>>◌, raise_if, >>=-eq-ok, raise_if-eq-ok, is_ok,
  is_ok-eq,
}
use ai_systems_try.Base.Sort.{sorted, string_ord, nat_ord, pair_ord}
use ai_systems_try.Base.Sort.Laws.{IsSorted, sorted-IsSorted, sorted-perm}
use ai_systems_try.Context.{TrustedRequestContext, is_some}
use ai_systems_try.Leave.{LeaveBalanceRecord, LeaveBalanceItem, employee_context_required}
use ai_systems_try.Leave.Balances.{
  Key, key_eq, key_of, check_balances, to_item, record_key, item_key, order_balances, or_failed,
  execute,
}

-- The linked employee's own balance, in a legal entity that the context is authorised for.
abbrev pub is_own : TrustedRequestContext → LeaveBalanceRecord → Bool
is_own context balance =
    some balance.employee_id == context.employee_id
    && contains context.legal_entity_ids balance.legal_entity_id

is_ok-check_balances :
    (context : TrustedRequestContext) (seen : List Key) (balances : List LeaveBalanceRecord)
    → is_ok (check_balances context seen balances)
      ≡ (all (is_own context) balances && all_new seen (map key_of balances))
unfolding check_balances
is_ok-check_balances context seen [] = refl
is_ok-check_balances context seen (balance ∷ rest) =
    ground (arith, is_ok-check_balances context (key_of balance ∷ seen) rest)

-- What the handler passes on: the linked employee's own balances in the authorised legal entities,
-- one for each legal entity, leave type and year.
pub record IsOwnBalances (context : TrustedRequestContext) (balances : List LeaveBalanceRecord)
    : Type 0 where
  pub own : All (λ balance. is_own context balance ≡ true) balances
  pub different : Distinct (map key_of balances)

check_balances_iff :
    (context : TrustedRequestContext) (balances : List LeaveBalanceRecord)
    → (check_balances context [] balances ≡ ok tt) ↔ IsOwnBalances context balances
check_balances_iff context balances = (
  λ h.
      let e = is_ok-check_balances context [] balances in
      let valid : is_ok (check_balances context [] balances) ≡ true = rw h refl in
      record {
        own = All-of_all (is_own context) balances (ground (arith, e, valid));
        different = (all_new_iff (map key_of balances)).0 (ground (arith, e, valid));
      },
  λ p. is_ok-eq _ (
      is_ok-check_balances context [] balances
      ∙ ground (
        arith,
        all-of_All (is_own context) balances p.own,
        (all_new_iff (map key_of balances)).1 p.different,
      )),
)

abbrev ordered : List LeaveBalanceRecord → List LeaveBalanceItem
ordered balances = order_balances (map to_item (sorted record_key balances))

found_balances :
    (found : Option (List LeaveBalanceRecord)) (context : TrustedRequestContext)
    (items : List LeaveBalanceItem)
    → (do balances ← or_failed found; check_balances context [] balances; ok (ordered balances))
      ≡ ok items
    → (balances : List LeaveBalanceRecord) × (found ≡ some balances)
      × IsOwnBalances context balances
      × (items ≡ ordered balances)
found_balances none context items h = absurd (ground arith)
found_balances (some balances) context items h =
    let (u, valid, same) =
      >>=-eq-ok (check_balances context [] balances) (λ _. ok (ordered balances)) h in
    (balances, refl, (check_balances_iff context balances).0 valid, ground arith)

-- Balances are returned exactly when the context has a linked employee and the provider returns
-- records for this context that the handler passes on; they are then the projections of the records,
-- sorted by record and sorted again by what the public item shows.
pub execute-IsOwnBalances :
    (get_my_leave_balances : TrustedRequestContext → Option (List LeaveBalanceRecord))
    (context : TrustedRequestContext) (items : List LeaveBalanceItem)
    → (execute get_my_leave_balances context ≡ ok items) ↔ (
        (is_some context.employee_id ≡ true)
        × ((balances : List LeaveBalanceRecord) × (get_my_leave_balances context ≡ some balances)
            × IsOwnBalances context balances
            × (items ≡ order_balances (map to_item (sorted record_key balances)))))
unfolding execute
execute-IsOwnBalances get_my_leave_balances context items = (
  λ h.
      let (u, linked, rest) =
        >>=-eq-ok (raise_if (not (is_some context.employee_id)) employee_context_required) _ h in
      (
        ground (arith, raise_if-eq-ok _ _ linked),
        found_balances (get_my_leave_balances context) context items rest,
      ),
  λ (linked, (balances, found, own, same)).
      rw (linked, found, (check_balances_iff context balances).1 own) (ap ok (sym same)),
)

-- The output has each balance's projection once, in the order of the year, the code and the names of
-- the leave type.
pub execute-IsSorted :
    (get_my_leave_balances : TrustedRequestContext → Option (List LeaveBalanceRecord))
    (context : TrustedRequestContext) (items : List LeaveBalanceItem)
    (balances : List LeaveBalanceRecord)
    → execute get_my_leave_balances context ≡ ok items
    → get_my_leave_balances context ≡ some balances
    → IsSorted item_key items × Perm items (map to_item balances)
unfolding order_balances
execute-IsSorted get_my_leave_balances context items balances h found =
    let (linked, (balances', found', own, same)) =
      (execute-IsOwnBalances get_my_leave_balances context items).0 h in
    let q : balances' ≡ balances = some-injective balances' balances (sym found' ∙ found) in
    rw same (
      sorted-IsSorted item_key (map to_item (sorted record_key balances')),
      rw q (
          Perm.trans (sorted-perm item_key (map to_item (sorted record_key balances)))
            (Perm.map to_item (sorted-perm record_key balances))),
    )
