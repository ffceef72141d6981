-- ===== src/Leave/Balances.antt =====
-- src/erp_ai/capabilities/leave/handlers.py: `GetMyLeaveBalancesHandler`, with the order that its
-- output model gives the balances.
pub mod Laws
use ai_systems_try.Base.{
  ℕ, String, Bool, true, false, not, Option, none, some, List, [], ◌∷◌, map, contains, ◌==◌, Eq,
  string_eq, nat_eq, option_eq, Except, ok, raise, ◌>>=◌, ◌>>◌, raise_if,
}
use ai_systems_try.Base.Sort.{sorted, string_ord, nat_ord, pair_ord}
use ai_systems_try.Context.{TrustedRequestContext, is_some}
use ai_systems_try.Leave.{
  LeaveBalanceRecord, LeaveBalanceItem, LeaveUnavailable, employee_context_required,
  provider_failed, employee_mismatch, legal_entity_out_of_scope, duplicate_record,
}

abbrev pub Key : Type 0
Key = String × String × ℕ

Key-discrete : Discrete Key
Key-discrete = hlevel (string_eq.dec, nat_eq.dec)

instance unfoldable pub key_eq : Eq Key
unfolding Key-discrete
key_eq = record { dec = Key-discrete }

abbrev pub key_of : LeaveBalanceRecord → Key
key_of balance = (balance.legal_entity_id, balance.leave_type_id, balance.fiscal_year)

-- The loop over the records, with the keys seen.
unfoldable pub check_balances :
    TrustedRequestContext → List Key → List LeaveBalanceRecord → Except LeaveUnavailable (Unit {0})
check_balances context seen [] = ok tt
check_balances context seen (balance ∷ rest) = do
  raise_if (not (some balance.employee_id == context.employee_id)) employee_mismatch
  raise_if (not (contains context.legal_entity_ids balance.legal_entity_id))
      legal_entity_out_of_scope
  raise_if (contains seen (key_of balance)) duplicate_record
  check_balances context (key_of balance ∷ seen) rest

unfoldable pub to_item : LeaveBalanceRecord → LeaveBalanceItem
to_item balance = record {
  leave_type_code = balance.leave_type_code;
  leave_type_name = balance.leave_type_name;
  leave_type_name_local = balance.leave_type_name_local;
  fiscal_year = balance.fiscal_year;
  opening_days = balance.opening_days;
  accrued_days = balance.accrued_days;
  used_days = balance.used_days;
  pending_days = balance.pending_days;
  available_days = balance.available_days;
  calculated_at = balance.calculated_at;
  calculation_version = balance.calculation_version;
}

-- A tuple of four compares as nested pairs do.
abbrev pub record_key : LeaveBalanceRecord → ℕ × (String × (String × String))
record_key balance = (
  balance.fiscal_year,
  (balance.leave_type_code, (balance.legal_entity_id, balance.leave_type_id)),
)

abbrev pub item_key : LeaveBalanceItem → ℕ × (String × (String × String))
item_key item =
    (item.fiscal_year, (item.leave_type_code, (item.leave_type_name, item.leave_type_name_local)))

-- `order_balances`
unfoldable pub order_balances : List LeaveBalanceItem → List LeaveBalanceItem
order_balances value = sorted item_key value

abbrev pub or_failed :
    Option (List LeaveBalanceRecord) → Except LeaveUnavailable (List LeaveBalanceRecord)
or_failed none = raise provider_failed
or_failed (some balances) = ok balances

-- `execute`: the balances of the output.
unfoldable pub execute :
    (TrustedRequestContext → Option (List LeaveBalanceRecord))
    → TrustedRequestContext
    → Except LeaveUnavailable (List LeaveBalanceItem)
execute get_my_leave_balances context = do
  raise_if (not (is_some context.employee_id)) employee_context_required
  balances ← or_failed (get_my_leave_balances context)
  check_balances context [] balances
  ok (order_balances (map to_item (sorted record_key balances)))
