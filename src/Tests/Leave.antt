-- ===== src/Tests/Leave.antt =====
-- The leave handlers on small provider answers.
use mathlib.Core.List.{Perm}
use ai_systems_try.Base.{
  String, ◌≡◌, refl, ◌↔◌, true, false, Option, none, some, List, [], ◌∷◌, map, ok, string_eq,
  nat_eq, option_eq,
}
use ai_systems_try.Base.Sort.{sorted, string_ord, nat_ord, pair_ord}
use ai_systems_try.Base.Sort.Laws.{IsSorted}
use ai_systems_try.Context.{TrustedRequestContext, is_some}
use ai_systems_try.Leave.{
  Days, LeaveBalanceRecord, LeaveBalanceItem, ListMyLeaveRequestsInput, LeaveRequestSummaryRecord,
  LeaveRequestPageRecord, ListMyLeaveRequestsOutput, LeaveRequestHistoryRecord,
  LeaveRequestDetailRecord, pending, approved, draft, status_eq,
}
use ai_systems_try.Leave.Balances
use ai_systems_try.Leave.Balances.{to_item, order_balances, record_key, item_key, key_eq}
use ai_systems_try.Leave.Balances.Laws.{IsOwnBalances, execute-IsOwnBalances, execute-IsSorted}
use ai_systems_try.Leave.Requests
use ai_systems_try.Leave.Requests.{to_summary}
use ai_systems_try.Leave.Requests.Laws.{IsOwnPage, execute-IsOwnPage}
use ai_systems_try.Leave.Detail
use ai_systems_try.Leave.Detail.{to_output}
use ai_systems_try.Leave.Detail.Laws.{IsOwnRequest, execute-IsOwnRequest}
use ai_systems_try.Tests.Fixtures.{wide_context}

abbrev no_days : Days
no_days = record { is_negative = false; hundredths = 0 }

abbrev balance : LeaveBalanceRecord
balance = record {
  employee_id = "emp-1";
  legal_entity_id = "le-1";
  leave_type_id = "type-1";
  leave_type_code = "AL";
  leave_type_name = "Annual";
  leave_type_name_local = "Annual";
  fiscal_year = 2025;
  opening_days = no_days;
  accrued_days = no_days;
  used_days = no_days;
  pending_days = no_days;
  available_days = no_days;
  calculated_at = 90;
  source_watermark = "w";
  calculation_version = "1.0.0";
}

-- The year before, which comes first in the output.
abbrev older_balance : LeaveBalanceRecord
older_balance = record balance { fiscal_year = 2024 }

abbrev balances_of : TrustedRequestContext → Option (List LeaveBalanceRecord)
balances_of context = some (balance ∷ older_balance ∷ [])

abbrev items : List LeaveBalanceItem
items = to_item older_balance ∷ to_item balance ∷ []

returns_balances : Balances.execute balances_of wide_context ≡ ok items
unfolding Balances.execute Balances.check_balances option_eq string_eq key_eq nat_eq order_balances
    sorted to_item
returns_balances = refl

execute-IsOwnBalances_example : (Balances.execute balances_of wide_context ≡ ok items) ↔ (
    (is_some wide_context.employee_id ≡ true)
    × ((balances : List LeaveBalanceRecord) × (balances_of wide_context ≡ some balances)
        × IsOwnBalances wide_context balances
        × (items ≡ order_balances (map to_item (sorted record_key balances)))))
execute-IsOwnBalances_example = execute-IsOwnBalances balances_of wide_context items

execute-IsSorted_example :
    IsSorted item_key items × Perm items (map to_item (balance ∷ older_balance ∷ []))
execute-IsSorted_example =
    execute-IsSorted balances_of wide_context items (balance ∷ older_balance ∷ []) returns_balances
      refl

abbrev request : LeaveRequestSummaryRecord
request = record {
  request_id = "00000000-0000-0000-0000-000000000001";
  employee_id = "emp-1";
  legal_entity_id = "le-1";
  leave_type_id = "type-1";
  leave_type_code = "AL";
  leave_type_name = "Annual";
  leave_type_name_local = "Annual";
  start_date = 20;
  end_date = 21;
  working_days = 200;
  is_half_day = false;
  half_day_period = none;
  status = approved;
  submitted_at = 50;
  updated_at = none;
  working_days_calculation_version = "1.0.0";
}

abbrev older_request : LeaveRequestSummaryRecord
older_request = record request {
  request_id = "00000000-0000-0000-0000-000000000002";
  submitted_at = 40;
}

abbrev page : LeaveRequestPageRecord
page = record { items = request ∷ older_request ∷ []; next_cursor = none }

abbrev filters : ListMyLeaveRequestsInput
filters = record { statuses = []; start_from = none; start_to = none; limit = 20; cursor = none }

abbrev page_of : TrustedRequestContext → ListMyLeaveRequestsInput → Option LeaveRequestPageRecord
page_of context arguments = some page

abbrev requests : ListMyLeaveRequestsOutput
requests = record {
  requests = to_summary request ∷ to_summary older_request ∷ [];
  next_cursor = none;
}

returns_requests : Requests.execute page_of wide_context filters ≡ ok requests
unfolding Requests.execute Requests.check_page option_eq string_eq nat_eq
returns_requests = refl

execute-IsOwnPage_example : (Requests.execute page_of wide_context filters ≡ ok requests) ↔ (
    (is_some wide_context.employee_id ≡ true)
    × ((page : LeaveRequestPageRecord) × (page_of wide_context filters ≡ some page)
        × IsOwnPage wide_context filters.limit page
        × (requests
            ≡ record { requests = map to_summary page.items; next_cursor = page.next_cursor })))
execute-IsOwnPage_example = execute-IsOwnPage page_of wide_context filters requests

abbrev submission : LeaveRequestHistoryRecord
submission = record {
  history_id = "h1";
  entity_type = "leave_request";
  entity_id = "00000000-0000-0000-0000-000000000001";
  from_status = some draft;
  to_status = pending;
  changed_at = 50;
  reason_code = none;
}

abbrev approval : LeaveRequestHistoryRecord
approval = record submission {
  history_id = "h2";
  from_status = some pending;
  to_status = approved;
  changed_at = 60;
}

abbrev detail : LeaveRequestDetailRecord
detail = record {
  summary = request;
  customer_environment_id = "env-1";
  status_history = submission ∷ approval ∷ [];
}

abbrev detail_of : TrustedRequestContext → String → Option (Option LeaveRequestDetailRecord)
detail_of context request_id = some (some detail)

returns_detail :
    Detail.execute detail_of wide_context "00000000-0000-0000-0000-000000000001"
    ≡ ok (to_output detail)
unfolding Detail.execute Detail.check_detail string_eq option_eq nat_eq status_eq
returns_detail = refl

execute-IsOwnRequest_example :
    (Detail.execute detail_of wide_context "00000000-0000-0000-0000-000000000001"
      ≡ ok (to_output detail))
    ↔ ((is_some wide_context.employee_id ≡ true)
        × ((record' : LeaveRequestDetailRecord) × (detail_of wide_context
                "00000000-0000-0000-0000-000000000001"
              ≡ some (some record'))
            × IsOwnRequest wide_context "00000000-0000-0000-0000-000000000001" record'
            × (to_output detail ≡ to_output record')))
execute-IsOwnRequest_example =
    execute-IsOwnRequest detail_of wide_context "00000000-0000-0000-0000-000000000001"
      (to_output detail)
