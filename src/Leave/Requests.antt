-- ===== src/Leave/Requests.antt =====
-- src/erp_ai/capabilities/leave/handlers.py: `ListMyLeaveRequestsHandler`.
pub mod Laws
use ai_systems_try.Base.{
  ℕ, String, Bool, true, false, not, ◌&&◌, ◌||◌, Option, none, some, List, [], ◌∷◌, map, ltb,
  length, contains, ◌==◌, string_eq, nat_eq, option_eq, Except, ok, raise, ◌>>=◌, ◌>>◌, raise_if,
}
use ai_systems_try.Base.Chains.{after}
use ai_systems_try.Base.Text.{string_le}
use ai_systems_try.Context.{TrustedRequestContext, is_some}
use ai_systems_try.Capability.Access.{is_empty}
use ai_systems_try.Leave.{
  ListMyLeaveRequestsInput, LeaveRequestSummaryRecord, LeaveRequestPageRecord, LeaveRequestSummary,
  ListMyLeaveRequestsOutput, LeaveUnavailable, employee_context_required, provider_failed,
  employee_mismatch, legal_entity_out_of_scope, duplicate_record, page_exceeds_limit,
  empty_page_has_cursor, ordering_violation,
}

-- The tests on the neighbours in the page.
abbrev pub precedes : LeaveRequestSummaryRecord → LeaveRequestSummaryRecord → Bool
precedes previous request =
    not (ltb previous.submitted_at request.submitted_at)
    && not (
        previous.submitted_at == request.submitted_at
        && not (string_le previous.request_id request.request_id))

-- The loop over the page, with the IDs seen and the request before.
check_requests :
    TrustedRequestContext
    → List String
    → Option LeaveRequestSummaryRecord
    → List LeaveRequestSummaryRecord
    → Except LeaveUnavailable (Unit {0})
check_requests context seen previous [] = ok tt
check_requests context seen previous (request ∷ rest) = do
  raise_if (not (some request.employee_id == context.employee_id)) employee_mismatch
  raise_if (not (contains context.legal_entity_ids request.legal_entity_id))
      legal_entity_out_of_scope
  raise_if (contains seen request.request_id) duplicate_record
  raise_if (not (after precedes previous request)) ordering_violation
  check_requests context (request.request_id ∷ seen) (some request) rest

-- The checks on the provider's page.
unfoldable pub check_page :
    TrustedRequestContext → ℕ → LeaveRequestPageRecord → Except LeaveUnavailable (Unit {0})
unfolding check_requests
check_page context limit page = do
  raise_if (ltb limit (length page.items)) page_exceeds_limit
  raise_if (is_empty page.items && is_some page.next_cursor) empty_page_has_cursor
  check_requests context [] none page.items

unfoldable pub to_summary : LeaveRequestSummaryRecord → LeaveRequestSummary
to_summary request = record {
  request_id = request.request_id;
  leave_type_code = request.leave_type_code;
  leave_type_name = request.leave_type_name;
  leave_type_name_local = request.leave_type_name_local;
  start_date = request.start_date;
  end_date = request.end_date;
  working_days = request.working_days;
  is_half_day = request.is_half_day;
  half_day_period = request.half_day_period;
  status = request.status;
  submitted_at = request.submitted_at;
  updated_at = request.updated_at;
  working_days_calculation_version = request.working_days_calculation_version;
}

-- `none` stands for an exception of the provider.
abbrev pub or_failed :
    Option LeaveRequestPageRecord → Except LeaveUnavailable LeaveRequestPageRecord
or_failed none = raise provider_failed
or_failed (some page) = ok page

-- `execute`. The provider is called with the trusted context and the filters.
unfoldable pub execute :
    (TrustedRequestContext → ListMyLeaveRequestsInput → Option LeaveRequestPageRecord)
    → TrustedRequestContext
    → ListMyLeaveRequestsInput
    → Except LeaveUnavailable ListMyLeaveRequestsOutput
execute list_my_leave_requests context arguments = do
  raise_if (not (is_some context.employee_id)) employee_context_required
  page ← or_failed (list_my_leave_requests context arguments)
  check_page context arguments.limit page
  ok (record { requests = map to_summary page.items; next_cursor = page.next_cursor })
