-- ===== src/Leave/Detail.antt =====
-- src/erp_ai/capabilities/leave/handlers.py: `GetMyLeaveRequestHandler`.
pub mod Laws
use ai_systems_try.Base.{
  ℕ, String, Bool, true, false, not, ◌&&◌, ◌||◌, Option, none, some, List, [], ◌∷◌, map, ltb,
  contains, ◌==◌, string_eq, nat_eq, option_eq, Except, ok, raise, ◌>>=◌, ◌>>◌, raise_if,
}
use ai_systems_try.Base.Chains.{after}
use ai_systems_try.Base.Text.{string_le}
use ai_systems_try.Context.{TrustedRequestContext, is_some}
use ai_systems_try.Leave.{
  LeaveRequestStatus, status_eq, LeaveRequestHistoryRecord, LeaveRequestDetailRecord,
  LeaveRequestStatusTransition, GetMyLeaveRequestOutput, LeaveUnavailable,
  employee_context_required, provider_failed, employee_mismatch, legal_entity_out_of_scope,
  ordering_violation, request_unavailable, selector_mismatch, customer_mismatch, duplicate_history,
  wrong_history_entity_type, wrong_history_entity, broken_status_chain, final_status_mismatch,
}

-- The order of two neighbours, and the link between them.
abbrev pub precedes : LeaveRequestHistoryRecord → LeaveRequestHistoryRecord → Bool
precedes previous transition =
    not (ltb transition.changed_at previous.changed_at)
    && not (
        previous.changed_at == transition.changed_at
        && not (string_le previous.history_id transition.history_id))

abbrev pub continues : LeaveRequestHistoryRecord → LeaveRequestHistoryRecord → Bool
continues previous transition = transition.from_status == some previous.to_status

abbrev pub is_final : LeaveRequestStatus → Option LeaveRequestHistoryRecord → Bool
is_final status none = true
is_final status (some previous) = previous.to_status == status

-- The loop over the history and the check behind it, with the IDs seen and the transition before.
check_history :
    String
    → LeaveRequestStatus
    → List String
    → Option LeaveRequestHistoryRecord
    → List LeaveRequestHistoryRecord
    → Except LeaveUnavailable (Unit {0})
check_history request_id status seen previous [] =
    raise_if (not (is_final status previous)) final_status_mismatch
check_history request_id status seen previous (transition ∷ rest) = do
  raise_if (contains seen transition.history_id) duplicate_history
  raise_if (not (transition.entity_type == "leave_request")) wrong_history_entity_type
  raise_if (not (transition.entity_id == request_id)) wrong_history_entity
  raise_if (not (after precedes previous transition)) ordering_violation
  raise_if (not (after continues previous transition)) broken_status_chain
  check_history request_id status (transition.history_id ∷ seen) (some transition) rest

-- The checks on the provider's record.
unfoldable pub check_detail :
    TrustedRequestContext → String → LeaveRequestDetailRecord → Except LeaveUnavailable (Unit {0})
unfolding check_history
check_detail context request_id detail = do
  raise_if (not (detail.summary.request_id == request_id)) selector_mismatch
  raise_if (not (detail.customer_environment_id == context.customer_environment_id))
      customer_mismatch
  raise_if (not (some detail.summary.employee_id == context.employee_id)) employee_mismatch
  raise_if (not (contains context.legal_entity_ids detail.summary.legal_entity_id))
      legal_entity_out_of_scope
  check_history detail.summary.request_id detail.summary.status [] none detail.status_history

abbrev pub to_transition : LeaveRequestHistoryRecord → LeaveRequestStatusTransition
to_transition transition = record {
  from_status = transition.from_status;
  to_status = transition.to_status;
  changed_at = transition.changed_at;
  reason_code = transition.reason_code;
}

unfoldable pub to_output : LeaveRequestDetailRecord → GetMyLeaveRequestOutput
to_output detail = record {
  request_id = detail.summary.request_id;
  leave_type_code = detail.summary.leave_type_code;
  leave_type_name = detail.summary.leave_type_name;
  leave_type_name_local = detail.summary.leave_type_name_local;
  start_date = detail.summary.start_date;
  end_date = detail.summary.end_date;
  working_days = detail.summary.working_days;
  is_half_day = detail.summary.is_half_day;
  half_day_period = detail.summary.half_day_period;
  status = detail.summary.status;
  submitted_at = detail.summary.submitted_at;
  updated_at = detail.summary.updated_at;
  status_timeline = map to_transition detail.status_history;
}

-- The provider raises, or returns a record or `None`.
abbrev pub or_unavailable :
    Option (Option LeaveRequestDetailRecord) → Except LeaveUnavailable LeaveRequestDetailRecord
or_unavailable none = raise provider_failed
or_unavailable (some none) = raise request_unavailable
or_unavailable (some (some detail)) = ok detail

-- `execute`
unfoldable pub execute :
    (TrustedRequestContext → String → Option (Option LeaveRequestDetailRecord))
    → TrustedRequestContext
    → String
    → Except LeaveUnavailable GetMyLeaveRequestOutput
execute get_my_leave_request context request_id = do
  raise_if (not (is_some context.employee_id)) employee_context_required
  detail ← or_unavailable (get_my_leave_request context request_id)
  check_detail context request_id detail
  ok (to_output detail)
