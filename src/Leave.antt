-- ===== src/Leave.antt =====
-- src/erp_ai/capabilities/leave/models.py: the provider's records and the public projections, after
-- the validation of their fields, and the validators that relate fields. A UUID is its canonical
-- text, whose order is that of its hexadecimal digits; a date is the number of its day, and days are
-- counted in hundredths.
pub mod Balances
pub mod Requests
pub mod Detail
use ai_systems_try.Base.{
  ℕ, ◌-◌, String, Bool, true, false, not, ◌&&◌, ◌||◌, Option, none, some, List, ltb, ◌==◌, nat_eq,
  has_unique, Eq, if◌then◌else◌, Except, ok, raise, ◌>>◌, raise_if,
}
use ai_systems_try.Base.Sort.{sorted, string_ord}
use ai_systems_try.Context.{is_some}

pub data LeaveRequestStatus : Type 0 where
  draft pending approved rejected returned cancelled : LeaveRequestStatus

pub data HalfDayPeriod : Type 0 where
  first_half second_half : HalfDayPeriod

LeaveRequestStatus-discrete : Discrete LeaveRequestStatus
LeaveRequestStatus-discrete = hlevel

instance unfoldable pub status_eq : Eq LeaveRequestStatus
unfolding LeaveRequestStatus-discrete
status_eq = record { dec = LeaveRequestStatus-discrete }

abbrev pub status_value : LeaveRequestStatus → String
status_value draft = "draft"
status_value pending = "pending"
status_value approved = "approved"
status_value rejected = "rejected"
status_value returned = "returned"
status_value cancelled = "cancelled"

pub record Days : Type 0 where
  pub is_negative : Bool
  pub hundredths : ℕ

pub record ListMyLeaveRequestsInput : Type 0 where
  pub statuses : List LeaveRequestStatus
  pub start_from : Option ℕ
  pub start_to : Option ℕ
  pub limit : ℕ
  pub cursor : Option String

pub data InputError : Type 0 where
  duplicate_statuses : InputError

-- `validate_and_order_statuses`
unfoldable pub validate_and_order_statuses :
    List LeaveRequestStatus → Except InputError (List LeaveRequestStatus)
validate_and_order_statuses value =
    raise_if (not (has_unique value)) duplicate_statuses >> ok (sorted status_value value)

-- `validate_date_range`: whether it returns.
unfoldable pub validate_date_range : Option ℕ → Option ℕ → Bool
validate_date_range (some start) (some end) = not (ltb end start) && not (ltb 366 (end - start))
validate_date_range start end = true

pub record LeaveBalanceRecord : Type 0 where
  pub employee_id : String
  pub legal_entity_id : String
  pub leave_type_id : String
  pub leave_type_code : String
  pub leave_type_name : String
  pub leave_type_name_local : String
  pub fiscal_year : ℕ
  pub opening_days : Days
  pub accrued_days : Days
  pub used_days : Days
  pub pending_days : Days
  pub available_days : Days
  pub calculated_at : ℕ
  pub source_watermark : String
  pub calculation_version : String

pub record LeaveBalanceItem : Type 0 where
  pub leave_type_code : String
  pub leave_type_name : String
  pub leave_type_name_local : String
  pub fiscal_year : ℕ
  pub opening_days : Days
  pub accrued_days : Days
  pub used_days : Days
  pub pending_days : Days
  pub available_days : Days
  pub calculated_at : ℕ
  pub calculation_version : String

pub record LeaveRequestSummaryRecord : Type 0 where
  pub request_id : String
  pub employee_id : String
  pub legal_entity_id : String
  pub leave_type_id : String
  pub leave_type_code : String
  pub leave_type_name : String
  pub leave_type_name_local : String
  pub start_date : ℕ
  pub end_date : ℕ
  pub working_days : ℕ
  pub is_half_day : Bool
  pub half_day_period : Option HalfDayPeriod
  pub status : LeaveRequestStatus
  pub submitted_at : ℕ
  pub updated_at : Option ℕ
  pub working_days_calculation_version : String

-- `validate_dates_and_half_day`: whether it returns.
unfoldable pub validate_dates_and_half_day : LeaveRequestSummaryRecord → Bool
validate_dates_and_half_day request =
    not (ltb request.end_date request.start_date)
    && (if request.is_half_day
        then request.start_date == request.end_date
          && is_some request.half_day_period
          && request.working_days == 50
        else not (is_some request.half_day_period))

pub record LeaveRequestPageRecord : Type 0 where
  pub items : List LeaveRequestSummaryRecord
  pub next_cursor : Option String

pub record LeaveRequestHistoryRecord : Type 0 where
  pub history_id : String
  pub entity_type : String
  pub entity_id : String
  pub from_status : Option LeaveRequestStatus
  pub to_status : LeaveRequestStatus
  pub changed_at : ℕ
  pub reason_code : Option String

-- The detail is a summary with a customer and a history.
pub record LeaveRequestDetailRecord : Type 0 where
  pub summary : LeaveRequestSummaryRecord
  pub customer_environment_id : String
  pub status_history : List LeaveRequestHistoryRecord

pub record LeaveRequestSummary : Type 0 where
  pub request_id : String
  pub leave_type_code : String
  pub leave_type_name : String
  pub leave_type_name_local : String
  pub start_date : ℕ
  pub end_date : ℕ
  pub working_days : ℕ
  pub is_half_day : Bool
  pub half_day_period : Option HalfDayPeriod
  pub status : LeaveRequestStatus
  pub submitted_at : ℕ
  pub updated_at : Option ℕ
  pub working_days_calculation_version : String

pub record LeaveRequestStatusTransition : Type 0 where
  pub from_status : Option LeaveRequestStatus
  pub to_status : LeaveRequestStatus
  pub changed_at : ℕ
  pub reason_code : Option String

pub record GetMyLeaveRequestOutput : Type 0 where
  pub request_id : String
  pub leave_type_code : String
  pub leave_type_name : String
  pub leave_type_name_local : String
  pub start_date : ℕ
  pub end_date : ℕ
  pub working_days : ℕ
  pub is_half_day : Bool
  pub half_day_period : Option HalfDayPeriod
  pub status : LeaveRequestStatus
  pub submitted_at : ℕ
  pub updated_at : Option ℕ
  pub status_timeline : List LeaveRequestStatusTransition

pub record ListMyLeaveRequestsOutput : Type 0 where
  pub requests : List LeaveRequestSummary
  pub next_cursor : Option String

-- The handlers' exceptions, by their messages.
pub data LeaveUnavailable : Type 0 where
  employee_context_required provider_failed employee_mismatch : LeaveUnavailable
  legal_entity_out_of_scope duplicate_record page_exceeds_limit : LeaveUnavailable
  empty_page_has_cursor ordering_violation request_unavailable : LeaveUnavailable
  selector_mismatch customer_mismatch duplicate_history : LeaveUnavailable
  wrong_history_entity_type wrong_history_entity broken_status_chain : LeaveUnavailable
  final_status_mismatch : LeaveUnavailable
