-- ===== src/Leave/Detail/Laws.antt =====
-- Which request the handler passes on, and what its status history tells.
use ai_systems_try.Base.{
  String, ◌≡◌, refl, sym, ap, ◌↔◌, Bool, true, not, ◌&&◌, Option, none, some, List, [], ◌∷◌, map,
  arith, contains, all, All, All-of_all, all-of_All, all_new, all_new_iff, Distinct, ◌==◌,
  string_eq, nat_eq, option_eq, ok, ◌>>=◌, ◌>>◌, raise_if, >>=-eq-ok, raise_if-eq-ok, is_ok,
  is_ok-eq,
}
use ai_systems_try.Base.Text.{string_le_trans}
use ai_systems_try.Base.Chains.{adjacent, Pairwise, adjacent_iff}
use ai_systems_try.Context.{TrustedRequestContext, is_some}
use ai_systems_try.Leave.{
  LeaveRequestStatus, status_eq, LeaveRequestHistoryRecord, LeaveRequestDetailRecord,
  GetMyLeaveRequestOutput, employee_context_required,
}
use ai_systems_try.Leave.Detail.{
  precedes, continues, is_final, check_history, check_detail, to_output, or_unavailable, execute,
}

abbrev pub is_of_request : String → LeaveRequestHistoryRecord → Bool
is_of_request request_id transition =
    transition.entity_type == "leave_request" && transition.entity_id == request_id

-- The last transition, if there is one.
abbrev pub last_of :
    Option LeaveRequestHistoryRecord
    → List LeaveRequestHistoryRecord
    → Option LeaveRequestHistoryRecord
last_of previous [] = previous
last_of previous (transition ∷ rest) = last_of (some transition) rest

precedes_trans :
    (a b c : LeaveRequestHistoryRecord)
    → precedes a b ≡ true
    → precedes b c ≡ true
    → precedes a c ≡ true
precedes_trans a b c h k = ground (arith, string_le_trans a.history_id b.history_id c.history_id)

abbrev ids_of : List LeaveRequestHistoryRecord → List String
ids_of = map (λ transition. transition.history_id)

is_ok-check_history :
    (request_id : String) (status : LeaveRequestStatus) (seen : List String)
    (previous : Option LeaveRequestHistoryRecord) (history : List LeaveRequestHistoryRecord)
    → is_ok (check_history request_id status seen previous history) ≡ (
        all_new seen (ids_of history)
        && all (is_of_request request_id) history
        && adjacent precedes previous history
        && adjacent continues previous history
        && is_final status (last_of previous history))
unfolding check_history
is_ok-check_history request_id status seen previous [] = ground arith
is_ok-check_history request_id status seen previous (transition ∷ rest) = ground (
  arith,
  is_ok-check_history request_id status (transition.history_id ∷ seen) (some transition) rest,
)

-- What the handler passes on: the selected request of the linked employee, of the context's customer
-- and of an authorised legal entity, with a history of that request whose IDs differ, in the order
-- of its times, each transition from the status in which the one before ended, and the last one to
-- the request's status.
pub record IsOwnRequest (context : TrustedRequestContext) (request_id : String)
    (detail : LeaveRequestDetailRecord) : Type 0 where
  pub selected : detail.summary.request_id ≡ request_id
  pub customer : detail.customer_environment_id ≡ context.customer_environment_id
  pub employee : context.employee_id ≡ some detail.summary.employee_id
  pub legal_entity : contains context.legal_entity_ids detail.summary.legal_entity_id ≡ true
  pub different : Distinct (map (λ transition. transition.history_id) detail.status_history)
  pub of_request :
      All (λ transition. is_of_request request_id transition ≡ true) detail.status_history
  pub ordered : Pairwise precedes detail.status_history
  pub chained : adjacent continues none detail.status_history ≡ true
  pub final : is_final detail.summary.status (last_of none detail.status_history) ≡ true

check_detail_iff :
    (context : TrustedRequestContext) (request_id : String) (detail : LeaveRequestDetailRecord)
    → (check_detail context request_id detail ≡ ok tt) ↔ IsOwnRequest context request_id detail
unfolding check_detail
check_detail_iff context request_id detail = (
  λ h.
      let e =
        is_ok-check_history detail.summary.request_id detail.summary.status [] none
          detail.status_history in
      let same : detail.summary.request_id ≡ request_id = ground arith in
      record {
        selected = same;
        customer = ground arith;
        employee = ground arith;
        legal_entity = ground arith;
        different = (all_new_iff (ids_of detail.status_history)).0 (ground (arith, e));
        of_request =
            All-of_all (is_of_request request_id) detail.status_history
              (rw (sym same) (ground (arith, e)));
        ordered =
            (adjacent_iff precedes precedes_trans detail.status_history).0 (ground (arith, e));
        chained = ground (arith, e);
        final = ground (arith, e);
      },
  λ p. is_ok-eq _ (
      ground (
        arith,
        p.selected,
        p.customer,
        p.employee,
        p.legal_entity,
        is_ok-check_history detail.summary.request_id detail.summary.status [] none
            detail.status_history,
        (all_new_iff (ids_of detail.status_history)).1 p.different,
        all-of_All (is_of_request detail.summary.request_id) detail.status_history
            (rw p.selected p.of_request),
        (adjacent_iff precedes precedes_trans detail.status_history).1 p.ordered,
        p.chained,
        p.final,
      )),
)

found_detail :
    (found : Option (Option LeaveRequestDetailRecord)) (context : TrustedRequestContext)
    (request_id : String) (output : GetMyLeaveRequestOutput)
    → (do
      detail ← or_unavailable found
      check_detail context request_id detail
      ok (to_output detail))
      ≡ ok output
    → (detail : LeaveRequestDetailRecord) × (found ≡ some (some detail))
      × IsOwnRequest context request_id detail
      × (output ≡ to_output detail)
found_detail none context request_id output h = absurd (ground arith)
found_detail (some none) context request_id output h = absurd (ground arith)
found_detail (some (some detail)) context request_id output h =
    let (u, valid, same) =
      >>=-eq-ok (check_detail context request_id detail) (λ _. ok (to_output detail)) h in
    (detail, refl, (check_detail_iff context request_id detail).0 valid, ground arith)

-- A leave request is returned exactly when the context has a linked employee and the provider
-- returns a record, for this context and this ID, that the handler passes on; the output is then the
-- projection of that record.
pub execute-IsOwnRequest :
    (get_my_leave_request : TrustedRequestContext
      → String
      → Option (Option LeaveRequestDetailRecord))
    (context : TrustedRequestContext) (request_id : String) (output : GetMyLeaveRequestOutput)
    → (execute get_my_leave_request context request_id ≡ ok output) ↔ (
        (is_some context.employee_id ≡ true)
        × ((detail : LeaveRequestDetailRecord) × (get_my_leave_request context request_id
              ≡ some (some detail))
            × IsOwnRequest context request_id detail
            × (output ≡ to_output detail)))
unfolding execute
execute-IsOwnRequest get_my_leave_request context request_id output = (
  λ h.
      let (u, linked, rest) =
        >>=-eq-ok (raise_if (not (is_some context.employee_id)) employee_context_required) _ h in
      (
        ground (arith, raise_if-eq-ok _ _ linked),
        found_detail (get_my_leave_request context request_id) context request_id output rest,
      ),
  λ (linked, (detail, found, own, same)).
      rw (linked, found, (check_detail_iff context request_id detail).1 own) (ap ok (sym same)),
)
