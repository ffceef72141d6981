-- ===== src/Leave/Requests/Laws.antt =====
-- Which pages of the provider the handler passes on.
use ai_systems_try.Base.{
  ℕ, ◌≤◌, String, ◌≡◌, refl, sym, ap, ◌↔◌, Bool, true, false, not, ◌&&◌, Option, none, some, List,
  [], ◌∷◌, map, arith, length, contains, all, All, All-of_all, all-of_All, all_new, all_new_iff,
  Distinct, ◌==◌, string_eq, nat_eq, option_eq, ok, ◌>>=◌, ◌>>◌, raise_if, >>=-eq-ok,
  raise_if-eq-ok, is_ok, is_ok-eq,
}
use ai_systems_try.Base.Text.{string_le_trans}
use ai_systems_try.Base.Chains.{adjacent, Pairwise, adjacent_iff}
use ai_systems_try.Context.{TrustedRequestContext, is_some}
use ai_systems_try.Capability.Access.{is_empty}
use ai_systems_try.Leave.{
  ListMyLeaveRequestsInput, LeaveRequestSummaryRecord, LeaveRequestPageRecord,
  ListMyLeaveRequestsOutput, employee_context_required,
}
use ai_systems_try.Leave.Requests.{
  precedes, check_requests, check_page, to_summary, or_failed, execute,
}

-- The linked employee's own request, of a legal entity that the context is authorised for.
abbrev pub is_own : TrustedRequestContext → LeaveRequestSummaryRecord → Bool
is_own context request =
    some request.employee_id == context.employee_id
    && contains context.legal_entity_ids request.legal_entity_id

precedes_trans :
    (a b c : LeaveRequestSummaryRecord)
    → precedes a b ≡ true
    → precedes b c ≡ true
    → precedes a c ≡ true
precedes_trans a b c h k = ground (arith, string_le_trans a.request_id b.request_id c.request_id)

abbrev ids_of : List LeaveRequestSummaryRecord → List String
ids_of = map (λ request. request.request_id)

is_ok-check_requests :
    (context : TrustedRequestContext) (seen : List String)
    (previous : Option LeaveRequestSummaryRecord) (requests : List LeaveRequestSummaryRecord)
    → is_ok (check_requests context seen previous requests) ≡ (
        all (is_own context) requests
        && all_new seen (ids_of requests)
        && adjacent precedes previous requests)
unfolding check_requests
is_ok-check_requests context seen previous [] = refl
is_ok-check_requests context seen previous (request ∷ rest) =
    ground (arith, is_ok-check_requests context (request.request_id ∷ seen) (some request) rest)

-- What the handler passes on: a page within the limit, without a cursor when it is empty, of the
-- linked employee's own requests in the authorised legal entities, with different IDs, the newest
-- first and those of one instant by their IDs.
pub record IsOwnPage (context : TrustedRequestContext) (limit : ℕ) (page : LeaveRequestPageRecord)
    : Type 0 where
  pub within : length page.items ≤ limit
  pub cursor : (is_empty page.items && is_some page.next_cursor) ≡ false
  pub own : All (λ request. is_own context request ≡ true) page.items
  pub different : Distinct (map (λ request. request.request_id) page.items)
  pub ordered : Pairwise precedes page.items

check_page_iff :
    (context : TrustedRequestContext) (limit : ℕ) (page : LeaveRequestPageRecord)
    → (check_page context limit page ≡ ok tt) ↔ IsOwnPage context limit page
unfolding check_page
check_page_iff context limit page = (
  λ h.
      let e = is_ok-check_requests context [] none page.items in
      record {
        within = ground arith;
        cursor = ground arith;
        own = All-of_all (is_own context) page.items (ground (arith, e));
        different = (all_new_iff (ids_of page.items)).0 (ground (arith, e));
        ordered = (adjacent_iff precedes precedes_trans page.items).0 (ground (arith, e));
      },
  λ p. is_ok-eq _ (
      ground (
        arith,
        is_ok-check_requests context [] none page.items,
        all-of_All (is_own context) page.items p.own,
        (all_new_iff (ids_of page.items)).1 p.different,
        (adjacent_iff precedes precedes_trans page.items).1 p.ordered,
        p.within,
        p.cursor,
      )),
)

abbrev of_page : LeaveRequestPageRecord → ListMyLeaveRequestsOutput
of_page page = record { requests = map to_summary page.items; next_cursor = page.next_cursor }

listed :
    (found : Option LeaveRequestPageRecord) (context : TrustedRequestContext) (limit : ℕ)
    (output : ListMyLeaveRequestsOutput)
    → (do page ← or_failed found; check_page context limit page; ok (of_page page)) ≡ ok output
    → (page : LeaveRequestPageRecord) × (found ≡ some page)
      × IsOwnPage context limit page
      × (output ≡ of_page page)
listed none context limit output h = absurd (ground arith)
listed (some page) context limit output h =
    let (u, valid, same) = >>=-eq-ok (check_page context limit page) (λ _. ok (of_page page)) h in
    (page, refl, (check_page_iff context limit page).0 valid, ground arith)

-- A list of leave requests is returned exactly when the context has a linked employee and the
-- provider returns a page, for this context and these filters, that the handler passes on; the
-- output then has the page's requests in their order, and its cursor.
pub execute-IsOwnPage :
    (list_my_leave_requests : TrustedRequestContext
      → ListMyLeaveRequestsInput
      → Option LeaveRequestPageRecord)
    (context : TrustedRequestContext) (arguments : ListMyLeaveRequestsInput)
    (output : ListMyLeaveRequestsOutput)
    → (execute list_my_leave_requests context arguments ≡ ok output) ↔ (
        (is_some context.employee_id ≡ true)
        × ((page : LeaveRequestPageRecord) × (list_my_leave_requests context arguments ≡ some page)
            × IsOwnPage context arguments.limit page
            × (output
                ≡ record { requests = map to_summary page.items; next_cursor = page.next_cursor })))
unfolding execute
execute-IsOwnPage list_my_leave_requests context arguments output = (
  λ h.
      let (u, linked, rest) =
        >>=-eq-ok (raise_if (not (is_some context.employee_id)) employee_context_required) _ h in
      (
        ground (arith, raise_if-eq-ok _ _ linked),
        listed (list_my_leave_requests context arguments) context arguments.limit output rest,
      ),
  λ (linked, (page, found, own, same)).
      rw (linked, found, (check_page_iff context arguments.limit page).1 own) (ap ok (sym same)),
)
