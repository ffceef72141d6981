-- ===== src/Tools/Gateway/Laws.antt =====
-- What one invocation through the gateway does: when its handler runs, that it is audited once and
-- last, and what a success means.
use ai_systems_try.Base.{
  ℕ, ◌+◌, ◌≡◌, refl, Bool, true, false, Option, none, some, [], ◌∷◌, ◌++◌, arith, ◌↔◌, string_eq,
  if◌then◌else◌,
}
use mathlib.Core.List.{append-nil}
use ai_systems_try.Base.Dict
use ai_systems_try.Context.{TrustedRequestContext}
use ai_systems_try.Json.{Json, contains_reserved_argument}
use ai_systems_try.Capability.{ToolDescriptor}
use ai_systems_try.Tools.{
  ToolErrorCode, audit_unavailable, tool_unavailable, invalid_tool_arguments, read_only_violation,
  tool_execution_failed, invalid_tool_output, command_descriptor_rejected,
  tool_not_authorized_or_installed, reserved_context_argument_rejected, input_validation_failed,
  handler_execution_failed, output_validation_failed, ToolInvocation, ToolOutput, PublicToolResult,
  success, failure, succeeded, failed, ToolReason, execution_succeeded, ToolAuditEvent,
  create_tool_audit_event, handler_executed, audit_recorded, Trace, ReadToolHandler,
}
use ai_systems_try.Tools.Gateway.{
  ReadToolGateway, public_failure, record_before_return, fail, finish_output, finish_raw,
  run_handler, is_refused, execute_read, is_command_descriptor, execute,
}

-- The number of audit records in a trace.
abbrev pub audit_count : Trace → ℕ
audit_count [] = 0
audit_count (handler_executed name arguments ∷ rest) = audit_count rest
audit_count (audit_recorded event ∷ rest) = 1 + audit_count rest

abbrev pub is_success : PublicToolResult → Bool
is_success (success s) = true
is_success (failure f) = false

-- From `before`, the awaited calls `calls` and one audit record were made, in this order. If the
-- record was not delivered the result is the audit failure, and if it was, the result is a success
-- exactly when the event says so.
pub record IsAudited (gateway : ReadToolGateway) (invocation : ToolInvocation) (before : Trace)
    (result : PublicToolResult × Trace) : Type 0 where
  pub calls : Trace
  pub event : ToolAuditEvent
  pub in_order : result.1 ≡ before ++ calls ++ audit_recorded event ∷ []
  pub no_other_audit : audit_count calls ≡ 0
  pub undelivered :
      gateway.audit_sink.delivers (before ++ calls) event ≡ false
      → result.0 ≡ public_failure invocation audit_unavailable
  pub delivered :
      gateway.audit_sink.delivers (before ++ calls) event ≡ true
      → (event.outcome ≡ succeeded) ↔ (is_success result.0 ≡ true)

module _ (gateway : ReadToolGateway) (context : TrustedRequestContext) (invocation : ToolInvocation)
    (before : Trace) where
  abbrev Audited : PublicToolResult × Trace → Type 0
  Audited = IsAudited gateway invocation before

  fail-Audited :
      (code : ToolErrorCode) (reason : ToolReason) (descriptor : Option ToolDescriptor)
      (calls : Trace)
      → audit_count calls ≡ 0
      → Audited (fail gateway context invocation code reason descriptor (before ++ calls))
  unfolding fail public_failure
  fail-Audited code reason descriptor calls h = record {
    calls = calls;
    event = create_tool_audit_event context invocation failed reason descriptor;
    in_order = refl;
    no_other_audit = h;
    undelivered = λ u. ground arith;
    delivered = λ d. ground arith;
  }

  succeed-Audited :
      (descriptor : ToolDescriptor) (output : Option ToolOutput) (calls : Trace)
      → audit_count calls ≡ 0
      → Audited (finish_output gateway context invocation descriptor output (before ++ calls))
  unfolding finish_output record_before_return create_tool_audit_event
  succeed-Audited descriptor none calls h =
      fail-Audited invalid_tool_output output_validation_failed (some descriptor) calls h
  succeed-Audited descriptor (some result) calls h = record {
    calls = calls;
    event =
        create_tool_audit_event context invocation succeeded execution_succeeded (some descriptor);
    in_order = refl;
    no_other_audit = h;
    undelivered = λ u. ground arith;
    delivered = λ d. ground arith;
  }

  raw-Audited :
      (descriptor : ToolDescriptor) (handler : ReadToolHandler) (raw : Option Json) (calls : Trace)
      → audit_count calls ≡ 0
      → Audited (finish_raw gateway context invocation descriptor handler raw (before ++ calls))
  unfolding finish_raw
  raw-Audited descriptor handler none calls h =
      fail-Audited tool_execution_failed handler_execution_failed (some descriptor) calls h
  raw-Audited descriptor handler (some raw) calls h = succeed-Audited descriptor _ calls h

  fail_now :
      (code : ToolErrorCode) (reason : ToolReason) (descriptor : Option ToolDescriptor)
      → Audited (fail gateway context invocation code reason descriptor before)
  fail_now code reason descriptor = rw append-nil at (fail-Audited code reason descriptor [] refl)

  run-Audited :
      (descriptor : ToolDescriptor) (handler : ReadToolHandler) (arguments : Option Json)
      → Audited (run_handler gateway context invocation descriptor handler arguments before)
  unfolding run_handler
  run-Audited descriptor handler none =
      fail_now invalid_tool_arguments input_validation_failed (some descriptor)
  run-Audited descriptor handler (some arguments) =
      raw-Audited descriptor handler _ (handler_executed invocation.tool_name arguments ∷ []) refl

  if_Audited :
      (b : Bool) (x y : PublicToolResult × Trace)
      → Audited x
      → Audited y
      → Audited (if b then x else y)
  if_Audited true x y hx hy = hx
  if_Audited false x y hx hy = hy

  read-Audited :
      (descriptor : Option ToolDescriptor) (handler : Option ReadToolHandler)
      → Audited (execute_read gateway context invocation descriptor handler before)
  unfolding execute_read
  read-Audited (some d) (some h) =
      if_Audited (is_refused gateway context invocation d) _ _
        (fail_now tool_unavailable tool_not_authorized_or_installed (some d))
        (if_Audited (contains_reserved_argument invocation.arguments) _ _
          (fail_now invalid_tool_arguments reserved_context_argument_rejected (some d))
          (run-Audited d h (h.validate_input invocation.arguments)))
  read-Audited (some d) none = fail_now tool_unavailable tool_not_authorized_or_installed (some d)
  read-Audited none h = fail_now tool_unavailable tool_not_authorized_or_installed none

-- Every invocation, whatever its outcome, appends to the trace with one audit record as its last
-- call; if the sink raises, the result is the audit failure, and otherwise the recorded outcome is
-- the one that is returned.
pub execute-IsAudited :
    (gateway : ReadToolGateway) (context : TrustedRequestContext) (invocation : ToolInvocation)
    (before : Trace)
    → IsAudited gateway invocation before (execute gateway context invocation before)
unfolding execute
execute-IsAudited gateway context invocation before =
    let descriptor = Dict.get invocation.tool_name gateway.descriptors_by_name in
    if_Audited gateway context invocation before (is_command_descriptor gateway descriptor) _ _
      (fail_now gateway context invocation before read_only_violation command_descriptor_rejected
        descriptor)
      (read-Audited gateway context invocation before descriptor
        (Dict.get invocation.tool_name gateway.handlers_by_name))
