-- ===== src/Tools/Gateway/Runs.antt =====
-- When the handler of an invocation runs, and what a success through the gateway guarantees.
use ai_systems_try.Base.{
  ℕ, ◌+◌, String, ◌≡◌, refl, Bool, true, false, not, ◌&&◌, Option, none, some, [], ◌∷◌, ◌++◌, arith,
  any, ◌==◌, string_eq, if◌then◌else◌, Bool-cases, inl, inr,
}
use ai_systems_try.Base.Dict
use ai_systems_try.Context.{TrustedRequestContext, is_some}
use ai_systems_try.Json.{Json, contains_reserved_argument}
use ai_systems_try.Capability.{ToolDescriptor}
use ai_systems_try.Capability.Access.{is_command}
use ai_systems_try.Capability.Access.Laws.{offers, authorized_names-evaluate}
use ai_systems_try.Tools.{
  ToolErrorCode, tool_unavailable, invalid_tool_arguments, read_only_violation,
  tool_execution_failed, invalid_tool_output, command_descriptor_rejected,
  tool_not_authorized_or_installed, reserved_context_argument_rejected, input_validation_failed,
  handler_execution_failed, output_validation_failed, execution_succeeded, succeeded, failed,
  ToolInvocation, ToolOutput, PublicToolResult, success, ToolReason, ToolAuditEvent,
  create_tool_audit_event, handler_executed, audit_recorded, Trace, ReadToolHandler,
}
use ai_systems_try.Tools.Gateway.{
  ReadToolGateway, public_failure, record_before_return, fail, finish_output, finish_raw,
  run_handler, is_refused, execute_read, is_command_descriptor, execute,
}
use ai_systems_try.Tools.Gateway.Laws.{is_success}

-- The number of handler runs in a trace.
abbrev pub run_count : Trace → ℕ
run_count [] = 0
run_count (handler_executed name arguments ∷ rest) = 1 + run_count rest
run_count (audit_recorded event ∷ rest) = run_count rest

run_count-append : (s t : Trace) → run_count (s ++ t) ≡ run_count s + run_count t
run_count-append [] t = omega arith
run_count-append (handler_executed n a ∷ s) t = omega (arith, run_count-append s t)
run_count-append (audit_recorded e ∷ s) t = omega (arith, run_count-append s t)

abbrev has_valid_input : Option ReadToolHandler → Json → Bool
has_valid_input none arguments = false
has_valid_input (some handler) arguments = is_some (handler.validate_input arguments)

abbrev is_read_version : Option ToolDescriptor → String → Bool
is_read_version none version = false
is_read_version (some descriptor) version =
    not (is_command descriptor.operation) && version == descriptor.version

-- Everything that a handler's run requires: a registered read tool of the requested version, an
-- installed handler, a manifest that offers the tool to the context in read-only mode, arguments
-- with no reserved name at any depth, and arguments that the input model accepts.
pub may_run : ReadToolGateway → TrustedRequestContext → ToolInvocation → Bool
may_run gateway context invocation =
    let handler = Dict.get invocation.tool_name gateway.handlers_by_name in
    is_read_version (Dict.get invocation.tool_name gateway.descriptors_by_name) invocation.version
    && any (offers context true invocation.tool_name) gateway.registry.manifests
    && not (contains_reserved_argument invocation.arguments)
    && has_valid_input handler invocation.arguments

-- The trace grew by a run if `b` holds and by none if not, and a success needs `b`.
abbrev Runs : Bool → Trace → PublicToolResult × Trace → Type 0
Runs b before result =
    (run_count result.1 ≡ run_count before + (if b then 1 else 0))
    × (is_success result.0 ≡ true → b ≡ true)

module _ (gateway : ReadToolGateway) (context : TrustedRequestContext)
    (invocation : ToolInvocation) where
  record-Runs :
      (event : ToolAuditEvent) (result : PublicToolResult) (b : Bool) (before after : Trace)
      → run_count after ≡ run_count before + (if b then 1 else 0)
      → (is_success result ≡ true → b ≡ true)
      → Runs b before (record_before_return gateway invocation event result after)
  unfolding record_before_return public_failure
  record-Runs event result b before after h k =
      (ground (arith, run_count-append after (audit_recorded event ∷ [])), λ s. ground arith)

  fail-Runs :
      (code : ToolErrorCode) (reason : ToolReason) (descriptor : Option ToolDescriptor) (b : Bool)
      (before after : Trace)
      → run_count after ≡ run_count before + (if b then 1 else 0)
      → Runs b before (fail gateway context invocation code reason descriptor after)
  unfolding fail public_failure
  fail-Runs code reason descriptor b before after h =
      record-Runs (create_tool_audit_event context invocation failed reason descriptor)
        (public_failure invocation code) b before after h (λ s. cc)

  -- Nothing has run, and nothing runs.
  fail_idle :
      (code : ToolErrorCode) (reason : ToolReason) (descriptor : Option ToolDescriptor)
      (before : Trace)
      → Runs false before (fail gateway context invocation code reason descriptor before)
  fail_idle code reason descriptor before =
      fail-Runs code reason descriptor false before before (omega arith)

  output-Runs :
      (d : ToolDescriptor) (output : Option ToolOutput) (before after : Trace)
      → run_count after ≡ run_count before + 1
      → Runs true before (finish_output gateway context invocation d output after)
  unfolding finish_output
  output-Runs d none before after h =
      fail-Runs invalid_tool_output output_validation_failed (some d) true before after h
  output-Runs d (some result) before after h =
      record-Runs
        (create_tool_audit_event context invocation succeeded execution_succeeded (some d))
        (success (record {
          tool_name = invocation.tool_name;
          version = invocation.version;
          result = result;
        }))
        true before after h (λ s. refl)

  raw-Runs :
      (d : ToolDescriptor) (handler : ReadToolHandler) (raw : Option Json) (before after : Trace)
      → run_count after ≡ run_count before + 1
      → Runs true before (finish_raw gateway context invocation d handler raw after)
  unfolding finish_raw
  raw-Runs d handler none before after h =
      fail-Runs tool_execution_failed handler_execution_failed (some d) true before after h
  raw-Runs d handler (some raw) before after h =
      output-Runs d (handler.validate_output raw) before after h

  handler-Runs :
      (d : ToolDescriptor) (handler : ReadToolHandler) (arguments : Option Json) (before : Trace)
      → Runs
          (is_some arguments)
          before
          (run_handler gateway context invocation d handler arguments before)
  unfolding run_handler
  handler-Runs d handler none before =
      fail_idle invalid_tool_arguments input_validation_failed (some d) before
  handler-Runs d handler (some arguments) before =
      let call = handler_executed invocation.tool_name arguments in
      raw-Runs d handler (handler.execute before context arguments) before (before ++ call ∷ [])
        (run_count-append before (call ∷ []))

  if_Runs :
      (b c d : Bool) (before : Trace) (x y : PublicToolResult × Trace)
      → Runs false before x
      → Runs c before y
      → d ≡ (not b && c)
      → Runs d before (if b then x else y)
  if_Runs true c d before x y hx hy p = rw p hx
  if_Runs false c d before x y hx hy p = rw p hy

  abbrev allowed : Option ToolDescriptor → Option ReadToolHandler → Bool
  allowed descriptor handler =
      is_read_version descriptor invocation.version
      && any (offers context true invocation.tool_name) gateway.registry.manifests
      && not (contains_reserved_argument invocation.arguments)
      && has_valid_input handler invocation.arguments

  read-Runs :
      (descriptor : Option ToolDescriptor) (handler : Option ReadToolHandler) (before : Trace)
      → is_command_descriptor gateway descriptor ≡ false
      → Runs
          (allowed descriptor handler)
          before
          (execute_read gateway context invocation descriptor handler before)
  unfolding execute_read
  read-Runs (some d) (some h) before e =
      let input = h.validate_input invocation.arguments in
      let reserved = contains_reserved_argument invocation.arguments in
      if_Runs (is_refused gateway context invocation d) (not reserved && is_some input)
        (allowed (some d) (some h)) before _ _
        (fail_idle tool_unavailable tool_not_authorized_or_installed (some d) before)
        (if_Runs reserved (is_some input) (not reserved && is_some input) before _ _
          (fail_idle invalid_tool_arguments reserved_context_argument_rejected (some d) before)
          (handler-Runs d h input before) refl)
        (ground
          (arith, authorized_names-evaluate gateway.registry context true invocation.tool_name))
  read-Runs (some d) none before e =
      rw idle_without_handler
        (fail_idle tool_unavailable tool_not_authorized_or_installed (some d) before)
    where
      idle_without_handler : allowed (some d) none ≡ false
      idle_without_handler = ground arith
  read-Runs none handler before e =
      fail_idle tool_unavailable tool_not_authorized_or_installed none before

  execute-Runs :
      (before : Trace)
      → Runs (may_run gateway context invocation) before (execute gateway context invocation before)
  unfolding execute may_run
  execute-Runs before =
      let descriptor = Dict.get invocation.tool_name gateway.descriptors_by_name in
      let handler = Dict.get invocation.tool_name gateway.handlers_by_name in
      elim (Bool-cases (is_command_descriptor gateway descriptor)) [
        | inl c ↦
            rw (c, never_for_command descriptor handler c)
              (fail_idle read_only_violation command_descriptor_rejected descriptor before)
        | inr r ↦ rw r (read-Runs descriptor handler before r)
      ]
    where
      never_for_command :
          (descriptor : Option ToolDescriptor) (handler : Option ReadToolHandler)
          → is_command_descriptor gateway descriptor ≡ true
          → allowed descriptor handler ≡ false
      never_for_command none handler h = cc
      never_for_command (some d) handler h = ground arith

-- The handler runs once if everything that a run requires holds, and not at all if anything of it
-- does not.
pub run_count-execute :
    (gateway : ReadToolGateway) (context : TrustedRequestContext) (invocation : ToolInvocation)
    (before : Trace)
    → run_count (execute gateway context invocation before).1
      ≡ run_count before + (if may_run gateway context invocation then 1 else 0)
run_count-execute gateway context invocation before =
    (execute-Runs gateway context invocation before).0

-- A successful result is returned only if everything that a run requires holds.
pub execute-success :
    (gateway : ReadToolGateway) (context : TrustedRequestContext) (invocation : ToolInvocation)
    (before : Trace)
    → is_success (execute gateway context invocation before).0 ≡ true
    → may_run gateway context invocation ≡ true
execute-success gateway context invocation before =
    (execute-Runs gateway context invocation before).1
