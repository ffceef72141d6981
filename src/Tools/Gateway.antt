-- ===== src/Tools/Gateway.antt =====
-- src/erp_ai/tools/gateway.py: the construction of the read-tool gateway, and the execution of one
-- invocation with its audit. The state that execution changes is the trace of awaited calls.
pub mod Laws
pub mod Runs
pub mod Startup
use ai_systems_try.Base.{
  String, Bool, true, false, not, ◌&&◌, ◌||◌, Option, none, some, List, [], ◌∷◌, ◌++◌, map,
  contains, keep, ◌==◌, string_eq, if◌then◌else◌, Except, ok, raise, ◌>>=◌, ◌>>◌, raise_if,
}
use ai_systems_try.Base.Dict
use ai_systems_try.Base.Dict.{Dict}
use ai_systems_try.Base.Sort.{sorted, string_ord}
use ai_systems_try.Context.{TrustedRequestContext, is_some}
use ai_systems_try.Json.{Json, contains_reserved_argument}
use ai_systems_try.Capability.{ToolDescriptor, CapabilityManifest, Operation, read, command}
use ai_systems_try.Capability.Registry.{CapabilityRegistry}
use ai_systems_try.Capability.Registry.Laws.{all_tools}
use ai_systems_try.Capability.Access.{
  ModelToolDescriptor, ModelCapability, CapabilityAccessDecision, evaluate_capability_access,
  is_command,
}
use ai_systems_try.Capability.Access.Laws.{authorized_names}
use ai_systems_try.Tools.{
  ToolErrorCode, tool_unavailable, invalid_tool_arguments, read_only_violation,
  tool_execution_failed, invalid_tool_output, audit_unavailable, safe_error_message, ToolInvocation,
  ToolOutput, PublicToolResult, success, failure, succeeded, failed, ToolReason,
  command_descriptor_rejected, tool_not_authorized_or_installed, reserved_context_argument_rejected,
  input_validation_failed, handler_execution_failed, output_validation_failed, execution_succeeded,
  ToolAuditEvent, create_tool_audit_event, ToolEvent, handler_executed, audit_recorded, Trace,
  ModelConfig, ReadToolHandler, ToolAuditSink,
}

pub record ReadToolGateway : Type 0 where
  pub registry : CapabilityRegistry
  pub handlers : List ReadToolHandler
  pub audit_sink : ToolAuditSink
  pub handlers_by_name : Dict String ReadToolHandler
  pub descriptors_by_name : Dict String ToolDescriptor

-- The `ValueError`s of the constructor.
pub data GatewayError : Type 0 where
  duplicate_handler no_registered_descriptor version_mismatch : String → GatewayError
  command_handler_forbidden input_model_not_strict : String → GatewayError
  input_model_allows_extra output_model_not_strict : String → GatewayError

-- `{tool.tool_name: tool for ...}`: a later tool replaces an earlier one of its name.
unfoldable pub index_descriptors :
    List ToolDescriptor → Dict String ToolDescriptor → Dict String ToolDescriptor
index_descriptors [] d = d
index_descriptors (tool ∷ rest) d = index_descriptors rest (Dict.insert tool.tool_name tool d)

abbrev pub strict_frozen_model : ModelConfig → Bool
strict_frozen_model model = model.strict && model.frozen

-- The tests on a handler whose descriptor is found.
check_handler : ReadToolHandler → Option ToolDescriptor → Except GatewayError (Unit {0})
check_handler handler none = raise (no_registered_descriptor handler.tool_name)
check_handler handler (some descriptor) = do
  raise_if (not (descriptor.version == handler.version)) (version_mismatch handler.tool_name)
  raise_if (is_command descriptor.operation) (command_handler_forbidden handler.tool_name)
  raise_if (not (strict_frozen_model handler.input_model))
      (input_model_not_strict handler.tool_name)
  raise_if (not handler.input_model.forbids_extra) (input_model_allows_extra handler.tool_name)
  raise_if (not (strict_frozen_model handler.output_model))
      (output_model_not_strict handler.tool_name)

index_handlers :
    Dict String ToolDescriptor
    → List ReadToolHandler
    → Dict String ReadToolHandler
    → Except GatewayError (Dict String ReadToolHandler)
unfolding check_handler
index_handlers descriptors [] by_name = ok by_name
index_handlers descriptors (handler ∷ rest) by_name = do
  raise_if (contains (Dict.keys by_name) handler.tool_name) (duplicate_handler handler.tool_name)
  check_handler handler (Dict.get handler.tool_name descriptors)
  index_handlers descriptors rest (Dict.insert handler.tool_name handler by_name)

-- `handlers_by_name[name] for name in sorted(handlers_by_name)`: the items, ordered by their keys.
abbrev pub ordered_handlers : Dict String ReadToolHandler → List ReadToolHandler
ordered_handlers by_name = Dict.values (sorted (λ entry. entry.0) by_name)

-- `__init__`
unfoldable pub init :
    CapabilityRegistry → List ReadToolHandler → ToolAuditSink → Except GatewayError ReadToolGateway
unfolding index_descriptors index_handlers
init registry handlers audit_sink = do
  let descriptors = index_descriptors (all_tools registry.manifests) []
  by_name ← index_handlers descriptors handlers []
  ok (record {
    registry = registry;
    handlers = ordered_handlers by_name;
    audit_sink = audit_sink;
    handlers_by_name = by_name;
    descriptors_by_name = descriptors;
  })

abbrev pub exposed_tools : List ModelCapability → List ModelToolDescriptor
exposed_tools [] = []
exposed_tools (capability ∷ rest) = capability.tools ++ exposed_tools rest

unfoldable pub public_failure : ToolInvocation → ToolErrorCode → PublicToolResult
public_failure invocation error_code = failure (record {
  tool_name = invocation.tool_name;
  version = invocation.version;
  safe_error_code = error_code;
  safe_message = safe_error_message error_code;
})

module _ (gateway : ReadToolGateway) where
  unfoldable pub available_tools : TrustedRequestContext → List ModelToolDescriptor
  available_tools context =
      let decision = evaluate_capability_access gateway.registry context true in
      keep (λ tool. contains (Dict.keys gateway.handlers_by_name) tool.tool_name)
        (exposed_tools decision.model_capabilities)

  -- `none` stands for the `KeyError`.
  unfoldable pub public_input_schema : String → Option Json
  public_input_schema tool_name = elim (Dict.get tool_name gateway.handlers_by_name) [
    | none ↦ none
    | some handler ↦ some handler.input_schema
  ]

  unfoldable pub record_before_return :
      ToolInvocation → ToolAuditEvent → PublicToolResult → Trace → PublicToolResult × Trace
  unfolding public_failure
  record_before_return invocation event result trace = (
    if gateway.audit_sink.delivers trace event
        then result
        else public_failure invocation audit_unavailable,
    trace ++ audit_recorded event ∷ [],
  )

  -- `_failure`
  unfoldable pub fail :
      TrustedRequestContext
      → ToolInvocation
      → ToolErrorCode
      → ToolReason
      → Option ToolDescriptor
      → Trace
      → PublicToolResult × Trace
  unfolding record_before_return create_tool_audit_event
  fail context invocation error_code internal_reason descriptor trace =
      record_before_return invocation
        (create_tool_audit_event context invocation failed internal_reason descriptor)
        (public_failure invocation error_code) trace

  -- The validation of what the handler returned.
  unfoldable pub finish_output :
      TrustedRequestContext
      → ToolInvocation
      → ToolDescriptor
      → Option ToolOutput
      → Trace
      → PublicToolResult × Trace
  finish_output context invocation descriptor none trace =
      fail context invocation invalid_tool_output output_validation_failed (some descriptor) trace
  finish_output context invocation descriptor (some result) trace =
      record_before_return invocation
        (create_tool_audit_event context invocation succeeded execution_succeeded (some descriptor))
        (success (record {
          tool_name = invocation.tool_name;
          version = invocation.version;
          result = result;
        }))
        trace

  unfoldable pub finish_raw :
      TrustedRequestContext
      → ToolInvocation
      → ToolDescriptor
      → ReadToolHandler
      → Option Json
      → Trace
      → PublicToolResult × Trace
  finish_raw context invocation descriptor handler none trace =
      fail context invocation tool_execution_failed handler_execution_failed (some descriptor) trace
  finish_raw context invocation descriptor handler (some raw_result) trace =
      finish_output context invocation descriptor (handler.validate_output raw_result) trace

  -- The handler runs on validated arguments only.
  unfoldable pub run_handler :
      TrustedRequestContext
      → ToolInvocation
      → ToolDescriptor
      → ReadToolHandler
      → Option Json
      → Trace
      → PublicToolResult × Trace
  run_handler context invocation descriptor handler none trace =
      fail context invocation invalid_tool_arguments input_validation_failed (some descriptor) trace
  run_handler context invocation descriptor handler (some arguments) trace =
      finish_raw context invocation descriptor handler (handler.execute trace context arguments)
        (trace ++ handler_executed invocation.tool_name arguments ∷ [])

  -- The version differs, or the name is not among `authorized_names`.
  abbrev pub is_refused : TrustedRequestContext → ToolInvocation → ToolDescriptor → Bool
  is_refused context invocation descriptor =
      let decision = evaluate_capability_access gateway.registry context true in
      not (invocation.version == descriptor.version)
      || not (contains (authorized_names decision.model_capabilities) invocation.tool_name)

  -- The part of `execute` behind the rejection of commands.
  unfoldable pub execute_read :
      TrustedRequestContext
      → ToolInvocation
      → Option ToolDescriptor
      → Option ReadToolHandler
      → Trace
      → PublicToolResult × Trace
  execute_read context invocation (some descriptor) (some handler) trace =
      if is_refused context invocation descriptor
      then fail context invocation tool_unavailable tool_not_authorized_or_installed
          (some descriptor) trace
      else if contains_reserved_argument invocation.arguments
      then fail context invocation invalid_tool_arguments reserved_context_argument_rejected
          (some descriptor) trace
      else run_handler context invocation descriptor handler
          (handler.validate_input invocation.arguments) trace
  execute_read context invocation descriptor handler trace =
      fail context invocation tool_unavailable tool_not_authorized_or_installed descriptor trace

  abbrev pub is_command_descriptor : Option ToolDescriptor → Bool
  is_command_descriptor none = false
  is_command_descriptor (some descriptor) = is_command descriptor.operation

  unfoldable pub execute : TrustedRequestContext → ToolInvocation → Trace → PublicToolResult × Trace
  execute context invocation trace =
      let descriptor = Dict.get invocation.tool_name gateway.descriptors_by_name in
      if is_command_descriptor descriptor
      then fail context invocation read_only_violation command_descriptor_rejected descriptor trace
      else execute_read context invocation descriptor
          (Dict.get invocation.tool_name gateway.handlers_by_name) trace
