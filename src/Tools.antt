-- ===== src/Tools.antt =====
-- src/erp_ai/tools/: the models, error codes and audit events of the read-tool boundary, and the
-- interface of a handler. A pydantic model is its configuration with a validation that returns or
-- raises; an awaited call depends on the calls made before it.
pub mod Gateway
use ai_systems_try.Base.{String, Bool, true, false, ◌&&◌, Option, none, some, List, [], ◌∷◌}
use ai_systems_try.Context.{TrustedRequestContext}
use ai_systems_try.Json.{Json}
use ai_systems_try.Capability.{DataClassification, internal, ToolDescriptor}
use ai_systems_try.HrKnowledge.{SearchHrKnowledgeOutput}

-- ToolErrorCode
pub data ToolErrorCode : Type 0 where
  tool_unavailable invalid_tool_arguments read_only_violation : ToolErrorCode
  tool_execution_failed invalid_tool_output audit_unavailable : ToolErrorCode

-- SAFE_ERROR_MESSAGES
unfoldable pub safe_error_message : ToolErrorCode → String
safe_error_message tool_unavailable = "The requested tool is unavailable."
safe_error_message invalid_tool_arguments = "The tool arguments are invalid."
safe_error_message read_only_violation = "Command tools are unavailable in read-only mode."
safe_error_message tool_execution_failed = "The tool could not complete successfully."
safe_error_message invalid_tool_output = "The tool returned an invalid result."
safe_error_message audit_unavailable = "The tool result could not be safely recorded."

pub record ToolInvocation : Type 0 where
  pub tool_name : String
  pub version : String
  pub arguments : Json

-- A validated output model: the knowledge search's, which the orchestrator recognises, or another.
pub data ToolOutput : Type 0 where
  knowledge_output : SearchHrKnowledgeOutput → ToolOutput
  other_output : Json → ToolOutput

pub record PublicToolSuccess : Type 0 where
  pub tool_name : String
  pub version : String
  pub result : ToolOutput

pub record PublicToolFailure : Type 0 where
  pub tool_name : String
  pub version : String
  pub safe_error_code : ToolErrorCode
  pub safe_message : String

pub data PublicToolResult : Type 0 where
  success : PublicToolSuccess → PublicToolResult
  failure : PublicToolFailure → PublicToolResult

pub data Outcome : Type 0 where
  succeeded failed : Outcome

-- The internal reasons that the gateway gives.
pub data ToolReason : Type 0 where
  command_descriptor_rejected tool_not_authorized_or_installed : ToolReason
  reserved_context_argument_rejected input_validation_failed : ToolReason
  handler_execution_failed output_validation_failed execution_succeeded : ToolReason

pub record ToolAuditEvent : Type 0 where
  pub request_id : String
  pub customer_environment_id : String
  pub user_id : String
  pub tool_name : String
  pub tool_version : String
  pub audit_action : String
  pub data_classification : DataClassification
  pub outcome : Outcome
  pub internal_reason : ToolReason
  pub purpose : String

abbrev audit_action_of : Option ToolDescriptor → String
audit_action_of none = "tool.invocation_denied"
audit_action_of (some descriptor) = descriptor.audit_action

abbrev classification_of : Option ToolDescriptor → DataClassification
classification_of none = internal
classification_of (some descriptor) = descriptor.data_classification

unfoldable pub create_tool_audit_event :
    TrustedRequestContext
    → ToolInvocation
    → Outcome
    → ToolReason
    → Option ToolDescriptor
    → ToolAuditEvent
create_tool_audit_event context invocation outcome internal_reason descriptor = record {
  request_id = context.request_id;
  customer_environment_id = context.customer_environment_id;
  user_id = context.user_id;
  tool_name = invocation.tool_name;
  tool_version = invocation.version;
  audit_action = audit_action_of descriptor;
  data_classification = classification_of descriptor;
  outcome = outcome;
  internal_reason = internal_reason;
  purpose = context.purpose;
}

-- The awaited calls, in order.
pub data ToolEvent : Type 0 where
  handler_executed : String → Json → ToolEvent
  audit_recorded : ToolAuditEvent → ToolEvent

abbrev pub Trace : Type 0
Trace = List ToolEvent

pub record ModelConfig : Type 0 where
  pub strict : Bool
  pub frozen : Bool
  pub forbids_extra : Bool

-- A fixed typed read handler; `none` stands for an exception.
pub record ReadToolHandler : Type 0 where
  pub tool_name : String
  pub version : String
  pub input_model : ModelConfig
  pub output_model : ModelConfig
  pub input_schema : Json
  pub validate_input : Json → Option Json
  pub execute : Trace → TrustedRequestContext → Json → Option Json
  pub validate_output : Json → Option ToolOutput

-- ToolAuditSink: whether `record` returns.
pub record ToolAuditSink : Type 0 where
  pub delivers : Trace → ToolAuditEvent → Bool
