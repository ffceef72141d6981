-- ===== src/Orchestration.antt =====
-- src/erp_ai/orchestration/models.py, routing.py and audit.py: the public and model-facing values
-- of one agent run, with the validators that relate their fields. Field types and patterns are
-- pydantic's, which `Validation` stands for.
pub mod Arguments
pub mod Transcript
pub mod Grounding
pub mod Service
use ai_systems_try.Base.{
  ℕ, ◌+◌, String, Bool, true, false, not, ◌&&◌, ◌||◌, Option, none, some, List, [], ◌∷◌, map,
  length, has_unique, ◌==◌, string_eq, nat_eq, if◌then◌else◌,
}
use ai_systems_try.Context.{TrustedRequestContext, is_some}
use ai_systems_try.Json.{Json}
use ai_systems_try.Capability.{DataClassification}
use ai_systems_try.Capability.Access.{is_empty}
use ai_systems_try.Knowledge.{KnowledgeSourceType}
use ai_systems_try.Tools.{PublicToolResult, success, failure}

-- AgentErrorCode
pub data AgentErrorCode : Type 0 where
  agent_unavailable agent_limit_reached agent_catalog_limit : AgentErrorCode
  invalid_model_response audit_unavailable : AgentErrorCode

-- AnswerBasis
pub data AnswerBasis : Type 0 where
  general knowledge erp_data mixed : AnswerBasis

-- ToolSelectionMode
pub data ToolSelectionMode : Type 0 where
  no_tools required_exact_tool final_only : ToolSelectionMode

-- AgentRouteMode
pub data AgentRouteMode : Type 0 where
  general_only exact_read_then_final : AgentRouteMode

pub record AgentRoutingPolicy : Type 0 where
  pub mode : AgentRouteMode
  pub tool_name : Option String
  pub version : Option String

-- The tests of `validate_route` and of `validate_selection` are the same.
abbrev pub is_consistent : Bool → Option String → Option String → Bool
is_consistent exact tool_name version =
    let has_both = is_some tool_name && is_some version in
    let has_either = is_some tool_name || is_some version in
    not ((exact && not has_both) || (not exact && has_either))

abbrev pub is_exact_route : AgentRouteMode → Bool
is_exact_route general_only = false
is_exact_route exact_read_then_final = true

-- `validate_route`: whether it returns.
unfoldable pub validate_route : AgentRoutingPolicy → Bool
validate_route routing =
    is_consistent (is_exact_route routing.mode) routing.tool_name routing.version

pub record ModelToolSelection : Type 0 where
  pub mode : ToolSelectionMode
  pub tool_name : Option String
  pub version : Option String

abbrev pub is_exact_selection : ToolSelectionMode → Bool
is_exact_selection required_exact_tool = true
is_exact_selection _ = false

-- `validate_selection`
unfoldable pub validate_selection : ModelToolSelection → Bool
validate_selection selection =
    is_consistent (is_exact_selection selection.mode) selection.tool_name selection.version

pub record PublicCitation : Type 0 where
  pub citation_id : String
  pub title : String
  pub section : String
  pub language : String
  pub source_type : KnowledgeSourceType
  pub document_version : String

pub record PublicChatSuccess : Type 0 where
  pub answer : String
  pub response_language : String
  pub citations : List PublicCitation

pub record PublicChatFailure : Type 0 where
  pub safe_error_code : AgentErrorCode
  pub safe_message : String

pub data PublicChatResult : Type 0 where
  chat_success : PublicChatSuccess → PublicChatResult
  chat_failure : PublicChatFailure → PublicChatResult

pub record ModelToolDefinition : Type 0 where
  pub tool_name : String
  pub version : String
  pub input_schema : Json

-- A basis that is no `AnswerBasis` is `none`.
pub record ModelFinalAnswer : Type 0 where
  pub answer : String
  pub answer_basis : Option AnswerBasis
  pub evidence_call_ids : List String
  pub citation_ids : List String

pub record ModelToolCall : Type 0 where
  pub call_id : String
  pub tool_name : String
  pub version : String
  pub arguments_json : String
  pub arguments : Json

pub record ToolResultMessage : Type 0 where
  pub call_id : String
  pub tool_name : String
  pub result : PublicToolResult

pub record ModelToolInteraction : Type 0 where
  pub assistant_call : ModelToolCall
  pub tool_result : ToolResultMessage

pub record ModelTurnRequest : Type 0 where
  pub user_message : String
  pub response_language : String
  pub tools : List ModelToolDefinition
  pub tool_selection : ModelToolSelection
  pub interactions : List ModelToolInteraction
  pub turn_number : ℕ
  pub routing_customer_environment_id : String
  pub maximum_data_classification : DataClassification
  pub purpose : String

pub record AgentLimits : Type 0 where
  pub maximum_model_turns : ℕ
  pub maximum_tool_calls : ℕ
  pub maximum_tool_result_bytes : ℕ
  pub maximum_user_message_characters : ℕ
  pub maximum_final_answer_characters : ℕ
  pub maximum_tool_argument_bytes : ℕ
  pub maximum_argument_depth : ℕ
  pub maximum_argument_nodes : ℕ
  pub maximum_model_tools : ℕ
  pub maximum_tool_catalog_bytes : ℕ

-- What the models' field types and patterns accept, where a call comes back as pydantic normalises
-- it, and the `model_dump` of the values whose size is measured.
pub record Validation : Type 0 where
  pub validate_call : ModelToolCall → Option ModelToolCall
  pub accepts_message : ToolResultMessage → Bool
  pub accepts_turn : ModelTurnRequest → Bool
  pub accepts_success : PublicChatSuccess → Bool
  pub dump_tool : ModelToolDefinition → Json
  pub dump_message : ToolResultMessage → Json

-- `json.loads`, with every pair of an object, and `json.dumps` with sorted keys.
pub record JsonText : Type 0 where
  pub loads : String → Option Json
  pub dumps : Json → String
