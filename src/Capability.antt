-- ===== src/Capability.antt =====
-- src/erp_ai/capabilities/models.py, after validation: the tools and the capabilities, with the
-- two validators that reject duplicates and fix an order.
pub mod Registry
pub mod Access
use ai_systems_try.Base.{
  String, ◌≡◌, Bool, true, false, not, List, map, Except, ok, raise, ◌>>◌, raise_if, has_unique,
  string_eq,
}
use ai_systems_try.Base.Sort.{sorted, string_ord}

pub data DataClassification : Type 0 where
  public internal restricted highly_restricted : DataClassification

pub data Operation : Type 0 where
  read command : Operation

pub record ToolDescriptor : Type 0 where
  pub tool_name : String
  pub version : String
  pub operation : Operation
  pub required_permissions_all : List String
  pub required_roles_any : List String
  pub allowed_purposes : List String
  pub data_classification : DataClassification
  pub audit_action : String
  pub requires_employee_context : Bool

pub record CapabilityManifest : Type 0 where
  pub capability_code : String
  pub version : String
  pub required_modules : List String
  pub tools : List ToolDescriptor

pub data ManifestError : Type 0 where
  duplicate_codes duplicate_tool_names : ManifestError

-- `validate_and_order_permissions`
unfoldable pub validate_and_order_permissions : List String → Except ManifestError (List String)
validate_and_order_permissions value = do
  raise_if (not (has_unique value)) duplicate_codes
  ok (sorted (λ code. code) value)

-- `validate_and_order_tools`
unfoldable pub validate_and_order_tools :
    List ToolDescriptor → Except ManifestError (List ToolDescriptor)
validate_and_order_tools value = do
  raise_if (not (has_unique (map (λ tool. tool.tool_name) value))) duplicate_tool_names
  ok (sorted (λ tool. tool.tool_name) value)
