-- ===== src/Capability/Access.antt =====
-- src/erp_ai/capabilities/access.py: which tools a trusted context may see, and why not.
use ai_systems_try.Base.{
  String, ◌≡◌, Bool, true, false, not, ◌&&◌, ◌||◌, Option, none, some, List, [], ◌∷◌, ◌++◌,
  is_subset, is_disjoint, contains, string_eq, if◌then◌else◌,
}
use ai_systems_try.Context.{TrustedRequestContext, is_some}
use ai_systems_try.Capability.{ToolDescriptor, CapabilityManifest, Operation, read, command}
use ai_systems_try.Capability.Registry.{CapabilityRegistry}
pub mod Laws
pub mod Decision
pub mod Account

pub data DenialReason : Type 0 where
  required_module_disabled required_permission_missing required_role_missing : DenialReason
  purpose_not_allowed employee_context_required command_disabled_read_only : DenialReason

pub record ModelToolDescriptor : Type 0 where
  pub tool_name : String
  pub version : String
  pub operation : Operation

pub record ModelCapability : Type 0 where
  pub capability_code : String
  pub version : String
  pub tools : List ModelToolDescriptor

pub record AccessDenial : Type 0 where
  pub capability_code : String
  pub tool_name : Option String
  pub reason : DenialReason

pub record CapabilityAccessDecision : Type 0 where
  pub model_capabilities : List ModelCapability
  pub denials : List AccessDenial

unfoldable pub model_tool : ToolDescriptor → ModelToolDescriptor
model_tool tool = record {
  tool_name = tool.tool_name;
  version = tool.version;
  operation = tool.operation;
}

abbrev pub is_command : Operation → Bool
is_command command = true
is_command read = false

abbrev pub is_empty {ℓ} : {A : Type ℓ} → List A → Bool
is_empty [] = true
is_empty (x ∷ xs) = false

module _ (context : TrustedRequestContext) (read_only_mode : Bool) where
  -- The chain of tests on one tool; `none` lets it through.
  unfoldable pub denial_reason : ToolDescriptor → Option DenialReason
  denial_reason tool =
      if read_only_mode && is_command tool.operation
      then some command_disabled_read_only
      else if tool.requires_employee_context && not (is_some context.employee_id)
      then some employee_context_required
      else if not (is_subset tool.required_permissions_all context.permission_codes)
      then some required_permission_missing
      else if not (is_empty tool.required_roles_any)
          && is_disjoint context.roles tool.required_roles_any
      then some required_role_missing
      else if not (contains tool.allowed_purposes context.purpose)
      then some purpose_not_allowed
      else none

  -- One round of the loop over a manifest's tools: the two lists are `tools` and `denials`.
  sort_tool :
      String
      → ToolDescriptor
      → Option DenialReason
      → List ModelToolDescriptor × List AccessDenial
      → List ModelToolDescriptor × List AccessDenial
  sort_tool code tool none (tools, denials) = (tools ++ model_tool tool ∷ [], denials)
  sort_tool code tool (some reason) (tools, denials) = (
    tools,
    denials
        ++ record { capability_code = code; tool_name = some tool.tool_name; reason = reason } ∷ [],
  )

  scan_tools :
      String
      → List ToolDescriptor
      → List ModelToolDescriptor × List AccessDenial
      → List ModelToolDescriptor × List AccessDenial
  unfolding sort_tool
  scan_tools code [] lists = lists
  scan_tools code (tool ∷ rest) lists =
      scan_tools code rest (sort_tool code tool (denial_reason tool) lists)

  -- The body of the loop over the manifests.
  scan_manifest : CapabilityManifest → CapabilityAccessDecision → CapabilityAccessDecision
  unfolding scan_tools
  scan_manifest manifest decision =
      if not (is_subset manifest.required_modules context.enabled_modules)
      then record decision {
        denials =
            decision.denials
            ++ record {
              capability_code = manifest.capability_code;
              tool_name = none;
              reason = required_module_disabled;
            }
              ∷ [];
      }
      else let (tools, denials) =
          scan_tools manifest.capability_code manifest.tools ([], decision.denials) in
        record {
          model_capabilities =
              decision.model_capabilities
              ++ record {
                capability_code = manifest.capability_code;
                version = manifest.version;
                tools = tools;
              }
                ∷ [];
          denials = denials;
        }

  scan_manifests : List CapabilityManifest → CapabilityAccessDecision → CapabilityAccessDecision
  scan_manifests [] decision = decision
  scan_manifests (manifest ∷ rest) decision = scan_manifests rest (scan_manifest manifest decision)

unfoldable pub evaluate_capability_access :
    CapabilityRegistry → TrustedRequestContext → Bool → CapabilityAccessDecision
unfolding scan_manifest scan_manifests denial_reason model_tool
evaluate_capability_access registry context read_only_mode =
    scan_manifests context read_only_mode registry.manifests
      (record { model_capabilities = []; denials = [] })
