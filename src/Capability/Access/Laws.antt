-- ===== src/Capability/Access/Laws.antt =====
-- The tools that `evaluate_capability_access` exposes, as a specification by the context alone.
use ai_systems_try.Base.{
  String, ◌≡◌, refl, ◌∙◌, Bool, not, ◌&&◌, ◌||◌, Option, none, some, List, [], ◌∷◌, ◌++◌, arith,
  is_subset, is_disjoint, contains, contains-append, any, ◌==◌, string_eq,
}
use ai_systems_try.Context.{TrustedRequestContext, is_some}
use ai_systems_try.Capability.{ToolDescriptor, CapabilityManifest}
use ai_systems_try.Capability.Registry.{CapabilityRegistry}
use ai_systems_try.Capability.Access.{
  DenialReason, ModelToolDescriptor, ModelCapability, AccessDenial, CapabilityAccessDecision,
  model_tool, is_command, is_empty, denial_reason, sort_tool, scan_tools, scan_manifest,
  scan_manifests, evaluate_capability_access,
}

-- All the requirements of a tool at once, in no order.
abbrev pub permits : TrustedRequestContext → Bool → ToolDescriptor → Bool
permits context read_only_mode tool =
    not (read_only_mode && is_command tool.operation)
    && (not tool.requires_employee_context || is_some context.employee_id)
    && is_subset tool.required_permissions_all context.permission_codes
    && (is_empty tool.required_roles_any || any (contains tool.required_roles_any) context.roles)
    && contains tool.allowed_purposes context.purpose

-- The tool names of a decision, in order.
abbrev pub tool_names : List ModelToolDescriptor → List String
tool_names [] = []
tool_names (tool ∷ tools) = tool.tool_name ∷ tool_names tools

abbrev pub authorized_names : List ModelCapability → List String
authorized_names [] = []
authorized_names (capability ∷ rest) = tool_names capability.tools ++ authorized_names rest

pub is_disjoint-any : (xs ys : List String) → is_disjoint xs ys ≡ not (any (contains ys) xs)
is_disjoint-any [] ys = refl
is_disjoint-any (x ∷ xs) ys = ground (arith, is_disjoint-any xs ys)

module _ (context : TrustedRequestContext) (read_only : Bool) where
  abbrev passes : ToolDescriptor → Bool
  passes = permits context read_only

  -- The chain of tests lets a tool through exactly when all the requirements hold.
  denial_reason-passes :
      (tool : ToolDescriptor) → is_some (denial_reason context read_only tool) ≡ not (passes tool)
  unfolding denial_reason
  denial_reason-passes tool = ground (arith, is_disjoint-any context.roles tool.required_roles_any)

  contains-sort_tool :
      (code : String) (tool : ToolDescriptor) (reason : Option DenialReason)
      (ts : List ModelToolDescriptor) (ds : List AccessDenial) (name : String)
      → contains (tool_names (sort_tool context read_only code tool reason (ts, ds)).0) name
        ≡ (contains (tool_names ts) name || (name == tool.tool_name && not (is_some reason)))
  unfolding sort_tool model_tool
  contains-sort_tool code tool (some r) ts ds name = ground arith
  contains-sort_tool code tool none [] ds name = ground arith
  contains-sort_tool code tool none (t ∷ ts) ds name =
      ground (arith, contains-sort_tool code tool none ts ds name)

  contains-scan_tools :
      (code : String) (tools : List ToolDescriptor)
      (lists : List ModelToolDescriptor × List AccessDenial) (name : String)
      → contains (tool_names (scan_tools context read_only code tools lists).0) name ≡ (
          contains (tool_names lists.0) name
          || any (λ tool. name == tool.tool_name && passes tool) tools)
  unfolding scan_tools
  contains-scan_tools code [] lists name = ground arith
  contains-scan_tools code (tool ∷ rest) (ts, ds) name =
      let reason = denial_reason context read_only tool in
      contains-scan_tools code rest (sort_tool context read_only code tool reason (ts, ds)) name
      ∙ ground (arith, contains-sort_tool code tool reason ts ds name, denial_reason-passes tool)

  contains-authorized_names-append :
      (cs ds : List ModelCapability) (name : String)
      → contains (authorized_names (cs ++ ds)) name
        ≡ (contains (authorized_names cs) name || contains (authorized_names ds) name)
  contains-authorized_names-append [] ds name = refl
  contains-authorized_names-append (c ∷ cs) ds name = ground (
    arith,
    contains-append (tool_names c.tools) (authorized_names (cs ++ ds)) name,
    contains-append (tool_names c.tools) (authorized_names cs) name,
    contains-authorized_names-append cs ds name,
  )

  -- The manifest's modules are enabled, and it has a tool of that name that the context may use.
  abbrev pub offers : String → CapabilityManifest → Bool
  offers name manifest =
      is_subset manifest.required_modules context.enabled_modules
      && any (λ tool. name == tool.tool_name && permits context read_only tool) manifest.tools

  contains-scan_manifest :
      (manifest : CapabilityManifest) (decision : CapabilityAccessDecision) (name : String)
      → contains
          (authorized_names (scan_manifest context read_only manifest decision).model_capabilities)
          name
        ≡ (contains (authorized_names decision.model_capabilities) name || offers name manifest)
  unfolding scan_manifest
  contains-scan_manifest manifest decision name =
      let lists =
        scan_tools context read_only manifest.capability_code manifest.tools
          ([], decision.denials) in
      let entry : ModelCapability = record {
        capability_code = manifest.capability_code;
        version = manifest.version;
        tools = lists.0;
      } in
      ground (
        arith,
        contains-authorized_names-append decision.model_capabilities (entry ∷ []) name,
        contains-append (tool_names lists.0) [] name,
        contains-scan_tools manifest.capability_code manifest.tools ([], decision.denials) name,
      )

  contains-scan_manifests :
      (manifests : List CapabilityManifest) (decision : CapabilityAccessDecision) (name : String)
      → contains
          (authorized_names
            (scan_manifests context read_only manifests decision).model_capabilities)
          name
        ≡ (contains (authorized_names decision.model_capabilities) name
            || any (offers name) manifests)
  unfolding scan_manifests
  contains-scan_manifests [] decision name = ground arith
  contains-scan_manifests (m ∷ ms) decision name =
      contains-scan_manifests ms (scan_manifest context read_only m decision) name
      ∙ ground (arith, contains-scan_manifest m decision name)

-- A tool name is exposed exactly when some registered manifest, all of whose required modules are
-- enabled, has a tool of that name whose requirements (read-only mode, employee link, permissions,
-- roles, purpose) the context meets.
pub authorized_names-evaluate :
    (registry : CapabilityRegistry) (context : TrustedRequestContext) (read_only : Bool)
    (name : String)
    → contains
        (authorized_names
          (evaluate_capability_access registry context read_only).model_capabilities)
        name
      ≡ any (offers context read_only name) registry.manifests
unfolding evaluate_capability_access
authorized_names-evaluate registry context read_only name =
    contains-scan_manifests context read_only registry.manifests _ name
