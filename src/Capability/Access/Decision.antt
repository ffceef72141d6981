-- ===== src/Capability/Access/Decision.antt =====
-- src/erp_ai/capabilities/access.py: the whole decision, against a list of what it contains.
use ai_systems_try.Base.{
  String, ◌≡◌, refl, ◌∙◌, Bool, true, ◌&&◌, Option, none, some, List, [], ◌∷◌, ◌++◌, arith, not,
  ◌||◌, false, if◌then◌else◌, Bool-cases, ap, map, keep, inl, inr, is_subset, contains, any,
  string_eq, if◌then◌else◌,
}
use mathlib.Core.List.{append-nil, append_assoc}
use ai_systems_try.Context.{TrustedRequestContext, is_some}
use ai_systems_try.Capability.{ToolDescriptor, CapabilityManifest}
use ai_systems_try.Capability.Registry.{CapabilityRegistry}
use ai_systems_try.Capability.Access.{
  DenialReason, ModelToolDescriptor, ModelCapability, AccessDenial, CapabilityAccessDecision,
  model_tool, denial_reason, sort_tool, scan_tools, scan_manifest, is_command, is_empty,
  required_module_disabled, required_permission_missing, required_role_missing, purpose_not_allowed,
  employee_context_required, command_disabled_read_only, scan_manifests, evaluate_capability_access,
}
use ai_systems_try.Capability.Access.Laws.{permits, is_disjoint-any}

-- What each reason says of a tool.
abbrev pub lacks : TrustedRequestContext → Bool → ToolDescriptor → DenialReason → Bool
lacks context read_only tool required_module_disabled = false
lacks context read_only tool required_permission_missing =
    not (is_subset tool.required_permissions_all context.permission_codes)
lacks context read_only tool required_role_missing =
    not (is_empty tool.required_roles_any || any (contains tool.required_roles_any) context.roles)
lacks context read_only tool purpose_not_allowed =
    not (contains tool.allowed_purposes context.purpose)
lacks context read_only tool employee_context_required =
    tool.requires_employee_context && not (is_some context.employee_id)
lacks context read_only tool command_disabled_read_only = read_only && is_command tool.operation

-- The order in which the reasons are given.
abbrev pub reasons : List DenialReason
reasons =
    command_disabled_read_only ∷ employee_context_required ∷ required_permission_missing
    ∷ required_role_missing ∷ purpose_not_allowed ∷ []

abbrev pub first_of {ℓ} : {A : Type ℓ} → (A → Bool) → List A → Option A
first_of p [] = none
first_of p (x ∷ xs) = let later = first_of p xs in if p x then some x else later

decision_eq :
    (d e : CapabilityAccessDecision)
    → d.model_capabilities ≡ e.model_capabilities
    → d.denials ≡ e.denials
    → d ≡ e
decision_eq d e p q = cc

module _ (context : TrustedRequestContext) (read_only : Bool) where
  pub first_lack : ToolDescriptor → Option DenialReason
  first_lack tool = first_of (lacks context read_only tool) reasons

  abbrev pub denial_for : String → ToolDescriptor → Option DenialReason → List AccessDenial
  denial_for code tool none = []
  denial_for code tool (some reason) =
      record { capability_code = code; tool_name = some tool.tool_name; reason = reason } ∷ []

  -- A denial with its first reason for each tool that is not permitted, in order.
  abbrev pub tool_denials : String → List ToolDescriptor → List AccessDenial
  tool_denials code [] = []
  tool_denials code (tool ∷ rest) = denial_for code tool (first_lack tool) ++ tool_denials code rest

  abbrev pub is_enabled : CapabilityManifest → Bool
  is_enabled manifest = is_subset manifest.required_modules context.enabled_modules

  -- One denial for a manifest that is not enabled.
  abbrev pub manifest_denials : CapabilityManifest → List AccessDenial
  manifest_denials manifest =
      if is_enabled manifest
      then tool_denials manifest.capability_code manifest.tools
      else record {
        capability_code = manifest.capability_code;
        tool_name = none;
        reason = required_module_disabled;
      }
        ∷ []

  abbrev pub all_denials : List CapabilityManifest → List AccessDenial
  all_denials [] = []
  all_denials (manifest ∷ rest) = manifest_denials manifest ++ all_denials rest

  -- The capability of an enabled manifest, with the tools that the context may use.
  abbrev pub capability_of : CapabilityManifest → ModelCapability
  capability_of manifest = record {
    capability_code = manifest.capability_code;
    version = manifest.version;
    tools = map model_tool (keep (permits context read_only) manifest.tools);
  }

  denial_reason-first :
      (tool : ToolDescriptor) → denial_reason context read_only tool ≡ first_lack tool
  unfolding denial_reason first_lack
  denial_reason-first tool = ground (arith, is_disjoint-any context.roles tool.required_roles_any)

  first_lack-permits :
      (tool : ToolDescriptor) → is_some (first_lack tool) ≡ not (permits context read_only tool)
  unfolding first_lack
  first_lack-permits tool = ground arith

  -- One tool is added to one of the two lists.
  scan_step :
      (code : String) (tool : ToolDescriptor) (rest : List ToolDescriptor)
      (ts : List ModelToolDescriptor) (ds : List AccessDenial) (shown : List ModelToolDescriptor)
      (refused : List AccessDenial)
      → ((ts' : List ModelToolDescriptor) (ds' : List AccessDenial)
          → scan_tools context read_only code rest (ts', ds') ≡ (ts' ++ shown, ds' ++ refused))
      → (reason : Option DenialReason) → is_some reason ≡ not (permits context read_only tool)
      → scan_tools context read_only code rest
          (sort_tool context read_only code tool reason (ts, ds))
        ≡ (
          ts ++ (if permits context read_only tool then model_tool tool ∷ shown else shown),
          ds ++ (denial_for code tool reason ++ refused),
        )
  unfolding sort_tool
  scan_step code tool rest ts ds shown refused again none e =
      let passed : permits context read_only tool ≡ true = ground (arith, e) in
      rw passed (
        again (ts ++ model_tool tool ∷ []) ds
        ∙ ap (λ l. (l, ds ++ refused)) (append_assoc ts (model_tool tool ∷ []) shown))
  scan_step code tool rest ts ds shown refused again (some reason) e =
      let failed : permits context read_only tool ≡ false = ground (arith, e) in
      rw failed (
        again ts (ds ++ denial_for code tool (some reason))
        ∙ ap (λ l. (ts ++ shown, l)) (append_assoc ds (denial_for code tool (some reason)) refused))

  map-keep :
      (p : ToolDescriptor → Bool) (tool : ToolDescriptor) (rest : List ToolDescriptor)
      → (if p tool
          then model_tool tool ∷ map model_tool (keep p rest)
          else map model_tool (keep p rest))
        ≡ map model_tool (keep p (tool ∷ rest))
  map-keep p tool rest = elim (Bool-cases (p tool)) [
    | inl kept ↦ rw kept refl
    | inr dropped ↦ rw dropped refl
  ]

  scan_tools_lem :
      (code : String) (tools : List ToolDescriptor) (ts : List ModelToolDescriptor)
      (ds : List AccessDenial)
      → scan_tools context read_only code tools (ts, ds) ≡ (
        ts ++ map model_tool (keep (permits context read_only) tools),
        ds ++ tool_denials code tools,
      )
  unfolding scan_tools
  scan_tools_lem code [] ts ds = rw (append-nil ts, append-nil ds) refl
  scan_tools_lem code (tool ∷ rest) ts ds =
      rw (denial_reason-first tool) (
        scan_step code tool rest ts ds (map model_tool (keep (permits context read_only) rest))
          (tool_denials code rest) (scan_tools_lem code rest) (first_lack tool)
          (first_lack-permits tool))
      ∙ ap (λ l. (ts ++ l, ds ++ tool_denials code (tool ∷ rest)))
          (map-keep (permits context read_only) tool rest)

  abbrev decided : CapabilityAccessDecision → List CapabilityManifest → CapabilityAccessDecision
  decided decision manifests = record {
    model_capabilities =
        decision.model_capabilities ++ map capability_of (keep is_enabled manifests);
    denials = decision.denials ++ all_denials manifests;
  }

  scan_manifest_lem :
      (manifest : CapabilityManifest) (decision : CapabilityAccessDecision)
      → scan_manifest context read_only manifest decision ≡ decided decision (manifest ∷ [])
  unfolding scan_manifest
  scan_manifest_lem manifest decision = elim (Bool-cases (is_enabled manifest)) [
    | inl enabled ↦
        rw
          (
            enabled,
            scan_tools_lem manifest.capability_code manifest.tools [] decision.denials,
            append-nil (tool_denials manifest.capability_code manifest.tools),
          )
          refl
    | inr disabled ↦ rw (disabled, append-nil decision.model_capabilities) refl
  ]

  decided-cons :
      (manifest : CapabilityManifest) (rest : List CapabilityManifest)
      (decision : CapabilityAccessDecision)
      → decided (decided decision (manifest ∷ [])) rest ≡ decided decision (manifest ∷ rest)
  decided-cons manifest rest decision =
      let denials =
        ap (λ l. l ++ all_denials rest)
          (ap (λ l. decision.denials ++ l) (append-nil (manifest_denials manifest)))
        ∙ append_assoc decision.denials (manifest_denials manifest) (all_denials rest) in
      elim (Bool-cases (is_enabled manifest)) [
        | inl enabled ↦
            let shown =
              append_assoc decision.model_capabilities (capability_of manifest ∷ [])
                (map capability_of (keep is_enabled rest)) in
            let refused = rw enabled at denials in rw enabled (decision_eq _ _ shown refused)
        | inr disabled ↦
            let shown =
              ap (λ l. l ++ map capability_of (keep is_enabled rest))
                (append-nil decision.model_capabilities) in
            let refused = rw disabled at denials in rw disabled (decision_eq _ _ shown refused)
      ]

  scan_manifests_lem :
      (manifests : List CapabilityManifest) (decision : CapabilityAccessDecision)
      → scan_manifests context read_only manifests decision ≡ decided decision manifests
  unfolding scan_manifests
  scan_manifests_lem [] decision =
      rw (append-nil decision.model_capabilities, append-nil decision.denials) refl
  scan_manifests_lem (manifest ∷ rest) decision =
      scan_manifests_lem rest (scan_manifest context read_only manifest decision)
      ∙ ap (λ d. decided d rest) (scan_manifest_lem manifest decision)
      ∙ decided-cons manifest rest decision

-- The decision exposes, for each enabled manifest in order, the tools that the context may use, and
-- denies each other tool of it once, with the first reason that holds of the tool, and each manifest
-- that is not enabled once; there is nothing else in it.
pub evaluate_capability_access_lem :
    (registry : CapabilityRegistry) (context : TrustedRequestContext) (read_only : Bool)
    → let decision = evaluate_capability_access registry context read_only in
      (decision.model_capabilities
        ≡ map
            (capability_of context read_only)
            (keep (is_enabled context read_only) registry.manifests))
      × (decision.denials ≡ all_denials context read_only registry.manifests)
unfolding evaluate_capability_access
evaluate_capability_access_lem registry context read_only =
    let same =
      scan_manifests_lem context read_only registry.manifests
        (record { model_capabilities = []; denials = [] }) in
    (ap (λ d. d.model_capabilities) same, ap (λ d. d.denials) same)
