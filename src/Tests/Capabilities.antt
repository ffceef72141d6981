-- ===== src/Tests/Capabilities.antt =====
-- The registry and the access decision on two manifests.
use ai_systems_try.Base.{
  map, keep, String, ◌≡◌, refl, ◌↔◌, true, contains, any, string_eq, Distinct, ok, arith,
}
use ai_systems_try.Base.Dict
use ai_systems_try.Base.Sort.{sorted}
use ai_systems_try.Base.Text.{string_le}
use ai_systems_try.Capability.Registry.{CapabilityRegistry, init, get}
use ai_systems_try.Capability.Registry.Laws.{
  names_of, codes_of, all_tools, find, ordered, init_iff, init_lem,
}
use ai_systems_try.Capability.Access.{evaluate_capability_access}
use ai_systems_try.Capability.Access.Laws.{authorized_names, offers, authorized_names-evaluate}
use ai_systems_try.Capability.Access.Decision.{
  capability_of, is_enabled, all_denials, evaluate_capability_access_lem,
}
use ai_systems_try.Capability.Access.Account.{IsWider, authorized_names_mono}
use ai_systems_try.Tests.Fixtures.{some_context, wide_context, manifests, some_registry}

init_succeeds : init manifests ≡ ok some_registry
unfolding init sorted string_eq string_le Dict.insert
init_succeeds = refl

init_iff_example : ((registry : CapabilityRegistry) × (init manifests ≡ ok registry)) ↔ (
    Distinct (codes_of (ordered manifests)) × Distinct (names_of (all_tools (ordered manifests))))
init_iff_example = init_iff manifests

init_lem_example :
    (some_registry.manifests ≡ ordered manifests)
    × ((code : String)
        → get some_registry code ≡ find (λ m. m.capability_code) code some_registry.manifests)
    × ((name : String)
        → Dict.get name some_registry.tools_by_name
          ≡ find (λ t. t.tool_name) name (all_tools some_registry.manifests))
init_lem_example = init_lem manifests some_registry init_succeeds

authorized_names-evaluate_example :
    contains
      (authorized_names
        (evaluate_capability_access some_registry some_context true).model_capabilities)
      "search_hr_knowledge"
    ≡ any (offers some_context true "search_hr_knowledge") some_registry.manifests
authorized_names-evaluate_example =
    authorized_names-evaluate some_registry some_context true "search_hr_knowledge"

evaluate_capability_access_lem_example :
    let decision = evaluate_capability_access some_registry some_context true in
    (decision.model_capabilities
      ≡ map
          (capability_of some_context true)
          (keep (is_enabled some_context true) some_registry.manifests))
    × (decision.denials ≡ all_denials some_context true some_registry.manifests)
evaluate_capability_access_lem_example =
    evaluate_capability_access_lem some_registry some_context true

is_wider : IsWider some_context wide_context
is_wider = record {
  employee = λ h. refl;
  modules = λ m h. h;
  permissions = λ p h. h;
  roles = λ r h. ground (arith, h);
  purpose = refl;
}

search_is_offered :
    contains
      (authorized_names
        (evaluate_capability_access some_registry some_context true).model_capabilities)
      "search_hr_knowledge"
    ≡ true
unfolding evaluate_capability_access string_eq string_le sorted
search_is_offered = refl

authorized_names_mono_example :
    contains
      (authorized_names
        (evaluate_capability_access some_registry wide_context true).model_capabilities)
      "search_hr_knowledge"
    ≡ true
authorized_names_mono_example =
    authorized_names_mono some_registry some_context wide_context true "search_hr_knowledge"
      is_wider search_is_offered
