-- ===== src/Application/Routing.antt =====
-- src/erp_ai/application/routing.py: the catalog of trusted routes.
pub mod Laws
use ai_systems_try.Base.{
  String, Bool, true, false, not, ◌&&◌, ◌||◌, Option, none, some, List, [], ◌∷◌, map, any,
  has_unique, ◌==◌, string_eq, option_eq, if◌then◌else◌, Except, ok, raise, ◌>>=◌, ◌>>◌, raise_if,
}
use ai_systems_try.Base.Dict
use ai_systems_try.Base.Dict.{Dict}
use ai_systems_try.Base.Sort.{sorted, string_ord}
use ai_systems_try.Capability.{ToolDescriptor}
use ai_systems_try.Capability.Registry.{CapabilityRegistry}
use ai_systems_try.Capability.Registry.Laws.{all_tools}
use ai_systems_try.Capability.Access.{is_command}
use ai_systems_try.Tools.{ReadToolHandler}
use ai_systems_try.Tools.Gateway.{ReadToolGateway, index_descriptors}
use ai_systems_try.Orchestration.{AgentRoutingPolicy, is_exact_route}

pub record TrustedRouteEntry : Type 0 where
  pub intent_code : String
  pub route : AgentRoutingPolicy

pub record TrustedRouteCatalog : Type 0 where
  pub entries : List TrustedRouteEntry
  pub by_intent : Dict String AgentRoutingPolicy

pub data RouteError : Type 0 where
  duplicate_intent_code unavailable_read_tool unknown_intent : RouteError

abbrev pub index_routes :
    List TrustedRouteEntry → Dict String AgentRoutingPolicy → Dict String AgentRoutingPolicy
index_routes [] by_intent = by_intent
index_routes (entry ∷ rest) by_intent =
    index_routes rest (Dict.insert entry.intent_code entry.route by_intent)

-- `__init__`, on entries that are validated.
unfoldable pub init : List TrustedRouteEntry → Except RouteError TrustedRouteCatalog
init entries =
    let ordered = sorted (λ entry. entry.intent_code) entries in
    raise_if (not (has_unique (map (λ entry. entry.intent_code) entries))) duplicate_intent_code
    >> ok (record { entries = ordered; by_intent = index_routes ordered [] })

unfoldable pub resolve : TrustedRouteCatalog → String → Except RouteError AgentRoutingPolicy
resolve catalog intent_code = elim (Dict.get intent_code catalog.by_intent) [
  | none ↦ raise unknown_intent
  | some route ↦ ok route
]

abbrev pub index_versions : List ReadToolHandler → Dict String String → Dict String String
index_versions [] installed = installed
index_versions (handler ∷ rest) installed =
    index_versions rest (Dict.insert handler.tool_name handler.version installed)

abbrev pub or_empty : Option String → String
or_empty none = ""
or_empty (some name) = name

abbrev pub is_read_of_version : Option ToolDescriptor → Option String → Bool
is_read_of_version none version = false
is_read_of_version (some descriptor) version =
    not (is_command descriptor.operation) && some descriptor.version == version

-- The condition on one entry of `validate_startup`.
unfoldable pub is_available :
    Dict String ToolDescriptor → Dict String String → TrustedRouteEntry → Bool
is_available descriptors installed entry =
    let name = or_empty entry.route.tool_name in
    not (is_exact_route entry.route.mode)
    || (is_read_of_version (Dict.get name descriptors) entry.route.version
        && Dict.get name installed == entry.route.version)

check_entries :
    Dict String ToolDescriptor
    → Dict String String
    → List TrustedRouteEntry
    → Except RouteError (Unit {0})
check_entries descriptors installed [] = ok tt
check_entries descriptors installed (entry ∷ rest) =
    raise_if (not (is_available descriptors installed entry)) unavailable_read_tool
    >> check_entries descriptors installed rest

unfoldable pub validate_startup :
    TrustedRouteCatalog → CapabilityRegistry → ReadToolGateway → Except RouteError (Unit {0})
unfolding check_entries
validate_startup catalog registry gateway =
    check_entries (index_descriptors (all_tools registry.manifests) [])
      (index_versions gateway.handlers []) catalog.entries
