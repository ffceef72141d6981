-- ===== src/Application/Routing/Laws.antt =====
-- What a trusted route resolves to, and what the startup validation establishes.
use ai_systems_try.Base.{
  not, false, ◌||◌, ◌&&◌, ◌==◌, All-imp, String, ◌≡◌, refl, ap, ◌∙◌, ◌↔◌, true, false, Option, none,
  some, List, [], ◌∷◌, map, arith, contains, has_unique_iff, Distinct, All, string_eq, option_eq,
  Except, ok, raise,
}
use ai_systems_try.Base.Dict
use ai_systems_try.Base.Dict.{Dict, get-insert}
use ai_systems_try.Base.Sort.{sorted, string_ord}
use ai_systems_try.Base.Sort.Keyed.{find, find-sorted, sorted-Distinct}
use ai_systems_try.Capability.Registry.{CapabilityRegistry}
use ai_systems_try.Capability.Registry.Laws.{all_tools, names_of}
use ai_systems_try.Tools.{ReadToolHandler}
use ai_systems_try.Capability.{ToolDescriptor, read}
use ai_systems_try.Tools.Gateway.{ReadToolGateway, index_descriptors}
use ai_systems_try.Orchestration.{
  AgentRoutingPolicy, AgentRouteMode, general_only, exact_read_then_final, is_exact_route,
}
use ai_systems_try.Application.Routing.{
  TrustedRouteEntry, TrustedRouteCatalog, RouteError, unknown_intent, index_routes, init, resolve,
  index_versions, is_available, is_read_of_version, or_empty, check_entries, validate_startup,
}

abbrev pub intent : TrustedRouteEntry → String
intent entry = entry.intent_code

abbrev codes_of : List TrustedRouteEntry → List String
codes_of = map intent

abbrev pub route_of : Option TrustedRouteEntry → Except RouteError AgentRoutingPolicy
route_of none = raise unknown_intent
route_of (some entry) = ok entry.route

check_entries_iff :
    (descriptors : _) (installed : _) (entries : List TrustedRouteEntry)
    → (check_entries descriptors installed entries ≡ ok tt)
      ↔ All (λ entry. is_available descriptors installed entry ≡ true) entries
unfolding check_entries
check_entries_iff descriptors installed [] = (λ h. tt, λ a. refl)
check_entries_iff descriptors installed (entry ∷ rest) =
    let again = check_entries_iff descriptors installed rest in
    ((λ h. (ground arith, again.0 (ground arith))), (λ a. ground (arith, a.0, again.1 a.1)))

abbrev pub tool_name_of : ToolDescriptor → String
tool_name_of tool = tool.tool_name

abbrev pub handler_name_of : ReadToolHandler → String
handler_name_of handler = handler.tool_name

abbrev version_of : Option ReadToolHandler → Option String
version_of none = none
version_of (some handler) = some handler.version

-- An exact route's tool is a read tool of the route's version, with a handler of that version.
abbrev pub IsOffered :
    AgentRouteMode → Option String → Option ToolDescriptor → Option ReadToolHandler → Type 0
IsOffered general_only version tool handler = Unit
IsOffered exact_read_then_final version tool handler =
    (d : ToolDescriptor) × (h : ReadToolHandler) × (tool ≡ some d)
    × (d.operation ≡ read)
    × (version ≡ some d.version)
    × (handler ≡ some h)
    × (version ≡ some h.version)

IsOffered-iff :
    (mode : AgentRouteMode) (version : Option String) (tool : Option ToolDescriptor)
    (handler : Option ReadToolHandler)
    → ((not (is_exact_route mode)
          || (is_read_of_version tool version && version_of handler == version))
        ≡ true)
      ↔ IsOffered mode version tool handler
IsOffered-iff general_only version tool handler = (λ h. tt, λ a. refl)
IsOffered-iff exact_read_then_final version none handler =
    ((λ e. absurd (ground arith)), (λ (d, h, p, o, v, q, w). absurd (ground (arith, p))))
IsOffered-iff exact_read_then_final version (some d) none =
    ((λ e. absurd (ground arith)), (λ (d', h, p, o, v, q, w). absurd (ground (arith, q))))
IsOffered-iff exact_read_then_final version (some d) (some h) = (
  (λ e. (d, h, refl, ground arith, ground arith, refl, ground arith)),
  (λ (d', h', p, o, v, q, w). ground (arith, p, o, v, q, w)),
)

missing_tool :
    (name : String) (tools : List ToolDescriptor)
    → contains (names_of tools) name ≡ false
    → find tool_name_of name tools ≡ none
missing_tool name [] h = refl
missing_tool name (tool ∷ rest) h = ground (arith, missing_tool name rest)

abbrev or_earlier {ℓ} : {A : Type ℓ} → Option A → Option A → Option A
or_earlier none earlier = earlier
or_earlier (some a) earlier = some a

or_nothing {ℓ} : {A : Type ℓ} (o : Option A) → or_earlier o none ≡ o
or_nothing none = refl
or_nothing (some a) = refl

get-index_descriptors :
    (name : String) (tools : List ToolDescriptor) (d : Dict String ToolDescriptor)
    → Distinct (names_of tools)
    → Dict.get name (index_descriptors tools d)
      ≡ or_earlier (find tool_name_of name tools) (Dict.get name d)
unfolding index_descriptors
get-index_descriptors name [] d u = refl
get-index_descriptors name (tool ∷ rest) d u =
    let p = get-index_descriptors name rest (Dict.insert tool.tool_name tool d) u.1 in
    let q = get-insert name tool.tool_name tool d in
    let r = missing_tool name rest in ground (arith, p, q, r, u.0)

missing_handler :
    (name : String) (handlers : List ReadToolHandler)
    → contains (map handler_name_of handlers) name ≡ false
    → find handler_name_of name handlers ≡ none
missing_handler name [] h = refl
missing_handler name (handler ∷ rest) h = ground (arith, missing_handler name rest)

get-index_versions :
    (name : String) (handlers : List ReadToolHandler) (d : Dict String String)
    → Distinct (map handler_name_of handlers)
    → Dict.get name (index_versions handlers d)
      ≡ or_earlier (version_of (find handler_name_of name handlers)) (Dict.get name d)
get-index_versions name [] d u = refl
get-index_versions name (handler ∷ rest) d u =
    let p = get-index_versions name rest (Dict.insert handler.tool_name handler.version d) u.1 in
    let q = get-insert name handler.tool_name handler.version d in
    let r = missing_handler name rest in ground (arith, p, q, r, u.0)

-- The route of a catalog's entry can be run with this registry and these handlers.
abbrev pub IsStartable : CapabilityRegistry → ReadToolGateway → TrustedRouteEntry → Type 0
IsStartable registry gateway entry =
    let name = or_empty entry.route.tool_name in
    IsOffered entry.route.mode entry.route.version
      (find tool_name_of name (all_tools registry.manifests))
      (find handler_name_of name gateway.handlers)

available_iff :
    (registry : CapabilityRegistry) (gateway : ReadToolGateway) (entry : TrustedRouteEntry)
    → Distinct (names_of (all_tools registry.manifests))
    → Distinct (map handler_name_of gateway.handlers)
    → (is_available
          (index_descriptors (all_tools registry.manifests) [])
          (index_versions gateway.handlers [])
          entry
        ≡ true)
      ↔ IsStartable registry gateway entry
unfolding is_available Dict.get
available_iff registry gateway entry u v =
    let name = or_empty entry.route.tool_name in
    let tools =
      get-index_descriptors name (all_tools registry.manifests) [] u
      ∙ or_nothing (find tool_name_of name (all_tools registry.manifests)) in
    let versions =
      get-index_versions name gateway.handlers [] v
      ∙ or_nothing (version_of (find handler_name_of name gateway.handlers)) in
    let iff =
      IsOffered-iff entry.route.mode entry.route.version
        (find tool_name_of name (all_tools registry.manifests))
        (find handler_name_of name gateway.handlers) in
    rw (tools, versions) iff

All-iff {ℓ κ} :
    {A : Type ℓ} (P Q : A → Type κ) (xs : List A) → ((x : A) → P x ↔ Q x) → All P xs ↔ All Q xs
All-iff P Q xs same =
    ((λ a. All-imp P Q (λ x p. (same x).0 p) xs a), (λ a. All-imp Q P (λ x q. (same x).1 q) xs a))

-- With different tool names and different handler names, the startup validation passes exactly when
-- the tool of every exact route of the catalog is registered as a read tool of the route's version
-- and has an installed handler of that version.
pub validate_startup_iff :
    (catalog : TrustedRouteCatalog) (registry : CapabilityRegistry) (gateway : ReadToolGateway)
    → Distinct (names_of (all_tools registry.manifests))
    → Distinct (map handler_name_of gateway.handlers)
    → (validate_startup catalog registry gateway ≡ ok tt)
      ↔ All (IsStartable registry gateway) catalog.entries
unfolding validate_startup
validate_startup_iff catalog registry gateway u v =
    let checks =
      check_entries_iff (index_descriptors (all_tools registry.manifests) [])
        (index_versions gateway.handlers []) catalog.entries in
    let entries =
      All-iff
        (λ entry.
          is_available (index_descriptors (all_tools registry.manifests) [])
            (index_versions gateway.handlers []) entry
          ≡ true)
        (IsStartable registry gateway) catalog.entries
        (λ entry. available_iff registry gateway entry u v) in
    ((λ h. entries.0 (checks.0 h)), (λ a. checks.1 (entries.1 a)))

abbrev found : Option TrustedRouteEntry → Option AgentRoutingPolicy → Option AgentRoutingPolicy
found none o = o
found (some entry) o = some entry.route

find-none :
    (code : String) (entries : List TrustedRouteEntry)
    → contains (codes_of entries) code ≡ false
    → find intent code entries ≡ none
find-none code [] h = refl
find-none code (entry ∷ rest) h = ground (arith, find-none code rest)

get-index_routes :
    (code : String) (entries : List TrustedRouteEntry) (d : Dict String AgentRoutingPolicy)
    → Distinct (codes_of entries)
    → Dict.get code (index_routes entries d) ≡ found (find intent code entries) (Dict.get code d)
get-index_routes code [] d u = refl
get-index_routes code (entry ∷ rest) d u =
    let p = get-index_routes code rest (Dict.insert entry.intent_code entry.route d) u.1 in
    let q = get-insert code entry.intent_code entry.route d in
    let r = find-none code rest in ground (arith, p, q, r, u.0)

get-sorted_routes :
    (code : String) (entries : List TrustedRouteEntry)
    → Distinct (codes_of entries)
    → Dict.get code (index_routes (sorted intent entries) [])
      ≡ found (find intent code entries) none
unfolding Dict.get
get-sorted_routes code entries u =
    get-index_routes code (sorted intent entries) [] (sorted-Distinct intent entries u)
    ∙ ap (λ o. found o none) (find-sorted intent code entries u)

route_found :
    (o : Option TrustedRouteEntry) (catalog : TrustedRouteCatalog) (code : String)
    → Dict.get code catalog.by_intent ≡ found o none
    → resolve catalog code ≡ route_of o
unfolding resolve
route_found none catalog code h = ground arith
route_found (some entry) catalog code h = ground arith

-- The entries of a catalog that is built have different intent codes. It resolves each code to the
-- route of the entry that has it, wherever that entry stands, and refuses every other code.
pub init-resolve :
    (entries : List TrustedRouteEntry) (catalog : TrustedRouteCatalog)
    → init entries ≡ ok catalog
    → Distinct (map intent entries)
      × ((code : String) → resolve catalog code ≡ route_of (find intent code entries))
unfolding init
init-resolve entries catalog h =
    let u = (has_unique_iff (map intent entries)).0 (ground arith) in
    let same : catalog.by_intent ≡ index_routes (sorted intent entries) [] = ground arith in
    (
      u,
      λ code.
          route_found (find intent code entries) catalog code
            (ap (Dict.get code) same ∙ get-sorted_routes code entries u),
    )
