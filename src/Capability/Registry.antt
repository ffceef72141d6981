-- ===== src/Capability/Registry.antt =====
-- src/erp_ai/capabilities/registry.py: the immutable registry and its construction.
pub mod Laws
use ai_systems_try.Base.{
  String, ◌≡◌, Bool, true, false, Option, List, [], ◌∷◌, ◌++◌, map, Except, ok, raise, ◌>>=◌, ◌>>◌,
  raise_if, contains, string_eq,
}
use ai_systems_try.Base.Dict
use ai_systems_try.Base.Dict.{Dict}
use ai_systems_try.Base.Sort.{sorted, string_ord}
use ai_systems_try.Capability.{ToolDescriptor, CapabilityManifest}

pub record CapabilityRegistry : Type 0 where
  pub manifests : List CapabilityManifest
  pub by_code : Dict String CapabilityManifest
  pub tools_by_name : Dict String ToolDescriptor

pub data RegistryError : Type 0 where
  duplicate_capability_code : String → RegistryError
  duplicate_tool_name : String → RegistryError

-- The inner loop, over the tools of one manifest.
index_tools :
    List ToolDescriptor
    → Dict String ToolDescriptor
    → Except RegistryError (Dict String ToolDescriptor)
index_tools [] tools_by_name = ok tools_by_name
index_tools (tool ∷ tools) tools_by_name = do
  raise_if (contains (Dict.keys tools_by_name) tool.tool_name) (duplicate_tool_name tool.tool_name)
  index_tools tools (Dict.insert tool.tool_name tool tools_by_name)

abbrev Indexes : Type 0
Indexes = Dict String CapabilityManifest × Dict String ToolDescriptor

-- The outer loop, over the ordered manifests.
index_manifests : List CapabilityManifest → Indexes → Except RegistryError Indexes
index_manifests [] indexes = ok indexes
index_manifests (manifest ∷ manifests) (by_code, tools_by_name) = do
  raise_if (contains (Dict.keys by_code) manifest.capability_code)
      (duplicate_capability_code manifest.capability_code)
  tools ← index_tools manifest.tools tools_by_name
  index_manifests manifests (Dict.insert manifest.capability_code manifest by_code, tools)

-- `__init__`
unfoldable pub init : List CapabilityManifest → Except RegistryError CapabilityRegistry
unfolding index_tools index_manifests
init entries = do
  let ordered = sorted (λ manifest. manifest.capability_code) entries
  indexes ← index_manifests ordered ([], [])
  ok (record { manifests = ordered; by_code = indexes.0; tools_by_name = indexes.1 })

-- `get`
unfoldable pub get : CapabilityRegistry → String → Option CapabilityManifest
get registry capability_code = Dict.get capability_code registry.by_code
