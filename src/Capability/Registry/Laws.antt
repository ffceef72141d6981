-- ===== src/Capability/Registry/Laws.antt =====
-- What the registry's construction promises: it succeeds exactly when no capability code and no
-- tool name is used twice, and its indexes then find every entry.
use ai_systems_try.Base.{
  String, ◌≡◌, refl, false, ◌||◌, Option, none, some, List, [], ◌∷◌, ◌++◌, map, ◌↔◌, arith, ok,
  ◌>>=◌, >>=-eq-ok, contains, Distinct, All, ◌==◌, string_eq, if◌then◌else◌, Bool-cases, inl, inr,
}
use ai_systems_try.Base.Dict
use ai_systems_try.Base.Dict.{Dict, keys}
use ai_systems_try.Base.Sort.{sorted, string_ord}
use ai_systems_try.Capability.{ToolDescriptor, CapabilityManifest}
use ai_systems_try.Capability.Registry.{CapabilityRegistry, index_tools, index_manifests, init, get}

abbrev pub names_of : List ToolDescriptor → List String
names_of = map (λ tool. tool.tool_name)

abbrev pub codes_of : List CapabilityManifest → List String
codes_of = map (λ manifest. manifest.capability_code)

-- The tools of all manifests, in the order in which the constructor meets them.
abbrev pub all_tools : List CapabilityManifest → List ToolDescriptor
all_tools [] = []
all_tools (manifest ∷ rest) = manifest.tools ++ all_tools rest

abbrev pub find {ℓ} : {A : Type ℓ} → (A → String) → String → List A → Option A
find key n [] = none
find key n (x ∷ xs) = if n == key x then some x else find key n xs

abbrev or_else {ℓ} : {A : Type ℓ} → Option A → Option A → Option A
or_else none y = y
or_else (some x) y = some x

-- The names are new to the dict and differ from one another.
abbrev Fresh : {V : Type 0} → Dict String V → List String → Type 0
Fresh d ns = All (λ n. contains (keys d) n ≡ false) ns × Distinct ns

module _ {V : Type 0} (k : String) (v : V) (d : Dict String V) where
  contains-keys-insert :
      (n : String) → contains (keys (Dict.insert k v d)) n ≡ (n == k || contains (keys d) n)
  contains-keys-insert n = ground (
    arith,
    Dict.contains-keys n (Dict.insert k v d),
    Dict.contains-keys n d,
    Dict.get-insert n k v d,
  )

  new_after_insert :
      (ns : List String)
      → All (λ n. contains (keys d) n ≡ false) ns
      → contains ns k ≡ false
      → All (λ n. contains (keys (Dict.insert k v d)) n ≡ false) ns
  new_after_insert [] h e = tt
  new_after_insert (n ∷ ns) h e =
      (ground (arith, contains-keys-insert n), new_after_insert ns h.1 (ground arith))

  new_before_insert :
      (ns : List String)
      → All (λ n. contains (keys (Dict.insert k v d)) n ≡ false) ns
      → All (λ n. contains (keys d) n ≡ false) ns × (contains ns k ≡ false)
  new_before_insert [] h = (tt, refl)
  new_before_insert (n ∷ ns) h =
      let (fresh, absent) = new_before_insert ns h.1 in
      ((ground (arith, contains-keys-insert n), fresh), ground (arith, contains-keys-insert n))

get-of_new :
    {V : Type 0} (n : String) (d : Dict String V)
    → contains (keys d) n ≡ false
    → Dict.get n d ≡ none
get-of_new n d h = ground (arith, Dict.contains-keys n d)

-- The inner loop succeeds only on new names, and then the index finds each tool.
index_tools_sound :
    (ts : List ToolDescriptor) (d d' : Dict String ToolDescriptor)
    → index_tools ts d ≡ ok d'
    → Fresh d (names_of ts)
      × ((n : String) → Dict.get n d' ≡ or_else (Dict.get n d) (find (λ t. t.tool_name) n ts))
unfolding index_tools
index_tools_sound [] d d' h = ((tt, tt), λ n. ground arith)
index_tools_sound (t ∷ ts) d d' h = elim (Bool-cases (contains (keys d) t.tool_name)) [
  | inl old ↦ absurd (ground arith)
  | inr new ↦
      let (fresh, found) = index_tools_sound ts (Dict.insert t.tool_name t d) d' (ground arith) in
      let (before, absent) = new_before_insert t.tool_name t d (names_of ts) fresh.0 in
      (
        ((new, before), (absent, fresh.1)),
        λ n. ground (arith, found n, Dict.get-insert n t.tool_name t d, get-of_new t.tool_name d),
      )
]

index_tools_complete :
    (ts : List ToolDescriptor) (d : Dict String ToolDescriptor)
    → Fresh d (names_of ts)
    → (d' : Dict String ToolDescriptor) × (index_tools ts d ≡ ok d')
unfolding index_tools
index_tools_complete [] d h = (d, refl)
index_tools_complete (t ∷ ts) d h =
    let (d', e) =
      index_tools_complete ts (Dict.insert t.tool_name t d)
        (new_after_insert t.tool_name t d (names_of ts) h.0.1 h.1.0, h.1.1) in
    (d', rw h.0.0 e)

index_tools-append :
    (xs ys : List ToolDescriptor) (d : Dict String ToolDescriptor)
    → index_tools (xs ++ ys) d ≡ (index_tools xs d >>= index_tools ys)
unfolding index_tools
index_tools-append [] ys d = refl
index_tools-append (x ∷ xs) ys d =
    ground (arith, index_tools-append xs ys (Dict.insert x.tool_name x d))

index_manifests_sound :
    (ms : List CapabilityManifest) (c c' : Dict String CapabilityManifest)
    (d d' : Dict String ToolDescriptor)
    → index_manifests ms (c, d) ≡ ok (c', d')
    → Fresh c (codes_of ms)
      × ((n : String) → Dict.get n c' ≡ or_else (Dict.get n c) (find (λ m. m.capability_code) n ms))
      × (index_tools (all_tools ms) d ≡ ok d')
unfolding index_manifests index_tools
index_manifests_sound [] c c' d d' h = ((tt, tt), λ n. ground arith, ground arith)
index_manifests_sound (m ∷ ms) c c' d d' h =
    elim (Bool-cases (contains (keys c) m.capability_code)) [
      | inl old ↦ absurd (ground arith)
      | inr new ↦
          let (tools, indexed, rest) =
            >>=-eq-ok (index_tools m.tools d)
              (λ t. index_manifests ms (Dict.insert m.capability_code m c, t)) (ground arith) in
          let (fresh, found, more) =
            index_manifests_sound ms (Dict.insert m.capability_code m c) c' tools d' rest in
          let (before, absent) = new_before_insert m.capability_code m c (codes_of ms) fresh.0 in
          (
            ((new, before), (absent, fresh.1)),
            λ n. ground (
              arith,
              found n,
              Dict.get-insert n m.capability_code m c,
              get-of_new m.capability_code c,
            ),
            rw (index_tools-append, indexed) more,
          )
    ]

index_manifests_complete :
    (ms : List CapabilityManifest) (c : Dict String CapabilityManifest)
    (d d' : Dict String ToolDescriptor)
    → Fresh c (codes_of ms)
    → index_tools (all_tools ms) d ≡ ok d'
    → (c' : Dict String CapabilityManifest) × (index_manifests ms (c, d) ≡ ok (c', d'))
unfolding index_manifests index_tools
index_manifests_complete [] c d d' f h = (c, ground arith)
index_manifests_complete (m ∷ ms) c d d' f h =
    let (tools, indexed, more) =
      >>=-eq-ok (index_tools m.tools d) (index_tools (all_tools ms)) (rw index_tools-append at h) in
    let (c', e) =
      index_manifests_complete ms (Dict.insert m.capability_code m c) tools d'
        (new_after_insert m.capability_code m c (codes_of ms) f.0.1 f.1.0, f.1.1) more in
    (c', rw (f.0.0, indexed) e)

new_to_empty : (ns : List String) → All (λ n. false ≡ false) ns
new_to_empty [] = tt
new_to_empty (n ∷ ns) = (refl, new_to_empty ns)

-- The manifests in the order in which the constructor indexes them.
abbrev pub ordered : List CapabilityManifest → List CapabilityManifest
ordered = sorted (λ manifest. manifest.capability_code)

-- Construction succeeds exactly when the capability codes differ from one another and so do the
-- tool names of all manifests together.
pub init_iff :
    (entries : List CapabilityManifest)
    → ((registry : CapabilityRegistry) × (init entries ≡ ok registry))
      ↔ (Distinct (codes_of (ordered entries)) × Distinct (names_of (all_tools (ordered entries))))
unfolding init
init_iff entries = (
  λ (registry, h).
      let ((c, d), indexed, built) =
        >>=-eq-ok (index_manifests (ordered entries) ([], []))
          (λ indexes. ok (record {
            manifests = ordered entries;
            by_code = indexes.0;
            tools_by_name = indexes.1;
          }))
          h in
      let (fresh, found, tools) = index_manifests_sound (ordered entries) [] c [] d indexed in
      (fresh.1, (index_tools_sound (all_tools (ordered entries)) [] d tools).0.1),
  λ (codes, names).
      let (d, tools) =
        index_tools_complete (all_tools (ordered entries)) []
          (new_to_empty (names_of (all_tools (ordered entries))), names) in
      let (c, indexed) =
        index_manifests_complete (ordered entries) [] [] d
          (new_to_empty (codes_of (ordered entries)), codes) tools in
      (record { manifests = ordered entries; by_code = c; tools_by_name = d }, rw indexed refl),
)

-- In a constructed registry the manifests are the given ones in ascending order of their codes,
-- `get` finds the manifest of a code if there is one, and the tool index finds the tool of a name.
pub init_lem :
    (entries : List CapabilityManifest) (registry : CapabilityRegistry)
    → init entries ≡ ok registry
    → (registry.manifests ≡ ordered entries)
      × ((code : String)
          → get registry code ≡ find (λ m. m.capability_code) code registry.manifests)
      × ((name : String)
          → Dict.get name registry.tools_by_name
            ≡ find (λ t. t.tool_name) name (all_tools registry.manifests))
unfolding init get Dict.get
init_lem entries registry h =
    let ((c, d), indexed, built) =
      >>=-eq-ok (index_manifests (ordered entries) ([], []))
        (λ indexes.
          ok (record {
            manifests = ordered entries;
            by_code = indexes.0;
            tools_by_name = indexes.1;
          }))
        h in
    let (fresh, found, tools) = index_manifests_sound (ordered entries) [] c [] d indexed in
    let named = (index_tools_sound (all_tools (ordered entries)) [] d tools).1 in
    (ground arith, λ code. ground (arith, found code), λ name. ground (arith, named name))
