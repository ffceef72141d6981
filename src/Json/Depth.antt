-- ===== src/Json/Depth.antt =====
-- `_json_depth_and_nodes` of src/erp_ai/orchestration/models.py against the nodes of a value.
use ai_systems_try.Base.{
  ℕ, suc, ◌+◌, ◌≤◌, ◌<◌, String, ◌≡◌, refl, List, [], ◌∷◌, arith, max, inl, inr, ◌⊎◌, ltb, ltb→lt,
  ltb→le, Bool-cases,
}
use ai_systems_try.Json.{
  Json, null, boolean, integer, float, text, array, object, Items, none_left, item, Fields, end,
  field, max_or, sum, first_parts, second_parts, json_depth_and_nodes, items_metrics,
  fields_metrics,
}

-- A value has a node `k` levels below its root.
mutual
  pub data HasNode : ℕ → Json → Type 0 where
    itself : {j : Json} → HasNode 0 j
    in_array : {k : ℕ} {xs : Items} → ItemsHaveNode k xs → HasNode (suc k) (array xs)
    in_object : {k : ℕ} {fs : Fields} → FieldsHaveNode k fs → HasNode (suc k) (object fs)

  pub data ItemsHaveNode : ℕ → Items → Type 0 where
    first_item : {k : ℕ} {x : Json} {xs : Items} → HasNode k x → ItemsHaveNode k (item x xs)
    later_item : {k : ℕ} {x : Json} {xs : Items} → ItemsHaveNode k xs → ItemsHaveNode k (item x xs)

  pub data FieldsHaveNode : ℕ → Fields → Type 0 where
    first_field :
        {k : ℕ} {key : String} {x : Json} {fs : Fields}
        → HasNode k x
        → FieldsHaveNode k (field key x fs)
    later_field :
        {k : ℕ} {key : String} {x : Json} {fs : Fields}
        → FieldsHaveNode k fs
        → FieldsHaveNode k (field key x fs)

-- The number of the nodes, of which a container is one.
mutual
  pub node_count : Json → ℕ
  node_count null = 1
  node_count (boolean b) = 1
  node_count (integer s n) = 1
  node_count (float t f) = 1
  node_count (text t) = 1
  node_count (array xs) = 1 + items_count xs
  node_count (object fs) = 1 + fields_count fs

  items_count : Items → ℕ
  items_count none_left = 0
  items_count (item x xs) = node_count x + items_count xs

  fields_count : Fields → ℕ
  fields_count end = 0
  fields_count (field key x fs) = node_count x + fields_count fs

max_or-cons : (d a : ℕ) (rest : List ℕ) → d ≤ a → max_or d (a ∷ rest) ≡ max a (max_or d rest)
max_or-cons d a [] h = omega arith
max_or-cons d a (b ∷ rest) h = refl

mutual
  unfolding json_depth_and_nodes

  metrics_bounds :
      (j : Json) (d : ℕ)
      → (d ≤ (json_depth_and_nodes j d).0)
        × ((json_depth_and_nodes j d).0 < d + (json_depth_and_nodes j d).1)
  metrics_bounds null d = omega arith
  metrics_bounds (boolean b) d = omega arith
  metrics_bounds (integer s n) d = omega arith
  metrics_bounds (float t f) d = omega arith
  metrics_bounds (text t) d = omega arith
  metrics_bounds (array xs) d = omega (arith, items_bounds xs d)
  metrics_bounds (object fs) d = omega (arith, fields_bounds fs d)

  items_bounds :
      (xs : Items) (d : ℕ)
      → let ms = items_metrics xs d in
        (d ≤ max_or d (first_parts ms)) × (max_or d (first_parts ms) ≤ d + sum (second_parts ms))
  items_bounds none_left d = omega arith
  items_bounds (item x xs) d =
      let child = metrics_bounds x (d + 1) in
      omega (
        arith,
        child,
        items_bounds xs d,
        max_or-cons d (json_depth_and_nodes x (d + 1)).0 (first_parts (items_metrics xs d))
            (omega (arith, child)),
      )

  fields_bounds :
      (fs : Fields) (d : ℕ)
      → let ms = fields_metrics fs d in
        (d ≤ max_or d (first_parts ms)) × (max_or d (first_parts ms) ≤ d + sum (second_parts ms))
  fields_bounds end d = omega arith
  fields_bounds (field k x fs) d =
      let child = metrics_bounds x (d + 1) in
      omega (
        arith,
        child,
        fields_bounds fs d,
        max_or-cons d (json_depth_and_nodes x (d + 1)).0 (first_parts (fields_metrics fs d))
            (omega (arith, child)),
      )

mutual
  unfolding json_depth_and_nodes

  node_bound : {k : ℕ} {j : Json} (d : ℕ) → HasNode k j → d + k ≤ (json_depth_and_nodes j d).0
  node_bound {j} d itself = omega (arith, metrics_bounds j d)
  node_bound d (in_array h) = omega (arith, items_node_bound d h)
  node_bound d (in_object h) = omega (arith, fields_node_bound d h)

  items_node_bound :
      {k : ℕ} {xs : Items} (d : ℕ)
      → ItemsHaveNode k xs
      → d + suc k ≤ max_or d (first_parts (items_metrics xs d))
  items_node_bound d (first_item {x} {xs} h) = omega (
    arith,
    node_bound (d + 1) h,
    max_or-cons d (json_depth_and_nodes x (d + 1)).0 (first_parts (items_metrics xs d))
        (omega (arith, metrics_bounds x (d + 1))),
  )
  items_node_bound d (later_item {x} {xs} h) = omega (
    arith,
    items_node_bound d h,
    max_or-cons d (json_depth_and_nodes x (d + 1)).0 (first_parts (items_metrics xs d))
        (omega (arith, metrics_bounds x (d + 1))),
  )

  fields_node_bound :
      {k : ℕ} {fs : Fields} (d : ℕ)
      → FieldsHaveNode k fs
      → d + suc k ≤ max_or d (first_parts (fields_metrics fs d))
  fields_node_bound d (first_field {x} {fs} h) = omega (
    arith,
    node_bound (d + 1) h,
    max_or-cons d (json_depth_and_nodes x (d + 1)).0 (first_parts (fields_metrics fs d))
        (omega (arith, metrics_bounds x (d + 1))),
  )
  fields_node_bound d (later_field {x} {fs} h) = omega (
    arith,
    fields_node_bound d h,
    max_or-cons d (json_depth_and_nodes x (d + 1)).0 (first_parts (fields_metrics fs d))
        (omega (arith, metrics_bounds x (d + 1))),
  )

-- A depth is that of some node below the level `d`, or `d` itself.
abbrev IsReached : (ℕ → Type 0) → ℕ → ℕ → Type 0
IsReached P d depth = (depth ≡ d) ⊎ ((k : ℕ) × P k × (d + suc k ≡ depth))

max-cases : (a b : ℕ) → (max a b ≡ a) ⊎ (max a b ≡ b)
max-cases a b = elim (Bool-cases (ltb a b)) [
  | inl less ↦ inr (omega (arith, ltb→lt a b less))
  | inr more ↦ inl (omega (arith, ltb→le a b more))
]

mutual
  unfolding json_depth_and_nodes

  deepest : (j : Json) (d : ℕ) → (k : ℕ) × HasNode k j × (d + k ≡ (json_depth_and_nodes j d).0)
  deepest null d = (0, itself, omega arith)
  deepest (boolean b) d = (0, itself, omega arith)
  deepest (integer s n) d = (0, itself, omega arith)
  deepest (float t f) d = (0, itself, omega arith)
  deepest (text t) d = (0, itself, omega arith)
  deepest (array xs) d = elim (items_deepest xs d) [
    | inl root ↦ (0, itself, omega (arith, root))
    | inr (k, node, same) ↦ (suc k, in_array node, same)
  ]
  deepest (object fs) d = elim (fields_deepest fs d) [
    | inl root ↦ (0, itself, omega (arith, root))
    | inr (k, node, same) ↦ (suc k, in_object node, same)
  ]

  items_deepest :
      (xs : Items) (d : ℕ)
      → IsReached (λ k. ItemsHaveNode k xs) d (max_or d (first_parts (items_metrics xs d)))
  items_deepest none_left d = inl refl
  items_deepest (item x xs) d =
      let a = (json_depth_and_nodes x (d + 1)).0 in
      let later = first_parts (items_metrics xs d) in
      let cons = max_or-cons d a later (omega (arith, metrics_bounds x (d + 1))) in
      let (k, node, same) = deepest x (d + 1) in
      elim (max-cases a (max_or d later)) [
        | inl here ↦ inr (k, first_item node, omega (arith, cons, here, same))
        | inr there ↦ elim (items_deepest xs d) [
          | inl root ↦ inl (omega (arith, cons, there, root))
          | inr (i, node', same') ↦ inr (i, later_item node', omega (arith, cons, there, same'))
        ]
      ]

  fields_deepest :
      (fs : Fields) (d : ℕ)
      → IsReached (λ k. FieldsHaveNode k fs) d (max_or d (first_parts (fields_metrics fs d)))
  fields_deepest end d = inl refl
  fields_deepest (field key x fs) d =
      let a = (json_depth_and_nodes x (d + 1)).0 in
      let later = first_parts (fields_metrics fs d) in
      let cons = max_or-cons d a later (omega (arith, metrics_bounds x (d + 1))) in
      let (k, node, same) = deepest x (d + 1) in
      elim (max-cases a (max_or d later)) [
        | inl here ↦ inr (k, first_field node, omega (arith, cons, here, same))
        | inr there ↦ elim (fields_deepest fs d) [
          | inl root ↦ inl (omega (arith, cons, there, root))
          | inr (i, node', same') ↦ inr (i, later_field node', omega (arith, cons, there, same'))
        ]
      ]

mutual
  unfolding json_depth_and_nodes node_count

  nodes_counted : (j : Json) (d : ℕ) → (json_depth_and_nodes j d).1 ≡ node_count j
  nodes_counted null d = refl
  nodes_counted (boolean b) d = refl
  nodes_counted (integer s n) d = refl
  nodes_counted (float t f) d = refl
  nodes_counted (text t) d = refl
  nodes_counted (array xs) d = omega (arith, items_counted xs d)
  nodes_counted (object fs) d = omega (arith, fields_counted fs d)

  items_counted : (xs : Items) (d : ℕ) → sum (second_parts (items_metrics xs d)) ≡ items_count xs
  items_counted none_left d = refl
  items_counted (item x xs) d = omega (arith, nodes_counted x (d + 1), items_counted xs d)

  fields_counted :
      (fs : Fields) (d : ℕ) → sum (second_parts (fields_metrics fs d)) ≡ fields_count fs
  fields_counted end d = refl
  fields_counted (field key x fs) d = omega (arith, nodes_counted x (d + 1), fields_counted fs d)

-- The measured depth of a value whose root stands at `depth` is that of its deepest node: some node
-- has it, and none lies deeper. The measured number is that of the nodes.
pub json_depth_and_nodes_lem :
    (j : Json) (depth : ℕ)
    → ((k : ℕ) × HasNode k j × (depth + k ≡ (json_depth_and_nodes j depth).0))
      × ((k : ℕ) → HasNode k j → depth + k ≤ (json_depth_and_nodes j depth).0)
      × ((json_depth_and_nodes j depth).1 ≡ node_count j)
json_depth_and_nodes_lem j depth =
    (deepest j depth, (λ k node. node_bound depth node), nodes_counted j depth)
