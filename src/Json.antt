-- ===== src/Json.antt =====
-- JSON values as the program meets them after `json.loads`, with the structural measures and
-- checks of src/erp_ai/orchestration/models.py and service.py and of src/erp_ai/tools/gateway.py.
-- A mapping keeps its items in order; an int is its sign and magnitude, of which only the magnitude
-- is tested; a float is its text and whether it is finite.
pub mod Laws
pub mod Depth
use ai_systems_try.Base.{
  ℕ, suc, ◌+◌, ◌-◌, ◌^◌, String, Bool, true, false, not, ◌&&◌, ◌||◌, List, [], ◌∷◌, ltb, max,
  contains, string_eq, if◌then◌else◌, Except, ok, raise, ◌>>=◌, ◌>>◌, raise_if,
}

mutual
  pub data Json : Type 0 where
    null : Json
    boolean : Bool → Json
    integer : Bool → ℕ → Json
    float : String → Bool → Json
    text : String → Json
    array : Items → Json
    object : Fields → Json

  pub data Items : Type 0 where
    none_left : Items
    item : Json → Items → Items

  pub data Fields : Type 0 where
    end : Fields
    field : String → Json → Fields → Fields

abbrev pub field_names : Fields → List String
field_names end = []
field_names (field key value rest) = key ∷ field_names rest

-- `max(values, default=default)`
abbrev pub max_or : ℕ → List ℕ → ℕ
max_or default [] = default
max_or default (x ∷ []) = x
max_or default (x ∷ y ∷ rest) = max x (max_or default (y ∷ rest))

abbrev pub sum : List ℕ → ℕ
sum [] = 0
sum (x ∷ xs) = x + sum xs

abbrev pub first_parts : List (ℕ × ℕ) → List ℕ
first_parts [] = []
first_parts ((a, b) ∷ rest) = a ∷ first_parts rest

abbrev pub second_parts : List (ℕ × ℕ) → List ℕ
second_parts [] = []
second_parts ((a, b) ∷ rest) = b ∷ second_parts rest

-- The `return` of `_json_depth_and_nodes` for a container with these `child_metrics`.
abbrev pub container_metrics : ℕ → List (ℕ × ℕ) → ℕ × ℕ
container_metrics depth metrics =
    (max_or depth (first_parts metrics), 1 + sum (second_parts metrics))

-- `_json_depth_and_nodes`
unfoldable mutual
  pub json_depth_and_nodes : Json → ℕ → ℕ × ℕ
  json_depth_and_nodes null depth = (depth, 1)
  json_depth_and_nodes (boolean b) depth = (depth, 1)
  json_depth_and_nodes (integer s n) depth = (depth, 1)
  json_depth_and_nodes (float t f) depth = (depth, 1)
  json_depth_and_nodes (text t) depth = (depth, 1)
  json_depth_and_nodes (array xs) depth = container_metrics depth (items_metrics xs depth)
  json_depth_and_nodes (object fs) depth = container_metrics depth (fields_metrics fs depth)

  pub items_metrics : Items → ℕ → List (ℕ × ℕ)
  items_metrics none_left depth = []
  items_metrics (item x xs) depth = json_depth_and_nodes x (depth + 1) ∷ items_metrics xs depth

  pub fields_metrics : Fields → ℕ → List (ℕ × ℕ)
  fields_metrics end depth = []
  fields_metrics (field key x fs) depth =
      json_depth_and_nodes x (depth + 1) ∷ fields_metrics fs depth

abbrev pub maximum_safe_json_integer : ℕ
maximum_safe_json_integer = 2 ^ 53 - 1

-- `_validate_safe_numbers`: whether it returns.
unfoldable mutual
  pub has_safe_numbers : Json → Bool
  has_safe_numbers null = true
  has_safe_numbers (boolean b) = true
  has_safe_numbers (integer s n) = not (ltb maximum_safe_json_integer n)
  has_safe_numbers (float t finite) = finite
  has_safe_numbers (text t) = true
  has_safe_numbers (array xs) = items_safe xs
  has_safe_numbers (object fs) = fields_safe fs

  items_safe : Items → Bool
  items_safe none_left = true
  items_safe (item x xs) = has_safe_numbers x && items_safe xs

  fields_safe : Fields → Bool
  fields_safe end = true
  fields_safe (field key x fs) = has_safe_numbers x && fields_safe fs

-- RESERVED_ARGUMENT_NAMES
abbrev pub reserved_argument_names : List String
reserved_argument_names =
    "context_version" ∷ "customer_environment_id" ∷ "user_id" ∷ "employee_id" ∷ "roles"
    ∷ "permission_codes" ∷ "legal_entity_ids" ∷ "enabled_modules" ∷ "locale" ∷ "timezone"
    ∷ "purpose" ∷ "issued_at" ∷ "authorization_snapshot_id" ∷ "read_only_mode" ∷ []

-- `_contains_reserved_argument`
unfoldable mutual
  pub contains_reserved_argument : Json → Bool
  contains_reserved_argument null = false
  contains_reserved_argument (boolean b) = false
  contains_reserved_argument (integer s n) = false
  contains_reserved_argument (float t f) = false
  contains_reserved_argument (text t) = false
  contains_reserved_argument (array xs) = items_reserved xs
  contains_reserved_argument (object fs) = fields_reserved fs

  items_reserved : Items → Bool
  items_reserved none_left = false
  items_reserved (item x xs) = contains_reserved_argument x || items_reserved xs

  fields_reserved : Fields → Bool
  fields_reserved end = false
  fields_reserved (field key x fs) =
      (contains reserved_argument_names key || contains_reserved_argument x) || fields_reserved fs
