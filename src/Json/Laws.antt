-- ===== src/Json/Laws.antt =====
-- The reserved-argument check of src/erp_ai/tools/gateway.py against the positions inside a value.
use ai_systems_try.Base.{
  String, ◌≡◌, refl, Bool, true, false, ◌||◌, arith, contains, string_eq, inl, inr, ◌⊎◌, ◌↔◌,
}
use ai_systems_try.Json.{
  Json, null, boolean, integer, float, text, array, object, Items, none_left, item, Fields, end,
  field, reserved_argument_names, contains_reserved_argument, items_reserved, fields_reserved,
}

-- A key at any position inside a value.
mutual
  pub data HasKey (k : String) : Json → Type 0 where
    in_array : {xs : Items} → ItemsHaveKey k xs → HasKey k (array xs)
    in_object : {fs : Fields} → FieldsHaveKey k fs → HasKey k (object fs)

  pub data ItemsHaveKey (k : String) : Items → Type 0 where
    first_item : {x : Json} {xs : Items} → HasKey k x → ItemsHaveKey k (item x xs)
    later_item : {x : Json} {xs : Items} → ItemsHaveKey k xs → ItemsHaveKey k (item x xs)

  pub data FieldsHaveKey (k : String) : Fields → Type 0 where
    this_key : {key : String} {x : Json} {fs : Fields} → k ≡ key → FieldsHaveKey k (field key x fs)
    first_field :
        {key : String} {x : Json} {fs : Fields} → HasKey k x → FieldsHaveKey k (field key x fs)
    later_field :
        {key : String} {x : Json} {fs : Fields}
        → FieldsHaveKey k fs
        → FieldsHaveKey k (field key x fs)

mutual
  unfolding contains_reserved_argument

  reserved_of_key :
      {k : String} {j : Json}
      → contains reserved_argument_names k ≡ true
      → HasKey k j
      → contains_reserved_argument j ≡ true
  reserved_of_key r (in_array h) = reserved_of_items r h
  reserved_of_key r (in_object h) = reserved_of_fields r h

  reserved_of_items :
      {k : String} {xs : Items}
      → contains reserved_argument_names k ≡ true
      → ItemsHaveKey k xs
      → items_reserved xs ≡ true
  reserved_of_items r (first_item h) = rw (reserved_of_key r h) refl
  reserved_of_items r (later_item {x} h) = rw (reserved_of_items r h) (ground arith)

  reserved_of_fields :
      {k : String} {fs : Fields}
      → contains reserved_argument_names k ≡ true
      → FieldsHaveKey k fs
      → fields_reserved fs ≡ true
  reserved_of_fields r (this_key e) = rw (← e, r) refl
  reserved_of_fields r (first_field h) = rw (reserved_of_key r h) (ground arith)
  reserved_of_fields r (later_field h) = rw (reserved_of_fields r h) (ground arith)

-- A reserved key at some position.
abbrev pub ReservedKey : (String → Type 0) → Type 0
ReservedKey P = (k : String) × (contains reserved_argument_names k ≡ true) × P k

or-cases : (a b : Bool) → (a || b) ≡ true → (a ≡ true) ⊎ (b ≡ true)
or-cases true b h = inl refl
or-cases false b h = inr h

mutual
  unfolding contains_reserved_argument

  key_of_reserved : (j : Json) → contains_reserved_argument j ≡ true → ReservedKey (λ k. HasKey k j)
  key_of_reserved null h = cc
  key_of_reserved (boolean b) h = cc
  key_of_reserved (integer s n) h = cc
  key_of_reserved (float t f) h = cc
  key_of_reserved (text t) h = cc
  key_of_reserved (array xs) h = let (k, r, p) = key_of_items xs h in (k, r, in_array p)
  key_of_reserved (object fs) h = let (k, r, p) = key_of_fields fs h in (k, r, in_object p)

  key_of_items : (xs : Items) → items_reserved xs ≡ true → ReservedKey (λ k. ItemsHaveKey k xs)
  key_of_items none_left h = cc
  key_of_items (item x xs) h =
      elim (or-cases (contains_reserved_argument x) (items_reserved xs) h) [
        | inl a ↦ let (k, r, p) = key_of_reserved x a in (k, r, first_item p)
        | inr b ↦ let (k, r, p) = key_of_items xs b in (k, r, later_item p)
      ]

  key_of_fields : (fs : Fields) → fields_reserved fs ≡ true → ReservedKey (λ k. FieldsHaveKey k fs)
  key_of_fields end h = cc
  key_of_fields (field key x fs) h =
      elim (or-cases (contains reserved_argument_names key || contains_reserved_argument x)
        (fields_reserved fs) h) [
          | inl a ↦
              elim (or-cases (contains reserved_argument_names key) (contains_reserved_argument x)
                a) [
                  | inl c ↦ (key, c, this_key refl)
                  | inr d ↦ let (k, r, p) = key_of_reserved x d in (k, r, first_field p)
                ]
          | inr b ↦ let (k, r, p) = key_of_fields fs b in (k, r, later_field p)
        ]

-- The test finds a reserved name exactly when a mapping at some depth has it as a key.
pub contains_reserved_argument_iff :
    (j : Json) → (contains_reserved_argument j ≡ true) ↔ ReservedKey (λ k. HasKey k j)
contains_reserved_argument_iff j = (key_of_reserved j, λ (k, r, p). reserved_of_key r p)
