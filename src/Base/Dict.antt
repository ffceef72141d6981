-- ===== src/Base/Dict.antt =====
-- A Python dict in insertion order.
use mathlib.Core.Path.{◌≡◌, refl}
use mathlib.Core.Bool.{true, false}
use mathlib.Core.Option.{Option, none, some}
use mathlib.Core.List.{List, [], ◌∷◌}
use native.Mathlib.Omega.{arith}
use ai_systems_try.Base.Equality.{Eq, ◌==◌, if◌then◌else◌}
use ai_systems_try.Base.Lists.{contains}

abbrev pub Dict {ℓ κ} : Type ℓ → Type κ → Type (ℓ ⊔ κ)
Dict K V = List (K × V)

module _ {ℓ κ} {K : Type ℓ} {V : Type κ} where
  abbrev pub keys : Dict K V → List K
  keys [] = []
  keys ((k, v) ∷ d) = k ∷ keys d

  abbrev pub values : Dict K V → List V
  values [] = []
  values ((k, v) ∷ d) = v ∷ values d

module _ {ℓ κ} {K : Type ℓ} {V : Type κ} ⦃e : Eq K⦄ where
  -- `d.get(k)`
  unfoldable pub get : K → Dict K V → Option V
  get k [] = none
  get k ((j, v) ∷ d) = if k == j then some v else get k d

  -- `d[k] = v`
  unfoldable pub insert : K → V → Dict K V → Dict K V
  insert k v [] = (k, v) ∷ []
  insert k v ((j, w) ∷ d) = if k == j then (k, v) ∷ d else (j, w) ∷ insert k v d

  pub insert-empty : (k : K) (v : V) → insert k v [] ≡ (k, v) ∷ []
  unfolding insert
  insert-empty k v = refl

  pub get-insert :
      (j k : K) (v : V) (d : Dict K V) → get j (insert k v d) ≡ (if j == k then some v else get j d)
  unfolding get insert
  get-insert j k v [] = refl
  get-insert j k v (_ ∷ d) = ground (arith, get-insert j k v d)

  pub get-insert_self : (k : K) (v : V) (d : Dict K V) → get k (insert k v d) ≡ some v
  get-insert_self k v d = ground (arith, get-insert k k v d)

  -- A key is found exactly when it is among the keys.
  pub contains-keys :
      (k : K) (d : Dict K V)
      → contains (keys d) k ≡ (elim (get k d) [ none ↦ false | some _ ↦ true ])
  unfolding get
  contains-keys k [] = refl
  contains-keys k (_ ∷ d) = ground (arith, contains-keys k d)

-- Nothing is found in an empty dict.
pub get-empty {ℓ κ} :
    {K : Type ℓ} {V : Type κ} ⦃e : Eq K⦄ (k : K) (d : Dict K V) → d ≡ [] → get k d ≡ none
unfolding get
get-empty k [] p = refl
get-empty k (_ ∷ d) p = cc
