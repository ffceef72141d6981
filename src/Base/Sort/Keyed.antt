-- ===== src/Base/Sort/Keyed.antt =====
-- The lookup by key in a list whose keys differ does not depend on its order.
use mathlib.Core.Path.{◌≡◌, refl, ◌∙◌}
use mathlib.Core.Logic.{inl, inr}
use mathlib.Core.Bool.{false, ◌||◌}
use mathlib.Core.Option.{Option, none, some}
use mathlib.Core.List.{List, [], ◌∷◌, map}
use native.Mathlib.Omega.{arith}
use ai_systems_try.Base.Equality.{Eq, ◌==◌, if◌then◌else◌}
use ai_systems_try.Base.Tests.{Bool-cases}
use ai_systems_try.Base.Lists.{contains, Distinct}
use ai_systems_try.Base.Sort.{Ord, insert_sorted, sorted}

-- What a second function takes of the elements stays distinct.
module _ {ℓ κ μ} {A : Type ℓ} {K : Type κ} {J : Type μ} ⦃o : Ord K⦄ ⦃e : Eq J⦄ (key : A → K)
    (name : A → J) where
  contains-insert_sorted :
      (k : J) (x : A) (xs : List A)
      → contains (map name (insert_sorted key x xs)) k ≡ (k == name x || contains (map name xs) k)
  unfolding insert_sorted
  contains-insert_sorted k x [] = refl
  contains-insert_sorted k x (y ∷ ys) = ground (arith, contains-insert_sorted k x ys)

  pub contains-map-sorted :
      (k : J) (xs : List A) → contains (map name (sorted key xs)) k ≡ contains (map name xs) k
  unfolding sorted
  contains-map-sorted k [] = refl
  contains-map-sorted k (x ∷ xs) =
      ground (arith, contains-insert_sorted k x (sorted key xs), contains-map-sorted k xs)

  insert_sorted-Distinct :
      (x : A) (xs : List A)
      → contains (map name xs) (name x) ≡ false
      → Distinct (map name xs)
      → Distinct (map name (insert_sorted key x xs))
  unfolding insert_sorted
  insert_sorted-Distinct x [] h d = (refl, tt)
  insert_sorted-Distinct x (y ∷ ys) h d = elim (Bool-cases (o.le (key x) (key y))) [
    | inl first ↦ rw first (h, d)
    | inr later ↦ rw later (
      ground (arith, contains-insert_sorted (name y) x ys, d.0),
      insert_sorted-Distinct x ys (ground arith) d.1,
    )
  ]

  pub map-sorted-Distinct :
      (xs : List A) → Distinct (map name xs) → Distinct (map name (sorted key xs))
  unfolding sorted
  map-sorted-Distinct [] d = tt
  map-sorted-Distinct (x ∷ xs) d =
      insert_sorted-Distinct x (sorted key xs) (contains-map-sorted (name x) xs ∙ d.0)
        (map-sorted-Distinct xs d.1)

module _ {ℓ κ} {A : Type ℓ} {K : Type κ} ⦃o : Ord K⦄ ⦃e : Eq K⦄ (key : A → K) where
  -- The first value with the key `k`.
  abbrev pub find : K → List A → Option A
  find k [] = none
  find k (x ∷ xs) = let later = find k xs in if k == key x then some x else later

  pub contains-sorted :
      (k : K) (xs : List A) → contains (map key (sorted key xs)) k ≡ contains (map key xs) k
  contains-sorted = contains-map-sorted key key

  pub sorted-Distinct : (xs : List A) → Distinct (map key xs) → Distinct (map key (sorted key xs))
  sorted-Distinct = map-sorted-Distinct key key

  find-insert_sorted :
      (k : K) (x : A) (xs : List A)
      → contains (map key xs) (key x) ≡ false
      → find k (insert_sorted key x xs) ≡ find k (x ∷ xs)
  unfolding insert_sorted
  find-insert_sorted k x [] h = refl
  find-insert_sorted k x (y ∷ ys) h = ground (arith, find-insert_sorted k x ys)

  pub find-sorted :
      (k : K) (xs : List A) → Distinct (map key xs) → find k (sorted key xs) ≡ find k xs
  unfolding sorted
  find-sorted k [] d = refl
  find-sorted k (x ∷ xs) d = ground (
    arith,
    find-insert_sorted k x (sorted key xs) (contains-sorted (key x) xs ∙ d.0),
    find-sorted k xs d.1,
  )
