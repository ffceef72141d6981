-- ===== src/Base/Sort/Laws.antt =====
-- `sorted` returns its input in ascending order of keys.
use mathlib.Core.Logic.{inl, inr}
use mathlib.Core.Path.{◌≡◌, refl}
use mathlib.Core.Bool.{Bool, true, false, ◌||◌}
use mathlib.Core.List.{List, [], ◌∷◌, Perm}
use mathlib.Core.List.Perm
use native.Mathlib.Omega.{arith}
use ai_systems_try.Base.Equality.{if◌then◌else◌}
use ai_systems_try.Base.Tests.{Bool-cases}
use Prim.Native.Nat.{ℕ, ◌+◌}
use ai_systems_try.Base.Lists.{sum_by, All, All-imp, length, any}
use ai_systems_try.Base.Sort.{Ord, insert_sorted, sorted}

module _ {ℓ κ} {A : Type ℓ} {K : Type κ} ⦃o : Ord K⦄ (key : A → K) where
  -- Every earlier key is at most every later one.
  abbrev pub IsSorted : List A → Type 0
  IsSorted [] = Unit
  IsSorted (x ∷ xs) = All (λ y. o.le (key x) (key y) ≡ true) xs × IsSorted xs

  All-insert_sorted {μ} :
      (P : A → Type μ) (x : A) (xs : List A) → P x → All P xs → All P (insert_sorted key x xs)
  unfolding insert_sorted
  All-insert_sorted P x [] h k = (h, tt)
  All-insert_sorted P x (y ∷ ys) h k =
      elim (o.le (key x) (key y))
        as (λ b. All P (if b then x ∷ y ∷ ys else y ∷ insert_sorted key x ys)) [
          | true ↦ (h, k)
          | false ↦ (k.0, All-insert_sorted P x ys h k.1)
        ]

  pub All-sorted {μ} : (P : A → Type μ) (xs : List A) → All P xs → All P (sorted key xs)
  unfolding sorted
  All-sorted P [] h = tt
  All-sorted P (x ∷ xs) h = All-insert_sorted P x (sorted key xs) h.0 (All-sorted P xs h.1)

  insert_sorted-IsSorted : (x : A) (xs : List A) → IsSorted xs → IsSorted (insert_sorted key x xs)
  unfolding insert_sorted
  insert_sorted-IsSorted x [] s = (tt, tt)
  insert_sorted-IsSorted x (y ∷ ys) s = elim (Bool-cases (o.le (key x) (key y))) [
    | inl le ↦ rw le ((le, All-imp _ _ (λ z h. o.trans (key x) (key y) (key z) le h) ys s.0), s)
    | inr gt ↦ rw gt (
      All-insert_sorted (λ z. o.le (key y) (key z) ≡ true) x ys (o.total (key x) (key y) gt) s.0,
      insert_sorted-IsSorted x ys s.1,
    )
  ]

  pub sorted-IsSorted : (xs : List A) → IsSorted (sorted key xs)
  unfolding sorted
  sorted-IsSorted [] = tt
  sorted-IsSorted (x ∷ xs) = insert_sorted-IsSorted x (sorted key xs) (sorted-IsSorted xs)

  insert_sorted-perm : (x : A) (xs : List A) → Perm (insert_sorted key x xs) (x ∷ xs)
  unfolding insert_sorted
  insert_sorted-perm x [] = Perm.rfl
  insert_sorted-perm x (y ∷ ys) =
      elim (o.le (key x) (key y))
        as (λ b. Perm (if b then x ∷ y ∷ ys else y ∷ insert_sorted key x ys) (x ∷ y ∷ ys)) [
          | true ↦ Perm.rfl
          | false ↦ Perm.trans (Perm.cons y (insert_sorted-perm x ys)) (Perm.swap x y ys)
        ]

  pub sorted-perm : (xs : List A) → Perm (sorted key xs) xs
  unfolding sorted
  sorted-perm [] = Perm.rfl
  sorted-perm (x ∷ xs) =
      Perm.trans (insert_sorted-perm x (sorted key xs)) (Perm.cons x (sorted-perm xs))

  length-insert_sorted : (x : A) (xs : List A) → length (insert_sorted key x xs) ≡ length (x ∷ xs)
  unfolding insert_sorted
  length-insert_sorted x [] = refl
  length-insert_sorted x (y ∷ ys) = ground (arith, length-insert_sorted x ys)

  pub length-sorted : (xs : List A) → length (sorted key xs) ≡ length xs
  unfolding sorted
  length-sorted [] = refl
  length-sorted (x ∷ xs) = ground (arith, length-insert_sorted x (sorted key xs), length-sorted xs)

  sum_by-insert_sorted :
      (weight : A → ℕ) (x : A) (xs : List A)
      → sum_by weight (insert_sorted key x xs) ≡ weight x + sum_by weight xs
  unfolding insert_sorted
  sum_by-insert_sorted weight x [] = refl
  sum_by-insert_sorted weight x (y ∷ ys) = ground (arith, sum_by-insert_sorted weight x ys)

  pub sum_by-sorted :
      (weight : A → ℕ) (xs : List A) → sum_by weight (sorted key xs) ≡ sum_by weight xs
  unfolding sorted
  sum_by-sorted weight [] = refl
  sum_by-sorted weight (x ∷ xs) =
      ground (arith, sum_by-insert_sorted weight x (sorted key xs), sum_by-sorted weight xs)

  any-insert_sorted :
      (p : A → Bool) (x : A) (xs : List A) → any p (insert_sorted key x xs) ≡ (p x || any p xs)
  unfolding insert_sorted
  any-insert_sorted p x [] = refl
  any-insert_sorted p x (y ∷ ys) = ground (arith, any-insert_sorted p x ys)

  pub any-sorted : (p : A → Bool) (xs : List A) → any p (sorted key xs) ≡ any p xs
  unfolding sorted
  any-sorted p [] = refl
  any-sorted p (x ∷ xs) = ground (arith, any-insert_sorted p x (sorted key xs), any-sorted p xs)
