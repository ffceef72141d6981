-- ===== src/Base/Lists.antt =====
-- Lists measured by native numbers, sets as lists, and the tests that the program makes on them.
use Prim.Native.Nat.{ℕ, zero, suc, ◌+◌, ◌≤◌}
use mathlib.Core.Path.{◌≡◌, refl}
use mathlib.Core.Logic.{◌↔◌}
use mathlib.Core.Bool.{Bool, true, false, ◌&&◌, ◌||◌, not}
use mathlib.Core.List.{List, [], ◌∷◌, ◌++◌}
use native.Mathlib.Omega.{arith}
use ai_systems_try.Base.Equality.{Eq, ◌==◌, nat_eq, if◌then◌else◌}

module _ {ℓ} {A : Type ℓ} where
  abbrev pub length : List A → ℕ
  length [] = 0
  length (x ∷ xs) = suc (length xs)

  abbrev pub take : ℕ → List A → List A
  take zero xs = []
  take (suc n) [] = []
  take (suc n) (x ∷ xs) = x ∷ take n xs

  abbrev pub drop : ℕ → List A → List A
  drop zero xs = xs
  drop (suc n) [] = []
  drop (suc n) (x ∷ xs) = drop n xs

  abbrev pub any : (A → Bool) → List A → Bool
  any p [] = false
  any p (x ∷ xs) = p x || any p xs

  abbrev pub all : (A → Bool) → List A → Bool
  all p [] = true
  all p (x ∷ xs) = p x && all p xs

  -- `[x for x in xs if p(x)]`
  abbrev pub keep : (A → Bool) → List A → List A
  keep p [] = []
  keep p (x ∷ xs) = let rest = keep p xs in if p x then x ∷ rest else rest

  -- `sum(weight(x) for x in xs)`
  abbrev pub sum_by : (A → ℕ) → List A → ℕ
  sum_by weight [] = 0
  sum_by weight (x ∷ xs) = weight x + sum_by weight xs

  pub sum_by-append :
      (weight : A → ℕ) (xs : List A) (x : A)
      → sum_by weight (xs ++ x ∷ []) ≡ sum_by weight xs + weight x
  sum_by-append weight [] x = ground arith
  sum_by-append weight (y ∷ xs) x = ground (arith, sum_by-append weight xs x)

  abbrev pub All {κ} : (A → Type κ) → List A → Type κ
  All P [] = Unit
  All P (x ∷ xs) = P x × All P xs

  pub length-append : (xs ys : List A) → length (xs ++ ys) ≡ length xs + length ys
  length-append [] ys = omega arith
  length-append (x ∷ xs) ys = omega (arith, length-append xs ys)

  pub length-take-le : (n : ℕ) (xs : List A) → length (take n xs) ≤ n
  length-take-le zero xs = omega arith
  length-take-le (suc n) [] = omega arith
  length-take-le (suc n) (x ∷ xs) = omega (arith, length-take-le n xs)

  pub All-append {κ} : (P : A → Type κ) (xs ys : List A) → All P xs → All P ys → All P (xs ++ ys)
  All-append P [] ys h k = k
  All-append P (x ∷ xs) ys h k = (h.0, All-append P xs ys h.1 k)

  pub All-take {κ} : (P : A → Type κ) (n : ℕ) (xs : List A) → All P xs → All P (take n xs)
  All-take P zero xs h = tt
  All-take P (suc n) [] h = tt
  All-take P (suc n) (x ∷ xs) h = (h.0, All-take P n xs h.1)

  pub All-imp {κ μ} :
      (P : A → Type κ) (Q : A → Type μ)
      → ((x : A) → P x → Q x)
      → (xs : List A) → All P xs
      → All Q xs
  All-imp P Q f [] h = tt
  All-imp P Q f (x ∷ xs) h = (f x h.0, All-imp P Q f xs h.1)

  pub All-of_all : (p : A → Bool) (xs : List A) → all p xs ≡ true → All (λ x. p x ≡ true) xs
  All-of_all p [] h = tt
  All-of_all p (x ∷ xs) h = (ground arith, All-of_all p xs (ground arith))

  pub all-of_All : (p : A → Bool) (xs : List A) → All (λ x. p x ≡ true) xs → all p xs ≡ true
  all-of_All p [] h = refl
  all-of_All p (x ∷ xs) h = ground (arith, h.0, all-of_All p xs h.1)

  pub All-of_not_any : (p : A → Bool) (xs : List A) → any p xs ≡ false → All (λ x. p x ≡ false) xs
  All-of_not_any p [] h = tt
  All-of_not_any p (x ∷ xs) h = (ground arith, All-of_not_any p xs (ground arith))

module _ {ℓ} {A : Type ℓ} ⦃e : Eq A⦄ where
  -- `x in xs`
  abbrev pub contains : List A → A → Bool
  contains [] a = false
  contains (x ∷ xs) a = a == x || contains xs a

  -- `set(xs).issubset(ys)`
  abbrev pub is_subset : List A → List A → Bool
  is_subset xs ys = all (contains ys) xs

  -- `set(xs).isdisjoint(ys)`
  abbrev pub is_disjoint : List A → List A → Bool
  is_disjoint xs ys = all (λ x. not (contains ys x)) xs

  -- `set(xs)`: one occurrence of each value
  abbrev pub to_set : List A → List A
  to_set [] = []
  to_set (x ∷ xs) = let rest = to_set xs in if contains rest x then rest else x ∷ rest

  -- `len(set(xs)) == len(xs)`
  abbrev pub has_unique : List A → Bool
  has_unique xs = length (to_set xs) == length xs

  abbrev pub Distinct : List A → Type 0
  Distinct [] = Unit
  Distinct (x ∷ xs) = (contains xs x ≡ false) × Distinct xs

  pub contains-append :
      (xs ys : List A) (a : A) → contains (xs ++ ys) a ≡ (contains xs a || contains ys a)
  contains-append [] ys a = refl
  contains-append (x ∷ xs) ys a = ground (arith, contains-append xs ys a)

  length-to_set-le : (xs : List A) → length (to_set xs) ≤ length xs
  length-to_set-le [] = omega arith
  length-to_set-le (x ∷ xs) = ground (arith, length-to_set-le xs)

  contains-to_set : (xs : List A) (a : A) → contains (to_set xs) a ≡ contains xs a
  contains-to_set [] a = refl
  contains-to_set (x ∷ xs) a = ground (arith, contains-to_set xs a, contains-to_set xs x)

  full_set_Distinct : (xs : List A) → length (to_set xs) ≡ length xs → Distinct xs
  full_set_Distinct [] h = tt
  full_set_Distinct (x ∷ xs) h = (
    ground (arith, length-to_set-le xs, contains-to_set xs x),
    full_set_Distinct xs (ground (arith, length-to_set-le xs)),
  )

  Distinct-full_set : (xs : List A) → Distinct xs → length (to_set xs) ≡ length xs
  Distinct-full_set [] d = refl
  Distinct-full_set (x ∷ xs) d = ground (arith, Distinct-full_set xs d.1, contains-to_set xs x)

  -- The comparison of lengths says whether the values are pairwise different.
  pub has_unique_iff : (xs : List A) → (has_unique xs ≡ true) ↔ Distinct xs
  has_unique_iff xs =
      (λ h. full_set_Distinct xs (ground arith), λ d. ground (arith, Distinct-full_set xs d))

  -- The loop that keeps the values it has seen and stops at one that it has seen before.
  abbrev pub all_new : List A → List A → Bool
  all_new seen [] = true
  all_new seen (x ∷ xs) = not (contains seen x) && all_new (x ∷ seen) xs

  abbrev NewTo : List A → List A → Type 0
  NewTo seen xs = All (λ x. contains seen x ≡ false) xs

  NewTo-cons :
      (seen : List A) (x : A) (xs : List A)
      → NewTo (x ∷ seen) xs
      → (contains xs x ≡ false) × NewTo seen xs
  NewTo-cons seen x [] h = (refl, tt)
  NewTo-cons seen x (y ∷ ys) h =
      let again = NewTo-cons seen x ys h.1 in
      (ground (arith, h.0, again.0), (ground (arith, h.0), again.1))

  cons-NewTo :
      (seen : List A) (x : A) (xs : List A)
      → contains xs x ≡ false
      → NewTo seen xs
      → NewTo (x ∷ seen) xs
  cons-NewTo seen x [] d h = tt
  cons-NewTo seen x (y ∷ ys) d h =
      (ground (arith, h.0, d), cons-NewTo seen x ys (ground (arith, d)) h.1)

  all_new_sound : (seen xs : List A) → all_new seen xs ≡ true → Distinct xs × NewTo seen xs
  all_new_sound seen [] h = (tt, tt)
  all_new_sound seen (x ∷ xs) h =
      let again = all_new_sound (x ∷ seen) xs (ground arith) in
      let split = NewTo-cons seen x xs again.1 in ((split.0, again.0), (ground arith, split.1))

  all_new_complete : (seen xs : List A) → Distinct xs → NewTo seen xs → all_new seen xs ≡ true
  all_new_complete seen [] d n = refl
  all_new_complete seen (x ∷ xs) d n =
      ground (arith, all_new_complete (x ∷ seen) xs d.1 (cons-NewTo seen x xs d.0 n.1), n.0)

  NewTo-nothing : (xs : List A) → NewTo [] xs
  NewTo-nothing [] = tt
  NewTo-nothing (x ∷ xs) = (refl, NewTo-nothing xs)

  -- From nothing seen, the loop passes exactly for pairwise different values.
  pub all_new_iff : (xs : List A) → (all_new [] xs ≡ true) ↔ Distinct xs
  all_new_iff xs =
      (λ h. (all_new_sound [] xs h).0, λ d. all_new_complete [] xs d (NewTo-nothing xs))
