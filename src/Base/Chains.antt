-- ===== src/Base/Chains.antt =====
-- Lists whose neighbours are related, as a loop that keeps the value before checks them.
use mathlib.Core.Path.{◌≡◌, refl}
use mathlib.Core.Logic.{◌↔◌}
use mathlib.Core.Bool.{Bool, true, ◌&&◌}
use mathlib.Core.Option.{Option, none, some}
use mathlib.Core.List.{List, [], ◌∷◌}
use native.Mathlib.Omega.{arith}
use ai_systems_try.Base.Lists.{All, All-imp}

module _ {ℓ} {A : Type ℓ} (related : A → A → Bool) where
  abbrev pub after : Option A → A → Bool
  after none x = true
  after (some previous) x = related previous x

  abbrev pub adjacent : Option A → List A → Bool
  adjacent previous [] = true
  adjacent previous (x ∷ xs) = after previous x && adjacent (some x) xs

  -- Every value is related to each one behind it.
  abbrev pub Pairwise : List A → Type 0
  Pairwise [] = Unit
  Pairwise (x ∷ xs) = All (λ y. related x y ≡ true) xs × Pairwise xs

  module _
      (trans : (x y z : A) → related x y ≡ true → related y z ≡ true → related x z ≡ true) where
    adjacent_sound : (x : A) (xs : List A) → adjacent (some x) xs ≡ true → Pairwise (x ∷ xs)
    adjacent_sound x [] h = (tt, tt)
    adjacent_sound x (y ∷ ys) h =
        let (behind, rest) = adjacent_sound y ys (ground arith) in
        let first : related x y ≡ true = ground arith in
        ((first, All-imp _ _ (λ z k. trans x y z first k) ys behind), (behind, rest))

    adjacent_complete : (x : A) (xs : List A) → Pairwise (x ∷ xs) → adjacent (some x) xs ≡ true
    adjacent_complete x [] p = refl
    adjacent_complete x (y ∷ ys) (behind, rest) =
        ground (arith, behind.0, adjacent_complete y ys rest)

    -- Related neighbours are enough for a transitive relation.
    pub adjacent_iff : (xs : List A) → (adjacent none xs ≡ true) ↔ Pairwise xs
    adjacent_iff [] = (λ h. tt, λ p. refl)
    adjacent_iff (x ∷ xs) =
        (λ h. adjacent_sound x xs (ground arith), λ p. ground (arith, adjacent_complete x xs p))
