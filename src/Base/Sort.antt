-- ===== src/Base/Sort.antt =====
-- Python's stable `sorted` with a key, for keys whose order is total.
pub mod Laws
pub mod Keyed
use mathlib.Core.Path.{◌≡◌, refl}
use mathlib.Core.Bool.{Bool, true, false, ◌&&◌}
use mathlib.Core.List.{List, [], ◌∷◌}
use Prim.Native.Nat.{ℕ}
use Prim.Native.String.{String}
use native.Mathlib.Omega.{arith}
use ai_systems_try.Base.Equality.{if◌then◌else◌}
use ai_systems_try.Base.Tests.{leb}
use ai_systems_try.Base.Text.{string_le, string_le_total, string_le_trans}

pub record Ord {ℓ} (K : Type ℓ) : Type ℓ where
  pub le : K → K → Bool
  pub total : (a b : K) → le a b ≡ false → le b a ≡ true
  pub trans : (a b c : K) → le a b ≡ true → le b c ≡ true → le a c ≡ true

pub leb_total : (a b : ℕ) → leb a b ≡ false → leb b a ≡ true
leb_total a b h = ground arith

pub leb_trans : (a b c : ℕ) → leb a b ≡ true → leb b c ≡ true → leb a c ≡ true
leb_trans a b c h k = ground arith

instance abbrev pub nat_ord : Ord ℕ
nat_ord = record { le = leb; total = leb_total; trans = leb_trans }

instance abbrev pub string_ord : Ord String
string_ord = record { le = string_le; total = string_le_total; trans = string_le_trans }

-- Tuples compare by their first component, and by the next where those are equal.
abbrev pub pair_le {ℓ κ} : {A : Type ℓ} {B : Type κ} → Ord A → Ord B → A × B → A × B → Bool
pair_le oa ob (a, b) (c, d) = if oa.le a c then (if oa.le c a then ob.le b d else true) else false

module _ {ℓ κ} {A : Type ℓ} {B : Type κ} (oa : Ord A) (ob : Ord B) where
  pub pair_le_total : (p q : A × B) → pair_le oa ob p q ≡ false → pair_le oa ob q p ≡ true
  pair_le_total (a, b) (c, d) h =
      ground (arith, oa.total a c, oa.total c a, ob.total b d, ob.total d b)

  pub pair_le_trans :
      (p q r : A × B)
      → pair_le oa ob p q ≡ true
      → pair_le oa ob q r ≡ true
      → pair_le oa ob p r ≡ true
  pair_le_trans (a, b) (c, d) (e, f) h k =
      ground (arith, oa.trans a c e, oa.trans e a c, oa.trans c e a, ob.trans b d f)

instance abbrev pub pair_ord {ℓ κ} :
    {A : Type ℓ} {B : Type κ} ⦃oa : Ord A⦄ ⦃ob : Ord B⦄ → Ord (A × B)
pair_ord ⦃oa⦄ ⦃ob⦄ = record {
  le = pair_le oa ob;
  total = pair_le_total oa ob;
  trans = pair_le_trans oa ob;
}

module _ {ℓ κ} {A : Type ℓ} {K : Type κ} ⦃o : Ord K⦄ (key : A → K) where
  insert_sorted : A → List A → List A
  insert_sorted x [] = x ∷ []
  insert_sorted x (y ∷ ys) =
      let rest = insert_sorted x ys in if o.le (key x) (key y) then x ∷ y ∷ ys else y ∷ rest

  -- `sorted(xs, key=key)`
  unfoldable pub sorted : List A → List A
  unfolding insert_sorted
  sorted [] = []
  sorted (x ∷ xs) = insert_sorted x (sorted xs)
