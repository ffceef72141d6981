-- ===== src/Base/Text.antt =====
-- Python's order on strings, by code points.
use Prim.Native.Nat.{ℕ, Ordering, compare as compare_ℕ}
use Prim.Native.Char.{code}
use Prim.Native.String.compare
use Prim.Native.String.{String, [], ◌∷◌, compare, then}
use mathlib.Core.Path.{◌≡◌, refl, ap}
use mathlib.Core.Bool.{Bool, true, false}
use native.Mathlib.Omega.{arith}
use text.Mathlib.TextEquality.{path_by_compare}

abbrev flip : Ordering → Ordering
flip Ordering.lt = Ordering.gt
flip Ordering.eq = Ordering.eq
flip Ordering.gt = Ordering.lt

abbrev pub is_le : Ordering → Bool
is_le Ordering.gt = false
is_le _ = true

-- `s <= t`
unfoldable pub string_le : String → String → Bool
string_le s t = is_le (compare s t)

compare_ℕ-flip : (m n : ℕ) → compare_ℕ n m ≡ flip (compare_ℕ m n)
compare_ℕ-flip m n = ground arith

flip-then : (o p : Ordering) → flip (then o p) ≡ then (flip o) (flip p)
flip-then Ordering.lt p = refl
flip-then Ordering.eq p = refl
flip-then Ordering.gt p = refl

compare-flip : (s t : String) → compare t s ≡ flip (compare s t)
compare-flip [] [] = rw compare.nil-nil refl
compare-flip [] (d ∷ t) = rw (compare.nil-cons, compare.cons-nil) refl
compare-flip (c ∷ s) [] = rw (compare.nil-cons, compare.cons-nil) refl
compare-flip (c ∷ s) (d ∷ t) =
    rw
      (
        compare.cons-cons c d s t,
        compare.cons-cons d c t s,
        compare-flip s t,
        compare_ℕ-flip (code c) (code d),
        flip-then,
      )
      refl

pub string_le_total : (s t : String) → string_le s t ≡ false → string_le t s ≡ true
unfolding string_le
string_le_total s t h = ground (arith, compare-flip s t)

pub string_le_antisymm : (s t : String) → string_le s t ≡ true → string_le t s ≡ true → s ≡ t
unfolding string_le
string_le_antisymm s t h k = path_by_compare s t (ground (arith, compare-flip s t))

is_le-then :
    (m n k : ℕ) (p q r : Ordering)
    → (is_le p ≡ true → is_le q ≡ true → is_le r ≡ true)
    → is_le (then (compare_ℕ m n) p) ≡ true
    → is_le (then (compare_ℕ n k) q) ≡ true
    → is_le (then (compare_ℕ m k) r) ≡ true
is_le-then m n k p q r f h h' = ground arith

compare_trans :
    (s t u : String)
    → is_le (compare s t) ≡ true
    → is_le (compare t u) ≡ true
    → is_le (compare s u) ≡ true
compare_trans [] t [] h k = ap is_le compare.nil-nil
compare_trans [] t (e ∷ u) h k = ap is_le (compare.nil-cons e u)
compare_trans (c ∷ s) [] u h k = cc (compare.cons-nil c s)
compare_trans (c ∷ s) (d ∷ t) [] h k = cc (compare.cons-nil d t)
compare_trans (c ∷ s) (d ∷ t) (e ∷ u) h k = rw compare.cons-cons (
    is_le-then (code c) (code d) (code e) (compare s t) (compare t u) (compare s u)
      (compare_trans s t u) (rw compare.cons-cons at h) (rw compare.cons-cons at k))

pub string_le_trans :
    (s t u : String) → string_le s t ≡ true → string_le t u ≡ true → string_le s u ≡ true
unfolding string_le
string_le_trans = compare_trans
