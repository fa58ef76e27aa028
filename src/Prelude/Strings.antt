-- ===== src/Prelude/Strings.antt =====
-- The equality test on texts.
use package.text.Mathlib.TextEquality.{path_by_compare}
use package.text.Mathlib.TextPositions.{compare_refl}
use Prim.Native.Nat.{Ordering}
use Prim.Native.String.{String, compare}
use mathlib.Core.Path.{◌≡◌, refl, ap}
use mathlib.Core.Bool.{Bool, true, false}

abbrev pub is_eq : Ordering → Bool
is_eq Ordering.eq = true
is_eq Ordering.lt = false
is_eq Ordering.gt = false

abbrev pub str_eq : String → String → Bool
str_eq s t = is_eq (compare s t)

is_eq-eq : (o : Ordering) → is_eq o ≡ true → o ≡ Ordering.eq
is_eq-eq Ordering.eq h = refl
is_eq-eq Ordering.lt h = cc
is_eq-eq Ordering.gt h = cc

pub str_eq-eq : (s t : String) → str_eq s t ≡ true → s ≡ t
str_eq-eq s t h = path_by_compare s t (is_eq-eq _ h)

pub str_eq_refl : (s : String) → str_eq s s ≡ true
str_eq_refl s = ap is_eq (compare_refl s)
