-- ===== src/Common/Distinct.antt =====
-- Lists of numbers with no number twice.
use Prim.Native.Nat.{ℕ}
use mathlib.Core.Bool.{Bool, true, false, ◌||◌}
use mathlib.Core.List.{List, [], ◌∷◌, ◌++◌}
use mathlib.Core.Path.{◌≡◌, refl}
use native.Mathlib.Omega.{arith}
use command_stats.Common.Tests.{◌==◌}

abbrev pub has : ℕ → List ℕ → Bool
has a [] = false
has a (x ∷ xs) = (x == a) || has a xs

abbrev pub Distinct : List ℕ → Type 0
Distinct [] = Unit
Distinct (x ∷ xs) = (has x xs ≡ false) × Distinct xs

pub has-append : (a : ℕ) (xs ys : List ℕ) → has a (xs ++ ys) ≡ (has a xs || has a ys)
has-append a [] ys = refl
has-append a (x ∷ xs) ys = ground (arith, has-append a xs ys)

pub has-append_left : (a : ℕ) (xs ys : List ℕ) → has a xs ≡ true → has a (xs ++ ys) ≡ true
has-append_left a xs ys h = ground (arith, has-append a xs ys)

pub has-append_right : (a : ℕ) (xs ys : List ℕ) → has a ys ≡ true → has a (xs ++ ys) ≡ true
has-append_right a xs ys h = ground (arith, has-append a xs ys)

pub Distinct-left : (xs ys : List ℕ) → Distinct (xs ++ ys) → Distinct xs
Distinct-left [] ys d = tt
Distinct-left (x ∷ xs) ys d = (ground (arith, has-append x xs ys, d.0), Distinct-left xs ys d.1)

pub Distinct-right : (xs ys : List ℕ) → Distinct (xs ++ ys) → Distinct ys
Distinct-right [] ys d = d
Distinct-right (x ∷ xs) ys d = Distinct-right xs ys d.1

-- What stands on the left does not stand on the right.
pub Distinct-apart :
    (a : ℕ) (xs ys : List ℕ) → Distinct (xs ++ ys) → has a ys ≡ true → has a xs ≡ false
Distinct-apart a [] ys d h = refl
Distinct-apart a (x ∷ xs) ys d h =
    ground (arith, has-append x xs ys, d.0, Distinct-apart a xs ys d.1 h)
