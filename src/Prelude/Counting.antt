-- ===== src/Prelude/Counting.antt =====
-- How often a handle occurs in a list of handles.
use mathlib.Core.Path.{◌≡◌}
use mathlib.Core.Bool.{Bool, true, false}
use mathlib.Core.List.{List, [], ◌∷◌, ◌++◌}
use mathlib.Core.Option.{Option, none, some}
use native.Mathlib.Omega.{arith}
use Prim.Native.Nat.{ℕ, ◌+◌}
use phonekey.Prelude.Tests.{◌==◌}

-- The handle that a member holds, if it is not NULL.
abbrev pub one : Option ℕ → List ℕ
one none = []
one (some handle) = handle ∷ []

abbrev pub one_if : Bool → ℕ
one_if true = 1
one_if false = 0

abbrev pub occurrences : ℕ → List ℕ → ℕ
occurrences key [] = 0
occurrences key (k ∷ ks) = one_if (k == key) + occurrences key ks

pub occurrences-append :
    (key : ℕ) (xs ys : List ℕ)
    → occurrences key (xs ++ ys) ≡ occurrences key xs + occurrences key ys
occurrences-append key [] ys = omega arith
occurrences-append key (x ∷ xs) ys = omega (arith, occurrences-append key xs ys)
