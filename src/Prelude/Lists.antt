-- ===== src/Prelude/Lists.antt =====
-- Lists measured and indexed by native numbers, under the library's names.
use Prim.Native.Nat.{ℕ, zero, suc, ◌+◌}
use Prim.Native.String.{String}
use mathlib.Core.Path.{◌≡◌}
use mathlib.Core.Logic.{◌⊎◌}
use mathlib.Core.Bool.{Bool, false, ◌||◌}
use mathlib.Core.List.{List, [], ◌∷◌, ◌++◌}
use native.Mathlib.Omega.{arith}
use codeforge.Prelude.Tests.{◌=s◌, if◌then◌else◌}

module _ {ℓ} {A : Type ℓ} where
  abbrev pub length : List A → ℕ
  length [] = 0
  length (x ∷ xs) = suc (length xs)

  abbrev pub take : ℕ → List A → List A
  take zero xs = []
  take (suc n) [] = []
  take (suc n) (x ∷ xs) = x ∷ take n xs

  abbrev pub drop : ℕ → List A → List A
  drop zero xs = xs
  drop (suc n) [] = []
  drop (suc n) (x ∷ xs) = drop n xs

  pub length-append : (xs ys : List A) → length (xs ++ ys) ≡ length xs + length ys
  length-append [] ys = omega arith
  length-append (x ∷ xs) ys = omega (arith, length-append xs ys)

abbrev pub In : {A : Type 0} → A → List A → Type 0
In a [] = ⊥
In a (x ∷ xs) = (x ≡ a) ⊎ In a xs

-- Members of a list of texts, counted, and the removal of the first one.
abbrev pub count : String → List String → ℕ
count a [] = 0
count a (x ∷ xs) = if x =s a then suc (count a xs) else count a xs

abbrev pub erase : String → List String → List String
erase a [] = []
erase a (x ∷ xs) = if x =s a then xs else x ∷ erase a xs

abbrev pub contains : List String → String → Bool
contains [] a = false
contains (x ∷ xs) a = x =s a || contains xs a

-- Go's maps of texts as lists of keys with their values: a write, and a read, empty where there is
-- no key.
abbrev pub set_key : String → String → List (String × String) → List (String × String)
set_key k v [] = (k, v) ∷ []
set_key k v ((j, u) ∷ rest) = if j =s k then (k, v) ∷ rest else (j, u) ∷ set_key k v rest

abbrev pub value_of : String → List (String × String) → String
value_of k [] = ""
value_of k ((j, u) ∷ rest) = if j =s k then u else value_of k rest
