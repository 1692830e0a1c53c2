-- ===== src/Prelude/Sets.antt =====
-- A JavaScript Set of texts: a list in insertion order with no member twice.
use Prim.Native.Nat.{suc, ◌≤◌}
use Prim.Native.String.{String}
use mathlib.Core.Path.{◌≡◌, refl}
use mathlib.Core.Bool.{Bool, true, false, not, ◌&&◌, ◌||◌}
use mathlib.Core.Logic.{◌↔◌, inl, inr}
use mathlib.Core.List.{List, [], ◌∷◌, ◌++◌}
use native.Mathlib.Omega.{arith}
use text.Mathlib.Text.{◌==◌}
use text.Mathlib.TextEquality.{eq_iff}
use claude_powerplant.Prelude.Tests.{if◌then◌else◌, Bool-cases}
use claude_powerplant.Prelude.Lists.{length}

-- `Set.prototype.has`
unfoldable pub has : List String → String → Bool
has [] k = false
has (x ∷ xs) k = x == k || has xs k

-- `Set.prototype.add`
unfoldable pub add : String → List String → List String
unfolding has
add k xs = if has xs k then xs else xs ++ k ∷ []

-- `Set.prototype.delete`
unfoldable pub delete : String → List String → List String
delete k [] = []
delete k (x ∷ xs) = let rest = delete k xs in if x == k then rest else x ∷ rest

abbrev pub Distinct : List String → Type 0
Distinct [] = Unit
Distinct (x ∷ xs) = (has xs x ≡ false) × Distinct xs

abbrev pub Subset : List String → List String → Type 0
Subset xs ys = (j : String) → has xs j ≡ true → has ys j ≡ true

has-concat : (xs : List String) (k j : String) → has (xs ++ k ∷ []) j ≡ (k == j || has xs j)
unfolding has
has-concat [] k j = ground arith
has-concat (x ∷ xs) k j = ground (arith, has-concat xs k j)

pub has-add : (k : String) (xs : List String) (j : String) → has (add k xs) j ≡ (k == j || has xs j)
unfolding add
has-add k xs j = elim (Bool-cases (has xs k)) [
  | inl old ↦ rw old (ground (arith, old, eq_iff k j))
  | inr new ↦ rw new (has-concat xs k j)
]

pub has-delete :
    (k : String) (xs : List String) (j : String) → has (delete k xs) j ≡ (not (k == j) && has xs j)
unfolding has delete
has-delete k [] j = ground arith
has-delete k (x ∷ xs) j = ground (arith, has-delete k xs j, eq_iff x k, eq_iff k j, eq_iff x j)

Distinct-concat :
    (xs : List String) (k : String) → Distinct xs → has xs k ≡ false → Distinct (xs ++ k ∷ [])
unfolding has
Distinct-concat [] k d h = ground arith
Distinct-concat (x ∷ xs) k d h =
    ground (arith, has-concat xs k x, Distinct-concat xs k d.1, eq_iff x k, eq_iff k x)

pub Distinct-add : (k : String) (xs : List String) → Distinct xs → Distinct (add k xs)
unfolding add
Distinct-add k xs d = elim (Bool-cases (has xs k)) [
  | inl old ↦ rw old d
  | inr new ↦ rw new (Distinct-concat xs k d new)
]

pub Distinct-delete : (k : String) (xs : List String) → Distinct xs → Distinct (delete k xs)
unfolding delete
Distinct-delete k [] d = tt
Distinct-delete k (x ∷ xs) d = ground (arith, has-delete k xs x, Distinct-delete k xs d.1)

delete_of_absent : (k : String) (xs : List String) → has xs k ≡ false → delete k xs ≡ xs
unfolding has delete
delete_of_absent k [] h = refl
delete_of_absent k (x ∷ xs) h = ground (arith, delete_of_absent k xs)

length-delete :
    (k : String) (xs : List String) → Distinct xs → length xs ≤ suc (length (delete k xs))
unfolding has delete
length-delete k [] d = omega arith
length-delete k (x ∷ xs) d =
    ground (arith, length-delete k xs d.1, delete_of_absent k xs, eq_iff x k)

length-delete-le : (k : String) (xs : List String) → length (delete k xs) ≤ length xs
unfolding delete
length-delete-le k [] = omega arith
length-delete-le k (x ∷ xs) = ground (arith, length-delete-le k xs)

length-delete_present :
    (k : String) (xs : List String) → has xs k ≡ true → suc (length (delete k xs)) ≤ length xs
unfolding has delete
length-delete_present k [] h = cc
length-delete_present k (x ∷ xs) h =
    ground (arith, length-delete_present k xs, length-delete-le k xs)

Subset-delete : (xs ys : List String) (y : String) → Subset xs (y ∷ ys) → Subset (delete y xs) ys
unfolding has
Subset-delete xs ys y h j m = ground (arith, has-delete y xs j, h j)

Subset-delete_absent :
    (xs ys : List String) (y : String) → Subset xs ys → has xs y ≡ false → Subset xs (delete y ys)
Subset-delete_absent xs ys y h gone j m = ground (arith, has-delete y ys j, h j, eq_iff y j)

-- The pigeonhole: a set inside another is no larger.
pub length-le_of_Subset : (xs ys : List String) → Distinct xs → Subset xs ys → length xs ≤ length ys
unfolding has
length-le_of_Subset [] [] d h = omega arith
length-le_of_Subset (x ∷ xs) [] d h = absurd (ground (arith, h x, eq_iff x x))
length-le_of_Subset xs (y ∷ ys) d h =
    let ih =
      length-le_of_Subset (delete y xs) ys (Distinct-delete y xs d) (Subset-delete xs ys y h) in
    omega (arith, ih, length-delete y xs d)

-- Two sets, one inside the other, are of one size exactly when each member is shared.
pub length-eq_iff_all_has :
    (xs ys : List String)
    → Distinct xs
    → Distinct ys
    → Subset xs ys
    → (length xs ≡ length ys) ↔ ((j : String) → has ys j ≡ true → has xs j ≡ true)
length-eq_iff_all_has xs ys dx dy h = (shared, same)
  where
    shared : length xs ≡ length ys → (j : String) → has ys j ≡ true → has xs j ≡ true
    shared e j m = elim (Bool-cases (has xs j)) [
      | inl there ↦ there
      | inr gone ↦ absurd (
          omega (
            arith,
            length-delete_present j ys m,
            length-le_of_Subset xs (delete j ys) dx (Subset-delete_absent xs ys j h gone),
          ))
    ]

    same : ((j : String) → has ys j ≡ true → has xs j ≡ true) → length xs ≡ length ys
    same k = omega (arith, length-le_of_Subset xs ys dx h, length-le_of_Subset ys xs dy k)
