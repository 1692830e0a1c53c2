-- ===== src/Prelude/Maps.antt =====
-- A JavaScript object or Map with text keys, as an association list in insertion order.
use Prim.Native.String.{String}
use mathlib.Core.Path.{◌≡◌, refl}
use mathlib.Core.List.{List, [], ◌∷◌, ◌++◌}
use mathlib.Core.Option.{Option, none, some}
use native.Mathlib.Omega.{arith}
use text.Mathlib.Text.{◌==◌}
use text.Mathlib.TextEquality.{eq_iff}
use claude_powerplant.Prelude.Tests.{if◌then◌else◌}

-- The names that a plain object has without a key of its own, by way of `Object.prototype`
abbrev pub inherited_names : List String
inherited_names =
    "constructor" ∷ "__defineGetter__" ∷ "__defineSetter__" ∷ "hasOwnProperty" ∷ "__lookupGetter__"
    ∷ "__lookupSetter__" ∷ "isPrototypeOf" ∷ "propertyIsEnumerable" ∷ "toString" ∷ "valueOf"
    ∷ "__proto__" ∷ "toLocaleString" ∷ []

abbrev pub Dict {ℓ} : Type ℓ → Type ℓ
Dict V = List (String × V)

module _ {ℓ} {V : Type ℓ} where
  -- `m[k]`, `m.get(k)`
  unfoldable pub get : Dict V → String → Option V
  get [] k = none
  get ((j, v) ∷ m) k = if j == k then some v else get m k

  -- `m[k] = v`, `m.set(k, v)`
  unfoldable pub put : String → V → Dict V → Dict V
  put k v [] = (k, v) ∷ []
  put k v ((j, w) ∷ m) = if j == k then (k, v) ∷ m else (j, w) ∷ put k v m

  -- `Object.keys(m)`
  unfoldable pub keys : Dict V → List String
  keys [] = []
  keys ((j, _) ∷ m) = j ∷ keys m

  pub get-put :
      (k j : String) (v : V) (m : Dict V) → get (put k v m) j ≡ (if k == j then some v else get m j)
  unfolding get put
  get-put k j v [] = refl
  get-put k j v ((i, w) ∷ m) = ground (arith, eq_iff k j, eq_iff i k, eq_iff i j, get-put k j v m)

  pub get-put_same : (k : String) (v : V) (m : Dict V) → get (put k v m) k ≡ some v
  unfolding get put
  get-put_same k v m = ground (arith, get-put k k v m, eq_iff k k)

  -- A new key goes to the end.
  pub put_of_absent :
      (k : String) (v : V) (m : Dict V) → get m k ≡ none → put k v m ≡ m ++ (k, v) ∷ []
  unfolding get put
  put_of_absent k v [] e = refl
  put_of_absent k v ((j, w) ∷ m) e = ground (arith, put_of_absent k v m, eq_iff j k)
