-- ===== src/Base/Dict.antt =====
-- JavaScript's `Set` and `Map` with string keys, in insertion order.
use Prim.Native.String.{String}
use mathlib.Core.Path.{◌≡◌, refl}
use mathlib.Core.Bool.{Bool, true, false, not, ◌&&◌, ◌||◌}
use mathlib.Core.Option.{Option, none, some}
use mathlib.Core.List.{List, [], ◌∷◌}
use native.Mathlib.Omega.{arith}
use skillwire.Base.Tests.{if◌then◌else◌}
use skillwire.Base.Text.{◌===◌, ===_iff, includes}

-- `set.add(x)`
unfoldable pub insert : List String → String → List String
insert [] x = x ∷ []
insert (y ∷ ys) x = let rest = insert ys x in if y === x then y ∷ ys else y ∷ rest

-- `set.delete(x)`
unfoldable pub remove : List String → String → List String
remove [] x = []
remove (y ∷ ys) x = let rest = remove ys x in if y === x then rest else y ∷ rest

-- `set.size > 0`
abbrev pub is_inhabited {ℓ} : {A : Type ℓ} → List A → Bool
is_inhabited [] = false
is_inhabited (x ∷ xs) = true

pub includes-insert :
    (ys : List String) (x z : String) → includes (insert ys x) z ≡ (x === z || includes ys z)
unfolding insert
includes-insert [] x z = refl
includes-insert (y ∷ ys) x z =
    ground (arith, includes-insert ys x z, ===_iff y x, ===_iff y z, ===_iff x z)

pub includes-remove :
    (ys : List String) (x z : String) → includes (remove ys x) z ≡ (not (x === z) && includes ys z)
unfolding remove
includes-remove [] x z = ground arith
includes-remove (y ∷ ys) x z =
    ground (arith, includes-remove ys x z, ===_iff y x, ===_iff y z, ===_iff x z)

-- A set is inhabited when it has some member.
pub is_inhabited-includes :
    (ys : List String) → is_inhabited ys ≡ true → (x : String) × (includes ys x ≡ true)
is_inhabited-includes [] h = absurd (cc h)
is_inhabited-includes (y ∷ ys) h = (y, ground (arith, ===_iff y y))

pub includes-is_inhabited :
    (ys : List String) (x : String) → includes ys x ≡ true → is_inhabited ys ≡ true
includes-is_inhabited [] x h = cc h
includes-is_inhabited (y ∷ ys) x h = refl

module _ {ℓ} {V : Type ℓ} where
  -- `map.get(key)`
  unfoldable pub get : List (String × V) → String → Option V
  get [] key = none
  get ((k, v) ∷ rest) key = if k === key then some v else get rest key

  -- `map.set(key, value)`
  unfoldable pub put : List (String × V) → String → V → List (String × V)
  put [] key value = (key, value) ∷ []
  put ((k, v) ∷ rest) key value =
      let more = put rest key value in if k === key then (k, value) ∷ rest else (k, v) ∷ more

  -- `map.delete(key)`
  unfoldable pub discard : List (String × V) → String → List (String × V)
  discard [] key = []
  discard ((k, v) ∷ rest) key =
      let more = discard rest key in if k === key then more else (k, v) ∷ more

  pub get-put :
      (m : List (String × V)) (key : String) (value : V) (j : String)
      → get (put m key value) j ≡ (if key === j then some value else get m j)
  unfolding get put
  get-put [] key value j = refl
  get-put ((k, v) ∷ rest) key value j =
      ground (arith, get-put rest key value j, ===_iff k key, ===_iff k j, ===_iff key j)

  pub get-discard :
      (m : List (String × V)) (key j : String)
      → get (discard m key) j ≡ (if key === j then none else get m j)
  unfolding get discard
  get-discard [] key j = ground arith
  get-discard ((k, v) ∷ rest) key j =
      ground (arith, get-discard rest key j, ===_iff k key, ===_iff k j, ===_iff key j)

  -- `[...map.keys()]`
  abbrev pub keys : List (String × V) → List String
  keys [] = []
  keys ((k, v) ∷ rest) = k ∷ keys rest
