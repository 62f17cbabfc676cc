-- ===== src/Prelude/Maps.antt =====
-- The standard library's `HashMap` as an association list with at most one entry for a key. The
-- order of its entries stands for the unspecified iteration order.
use Prim.Native.Nat.{◌≤◌}
use mathlib.Core.Path.{◌≡◌, refl}
use mathlib.Core.Logic.{ite}
use mathlib.Core.Bool.{Bool}
use mathlib.Core.List.{List, [], ◌∷◌, map}
use mathlib.Core.Option.{Option, none, some}
use native.Mathlib.Omega.{arith}
use bunzo.Prelude.Tests.{if◌then◌else◌, is_some}
use bunzo.Prelude.Lists.{length}

abbrev pub HashMap {ℓ} : Type ℓ → Type ℓ → Type ℓ
HashMap K V = List (K × V)

module _ {ℓ} {K : Type ℓ} {V : Type ℓ} (dec : Discrete K) where
  unfoldable pub get : K → HashMap K V → Option V
  get k [] = none
  get k ((j, v) ∷ m) = ite (dec j k) (some v) (get k m)

  unfoldable pub remove : K → HashMap K V → HashMap K V
  remove k [] = []
  remove k ((j, v) ∷ m) = let rest = remove k m in ite (dec j k) rest ((j, v) ∷ rest)

  unfoldable pub insert : K → V → HashMap K V → HashMap K V
  unfolding remove
  insert k v m = (k, v) ∷ remove k m

  abbrev pub contains_key : K → HashMap K V → Bool
  contains_key k m = is_some (get k m)

  pub get-remove : (k j : K) (m : HashMap K V) → get j (remove k m) ≡ ite (dec k j) none (get j m)
  unfolding get remove
  get-remove k j [] = ground arith
  get-remove k j ((i, v) ∷ m) = ground (arith, get-remove k j m)

  pub get-insert :
      (k j : K) (v : V) (m : HashMap K V) → get j (insert k v m) ≡ ite (dec k j) (some v) (get j m)
  unfolding get insert
  get-insert k j v m = ground (arith, get-remove k j m)

  pub remove_absent : (k : K) (m : HashMap K V) → get k m ≡ none → remove k m ≡ m
  unfolding get remove
  remove_absent k [] h = refl
  remove_absent k ((j, v) ∷ m) h = ground (arith, remove_absent k m)

  pub length-remove-le : (k : K) (m : HashMap K V) → length (remove k m) ≤ length m
  unfolding remove
  length-remove-le k [] = omega arith
  length-remove-le k ((j, v) ∷ m) = ground (arith, length-remove-le k m)

module _ {ℓ} {K : Type ℓ} {V : Type ℓ} where
  -- `retain`, where the closure may also update the value that it is shown.
  unfoldable pub retain : (V → V) → (V → Bool) → HashMap K V → HashMap K V
  retain update test [] = []
  retain update test ((k, v) ∷ m) =
      let rest = retain update test m in
      let v' = update v in if test v' then (k, v') ∷ rest else rest

  abbrev pub keys : HashMap K V → List K
  keys = map (λ e. e.0)

  abbrev pub values : HashMap K V → List V
  values = map (λ e. e.1)

-- No key occurs twice, as in every map that is built by `insert`, `remove` and `retain`.
module _ {K V : Type 0} (dec : Discrete K) where
  abbrev pub UniqueKeys : HashMap K V → Type 0
  UniqueKeys [] = Unit
  UniqueKeys ((k, v) ∷ m) = (get dec k m ≡ none) × UniqueKeys m

  pub remove-UniqueKeys : (k : K) (m : HashMap K V) → UniqueKeys m → UniqueKeys (remove dec k m)
  unfolding remove
  remove-UniqueKeys k [] u = tt
  remove-UniqueKeys k ((j, v) ∷ m) u =
      ground (arith, remove-UniqueKeys k m u.1, get-remove dec k j m)

  pub insert-UniqueKeys :
      (k : K) (v : V) (m : HashMap K V) → UniqueKeys m → UniqueKeys (insert dec k v m)
  unfolding insert
  insert-UniqueKeys k v m u = ground (arith, remove-UniqueKeys k m u, get-remove dec k k m)

  -- What a map answers after `retain`.
  abbrev pub kept : (V → V) → (V → Bool) → Option V → Option V
  kept update test none = none
  kept update test (some v) = if test (update v) then some (update v) else none

  pub get-retain :
      (update : V → V) (test : V → Bool) (k : K) (m : HashMap K V)
      → UniqueKeys m
      → get dec k (retain update test m) ≡ kept update test (get dec k m)
  unfolding get retain
  get-retain update test k [] u = refl
  get-retain update test k ((j, v) ∷ m) u = ground (arith, get-retain update test k m u.1)

  pub retain-UniqueKeys :
      (update : V → V) (test : V → Bool) (m : HashMap K V)
      → UniqueKeys m
      → UniqueKeys (retain update test m)
  unfolding retain
  retain-UniqueKeys update test [] u = tt
  retain-UniqueKeys update test ((j, v) ∷ m) u =
      ground (arith, retain-UniqueKeys update test m u.1, get-retain update test j m u.1)
