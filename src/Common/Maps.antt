-- ===== src/Common/Maps.antt =====
-- `std::map` with numbers as keys: an association list in the order of the keys.
use Prim.Native.Nat.{ℕ}
use mathlib.Core.Path.{◌≡◌, refl}
use mathlib.Core.List.{List, [], ◌∷◌}
use mathlib.Core.Option.{Option, none, some}
use native.Mathlib.Omega.{arith}
use linuxgameserver.Common.Tests.{ltb, ◌==◌, if◌then◌else◌}

pub record Entry {ℓ} (V : Type ℓ) : Type ℓ where
  pub key : ℕ
  pub value : V

abbrev pub Map {ℓ} : Type ℓ → Type ℓ
Map V = List (Entry V)

module _ {ℓ} {V : Type ℓ} where
  -- `find`, with `none` for `end()`.
  unfoldable pub find : Map V → ℕ → Option V
  find [] k = none
  find (e ∷ m) k = if k == e.key then some e.value else find m k

  -- `m[k] = v`, which keeps the order.
  unfoldable pub assign : Map V → ℕ → V → Map V
  assign [] k v = record { key = k; value = v } ∷ []
  assign (e ∷ m) k v =
      let rest = assign m k v in
      if ltb k e.key
      then record { key = k; value = v } ∷ (e ∷ m)
      else if k == e.key
      then record { key = k; value = v } ∷ m
      else e ∷ rest

  -- `erase` of the entry that `find` has found.
  unfoldable pub erase : Map V → ℕ → Map V
  erase [] k = []
  erase (e ∷ m) k = let rest = erase m k in if k == e.key then rest else e ∷ rest

  pub find-assign :
      (m : Map V) (k j : ℕ) (v : V) → find (assign m k v) j ≡ (if j == k then some v else find m j)
  unfolding find assign
  find-assign [] k j v = refl
  find-assign (e ∷ m) k j v = ground (arith, find-assign m k j v)

  pub find-erase : (m : Map V) (k j : ℕ) → find (erase m k) j ≡ (if j == k then none else find m j)
  unfolding find erase
  find-erase [] k j = ground arith
  find-erase (e ∷ m) k j = ground (arith, find-erase m k j)
