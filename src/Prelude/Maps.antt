-- ===== src/Prelude/Maps.antt =====
-- Go maps with integer keys as association lists, and stores: total functions from addresses.
use Prim.Native.Nat.{ℕ}
use mathlib.Core.Path.{◌≡◌, refl}
use mathlib.Core.List.{List, [], ◌∷◌}
use mathlib.Core.Option.{Option, none, some}
use native.Mathlib.Omega.{arith}
use mathlib.Core.Bool.{true}
use likegochat.Prelude.Tests.{◌==◌, if◌then◌else◌}
use likegochat.Prelude.Lists.{mem}

abbrev pub Map {ℓ} : Type ℓ → Type ℓ
Map V = List (ℕ × V)

module _ {ℓ} {V : Type ℓ} where
  unfoldable pub lookup : ℕ → Map V → Option V
  lookup x [] = none
  lookup x ((y, found) ∷ rest) = if y == x then some found else lookup x rest

  unfoldable pub insert : ℕ → V → Map V → Map V
  insert x new [] = (x, new) ∷ []
  insert x new ((y, old) ∷ rest) = if y == x then (x, new) ∷ rest else (y, old) ∷ insert x new rest

  unfoldable pub delete : ℕ → Map V → Map V
  delete x [] = []
  delete x ((y, old) ∷ rest) = let kept = delete x rest in if y == x then kept else (y, old) ∷ kept

  pub lookup-insert :
      (x y : ℕ) (new : V) (entries : Map V)
      → lookup y (insert x new entries) ≡ (if x == y then some new else lookup y entries)
  unfolding lookup insert
  lookup-insert x y new [] = refl
  lookup-insert x y new ((z, old) ∷ rest) = ground (arith, lookup-insert x y new rest)

  pub lookup-delete :
      (x y : ℕ) (entries : Map V)
      → lookup y (delete x entries) ≡ (if x == y then none else lookup y entries)
  unfolding lookup delete
  lookup-delete x y [] = ground arith
  lookup-delete x y ((z, old) ∷ rest) = ground (arith, lookup-delete x y rest)

  -- A write to one address of a store.
  abbrev pub update : (ℕ → V) → ℕ → V → ℕ → V
  update f p v q = if p == q then v else f q

  abbrev pub keys : Map V → List ℕ
  keys [] = []
  keys ((j, v) ∷ m) = j ∷ keys m

  pub mem-keys : (k : ℕ) (m : Map V) {v : V} → lookup k m ≡ some v → mem k (keys m) ≡ true
  unfolding lookup
  mem-keys k [] h = cc
  mem-keys k ((j, w) ∷ m) {v} h = ground (arith, mem-keys k m {v = v})
