-- ===== src/Prelude/Dict.antt =====
-- A Python dictionary with integers as keys: a list of entries, each key once, in order of
-- insertion.
use Prim.Native.Nat.{ℕ}
use mathlib.Core.Path.{◌≡◌}
use mathlib.Core.Option.{Option, none, some}
use mathlib.Core.List.{List, [], ◌∷◌}
use native.Mathlib.Omega.{arith}
use uvloop.Prelude.Tests.{◌==◌, if◌then◌else◌}

module _ {A : Type 0} where
  abbrev pub lookup : ℕ → List (ℕ × A) → Option A
  lookup key [] = none
  lookup key ((k, a) ∷ d) = if k == key then some a else lookup key d

  -- `d[key] = a`, which keeps the place of a key that is there.
  abbrev pub store : ℕ → A → List (ℕ × A) → List (ℕ × A)
  store key a [] = (key, a) ∷ []
  store key a ((k, b) ∷ d) =
      let rest = store key a d in if k == key then (k, a) ∷ d else (k, b) ∷ rest

  -- `del d[key]`
  abbrev pub delete : ℕ → List (ℕ × A) → List (ℕ × A)
  delete key [] = []
  delete key ((k, a) ∷ d) = let rest = delete key d in if k == key then rest else (k, a) ∷ rest

  pub lookup-store :
      (m n : ℕ) (a : A) (d : List (ℕ × A))
      → lookup m (store n a d) ≡ (if n == m then some a else lookup m d)
  lookup-store m n a [] = ground arith
  lookup-store m n a ((k, b) ∷ d) = ground (arith, lookup-store m n a d)

  pub lookup-delete :
      (m n : ℕ) (d : List (ℕ × A)) → lookup m (delete n d) ≡ (if n == m then none else lookup m d)
  lookup-delete m n [] = ground arith
  lookup-delete m n ((k, a) ∷ d) = ground (arith, lookup-delete m n d)
