-- ===== src/Prelude/Maps.antt =====
-- A Go map as an association list. The program depends on no order of iteration.
use mathlib.Core.Path.{◌≡◌, refl}
use mathlib.Core.List.{List, [], ◌∷◌}
use mathlib.Core.Option.{Option, none, some}
use mathlib.Core.Bool.{Bool, true, false}
use native.Mathlib.Omega.{arith}
use nfproxy.Prelude.Tests.{Eq, ◌==◌, if◌then◌else◌}

abbrev pub Assoc {ℓ κ} : Type ℓ → Type κ → Type (ℓ ⊔ κ)
Assoc K V = List (K × V)

-- Case analysis on an optional value.
abbrev pub or_else {ℓ} : {A : Type ℓ} → Option A → A → A
or_else none d = d
or_else (some a) d = a

abbrev pub is_some {ℓ} : {A : Type ℓ} → Option A → Bool
is_some none = false
is_some (some a) = true

module _ {ℓ κ} {K : Type ℓ} {V : Type κ} ⦃e : Eq K⦄ where
  unfoldable pub lookup : K → Assoc K V → Option V
  lookup k [] = none
  lookup k ((j, v) ∷ m) = if j == k then some v else lookup k m

  -- `m[k] = v`
  unfoldable pub insert : K → V → Assoc K V → Assoc K V
  insert k v [] = (k, v) ∷ []
  insert k v ((j, w) ∷ m) = if j == k then (k, v) ∷ m else (j, w) ∷ insert k v m

  -- `delete(m, k)`
  unfoldable pub erase : K → Assoc K V → Assoc K V
  erase k [] = []
  erase k ((j, w) ∷ m) = let rest = erase k m in if j == k then rest else (j, w) ∷ rest

  pub lookup-insert :
      (k other : K) (new : V) (m : Assoc K V)
      → lookup other (insert k new m) ≡ (if k == other then some new else lookup other m)
  unfolding lookup insert
  lookup-insert k other new [] = refl
  lookup-insert k other new ((i, old) ∷ m) =
      ground
        (arith, e.beq_iff i other, e.beq_iff i k, e.beq_iff k other, lookup-insert k other new m)

  pub lookup-erase :
      (k other : K) (m : Assoc K V)
      → lookup other (erase k m) ≡ (if k == other then none else lookup other m)
  unfolding lookup erase
  lookup-erase k other [] = ground arith
  lookup-erase k other ((i, old) ∷ m) =
      ground (arith, e.beq_iff i other, e.beq_iff i k, e.beq_iff k other, lookup-erase k other m)
