-- ===== src/Prelude/Finds.antt =====
-- Searches of a list by a Boolean test, and what they find.
use Prim.Native.Nat.{ℕ, zero, suc}
use mathlib.Core.Path.{◌≡◌, refl}
use mathlib.Core.Logic.{◌↔◌, inl, inr}
use mathlib.Core.List.{List, [], ◌∷◌, ◌++◌}
use mathlib.Core.Option.{some}
use mathlib.Core.Bool.{Bool, true, false, ◌||◌}
use native.Mathlib.Omega.{arith}
use nfproxy.Prelude.Tests.{Bool-cases}
use nfproxy.Prelude.Lists.{get_elem?, Any, All}

module _ {ℓ} {A : Type ℓ} where
  -- Some element passes the test.
  abbrev pub any : (A → Bool) → List A → Bool
  any test [] = false
  any test (x ∷ xs) = test x || any test xs

  pub any_here : (test : A → Bool) (x : A) (xs : List A) → test x ≡ true → any test (x ∷ xs) ≡ true
  any_here test x xs h = rw h refl

  pub any_there :
      (test : A → Bool) (x : A) (xs : List A) → any test xs ≡ true → any test (x ∷ xs) ≡ true
  any_there test x xs h = ground arith

  pub any-append_left :
      (test : A → Bool) (xs ys : List A) → any test xs ≡ true → any test (xs ++ ys) ≡ true
  any-append_left test (x ∷ xs) ys h = elim (Bool-cases (test x)) [
    | inl hit ↦ any_here test x (xs ++ ys) hit
    | inr miss ↦ any_there test x (xs ++ ys) (any-append_left test xs ys (ground arith))
  ]
  any-append_left test [] ys h = cc

  pub any-append_right :
      (test : A → Bool) (xs ys : List A) → any test ys ≡ true → any test (xs ++ ys) ≡ true
  any-append_right test [] ys h = h
  any-append_right test (x ∷ xs) ys h = any_there test x (xs ++ ys) (any-append_right test xs ys h)

  find_any : (test : A → Bool) (xs : List A) → any test xs ≡ true → Any (λ x. test x ≡ true) xs
  find_any test (x ∷ xs) h = elim (Bool-cases (test x)) [
    | inl hit ↦ (0, x, refl, hit)
    | inr miss ↦ let (i, y, at, hit) = find_any test xs (ground arith) in (suc i, y, at, hit)
  ]
  find_any test [] h = cc

  pub any_at :
      (test : A → Bool) (xs : List A) (i : ℕ) (x : A)
      → get_elem? xs i ≡ some x
      → test x ≡ true
      → any test xs ≡ true
  any_at test [] i x at hit = cc
  any_at test (y ∷ xs) zero x at hit = any_here test y xs (ground arith)
  any_at test (y ∷ xs) (suc i) x at hit = any_there test y xs (any_at test xs i x at hit)

  pub any-Any : (test : A → Bool) (xs : List A) → (any test xs ≡ true) ↔ Any (λ x. test x ≡ true) xs
  any-Any test xs = (find_any test xs, λ (i, x, at, hit). any_at test xs i x at hit)

  pub Any-iff {κ} : (P Q : A → Type κ) (xs : List A) → ((x : A) → P x ↔ Q x) → Any P xs ↔ Any Q xs
  Any-iff P Q xs h =
      ((λ (i, x, at, p). (i, x, at, (h x).0 p)), (λ (i, x, at, q). (i, x, at, (h x).1 q)))

  -- What holds of every element by its place holds of all.
  pub All-get_elem {κ} :
      (P : A → Type κ) (xs : List A) → ((i : ℕ) (x : A) → get_elem? xs i ≡ some x → P x) → All P xs
  All-get_elem P [] h = tt
  All-get_elem P (x ∷ xs) h = (h 0 x refl, All-get_elem P xs (λ i y at. h (suc i) y at))
