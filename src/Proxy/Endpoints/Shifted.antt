-- ===== src/Proxy/Endpoints/Shifted.antt =====
-- The array behind a slice of endpoints after one was cut out of it in place.
use nfproxy.Prelude.{
  ℕ, zero, suc, ◌+◌, ◌<◌, ◌≡◌, refl, sym, ap, ◌∙◌, ◌⊎◌, inl, inr, some, List, [], ◌∷◌, ◌++◌, length,
  get_elem?, drop, arith,
}
use nfproxy.Proxy.Endpoint.{EndpointInfo}
use nfproxy.Proxy.Endpoints.{shifted}

get_elem-append :
    {A : Type 0} (xs ys : List A) (j : ℕ) (y : A)
    → get_elem? (xs ++ ys) j ≡ some y
    → (get_elem? xs j ≡ some y) ⊎ ((k : ℕ) × (j ≡ length xs + k) × (get_elem? ys k ≡ some y))
get_elem-append [] ys j y h = inr (j, omega arith, h)
get_elem-append (x ∷ xs) ys zero y h = inl h
get_elem-append (x ∷ xs) ys (suc j) y h = elim (get_elem-append xs ys j y h) [
  | inl left ↦ inl left
  | inr (k, e, right) ↦ inr (k, omega arith, right)
]

get_elem-drop :
    {A : Type 0} (n k : ℕ) (ys : List A) → get_elem? (drop n ys) k ≡ get_elem? ys (n + k)
get_elem-drop zero k ys = ap (get_elem? ys) (omega arith)
get_elem-drop (suc n) k [] = refl
get_elem-drop (suc n) k (y ∷ ys) =
    let next : suc (n + k) ≡ suc n + k = omega arith in
    get_elem-drop n k ys ∙ ap (get_elem? (y ∷ ys)) next

-- What stands behind the gap stood behind it before.
pub get_elem-shifted :
    (i j : ℕ) (xs : List EndpointInfo) (y : EndpointInfo)
    → i < j
    → get_elem? (shifted i xs) j ≡ some y
    → (k : ℕ) × (i < k) × (get_elem? xs k ≡ some y)
get_elem-shifted zero j (x ∷ xs) y h e =
    elim (get_elem-append xs (drop (length xs) (x ∷ xs)) j y e) [
      | inl left ↦ (suc j, omega arith, left)
      | inr (k, at, right) ↦
          (j, h, ap (get_elem? (x ∷ xs)) at ∙ sym (get_elem-drop (length xs) k (x ∷ xs)) ∙ right)
    ]
get_elem-shifted zero j [] y h e = cc e
get_elem-shifted (suc i) zero (x ∷ xs) y h e = absurd (omega (arith, h))
get_elem-shifted (suc i) (suc j) (x ∷ xs) y h e =
    let (k, later, at) = get_elem-shifted i j xs y (omega arith) e in (suc k, omega arith, at)
get_elem-shifted (suc i) j [] y h e = cc e
