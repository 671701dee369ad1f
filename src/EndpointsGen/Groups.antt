-- ===== src/EndpointsGen/Groups.antt =====
-- Lists cut into groups of one length, as the two loops of the generator do it.
use nfproxy.Prelude.{
  ℕ, zero, suc, ◌+◌, ◌*◌, ◌<◌, ◌≡◌, refl, sym, ap, ◌∙◌, nat_Eq, nat_eq_iff, ◌==◌, List, [], ◌∷◌,
  ◌++◌, length, length-append, All, if◌then◌else◌, arith, Bool-cases, inl, inr,
}

module _ {ℓ} {A : Type ℓ} where
  -- The full groups, from the elements that are held on.
  abbrev pub groups : ℕ → List A → List A → List (List A)
  groups n held [] = []
  groups n held (x ∷ xs) =
      let grown = held ++ x ∷ [] in
      let again = groups n [] xs in
      let on = groups n grown xs in if length held + 1 == n then grown ∷ again else on

  -- What is held at the end.
  abbrev pub leftover : ℕ → List A → List A → List A
  leftover n held [] = held
  leftover n held (x ∷ xs) =
      let grown = held ++ x ∷ [] in
      let again = leftover n [] xs in
      let on = leftover n grown xs in if length held + 1 == n then again else on

  abbrev pub concat : List (List A) → List A
  concat [] = []
  concat (xs ∷ xss) = xs ++ concat xss

  pub append_assoc : (xs ys zs : List A) → (xs ++ ys) ++ zs ≡ xs ++ (ys ++ zs)
  append_assoc [] ys zs = refl
  append_assoc (x ∷ xs) ys zs = ap (λ (t : List A). x ∷ t) (append_assoc xs ys zs)

  pub append-nil : (xs : List A) → [] ++ xs ≡ xs ++ []
  append-nil [] = refl
  append-nil (x ∷ xs) = ap (λ (t : List A). x ∷ t) (append-nil xs)

  pub length-snoc : (xs : List A) (x : A) → length (xs ++ x ∷ []) ≡ length xs + 1
  length-snoc xs x = omega (arith, length-append xs (x ∷ []))

  pub groups-length :
      (n : ℕ) (held xs : List A) → All (λ (g : List A). length g ≡ n) (groups n held xs)
  groups-length n held [] = tt
  groups-length n held (x ∷ xs) = elim (Bool-cases (length held + 1 == n)) [
    | inl full ↦ rw full (length-snoc held x ∙ (nat_eq_iff _ _).0 full, groups-length n [] xs)
    | inr part ↦ rw part (groups-length n (held ++ x ∷ []) xs)
  ]

  All-snoc : (P : A → Type 0) (xs : List A) (x : A) → All P xs → P x → All P (xs ++ x ∷ [])
  All-snoc P [] x h p = (p, tt)
  All-snoc P (y ∷ xs) x h p = (h.0, All-snoc P xs x h.1 p)

  pub groups-All :
      (P : A → Type 0) (n : ℕ) (held xs : List A)
      → All P held
      → All P xs
      → All (All P) (groups n held xs)
  groups-All P n held [] old new = tt
  groups-All P n held (x ∷ xs) old new = elim (Bool-cases (length held + 1 == n)) [
    | inl full ↦ rw full (All-snoc P held x old new.0, groups-All P n [] xs tt new.1)
    | inr part ↦ rw part (groups-All P n (held ++ x ∷ []) xs (All-snoc P held x old new.0) new.1)
  ]

  pub groups-concat :
      (n : ℕ) (held xs : List A) → concat (groups n held xs) ++ leftover n held xs ≡ held ++ xs
  groups-concat n held [] = append-nil held
  groups-concat n held (x ∷ xs) = elim (Bool-cases (length held + 1 == n)) [
    | inl full ↦ rw full (
        append_assoc (held ++ x ∷ []) (concat (groups n [] xs)) (leftover n [] xs)
        ∙ ap (λ (t : List A). (held ++ x ∷ []) ++ t) (groups-concat n [] xs)
        ∙ append_assoc held (x ∷ []) xs)
    | inr part ↦ rw part (groups-concat n (held ++ x ∷ []) xs ∙ append_assoc held (x ∷ []) xs)
  ]

  pub leftover-length :
      (n : ℕ) (held xs : List A) → length held < n → length (leftover n held xs) < n
  leftover-length n held [] h = h
  leftover-length n held (x ∷ xs) h = elim (Bool-cases (length held + 1 == n)) [
    | inl full ↦ rw full (leftover-length n [] xs (omega arith))
    | inr part ↦
        rw part (leftover-length n (held ++ x ∷ []) xs (ground (arith, length-snoc held x)))
  ]

  pub length-concat :
      (n : ℕ) (xss : List (List A))
      → All (λ (g : List A). length g ≡ n) xss
      → length (concat xss) ≡ length xss * n
  length-concat n [] h = omega arith
  length-concat n (xs ∷ xss) h =
      omega (arith, length-append xs (concat xss), h.0, length-concat n xss h.1)

-- Full groups of a multiple.
pub equal_groups : (a b n r : ℕ) → a * n + r ≡ b * n → r < n → (a ≡ b) × (r ≡ 0)
equal_groups zero zero n r e small = (refl, omega arith)
equal_groups zero (suc b) n r e small = omega arith
equal_groups (suc a) zero n r e small = omega arith
equal_groups (suc a) (suc b) n r e small =
    let (same, none) = equal_groups a b n r (omega arith) small in (ap suc same, none)

empty_list : {A : Type 0} (xs : List A) → length xs ≡ 0 → xs ≡ []
empty_list [] e = refl
empty_list (x ∷ xs) e = absurd (omega (arith, e))

-- Groups of `n` out of `b` times `n` elements: there are `b`, and nothing is left over.
pub length-groups :
    {A : Type 0} (b n : ℕ) (xs : List A)
    → 0 < n
    → length xs ≡ b * n
    → (length (groups n [] xs) ≡ b) × (concat (groups n [] xs) ≡ xs)
length-groups b n xs some_of e =
    let cut = groups n [] xs in
    let rest = leftover n [] xs in
    let whole = groups-concat n [] xs in
    let sizes = length-concat n cut (groups-length n [] xs) in
    let (number, none) =
      equal_groups (length cut) b n (length rest)
        (omega (arith, ap length whole, length-append (concat cut) rest, sizes, e))
        (leftover-length n [] xs some_of) in
    (
      number,
      append-nil (concat cut)
          ∙ ap (λ (t : List _). concat cut ++ t) (sym (empty_list rest none))
          ∙ whole,
    )
