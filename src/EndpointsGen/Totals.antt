-- ===== src/EndpointsGen/Totals.antt =====
-- An address of the full length can be stepped and written.
use nfproxy.Prelude.{
  ℕ, zero, suc, ◌+◌, ◌%◌, ◌<◌, ◌≤◌, String, text_append, ◌≡◌, refl, sym, ap, subst, ◌∙◌, nat_Eq,
  ◌==◌, ltb, Bool, true, false, not, ◌&&◌, Option, none, some, List, [], ◌∷◌, length, length-set,
  get_elem?, set, if◌then◌else◌, arith, Bool-cases, inl, inr,
}
use nfproxy.External.{External}
use nfproxy.EndpointsGen.Addresses.{
  addr_length, carry, next_address, write_ipv4, write_ipv6, gen_addr_string,
}

get_elem-some :
    {A : Type 0} (xs : List A) (i : ℕ) → i < length xs → (x : A) × (get_elem? xs i ≡ some x)
get_elem-some [] i h = absurd (omega (arith, h))
get_elem-some (x ∷ xs) zero h = (x, refl)
get_elem-some (x ∷ xs) (suc i) h = get_elem-some xs i (omega arith)

pub next_address-length :
    (e : ℕ) (bytes : List ℕ)
    → e < length bytes
    → (next : List ℕ) × (next_address e bytes ≡ some next) × (length next ≡ length bytes)
unfolding next_address
next_address-length zero bytes h = (bytes, refl, refl)
next_address-length (suc e) bytes h =
    let (b, at) = get_elem-some bytes (suc e) h in
    let (rest, stepped, same) =
      next_address-length e (set bytes (suc e) 1) (omega (arith, length-set bytes (suc e) 1)) in
    let found = ap (carry (suc e) bytes (next_address e (set bytes (suc e) 1))) at in
    elim (Bool-cases ((b + 1) % 256 == 255)) [
      | inl last ↦ (rest, found ∙ rw last stepped, same ∙ length-set bytes (suc e) 1)
      | inr part ↦ (
        set bytes (suc e) ((b + 1) % 256),
        found ∙ rw part refl,
        length-set bytes (suc e) ((b + 1) % 256),
      )
    ]

module _ (ext : External) (bytes : List ℕ) where
  write_ipv4-some :
      (n e : ℕ) (str : String)
      → e + n ≤ length bytes
      → (text : String) × (write_ipv4 ext bytes e n str ≡ some text)
  unfolding write_ipv4
  write_ipv4-some zero e str h = (str, refl)
  write_ipv4-some (suc n) e str h =
      let (b, at) = get_elem-some bytes e (omega arith) in
      subst
        (λ (o : Option ℕ).
          (text : String) × (elim o [
            | none ↦ none
            | some b ↦
                let text = text_append str (ext.itoa b) in
                write_ipv4 ext bytes (suc e) n (if ltb e 3 then text_append text "." else text)
          ]
            ≡ some text))
        (sym at) (write_ipv4-some n (suc e) _ (omega arith))

  write_ipv6-some :
      (n e : ℕ) (second : Bool) (str : String)
      → e + n ≤ length bytes
      → (text : String) × (write_ipv6 ext bytes e n second str ≡ some text)
  unfolding write_ipv6
  write_ipv6-some zero e second str h = (str, refl)
  write_ipv6-some (suc n) e second str h =
      let (b, at) = get_elem-some bytes e (omega arith) in
      subst
        (λ (o : Option ℕ).
          (text : String) × (elim o [
            | none ↦ none
            | some b ↦
                let text = text_append str (ext.hex_byte b) in
                let separated = second && ltb e 15 in
                write_ipv6 ext bytes (suc e) n (not separated)
                  (if separated then text_append text ":" else text)
          ]
            ≡ some text))
        (sym at) (write_ipv6-some n (suc e) _ _ (omega arith))

  pub gen_addr_string-some :
      (is_ipv6 : Bool)
      → length bytes ≡ addr_length is_ipv6
      → (text : String) × (gen_addr_string ext bytes is_ipv6 ≡ some text)
  unfolding gen_addr_string
  gen_addr_string-some true h = write_ipv6-some 16 0 false "" (omega arith)
  gen_addr_string-some false h = write_ipv4-some 4 0 "" (omega arith)
