-- ===== src/EndpointsGen/Addresses.antt =====
-- pkg/endpointsgen/util.go: checkStartingIP, the loop of generateSusbsets that steps an address, and
-- genAddrString. A byte wraps at 256, an `int` at 2 ^ 64; `none` is an index out of range.
use nfproxy.Prelude.{
  ℕ, zero, suc, ◌+◌, ◌-◌, ◌*◌, ◌%◌, ◌^◌, String, text_append, nat_Eq, ◌==◌, ltb, Bool, true, false,
  not, ◌&&◌, ◌||◌, Option, none, some, List, length, get_elem?, set, is_nil, if◌then◌else◌,
}
use nfproxy.Go.{message, Result, ok, err}
use nfproxy.External.{External}

-- `n - m` on bytes
abbrev pub byte_sub : ℕ → ℕ → ℕ
byte_sub n m = (n + 256 - m) % 256

-- An int is given by its 64 bits: with the highest bit it is negative.
abbrev pub is_negative : ℕ → Bool
is_negative n = not (ltb n (2 ^ 63))

-- `a > b` for ints
abbrev pub is_more : ℕ → ℕ → Bool
is_more a b = if is_negative a then is_negative b && ltb b a else is_negative b || ltb b a

abbrev grow : ℕ → ℕ → ℕ
grow total factor = (total + factor * total) % 2 ^ 64

-- The loop from the last byte but one down to the second, which ends with `true` when there are
-- enough addresses.
unfoldable pub count_addresses : List ℕ → ℕ → ℕ → ℕ → Option (Bool × ℕ)
count_addresses addr number total zero = some (false, total)
count_addresses addr number total (suc i) = elim (get_elem? addr (suc i)) [
  | none ↦ none
  | some b ↦
      let more = grow total (byte_sub 255 b) in
      let rest = count_addresses addr number more i in
      if is_more more number then some (true, more) else rest
]

abbrev first_byte_limit : Bool → ℕ
first_byte_limit is_ipv6 = if is_ipv6 then 32 else 223

abbrev check_total : List ℕ → ℕ → Bool → ℕ → ℕ → Result (List ℕ)
check_total addr number is_ipv6 first total =
    let limit = first_byte_limit is_ipv6 in
    let all = if ltb first limit then grow total (limit - first) else total in
    if is_more number all
    then err (message "start address does not allow generating of sequential addresses")
    else ok addr

abbrev check_rest : List ℕ → ℕ → Bool → Bool × ℕ → Option (Result (List ℕ))
check_rest addr number is_ipv6 (true, total) = some (ok addr)
check_rest addr number is_ipv6 (false, total) = elim (get_elem? addr 0) [
  | none ↦ none
  | some first ↦ some (check_total addr number is_ipv6 first total)
]

unfoldable pub check_address : List ℕ → ℕ → Bool → Option (Result (List ℕ))
unfolding count_addresses
check_address addr number is_ipv6 =
    if is_nil addr then none else elim (get_elem? addr (length addr - 1)) [
      | none ↦ none
      | some last ↦ elim (count_addresses addr number (byte_sub 254 last) (length addr - 2)) [
        | none ↦ none
        | some counted ↦ check_rest addr number is_ipv6 counted
      ]
    ]

module _ (ext : External) where
  unfoldable pub check_starting_ip : String → ℕ → Bool → Option (Result (List ℕ))
  unfolding check_address
  check_starting_ip ip number is_ipv6 =
      check_address (if is_ipv6 then ext.to16 (ext.parse_ip ip) else ext.to4 (ext.parse_ip ip))
        number is_ipv6

abbrev pub addr_length : Bool → ℕ
addr_length is_ipv6 = if is_ipv6 then 16 else 4

-- The byte at an index is stepped; after 254 it is 1 again, and `rest` goes on with the byte before.
abbrev pub carry : ℕ → List ℕ → Option (List ℕ) → Option ℕ → Option (List ℕ)
carry e bytes rest none = none
carry e bytes rest (some b) =
    let next = (b + 1) % 256 in if next == 255 then rest else some (set bytes e next)

-- The loop over the bytes, from the one at this index down to the second.
unfoldable pub next_address : ℕ → List ℕ → Option (List ℕ)
next_address zero bytes = some bytes
next_address (suc e) bytes =
    carry (suc e) bytes (next_address e (set bytes (suc e) 1)) (get_elem? bytes (suc e))

module _ (ext : External) where
  -- The loop of genAddrString, with `n` bytes to go: `second` is the test `t == 1`.
  unfoldable pub write_ipv6 : List ℕ → ℕ → ℕ → Bool → String → Option String
  write_ipv6 bytes e zero second str = some str
  write_ipv6 bytes e (suc n) second str = elim (get_elem? bytes e) [
    | none ↦ none
    | some b ↦
        let text = text_append str (ext.hex_byte b) in
        let separated = second && ltb e 15 in
        write_ipv6 bytes (suc e) n (not separated)
          (if separated then text_append text ":" else text)
  ]

  unfoldable pub write_ipv4 : List ℕ → ℕ → ℕ → String → Option String
  write_ipv4 bytes e zero str = some str
  write_ipv4 bytes e (suc n) str = elim (get_elem? bytes e) [
    | none ↦ none
    | some b ↦
        let text = text_append str (ext.itoa b) in
        write_ipv4 bytes (suc e) n (if ltb e 3 then text_append text "." else text)
  ]

  unfoldable pub gen_addr_string : List ℕ → Bool → Option String
  unfolding write_ipv6 write_ipv4
  gen_addr_string bytes is_ipv6 =
      if is_ipv6 then write_ipv6 bytes 0 16 false "" else write_ipv4 bytes 0 4 ""

  unfoldable pub is_valid_ipv4 : String → Bool
  is_valid_ipv4 text = not (is_nil (ext.to4 (ext.parse_ip text)))

  unfoldable pub is_valid_ipv6 : String → Bool
  is_valid_ipv6 text = not (is_nil (ext.to16 (ext.parse_ip text)))
