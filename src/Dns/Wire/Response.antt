-- ===== src/Dns/Wire/Response.antt =====
-- `parse_response` and `skip_name` of crates/wsl-dns/src/wire.rs.
use wslvpn.Base.{
  ℕ, zero, suc, ◌+◌, bit_and, Bool, true, false, not, ◌&&◌, Option, none, some, List, [], ◌∷◌, ◌++◌,
  ◌==◌, if◌then◌else◌, length, get_elem?,
}
use wslvpn.Dns.Wire.{header_len, type_a, type_aaaa, IpAddr, v4, v6}
use wslvpn.Dns.Wire.Bytes.{u16_at, slice}

pub record Response : Type 0 where
  pub id : ℕ
  pub rcode : ℕ
  pub authoritative : Bool
  pub addresses : List IpAddr

-- `?` on an `Option`.
infixl 5 ◌>>=◌ ◌>>◌
abbrev ◌>>=◌ : {A B : Type 0} → Option A → (A → Option B) → Option B
none >>= f = none
some a >>= f = f a

abbrev ◌>>◌ : {B : Type 0} → Option (Unit {0}) → Option B → Option B
m >> k = m >>= λ _. k

abbrev some_if : Bool → Option (Unit {0})
some_if true = some tt
some_if false = none

-- How the loop over the bytes of a name ends. It is never `out_of_fuel`.
pub data Skipped : Type 0 where
  ended : ℕ → Skipped
  cut_short : Skipped
  out_of_fuel : Skipped

abbrev past_pointer : Option ℕ → ℕ → Skipped
past_pointer none after = cut_short
past_pointer (some low) after = ended after

unfoldable pub skip_loop : ℕ → List ℕ → ℕ → Skipped
skip_loop zero buf at = out_of_fuel
skip_loop (suc fuel) buf at = elim (get_elem? buf at) [
  | none ↦ cut_short
  | some len ↦ elim (len == 0) [
    | true ↦ ended (at + 1)
    | false ↦ elim (bit_and len 0xc0 == 0xc0) [
      | true ↦ past_pointer (get_elem? buf (at + 1)) (at + 2)
      | false ↦ skip_loop fuel buf (at + (1 + len))
    ]
  ]
]

abbrev pub answered : Skipped → Option ℕ
answered (ended at) = some at
answered cut_short = none
answered out_of_fuel = none

unfoldable pub skip_name : List ℕ → ℕ → Option ℕ
skip_name buf at = answered (skip_loop (suc (length buf)) buf at)

unfoldable pub skip_questions : ℕ → List ℕ → ℕ → Option ℕ
skip_questions zero buf at = some at
skip_questions (suc n) buf at = do
  after_name ← skip_name buf at
  skip_questions n buf (after_name + 4)

abbrev pub push_address : ℕ → ℕ → List ℕ → List IpAddr → List IpAddr
push_address rtype rdlen octets addresses =
    if rtype == type_a && rdlen == 4
    then addresses ++ v4 octets ∷ []
    else if rtype == type_aaaa && rdlen == 16
    then addresses ++ v6 octets ∷ []
    else addresses

unfoldable pub read_answers : ℕ → List ℕ → ℕ → List IpAddr → Option (List IpAddr)
read_answers zero buf at addresses = some addresses
read_answers (suc n) buf at addresses = do
  at' ← skip_name buf at
  rtype ← u16_at buf at'
  rdlen ← u16_at buf (at' + 8)
  octets ← slice buf (at' + 10) rdlen
  read_answers n buf (at' + (10 + rdlen)) (push_address rtype rdlen octets addresses)

unfoldable pub parse_response : List ℕ → Option Response
parse_response buf = do
  id ← u16_at buf 0
  flags ← u16_at buf 2
  some_if (not (bit_and flags 0x8000 == 0))
  qd ← u16_at buf 4
  an ← u16_at buf 6
  at ← skip_questions qd buf header_len
  addresses ← read_answers an buf at []
  some (record {
    id = id;
    rcode = bit_and flags 0x000f;
    authoritative = not (bit_and flags 0x0400 == 0);
    addresses = addresses;
  })
