-- ===== src/Control/Ipam.antt =====
-- crates/wsl-control/src/services/ipam.rs.
pub mod Addresses
pub mod Elsewhere
use wslvpn.Base.{
  ℕ, Bool, true, false, not, ◌&&◌, ◌||◌, Option, none, some, List, [], ◌∷◌, ◌++◌, map, ◌==◌,
  if◌then◌else◌, any, filter, get_elem?,
}
use wslvpn.Base.Text.{Text, codes}
use wslvpn.Base.Net.{IpAddr, v4, v6, ip_eq, Inet, Networks}
use wslvpn.Control.Database.{
  AllocationRow, Database, not_found, bad_request, Service, pure, fail, ◌>>=◌, ◌>>◌, query, execute,
  or_fail, db, find, NetworkRow,
}

-- Whether the fourth octet of an IPv4 address is this one.
abbrev pub last_octet_is : ℕ → IpAddr → Bool
last_octet_is n (v4 octets) = elim (get_elem? octets 3) [ none ↦ false | some octet ↦ octet == n ]
last_octet_is n (v6 octets) = false

-- Network and broadcast, then the gateway, then what is taken.
pub is_skipped : List IpAddr → IpAddr → Bool
is_skipped used addr =
    last_octet_is 0 addr || last_octet_is 255 addr || last_octet_is 1 addr || any (ip_eq addr) used

-- The primary key of `ipam_allocations` is the network with the address.
abbrev pub same_inet : Inet → Inet → Bool
same_inet a b = ip_eq a.ip b.ip && a.prefix == b.prefix

pub insert_allocation : AllocationRow → Service (Unit {0})
insert_allocation row tables =
    if any (λ r. r.network_id == row.network_id && same_inet r.address row.address)
      tables.ipam_allocations
    then fail db tables
    else execute (λ t. record t { ipam_allocations = row ∷ t.ipam_allocations }) tables

abbrev pub slash_32 : Text
slash_32 = codes "/32"

-- The loop over the addresses of the network.
pub allocate_loop : Networks → ℕ → ℕ → List IpAddr → List IpAddr → Service Text
allocate_loop nets network_id session_id used [] =
    fail (bad_request (codes "no free IP addresses in network"))
allocate_loop nets network_id session_id used (addr ∷ addrs) = elim (is_skipped used addr) [
  | true ↦ allocate_loop nets network_id session_id used addrs
  | false ↦ do
    host ← or_fail (nets.new addr 32) (bad_request nets.error_text)
    insert_allocation
        (record { network_id = network_id; address = host; session_id = some session_id })
    pure (nets.addr_text addr ++ slash_32)
]

pub used_addresses : ℕ → Database → List IpAddr
used_addresses network_id tables =
    map (λ r. r.address.ip) (filter (λ r. r.network_id == network_id) tables.ipam_allocations)

unfoldable pub find_network : ℕ → Database → Option NetworkRow
find_network id tables = find (λ n. n.id == id) tables.networks

pub allocate : Networks → ℕ → ℕ → Service Text
allocate nets network_id session_id = do
  found ← query (find_network network_id)
  network ← or_fail found not_found
  used ← query (used_addresses network_id)
  allocate_loop nets network_id session_id used (nets.hosts network.cidr)

abbrev pub belongs_to : ℕ → Option ℕ → Bool
belongs_to id none = false
belongs_to id (some owner) = owner == id

unfoldable pub release_session : ℕ → Service (Unit {0})
release_session session_id = execute λ t. record t {
  ipam_allocations = filter (λ r. not (belongs_to session_id r.session_id)) t.ipam_allocations;
}
