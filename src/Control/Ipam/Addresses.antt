-- ===== src/Control/Ipam/Addresses.antt =====
-- The addresses that `allocate` of crates/wsl-control/src/services/ipam.rs hands out.
use wslvpn.Base.{
  ℕ, ◌≡◌, ◌≢◌, refl, sym, ap, subst, ◌∙◌, inl, inr, Bool, false, ◌&&◌, some, List, [], ◌∷◌, ◌++◌,
  map, arith, ◌==◌, ==_iff, Bool-cases, Option-cases, any, filter, get_elem?, All, Any, All-filter,
  All-mono, Any-mono,
}
use wslvpn.Base.Text.{Text, codes}
use wslvpn.Base.Net.{IpAddr, v4, v6, ip_eq, ip_eq_iff, Inet, Networks}
use wslvpn.Control.Database.{AllocationRow, Database, ◌>>=◌}
use wslvpn.Control.Database.Keeps.{Keeps, Keeps-execute}
use wslvpn.Control.Database.Leads.{Post}
use wslvpn.Control.Database.Found.{find-Any, All-self}
use wslvpn.Control.Ipam.{
  same_inet, slash_32, is_skipped, insert_allocation, allocate_loop, used_addresses, find_network,
  allocate, release_session,
}

-- Two rows of a network have different addresses.
abbrev pub Apart : AllocationRow → AllocationRow → Type 0
Apart row r = r.network_id ≡ row.network_id → ¬ (r.address.ip ≡ row.address.ip)

abbrev pub AllApart : List AllocationRow → Type 0
AllApart [] = Unit
AllApart (row ∷ rows) = All (Apart row) rows × AllApart rows

-- No two rows of a network have the same address.
abbrev pub NoSharedAddress : Database → Type 0
NoSharedAddress tables = AllApart tables.ipam_allocations

AllApart-filter :
    (p : AllocationRow → Bool) (rows : List AllocationRow)
    → AllApart rows
    → AllApart (filter p rows)
AllApart-filter p [] h = tt
AllApart-filter p (row ∷ rows) h =
    ground (arith, All-filter (Apart row) p rows h.0, AllApart-filter p rows h.1)

pub release_session-NoSharedAddress :
    (session_id : ℕ) → Keeps NoSharedAddress (release_session session_id)
unfolding release_session
release_session-NoSharedAddress session_id =
    Keeps-execute _ (λ t h. AllApart-filter _ t.ipam_allocations h)

-- The address is none of those that the used rows of the network have.
unused-Apart :
    (network_id : ℕ) (addr : IpAddr) (rows : List AllocationRow) (row : AllocationRow)
    → row.network_id ≡ network_id
    → row.address.ip ≡ addr
    → any (ip_eq addr) (map (λ r. r.address.ip) (filter (λ r. r.network_id == network_id) rows))
      ≡ false
    → All (Apart row) rows
unused-Apart network_id addr [] row same at h = tt
unused-Apart network_id addr (r ∷ rows) row same at h = ground (
  arith,
  ==_iff r.network_id network_id,
  ip_eq_iff addr r.address.ip,
  unused-Apart network_id addr rows row same at,
)

-- What the documentation of `IpNetwork::new` says: it keeps the address and the prefix.
abbrev pub KeepsAddress : Networks → Type 0
KeepsAddress nets =
    (ip : IpAddr) (prefix : ℕ) (net : Inet)
    → nets.new ip prefix ≡ some net
    → (net.ip ≡ ip) × (net.prefix ≡ prefix)

-- Whether the last octet may be given to a host: 0, 255 and the gateway's 1 may not.
abbrev pub IsForHosts : IpAddr → Type 0
IsForHosts (v6 octets) = Unit
IsForHosts (v4 octets) = (n : ℕ) → get_elem? octets 3 ≡ some n → (n ≢ 0) × (n ≢ 255) × (n ≢ 1)

-- What an answer of `allocate` stands for: the text of an address of the network that no row of the
-- network had and that is for hosts. It is taken from then on by one new row, of the session, and
-- nothing else has changed.
pub record HandsOut (nets : Networks) (network_id session_id : ℕ) (before : Database)
    (answer : Text) (after : Database) : Type 0 where
  pub address : IpAddr
  pub told : answer ≡ nets.addr_text address ++ codes "/32"
  pub inside :
      Any (λ n. (n.id ≡ network_id) × Any (λ a. a ≡ address) (nets.hosts n.cidr)) before.networks
  pub usable : IsForHosts address
  pub free :
      All (λ r. r.network_id ≡ network_id → ¬ (r.address.ip ≡ address)) before.ipam_allocations
  pub taken : after ≡ record before {
    ipam_allocations =
        record {
          network_id = network_id;
          address = record { ip = address; prefix = 32 };
          session_id = some session_id;
        }
        ∷ before.ipam_allocations;
  }
  pub apart : NoSharedAddress after

not-last_octet_is : (used : List IpAddr) (a : IpAddr) → is_skipped used a ≡ false → IsForHosts a
unfolding is_skipped
not-last_octet_is used (v6 octets) h = tt
not-last_octet_is used (v4 octets) h = λ n e. ground (arith, e)

module _ (nets : Networks) (keeps : KeepsAddress nets) (network_id session_id : ℕ) where
  abbrev IsHost : Database → IpAddr → Type 0
  IsHost t address =
      Any (λ n. (n.id ≡ network_id) × Any (λ a. a ≡ address) (nets.hosts n.cidr)) t.networks

  abbrev new_row : Inet → AllocationRow
  new_row host = record { network_id = network_id; address = host; session_id = some session_id }

  -- The row of an address that was not skipped.
  recorded-HandsOut :
      (used : List IpAddr) (t : Database) (addr : IpAddr) (host : Inet)
      → used ≡ used_addresses network_id t
      → nets.new addr 32 ≡ some host
      → is_skipped used addr ≡ false
      → IsHost t addr
      → NoSharedAddress t
      → HandsOut nets network_id session_id t
          (nets.addr_text addr ++ slash_32)
          (record t { ipam_allocations = new_row host ∷ t.ipam_allocations })
  unfolding used_addresses is_skipped
  recorded-HandsOut used t addr host read n e inside h =
      let (at, wide) = keeps addr 32 host n in
      let unused : any (ip_eq addr) used ≡ false = ground arith in
      let apart : All (Apart (new_row host)) t.ipam_allocations =
        unused-Apart network_id addr t.ipam_allocations (new_row host) refl at
          (subst (λ taken. any (ip_eq addr) taken ≡ false) read unused) in
      let same : host ≡ record { ip = addr; prefix = 32 } = ground (arith, at, wide) in
      record {
        address = addr;
        told = refl;
        inside = inside;
        usable = not-last_octet_is used addr e;
        free = All-mono (λ r other own equal. other own (equal ∙ sym at)) t.ipam_allocations apart;
        taken = ap (λ a. record t { ipam_allocations = new_row a ∷ t.ipam_allocations }) same;
        apart = (apart, h);
      }

  -- The loop, in the tables that its list of used addresses was read from.
  allocate_loop-HandsOut :
      (used addrs : List IpAddr) (t : Database)
      → used ≡ used_addresses network_id t
      → All (IsHost t) addrs
      → NoSharedAddress t
      → Post
          (HandsOut nets network_id session_id t)
          (λ after. after ≡ t)
          (allocate_loop nets network_id session_id used addrs t).0
          (allocate_loop nets network_id session_id used addrs t).1
  unfolding allocate_loop ◌>>=◌ insert_allocation
  allocate_loop-HandsOut used [] t read hosts h = refl
  allocate_loop-HandsOut used (addr ∷ addrs) t read hosts h =
      elim (Bool-cases (is_skipped used addr)) [
        | inl e ↦ rw (e, allocate_loop) (allocate_loop-HandsOut used addrs t read hosts.1 h)
        | inr e ↦
            rw (e, allocate_loop)
              (elim (Option-cases (nets.new addr 32)) [
                | inl n ↦ rw n refl
                | inr (host, n) ↦
                    rw n
                      (elim (Bool-cases (
                        any (λ r. r.network_id == network_id && same_inet r.address host)
                          t.ipam_allocations)) [
                            | inl clash ↦ rw clash refl
                            | inr new ↦
                                rw new (recorded-HandsOut used t addr host read n e hosts.0 h)
                          ])
              ])
      ]

  -- What `allocate` hands out: where it answers, the text is that of an address of the network, written
  -- with `/32`, that no row of the network had and that does not end in 0, 1 or 255 if it is an IPv4
  -- address. A new row of the session takes it, nothing else changes, and no two rows of a network have
  -- the same address. Where it fails, nothing has changed. `IpNetwork::new` is taken to keep the
  -- address and the prefix that it is given, and no two rows of a network to share an address before.
  pub allocate-HandsOut :
      (t : Database)
      → NoSharedAddress t
      → Post
          (HandsOut nets network_id session_id t)
          (λ after. after ≡ t)
          (allocate nets network_id session_id t).0
          (allocate nets network_id session_id t).1
  unfolding allocate find_network ◌>>=◌
  allocate-HandsOut t h = elim (Option-cases (find_network network_id t)) [
    | inl e ↦ rw e refl
    | inr (network, e) ↦
        let (there, own) = find-Any (λ n. n.id == network_id) t.networks e in
        rw e (
          allocate_loop-HandsOut (used_addresses network_id t) (nets.hosts network.cidr) t refl
            (All-mono
              (λ a host.
                Any-mono
                  (λ n same.
                    subst (λ x. (x.id ≡ network_id) × Any (λ b. b ≡ a) (nets.hosts x.cidr))
                      (sym same) ((==_iff _ _).0 own, host))
                  t.networks there)
              (nets.hosts network.cidr) (All-self (nets.hosts network.cidr)))
            h)
  ]
