-- ===== src/Dns/Hosts/Runs.antt =====
-- A hosts file with a name and a wildcard, and the theorems on the override table at it.
use wslvpn.Base.{ℕ, ◌≡◌, refl, ◌≤◌, inl, some, [], ◌∷◌, ◌++◌, arith, if◌then◌else◌}
use wslvpn.Base.Text.{Text, codes, text_eq}
use wslvpn.Base.TextMap.{get, alter, text_ltb}
use wslvpn.Base.Net.{IpAddr, v4, ip_eq}
use wslvpn.Base.Strings.{
  split, trim, trim_start, trim_end, to_ascii_lowercase, strip_prefix, strip_cr, ended_lines, lines,
  split_whitespace, as_bytes,
}
use wslvpn.Dns.Hosts.{
  IpText, ok, Overrides, is_label, check_host, check_lowered, normalise, push_address, insert,
  insert_names, parse_fields, parse_line, parse_lines, parse, query_name, lookup, render, set,
}
use wslvpn.Dns.Hosts.Names.{IsLabel, IsHostName, IsCanonical, normalise-normalise}
use wslvpn.Dns.Hosts.Tables.{IsWellFormed, parse-IsWellFormed}
use wslvpn.Dns.Hosts.RoundTrip.{IsPrinted, parse-render}
use wslvpn.Dns.Hosts.Lookup.{Resolves, lookup-Resolves, lookup-set}

abbrev raw_ips : IpText
raw_ips = record { parse = λ text. some (v4 text); to_string = λ ip. codes "10.0.0.5" }

abbrev address : IpAddr
address = v4 (codes "10.0.0.5")

abbrev hosts : Text
hosts = codes "10.0.0.5 A.b. # intranet" ++ 10 ∷ 10 ∷ codes "10.0.0.5 *.c.d" ++ []

abbrev table : Overrides
table = record {
  exact = (codes "a.b", record { addresses = address ∷ [] }) ∷ [];
  wildcard = (codes "c.d", record { addresses = address ∷ [] }) ∷ [];
}

spelled : normalise (codes "A.b.") ≡ ok (codes "a.b")
unfolding normalise check_lowered check_host is_label split trim trim_start trim_end
    to_ascii_lowercase strip_prefix as_bytes
spelled = refl

normalise-normalise_example :
    IsCanonical (codes "a.b") × (normalise (codes "a.b") ≡ ok (codes "a.b"))
normalise-normalise_example = normalise-normalise (codes "A.b.") {n = codes "a.b"} spelled

hosts_read : parse raw_ips hosts ≡ ok table
unfolding parse parse_lines parse_line parse_fields insert_names insert push_address normalise
    check_lowered check_host is_label split trim trim_start trim_end to_ascii_lowercase strip_prefix
    as_bytes lines ended_lines strip_cr split_whitespace alter get text_eq text_ltb ip_eq
hosts_read = refl

parse-IsWellFormed_example : IsWellFormed table
parse-IsWellFormed_example = parse-IsWellFormed raw_ips hosts {table = table} hosts_read

lookup-Resolves_example :
    Resolves table (query_name (codes "x.y.c.d")) (lookup table (codes "x.y.c.d"))
lookup-Resolves_example = lookup-Resolves table (codes "x.y.c.d")

a_b-IsHostName : IsHostName (codes "a.b")
unfolding split
a_b-IsHostName =
    let letter : (c : ℕ) → b'a' ≤ c → c ≤ b'z' → IsLabel (c ∷ []) =
      λ c p q. ((λ e. cc), omega arith, (inl (p, q), tt), ground arith, ground arith) in
    (
      (λ e. cc),
      omega arith,
      (letter b'a' (omega arith) (omega arith), (letter b'b' (omega arith) (omega arith), tt)),
    )

lookup-set_example :
    (after : Overrides) × (set (codes "A.b.") address table ≡ ok after)
    × (lookup after (codes "x.y.c.d") ≡ (
        if text_eq (codes "a.b") (query_name (codes "x.y.c.d"))
        then some (record { addresses = address ∷ [] })
        else lookup table (codes "x.y.c.d")))
lookup-set_example =
    lookup-set (codes "A.b.") address table (codes "x.y.c.d") {host = codes "a.b"} spelled
      a_b-IsHostName

address-IsPrinted : IsPrinted raw_ips address
address-IsPrinted = (((λ e. cc), ground arith), refl)

parse-render_example : parse raw_ips (render raw_ips table) ≡ ok table
parse-render_example =
    parse-render raw_ips table (parse-IsWellFormed raw_ips hosts {table = table} hosts_read)
      ((address-IsPrinted, tt), tt) ((address-IsPrinted, tt), tt)
