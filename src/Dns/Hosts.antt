-- ===== src/Dns/Hosts.antt =====
-- crates/wsl-dns/src/hosts.rs: the override table. Reading and printing an address is the parameter
-- `IpText`; a `BTreeMap` is the list of its entries in order.
pub mod Names
pub mod Tables
pub mod Lookup
pub mod Rebuild
pub mod RoundTrip
mod Runs
use wslvpn.Base.{
  ℕ, zero, suc, ◌+◌, Bool, true, false, not, ◌&&◌, ◌||◌, Option, none, some, List, [], ◌∷◌, ◌++◌,
  map, ltb, leb, ◌==◌, if◌then◌else◌, length, is_empty, any, all,
}
use wslvpn.Base.Text.{Text, codes}
use wslvpn.Base.TextMap.{TextMap, get, alter, remove}
use wslvpn.Base.Sorting.{sort, dedup}
use wslvpn.Base.Net.{IpAddr, ip_eq}
use wslvpn.Base.Strings.{
  split, trim, trim_end, lines, split_once, strip_prefix, split_whitespace, to_ascii_lowercase,
  as_bytes,
}

pub record IpText : Type 0 where
  pub parse : Text → Option IpAddr
  pub to_string : IpAddr → Text

-- The two messages of `normalise`, with the name that they quote.
pub data NameError : Type 0 where
  invalid too_broad : Text → NameError

pub data HostsError : Type 0 where
  not_an_address : Text → HostsError
  bad_name : NameError → HostsError
  no_names : IpAddr → HostsError

pub record ParseError : Type 0 where
  pub line : ℕ
  pub message : HostsError

pub data Result (E A : Type 0) : Type 0 where
  ok : A → Result E A
  err : E → Result E A

infixl 5 ◌>>=◌
abbrev pub ◌>>=◌ : {E A B : Type 0} → Result E A → (A → Result E B) → Result E B
ok a >>= f = f a
err e >>= f = err e

abbrev pub map_err : {E F A : Type 0} → (E → F) → Result E A → Result F A
map_err f (ok a) = ok a
map_err f (err e) = err (f e)

abbrev pub or_else : {E A : Type 0} → Option A → E → Result E A
or_else none e = err e
or_else (some a) e = ok a

pub record Records : Type 0 where
  pub addresses : List IpAddr

pub record Entry : Type 0 where
  pub address : IpAddr
  pub name : Text

pub record Overrides : Type 0 where
  pub exact : TextMap Records
  pub wildcard : TextMap Records

abbrev pub star_dot : Text
star_dot = b'*' ∷ b'.' ∷ []

abbrev pub is_dot : ℕ → Bool
is_dot c = c == b'.'

abbrev within : ℕ → ℕ → ℕ → Bool
within lo hi b = leb lo b && leb b hi

abbrev pub is_label_byte : ℕ → Bool
is_label_byte b =
    within b'a' b'z' b || within b'A' b'Z' b || within b'0' b'9' b || b == b'-' || b == b'_'

abbrev pub starts_with : ℕ → Text → Bool
starts_with c [] = false
starts_with c (d ∷ s) = d == c

abbrev pub ends_with : ℕ → Text → Bool
ends_with c [] = false
ends_with c (d ∷ []) = d == c
ends_with c (d ∷ (e ∷ s)) = ends_with c (e ∷ s)

unfoldable pub is_label : Text → Bool
is_label label =
    not (is_empty label)
    && leb (length (as_bytes label)) 63
    && not (starts_with b'-' label)
    && not (ends_with b'-' label)
    && all is_label_byte (as_bytes label)

-- `name` is what the messages quote.
unfoldable pub check_host : Text → Bool → Text → Result NameError Text
check_host name wild host =
    if is_empty host || ltb 253 (length (as_bytes host))
    then err (invalid name)
    else if not (all is_label (split b'.' host))
    then err (invalid name)
    else if wild && not (any is_dot host)
    then err (too_broad name)
    else if wild
    then ok (star_dot ++ host)
    else ok host

unfoldable pub check_lowered : Text → Text → Result NameError Text
check_lowered name lowered = elim (strip_prefix star_dot lowered) [
  | some rest ↦ check_host name true rest
  | none ↦ check_host name false lowered
]

unfoldable pub normalise : Text → Result NameError Text
normalise name = check_lowered name (to_ascii_lowercase (trim_end is_dot (trim name)))

pub push_address : IpAddr → Option Records → Records
push_address address none = record { addresses = address ∷ [] }
push_address address (some records) =
    if any (ip_eq address) records.addresses
    then records
    else record { addresses = records.addresses ++ address ∷ [] }

pub insert : IpAddr → Text → Overrides → Overrides
insert address name table = elim (strip_prefix star_dot name) [
  | some suffix ↦ record table { wildcard = alter suffix (push_address address) table.wildcard }
  | none ↦ record table { exact = alter name (push_address address) table.exact }
]

-- The names of one line.
pub insert_names : ℕ → IpAddr → List Text → Overrides → Result ParseError Overrides
insert_names line address [] table = ok table
insert_names line address (name ∷ names) table = do
  canonical ← map_err (λ e. record { line = line; message = bad_name e }) (normalise name)
  insert_names line address names (insert address canonical table)

abbrev pub first_part : List Text → Text
first_part [] = []
first_part (part ∷ parts) = part

abbrev pub without_first : List Text → List Text
without_first [] = []
without_first (part ∷ parts) = parts

-- A line that is not blank, as its fields.
pub parse_fields : IpText → ℕ → List Text → Overrides → Result ParseError Overrides
parse_fields ips line fields table = do
  let address_text = first_part fields
  let names = without_first fields
  address ←
      or_else (ips.parse address_text)
        (record { line = line; message = not_an_address address_text })
  after ← insert_names line address names table
  if is_empty names then err (record { line = line; message = no_names address }) else ok after

pub parse_line : IpText → ℕ → Text → Overrides → Result ParseError Overrides
parse_line ips line raw table =
    let content = trim (first_part (split b'#' raw)) in
    if is_empty content then ok table else parse_fields ips line (split_whitespace content) table

pub parse_lines : IpText → ℕ → List Text → Overrides → Result ParseError Overrides
parse_lines ips line [] table = ok table
parse_lines ips line (raw ∷ rest) table = do
  after ← parse_line ips line raw table
  parse_lines ips (line + 1) rest after

abbrev pub no_overrides : Overrides
no_overrides = record { exact = []; wildcard = [] }

pub parse : IpText → Text → Result ParseError Overrides
parse ips text = parse_lines ips 1 (lines text) no_overrides

-- The loop of `lookup` up the labels, with as many rounds of fuel as the name has characters.
pub walk_up : ℕ → TextMap Records → Text → Option Records
walk_up zero wildcard rest = none
walk_up (suc fuel) wildcard rest = elim (split_once b'.' rest) [
  | none ↦ none
  | some (_, parent) ↦ elim (get parent wildcard) [
    | some records ↦ some records
    | none ↦ walk_up fuel wildcard parent
  ]
]

unfoldable pub query_name : Text → Text
query_name name = to_ascii_lowercase (trim_end is_dot name)

unfoldable pub lookup : Overrides → Text → Option Records
lookup table query =
    let name = query_name query in
    elim (get name table.exact) [
      | some records ↦ some records
      | none ↦ walk_up (suc (length name)) table.wildcard name
    ]

abbrev pub of_name : Text → List IpAddr → List Entry
of_name name = map (λ address. record { address = address; name = name })

pub entries_of : (Text → Text) → TextMap Records → List Entry
entries_of name_of [] = []
entries_of name_of ((key, records) ∷ rest) =
    of_name (name_of key) records.addresses ++ entries_of name_of rest

pub entries : Overrides → List Entry
entries table =
    entries_of (λ name. name) table.exact
    ++ entries_of (λ suffix. star_dot ++ suffix) table.wildcard

pub managed_line : Text
managed_line = codes "# Managed by WSL Zero Trust. One address, then the names it answers for."

pub render_entries : IpText → List Entry → Text
render_entries ips [] = []
render_entries ips (entry ∷ rest) =
    ips.to_string entry.address ++ (9 ∷ (entry.name ++ (10 ∷ render_entries ips rest)))

pub render : IpText → Overrides → Text
render ips table = managed_line ++ (10 ∷ render_entries ips (entries table))

pub routed_domains : Overrides → List Text
routed_domains table =
    dedup (sort (map (λ (k, _). k) table.exact ++ map (λ (k, _). k) table.wildcard))

abbrev is_some : {A : Type 0} → Option A → Bool
is_some none = false
is_some (some a) = true

pub remove_name : Text → Overrides → Overrides × Bool
remove_name name table = elim (strip_prefix star_dot name) [
  | some suffix ↦ (
    record table { wildcard = remove suffix table.wildcard },
    is_some (get suffix table.wildcard),
  )
  | none ↦ (record table { exact = remove name table.exact }, is_some (get name table.exact))
]

pub remove_entry : Text → Overrides → Overrides × Bool
remove_entry name table = elim (normalise name) [
  | err e ↦ (table, false)
  | ok canonical ↦ remove_name canonical table
]

pub set : Text → IpAddr → Overrides → Result NameError Overrides
set name address table = do
  canonical ← normalise name
  ok (insert address canonical (remove_entry canonical table).0)
