-- ===== src/Dns/Hosts/Tables.antt =====
-- What a table of crates/wsl-dns/src/hosts.rs holds, whichever operations made it.
use wslvpn.Base.{
  ℕ, ◌+◌, ◌≡◌, ◌≢◌, refl, subst, ◌⊎◌, inl, inr, Bool, false, some, List, [], ◌∷◌, ◌++◌, arith,
  Bool-cases, Option-cases, is_empty, any, ◌||◌,
}
use wslvpn.Base.Text.{Text}
use wslvpn.Base.TextMap.{
  TextMap, alter, remove, Entries, IsSorted, alter-Entries, alter-IsSorted, remove-Entries,
  remove-IsSorted,
}
use wslvpn.Base.Net.{IpAddr, ip_eq, ip_eq_iff}
use wslvpn.Base.Strings.{lines, strip_prefix, trim, split}
use wslvpn.Base.Strings.Plain.{append-strip_prefix}
use wslvpn.Dns.Hosts.{
  IpText, Result, ok, err, ◌>>=◌, map_err, or_else, Records, Overrides, star_dot, normalise,
  push_address, insert, insert_names, first_part, without_first, parse_fields, parse_line,
  parse_lines, no_overrides, parse, remove_name, remove_entry, set,
}
use wslvpn.Dns.Hosts.Names.{
  IsHostName, IsSuffix, IsCanonical, normalise-IsCanonical, IsHostName-no_star,
}

-- No address stands twice.
abbrev pub IsDistinct : List IpAddr → Type 0
IsDistinct [] = Unit
IsDistinct (a ∷ ips) = (any (ip_eq a) ips ≡ false) × IsDistinct ips

abbrev pub IsRecords : Records → Type 0
IsRecords records = (records.addresses ≢ []) × IsDistinct records.addresses

-- Keys of the right kind, in order, with records that are not empty.
abbrev pub IsTable : (Text → Type 0) → TextMap Records → Type 0
IsTable P m = Entries (λ key records. P key × IsRecords records) m × IsSorted m

pub record IsWellFormed (table : Overrides) : Type 0 where
  pub exact_names : IsTable IsHostName table.exact
  pub suffixes : IsTable IsSuffix table.wildcard

any-append_one :
    (p : IpAddr → Bool) (ips : List IpAddr) (b : IpAddr)
    → any p (ips ++ b ∷ []) ≡ (any p ips || p b)
any-append_one p [] b = ground arith
any-append_one p (a ∷ ips) b = ground (arith, any-append_one p ips b)

IsDistinct-append :
    (ips : List IpAddr) (b : IpAddr)
    → any (ip_eq b) ips ≡ false
    → IsDistinct ips
    → IsDistinct (ips ++ b ∷ [])
IsDistinct-append [] b h d = (refl, tt)
IsDistinct-append (a ∷ ips) b h d = (
  ground (arith, any-append_one (ip_eq a) ips b, ip_eq_iff a b, ip_eq_iff b a, d.0),
  IsDistinct-append ips b (ground arith) d.1,
)

pub append_one_ne_nil : {A : Type 0} (ips : List A) (b : A) → ips ++ b ∷ [] ≢ []
append_one_ne_nil [] b h = cc
append_one_ne_nil (a ∷ ips) b h = cc

push_address-IsRecords :
    (b : IpAddr) (records : Records) → IsRecords records → IsRecords (push_address b (some records))
unfolding push_address
push_address-IsRecords b records h = elim (Bool-cases (any (ip_eq b) records.addresses)) [
  | inl e ↦ rw e h
  | inr e ↦
      rw e (append_one_ne_nil records.addresses b, IsDistinct-append records.addresses b e h.1)
]

alter-IsTable :
    (P : Text → Type 0) (b : IpAddr) (key : Text) (m : TextMap Records)
    → P key
    → IsTable P m
    → IsTable P (alter key (push_address b) m)
unfolding push_address
alter-IsTable P b key m p h = (
  alter-Entries (λ k records. P k × IsRecords records) key (push_address b)
      (p, ((λ e. cc), (refl, tt))) (λ records r. (r.0, push_address-IsRecords b records r.1)) m h.0,
  alter-IsSorted key (push_address b) m h.1,
)

remove-IsTable :
    (P : Text → Type 0) (key : Text) (m : TextMap Records) → IsTable P m → IsTable P (remove key m)
remove-IsTable P key m h = (remove-Entries _ key m h.0, remove-IsSorted key m h.1)

pub insert-IsWellFormed :
    (b : IpAddr) (name : Text) (table : Overrides)
    → IsCanonical name
    → IsWellFormed table
    → IsWellFormed (insert b name table)
unfolding insert
insert-IsWellFormed b name table (inl host) w =
    rw (IsHostName-no_star name host, insert)
      (record {
        exact_names = alter-IsTable IsHostName b name table.exact host w.exact_names;
        suffixes = w.suffixes;
      })
insert-IsWellFormed b name table (inr (suffix, same, h)) w =
    rw (same, append-strip_prefix star_dot suffix, insert)
      (record {
        exact_names = w.exact_names;
        suffixes = alter-IsTable IsSuffix b suffix table.wildcard h w.suffixes;
      })

remove_name-IsWellFormed :
    (name : Text) (table : Overrides) → IsWellFormed table → IsWellFormed (remove_name name table).0
unfolding remove_name
remove_name-IsWellFormed name table w = elim (Option-cases (strip_prefix star_dot name)) [
  | inl e ↦
      rw (e, remove_name)
        (record {
          exact_names = remove-IsTable IsHostName name table.exact w.exact_names;
          suffixes = w.suffixes;
        })
  | inr (suffix, e) ↦
      rw (e, remove_name)
        (record {
          exact_names = w.exact_names;
          suffixes = remove-IsTable IsSuffix suffix table.wildcard w.suffixes;
        })
]

pub Result-cases :
    {E A : Type 0} (r : Result E A) → ((a : A) × (r ≡ ok a)) ⊎ ((e : E) × (r ≡ err e))
Result-cases (ok a) = inl (a, refl)
Result-cases (err e) = inr (e, refl)

-- Taking an entry out leaves a well-formed table.
pub remove_entry-IsWellFormed :
    (name : Text) (table : Overrides)
    → IsWellFormed table
    → IsWellFormed (remove_entry name table).0
unfolding remove_entry
remove_entry-IsWellFormed name table w = elim (Result-cases (normalise name)) [
  | inl (canonical, e) ↦ rw (e, remove_entry) (remove_name-IsWellFormed canonical table w)
  | inr (x, e) ↦ rw (e, remove_entry) w
]

ok_first :
    {E A B : Type 0} (m : Result E A) (f : A → Result E B) {b : B}
    → (m >>= f) ≡ ok b
    → (a : A) × (m ≡ ok a) × (f a ≡ ok b)
ok_first (ok a) f h = (a, refl, h)
ok_first (err e) f h = cc

map_err-ok : {E F A : Type 0} (f : E → F) (m : Result E A) {a : A} → map_err f m ≡ ok a → m ≡ ok a
map_err-ok f (ok b) h = ground arith
map_err-ok f (err e) h = cc

insert_names-IsWellFormed :
    (line : ℕ) (b : IpAddr) (names : List Text) (table : Overrides) {after : Overrides}
    → insert_names line b names table ≡ ok after
    → IsWellFormed table
    → IsWellFormed after
unfolding insert_names
insert_names-IsWellFormed line b [] table h w = subst IsWellFormed (cc) w
insert_names-IsWellFormed line b (name ∷ names) table h w =
    let (canonical, e, later) = ok_first (map_err _ (normalise name)) _ h in
    insert_names-IsWellFormed line b names (insert b canonical table) later (
      insert-IsWellFormed b canonical table
        (normalise-IsCanonical name (map_err-ok _ (normalise name) e)) w)

parse_fields-IsWellFormed :
    (ips : IpText) (line : ℕ) (fields : List Text) (table : Overrides) {after : Overrides}
    → parse_fields ips line fields table ≡ ok after
    → IsWellFormed table
    → IsWellFormed after
unfolding parse_fields
parse_fields-IsWellFormed ips line fields table h w =
    let (address, read, rest) = ok_first (or_else (ips.parse (first_part fields)) _) _ h in
    let (last, inserted, checked) =
      ok_first (insert_names line address (without_first fields) table) _ rest in
    let same : last ≡ _ = ground arith in
    subst IsWellFormed same
      (insert_names-IsWellFormed line address (without_first fields) table inserted w)

parse_line-IsWellFormed :
    (ips : IpText) (line : ℕ) (raw : Text) (table : Overrides) {after : Overrides}
    → parse_line ips line raw table ≡ ok after
    → IsWellFormed table
    → IsWellFormed after
unfolding parse_line
parse_line-IsWellFormed ips line raw table h w =
    elim (Bool-cases (is_empty (trim (first_part (split b'#' raw))))) [
      | inl e ↦ subst IsWellFormed (cc (rw e at h)) w
      | inr e ↦ parse_fields-IsWellFormed ips line _ table (rw e at h) w
    ]

parse_lines-IsWellFormed :
    (ips : IpText) (line : ℕ) (raws : List Text) (table : Overrides) {after : Overrides}
    → parse_lines ips line raws table ≡ ok after
    → IsWellFormed table
    → IsWellFormed after
unfolding parse_lines
parse_lines-IsWellFormed ips line [] table h w = subst IsWellFormed (cc) w
parse_lines-IsWellFormed ips line (raw ∷ rest) table h w =
    let (next, read, later) = ok_first (parse_line ips line raw table) _ h in
    parse_lines-IsWellFormed ips (line + 1) rest next later
      (parse_line-IsWellFormed ips line raw table read w)

-- A table that is read from a file is well-formed: its names are host names, its wildcards stand over
-- suffixes of two labels or more, its keys are in order, and no name has an empty list of addresses
-- or the same address twice.
pub parse-IsWellFormed :
    (ips : IpText) (text : Text) {table : Overrides}
    → parse ips text ≡ ok table
    → IsWellFormed table
unfolding parse
parse-IsWellFormed ips text h =
    parse_lines-IsWellFormed ips 1 (lines text) no_overrides h
      (record { exact_names = (tt, tt); suffixes = (tt, tt) })

-- `set` keeps a table well-formed.
pub set-IsWellFormed :
    (name : Text) (b : IpAddr) (table : Overrides) {after : Overrides}
    → set name b table ≡ ok after
    → IsWellFormed table
    → IsWellFormed after
unfolding set
set-IsWellFormed name b table h w =
    let (canonical, e, done) = ok_first (normalise name) _ h in
    subst IsWellFormed (cc) (
      insert-IsWellFormed b canonical _ (normalise-IsCanonical name e)
        (remove_entry-IsWellFormed canonical table w))
