-- ===== src/Dns/Hosts/Rebuild.antt =====
-- A table of crates/wsl-dns/src/hosts.rs is what inserting its entries one by one builds.
use mathlib.Core.List.{append-nil, append_assoc}
use wslvpn.Base.{
  ◌≡◌, ◌≢◌, refl, sym, ap, ◌∙◌, Bool, false, ◌||◌, some, List, [], ◌∷◌, ◌++◌, arith, any, All-mono,
}
use wslvpn.Base.Text.{Text}
use wslvpn.Base.TextMap.{TextMap, ComesBefore, alter, Entries, IsSorted, alter-append, alter-last}
use wslvpn.Base.Net.{IpAddr, ip_eq, ip_eq_iff}
use wslvpn.Base.Strings.Plain.{All-append_right, append-strip_prefix}
use wslvpn.Dns.Hosts.{
  Records, Entry, Overrides, star_dot, push_address, insert, no_overrides, entries_of, entries,
  of_name,
}
use wslvpn.Dns.Hosts.Names.{IsHostName, IsHostName-no_star}
use wslvpn.Dns.Hosts.Tables.{IsDistinct, IsRecords, IsWellFormed}

unfoldable pub insert_all : Overrides → List Entry → Overrides
insert_all table [] = table
insert_all table (entry ∷ rest) = insert_all (insert entry.address entry.name table) rest

add_addresses : Text → List IpAddr → TextMap Records → TextMap Records
add_addresses key [] m = m
add_addresses key (a ∷ addresses) m = add_addresses key addresses (alter key (push_address a) m)

add_all : TextMap Records → TextMap Records → TextMap Records
add_all m [] = m
add_all m ((key, records) ∷ rest) = add_all (add_addresses key records.addresses m) rest

any-append : (p : IpAddr → Bool) (xs ys : List IpAddr) → any p (xs ++ ys) ≡ (any p xs || any p ys)
any-append p [] ys = refl
any-append p (x ∷ xs) ys = ground (arith, any-append p xs ys)

IsDistinct-middle :
    (xs ys : List IpAddr) (b : IpAddr) → IsDistinct (xs ++ b ∷ ys) → any (ip_eq b) xs ≡ false
IsDistinct-middle [] ys b d = refl
IsDistinct-middle (x ∷ xs) ys b d = ground (
  arith,
  IsDistinct-middle xs ys b d.1,
  d.0,
  any-append (ip_eq x) xs (b ∷ ys),
  ip_eq_iff x b,
  ip_eq_iff b x,
)

push_address_new :
    (b : IpAddr) (done : List IpAddr)
    → any (ip_eq b) done ≡ false
    → push_address b (some (record { addresses = done })) ≡ record { addresses = done ++ b ∷ [] }
unfolding push_address
push_address_new b done h = rw h refl

abbrev holding : List IpAddr → Records
holding addresses = record { addresses = addresses }

module _ (key : Text) (front : TextMap Records)
    (before : Entries (λ j _. ComesBefore j key) front) where
  add_addresses_last :
      (addresses done : List IpAddr)
      → IsDistinct (done ++ addresses)
      → add_addresses key addresses (front ++ (key, holding done) ∷ [])
        ≡ front ++ (key, holding (done ++ addresses)) ∷ []
  unfolding add_addresses
  add_addresses_last [] done d = rw (append-nil done) refl
  add_addresses_last (a ∷ addresses) done d =
      let fresh = IsDistinct-middle done addresses a d in
      rw
        (alter-last key (push_address a) front (holding done) before, push_address_new a done fresh)
        (add_addresses_last addresses (done ++ a ∷ []) (rw (append_assoc done (a ∷ []) addresses) d)
          ∙ rw (append_assoc done (a ∷ []) addresses) refl)

  add_addresses_new :
      (addresses : List IpAddr)
      → addresses ≢ []
      → IsDistinct addresses
      → add_addresses key addresses front ≡ front ++ (key, holding addresses) ∷ []
  unfolding add_addresses push_address
  add_addresses_new [] ne d = absurd (ne refl)
  add_addresses_new (a ∷ addresses) ne d =
      rw (alter-append key (push_address a) front before) (add_addresses_last addresses (a ∷ []) d)

sorted_before :
    (front rest : TextMap Records) (key : Text) (records : Records)
    → IsSorted (front ++ (key, records) ∷ rest)
    → Entries (λ j _. ComesBefore j key) front
sorted_before [] rest key records s = tt
sorted_before ((j, v) ∷ front) rest key records s = (
  (All-append_right (λ (i, _). ComesBefore j i) front ((key, records) ∷ rest) s.0).0,
  sorted_before front rest key records s.1,
)

add_all_lem :
    (m front : TextMap Records)
    → IsSorted (front ++ m)
    → Entries (λ _ records. IsRecords records) m
    → add_all front m ≡ front ++ m
unfolding add_all
add_all_lem [] front s h = sym (append-nil front)
add_all_lem ((key, records) ∷ m) front s h =
    rw
      (add_addresses_new key front (sorted_before front m key records s) records.addresses h.0.0
        h.0.1)
      (add_all_lem m (front ++ (key, records) ∷ [])
          (rw (append_assoc front ((key, records) ∷ []) m) s) h.1
        ∙ append_assoc front ((key, records) ∷ []) m)

-- Inserting the entries of one name, and of a whole map.
insert-host :
    (name : Text) (a : IpAddr) (table : Overrides)
    → IsHostName name
    → insert a name table ≡ record table { exact = alter name (push_address a) table.exact }
unfolding insert
insert-host name a table h = rw (IsHostName-no_star name h, insert) refl

insert-wildcard :
    (suffix : Text) (a : IpAddr) (table : Overrides)
    → insert a (star_dot ++ suffix) table
      ≡ record table { wildcard = alter suffix (push_address a) table.wildcard }
unfolding insert
insert-wildcard suffix a table = rw (append-strip_prefix star_dot suffix, insert) refl

insert_all-of_name :
    (name : Text) (addresses : List IpAddr) (table : Overrides) (rest : List Entry)
    → IsHostName name
    → insert_all table (of_name name addresses ++ rest)
      ≡ insert_all (record table { exact = add_addresses name addresses table.exact }) rest
unfolding insert_all add_addresses
insert_all-of_name name [] table rest h = refl
insert_all-of_name name (a ∷ addresses) table rest h =
    ap (λ (t : Overrides). insert_all t (of_name name addresses ++ rest))
      (insert-host name a table h)
    ∙ insert_all-of_name name addresses
        (record table { exact = alter name (push_address a) table.exact }) rest h

insert_all-of_wildcard :
    (suffix : Text) (addresses : List IpAddr) (table : Overrides) (rest : List Entry)
    → insert_all table (of_name (star_dot ++ suffix) addresses ++ rest)
      ≡ insert_all (record table { wildcard = add_addresses suffix addresses table.wildcard }) rest
unfolding insert_all add_addresses
insert_all-of_wildcard suffix [] table rest = refl
insert_all-of_wildcard suffix (a ∷ addresses) table rest =
    ap (λ (t : Overrides). insert_all t (of_name (star_dot ++ suffix) addresses ++ rest))
      (insert-wildcard suffix a table)
    ∙ insert_all-of_wildcard suffix addresses
        (record table { wildcard = alter suffix (push_address a) table.wildcard }) rest

insert_all-exact :
    (m : TextMap Records) (table : Overrides) (rest : List Entry)
    → Entries (λ key _. IsHostName key) m
    → insert_all table (entries_of (λ name. name) m ++ rest)
      ≡ insert_all (record table { exact = add_all table.exact m }) rest
unfolding entries_of add_all
insert_all-exact [] table rest h = refl
insert_all-exact ((key, records) ∷ m) table rest h =
    rw (append_assoc (of_name key records.addresses) (entries_of (λ name. name) m) rest) (
      insert_all-of_name key records.addresses table _ h.0
      ∙ insert_all-exact m
          (record table { exact = add_addresses key records.addresses table.exact }) rest h.1)

insert_all-wildcard :
    (m : TextMap Records) (table : Overrides) (rest : List Entry)
    → insert_all table (entries_of (λ suffix. star_dot ++ suffix) m ++ rest)
      ≡ insert_all (record table { wildcard = add_all table.wildcard m }) rest
unfolding entries_of add_all
insert_all-wildcard [] table rest = refl
insert_all-wildcard ((key, records) ∷ m) table rest =
    rw
      (append_assoc (of_name (star_dot ++ key) records.addresses)
        (entries_of (λ suffix. star_dot ++ suffix) m) rest)
      (insert_all-of_wildcard key records.addresses table _
        ∙ insert_all-wildcard m
            (record table { wildcard = add_addresses key records.addresses table.wildcard }) rest)

-- The entries of a well-formed table, inserted in order, give the table again.
pub insert_all-entries :
    (table : Overrides) → IsWellFormed table → insert_all no_overrides (entries table) ≡ table
unfolding entries insert_all
insert_all-entries table w =
    let wild = entries_of (λ suffix. star_dot ++ suffix) table.wildcard in
    let exact_same =
      add_all_lem table.exact [] w.exact_names.1
        (All-mono (λ (k, r) h. h.1) table.exact w.exact_names.0) in
    let wildcard_same =
      add_all_lem table.wildcard [] w.suffixes.1
        (All-mono (λ (k, r) h. h.1) table.wildcard w.suffixes.0) in
    insert_all-exact table.exact no_overrides wild
      (All-mono (λ (k, r) h. h.0) table.exact w.exact_names.0)
    ∙ ap (λ (m : TextMap Records). insert_all (record { exact = m; wildcard = [] }) wild) exact_same
    ∙ ap (insert_all (record { exact = table.exact; wildcard = [] })) (sym (append-nil wild))
    ∙ insert_all-wildcard table.wildcard (record { exact = table.exact; wildcard = [] }) []
    ∙ ap (λ (m : TextMap Records). record { exact = table.exact; wildcard = m }) wildcard_same
