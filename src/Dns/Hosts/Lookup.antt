-- ===== src/Dns/Hosts/Lookup.antt =====
-- What `lookup` of crates/wsl-dns/src/hosts.rs answers: an exact name, else the longest wildcard.
use wslvpn.Base.{
  ℕ, zero, suc, ◌<◌, ◌≡◌, ◌≢◌, refl, sym, ap, subst, ◌∙◌, ◌⊎◌, inl, inr, false, Option, none, some,
  [], ◌∷◌, arith, ◌==◌, ==_iff, if◌then◌else◌, Bool-cases, Option-cases, length,
}
use wslvpn.Base.Text.{Text, text_eq}
use wslvpn.Base.TextMap.{TextMap, get, alter, remove, get-remove, get-alter_fresh, text_eq_refl}
use wslvpn.Base.Net.{IpAddr}
use wslvpn.Base.Strings.{split_once}
use wslvpn.Dns.Hosts.{
  ok, Records, Overrides, normalise, push_address, insert, walk_up, query_name, lookup, remove_name,
  remove_entry, set,
}
use wslvpn.Dns.Hosts.Names.{IsHostName, IsCanonical-normalise, IsHostName-no_star}

-- What stands behind one of the dots of a name.
abbrev pub IsParent : Text → Text → Type 0
IsParent parent [] = ⊥
IsParent parent (c ∷ name) = ((c ≡ b'.') × (name ≡ parent)) ⊎ IsParent parent name

-- How a name in its canonical form is answered by a table.
pub data Resolves (table : Overrides) (name : Text) : Option Records → Type 0 where
  by_name :
      (records : Records) → get name table.exact ≡ some records → Resolves table name (some records)
  by_parent :
      (parent : Text) (records : Records)
      → get name table.exact ≡ none
      → IsParent parent name
      → get parent table.wildcard ≡ some records
      → ((longer : Text)
          → IsParent longer name
          → length parent < length longer
          → get longer table.wildcard ≡ none)
      → Resolves table name (some records)
  upstream :
      get name table.exact ≡ none
      → ((parent : Text) → IsParent parent name → get parent table.wildcard ≡ none)
      → Resolves table name none

IsParent-lt : (parent name : Text) → IsParent parent name → length parent < length name
IsParent-lt parent (c ∷ name) (inl (d, e)) = omega (arith, ap length e)
IsParent-lt parent (c ∷ name) (inr p) = omega (arith, IsParent-lt parent name p)
IsParent-lt parent [] h = absurd h

not_dot : (c : ℕ) → (c == b'.') ≡ false → c ≢ b'.'
not_dot c e d = ground arith

-- The parents of a name are what stands behind its first dot, and the parents of that.
first-IsParent :
    (name : Text)
    → ((split_once b'.' name ≡ none) × ((q : Text) → ¬ IsParent q name))
      ⊎ ((before parent : Text) × (split_once b'.' name ≡ some (before, parent))
          × IsParent parent name
          × ((q : Text) → IsParent q name → (q ≡ parent) ⊎ IsParent q parent)
          × ((q : Text) → IsParent q parent → IsParent q name))
unfolding split_once
first-IsParent [] = inl (refl, λ q h. h)
first-IsParent (c ∷ name) = elim (Bool-cases (c == b'.')) [
  | inl e ↦
      let dot : c ≡ b'.' = (==_iff c b'.').0 e in
      inr (
        [],
        name,
        rw (e, split_once) refl,
        inl (dot, refl),
        (λ q h. elim h [ inl d ↦ inl (sym d.1) | inr p ↦ inr p ]),
        (λ q h. inr h),
      )
  | inr e ↦ elim (first-IsParent name) [
    | inl (none_there, without) ↦ inl (
      rw (e, none_there, split_once) refl,
      (λ q h. elim h [ inl d ↦ not_dot c e d.0 | inr p ↦ without q p ]),
    )
    | inr (before, parent, cut, here, only, back) ↦ inr (
      c ∷ before,
      parent,
      rw (e, cut, split_once) refl,
      inr here,
      (λ q h. elim h [ inl d ↦ absurd (not_dot c e d.0) | inr p ↦ only q p ]),
      (λ q h. inr (back q h)),
    )
  ]
]

-- The search upward finds the longest parent in the table, if there is one.
data Walks (wildcard : TextMap Records) (name : Text) : Option Records → Type 0 where
  found :
      (parent : Text) (records : Records)
      → IsParent parent name
      → get parent wildcard ≡ some records
      → ((longer : Text)
          → IsParent longer name
          → length parent < length longer
          → get longer wildcard ≡ none)
      → Walks wildcard name (some records)
  missing :
      ((parent : Text) → IsParent parent name → get parent wildcard ≡ none)
      → Walks wildcard name none

not_longer : (parent q : Text) → (q ≡ parent) ⊎ IsParent q parent → ¬ (length parent < length q)
not_longer parent q (inl e) lt = omega (arith, ap length e)
not_longer parent q (inr p) lt = omega (arith, IsParent-lt q parent p)

-- Where the first parent has no wildcard, the search goes on from it.
module _ {name : Text} (parent : Text) (wildcard : TextMap Records)
    (unset : get parent wildcard ≡ none)
    (only : (q : Text) → IsParent q name → (q ≡ parent) ⊎ IsParent q parent)
    (back : (q : Text) → IsParent q parent → IsParent q name) where
  onward : {r : Option Records} → Walks wildcard parent r → Walks wildcard name r
  onward (found p records here g longer) = found p records (back p here) g (λ q h lt.
      elim (only q h) [
        | inl e ↦ subst (λ x. get x wildcard ≡ none) (sym e) unset
        | inr h' ↦ longer q h' lt
      ])
  onward (missing none_there) = missing (λ q h. elim (only q h) [
    | inl e ↦ subst (λ x. get x wildcard ≡ none) (sym e) unset
    | inr h' ↦ none_there q h'
  ])

walk_up-Walks :
    (fuel : ℕ) (wildcard : TextMap Records) (name : Text)
    → length name < fuel
    → Walks wildcard name (walk_up fuel wildcard name)
unfolding walk_up
walk_up-Walks zero wildcard name h = absurd (omega arith)
walk_up-Walks (suc fuel) wildcard name h = elim (first-IsParent name) [
  | inl (none_there, without) ↦ rw (none_there, walk_up) (missing (λ q p. absurd (without q p)))
  | inr (before, parent, cut, here, only, back) ↦ elim (Option-cases (get parent wildcard)) [
    | inr (records, g) ↦
        rw (cut, g, walk_up)
          (found parent records here g
            (λ longer p lt. absurd (not_longer parent longer (only longer p) lt)))
    | inl g ↦
        rw (cut, g, walk_up)
          (onward parent wildcard g only back
            (walk_up-Walks fuel wildcard parent (omega (arith, IsParent-lt parent name here))))
  ]
]

lookup_walk :
    (table : Overrides) (name : Text) {r : Option Records}
    → get name table.exact ≡ none
    → Walks table.wildcard name r
    → Resolves table name r
lookup_walk table name e (found parent records p g longer) = by_parent parent records e p g longer
lookup_walk table name e (missing none_there) = upstream e none_there

-- `lookup` answers with the records of the exact name, else with those of the longest suffix behind a
-- dot that has a wildcard, and with none if there is neither.
pub lookup-Resolves :
    (table : Overrides) (query : Text) → Resolves table (query_name query) (lookup table query)
unfolding lookup
lookup-Resolves table query = elim (Option-cases (get (query_name query) table.exact)) [
  | inl e ↦
      rw (e, lookup)
        (lookup_walk table (query_name query) e
          (walk_up-Walks _ table.wildcard (query_name query) (omega arith)))
  | inr (records, e) ↦ rw (e, lookup) (by_name records e)
]

set_host :
    (name : Text) (address : IpAddr) (table : Overrides) {host : Text}
    → normalise name ≡ ok host
    → IsHostName host
    → set name address table
      ≡ ok (record table { exact = alter host (push_address address) (remove host table.exact) })
unfolding set remove_entry remove_name insert
set_host name address table {host} e h =
    rw (e, set)
      (rw (IsCanonical-normalise host (inl h), remove_entry)
        (rw (IsHostName-no_star host h, insert) (rw (IsHostName-no_star host h, remove_name) refl)))

-- After `set` of a host name, that name is answered with the new address alone, however it is
-- spelled in the query, and every other name is answered as before.
pub lookup-set :
    (name : Text) (address : IpAddr) (table : Overrides) (query : Text) {host : Text}
    → normalise name ≡ ok host
    → IsHostName host
    → (after : Overrides) × (set name address table ≡ ok after)
      × (lookup after query ≡ (
          if text_eq host (query_name query)
          then some (record { addresses = address ∷ [] })
          else lookup table query))
unfolding lookup push_address
lookup-set name address table query {host} e h =
    let q = query_name query in
    let fresh : get host (remove host table.exact) ≡ none =
      get-remove host host table.exact ∙ rw (text_eq_refl host) refl in
    let put = get-alter_fresh q host (push_address address) (remove host table.exact) fresh in
    let kept = get-remove q host table.exact in
    (
      _,
      set_host name address table e h,
      elim (Bool-cases (text_eq host q)) [
        | inl t ↦ rw (put, t, lookup) refl
        | inr t ↦ rw (put, t, kept, t, lookup) refl
      ],
    )
