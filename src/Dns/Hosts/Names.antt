-- ===== src/Dns/Hosts/Names.antt =====
-- Which names `normalise` of crates/wsl-dns/src/hosts.rs lets through.
use wslvpn.Base.{
  ℕ, ◌≡◌, ◌≢◌, refl, ◌↔◌, ◌⊎◌, ◌≤◌, ◌<◌, inl, inr, Bool, true, false, not, ◌&&◌, ◌||◌, none, List,
  [], ◌∷◌, ◌++◌, arith, ltb, leb, if◌then◌else◌, Option-cases, length, is_empty, any, all, All, Any,
  All-mono, any_iff,
}
use wslvpn.Base.Text.{Text}
use wslvpn.Base.Strings.{
  split, trim, trim_end, strip_prefix, to_lower, to_ascii_lowercase, as_bytes,
}
use wslvpn.Base.Strings.Plain.{
  split-All, All-of_split, IsPlain, trim-plain, IsFilled, IsFilled-later, later_parts,
  trim_end-split, to_ascii_lowercase-plain, to_ascii_lowercase-All, as_bytes-ascii, ascii-as_bytes,
  strip_prefix-append, append-strip_prefix,
}
use wslvpn.Dns.Hosts.{
  ok, star_dot, is_dot, is_label_byte, starts_with, ends_with, is_label, check_host, check_lowered,
  normalise,
}

-- A letter in lower case, a digit, a hyphen or an underscore.
abbrev pub IsNameChar : ℕ → Type 0
IsNameChar c = (b'a' ≤ c × c ≤ b'z') ⊎ ((b'0' ≤ c × c ≤ b'9') ⊎ ((c ≡ b'-') ⊎ (c ≡ b'_')))

abbrev pub IsLabel : Text → Type 0
IsLabel label =
    (label ≢ [])
    × (length label ≤ 63)
    × All IsNameChar label
    × (starts_with b'-' label ≡ false)
    × (ends_with b'-' label ≡ false)

abbrev pub IsHostName : Text → Type 0
IsHostName host = (host ≢ []) × (length host ≤ 253) × All IsLabel (split b'.' host)

-- The suffix of a wildcard has two labels or more.
abbrev pub IsSuffix : Text → Type 0
IsSuffix host = IsHostName host × Any (λ c. c ≡ b'.') host

-- A host name, or a wildcard over a suffix.
abbrev pub IsCanonical : Text → Type 0
IsCanonical name =
    IsHostName name ⊎ ((suffix : Text) × (name ≡ star_dot ++ suffix) × IsSuffix suffix)

abbrev NotUpper : ℕ → Type 0
NotUpper c = (c < b'A') ⊎ (b'Z' < c)

IsNameChar-iff : (c : ℕ) → NotUpper c → (is_label_byte c ≡ true) ↔ IsNameChar c
IsNameChar-iff c h = ground arith

name_char-ascii : (c : ℕ) → IsNameChar c → c < 128
name_char-ascii c h = omega arith

label_byte-ascii : (c : ℕ) → is_label_byte c ≡ true → c < 128
label_byte-ascii c h = ground arith

all-All : {A : Type 0} (p : A → Bool) (xs : List A) → all p xs ≡ true → All (λ x. p x ≡ true) xs
all-All p [] h = tt
all-All p (x ∷ xs) h = ground (arith, all-All p xs)

All-all : {A : Type 0} (p : A → Bool) (xs : List A) → All (λ x. p x ≡ true) xs → all p xs ≡ true
All-all p [] h = refl
All-all p (x ∷ xs) h = ground (arith, h.0, All-all p xs h.1)

All-both :
    {A : Type 0} (P Q R : A → Type 0)
    → ((x : A) → P x → Q x → R x)
    → (xs : List A) → All P xs
    → All Q xs
    → All R xs
All-both P Q R f [] h k = tt
All-both P Q R f (x ∷ xs) h k = (f x h.0 k.0, All-both P Q R f xs h.1 k.1)

is_label-IsLabel : (label : Text) → All NotUpper label → is_label label ≡ true → IsLabel label
unfolding is_label
is_label-IsLabel [] lower h = cc
is_label-IsLabel (c ∷ label) lower h =
    let bytes : all is_label_byte (as_bytes (c ∷ label)) ≡ true = ground arith in
    let same : as_bytes (c ∷ label) ≡ c ∷ label =
      ascii-as_bytes (c ∷ label)
        (All-mono label_byte-ascii (as_bytes (c ∷ label)) (all-All is_label_byte _ bytes)) in
    let plain : all is_label_byte (c ∷ label) ≡ true = rw same at bytes in
    let short : leb (length (as_bytes (c ∷ label))) 63 ≡ true = ground arith in
    let fits : leb (length (c ∷ label)) 63 ≡ true = rw same at short in
    (
      λ e. cc,
      ground arith,
      All-both _ _ _ (λ d p q. (IsNameChar-iff d p).0 q) (c ∷ label) lower
          (all-All is_label_byte (c ∷ label) plain),
      ground arith,
      ground arith,
    )

IsLabel-is_label : (label : Text) → IsLabel label → is_label label ≡ true
unfolding is_label
IsLabel-is_label [] h = absurd (h.0 refl)
IsLabel-is_label (c ∷ label) h =
    let same : as_bytes (c ∷ label) ≡ c ∷ label =
      as_bytes-ascii (c ∷ label) (All-mono name_char-ascii (c ∷ label) h.2) in
    let bytes : all is_label_byte (c ∷ label) ≡ true =
      All-all is_label_byte (c ∷ label) (All-mono (λ d k. ground arith) (c ∷ label) h.2) in
    rw same (ground (arith, h.1, h.3, h.4))

abbrev pub IsHostChar : ℕ → Type 0
IsHostChar c = IsNameChar c ⊎ (c ≡ b'.')

pub IsHostName-chars : (host : Text) → IsHostName host → All IsHostChar host
IsHostName-chars host h =
    All-of_split IsNameChar b'.' host (All-mono (λ label l. l.2) (split b'.' host) h.2)

IsHostName-as_bytes : (host : Text) → IsHostName host → as_bytes host ≡ host
IsHostName-as_bytes host h =
    as_bytes-ascii host (All-mono (λ c k. omega arith) host (IsHostName-chars host h))

labels-IsLabel :
    (host : Text)
    → All NotUpper host
    → all is_label (split b'.' host) ≡ true
    → All IsLabel (split b'.' host)
labels-IsLabel host lower h =
    All-both _ _ _ is_label-IsLabel (split b'.' host) (split-All NotUpper b'.' host lower)
      (all-All is_label _ h)

-- The tests of `check_host` on a text without upper case letters.
abbrev IsChecked : Text → Type 0
IsChecked host =
    ((is_empty host || ltb 253 (length (as_bytes host))) ≡ false)
    × (all is_label (split b'.' host) ≡ true)

IsChecked-IsHostName : (host : Text) → All NotUpper host → IsChecked host → IsHostName host
IsChecked-IsHostName host lower h =
    let labels = labels-IsLabel host lower h.1 in
    let bytes : as_bytes host ≡ host = as_bytes-ascii host (
      All-mono (λ c k. omega arith) host
        (All-of_split IsNameChar b'.' host (All-mono (λ label l. l.2) (split b'.' host) labels))) in
    let tests : (is_empty host || ltb 253 (length host)) ≡ false = rw bytes at h.0 in
    (λ e. cc (rw e at tests), ground arith, labels)

IsHostName-IsChecked : (host : Text) → IsHostName host → IsChecked host
IsHostName-IsChecked [] h = absurd (h.0 refl)
IsHostName-IsChecked (c ∷ host) h = (
  rw (IsHostName-as_bytes (c ∷ host) h) (ground (arith, h.1)),
  All-all is_label _ (All-mono IsLabel-is_label _ h.2),
)

lowered-NotUpper : (s : Text) → All NotUpper (to_ascii_lowercase s)
lowered-NotUpper s = to_ascii_lowercase-All NotUpper (λ c. ground arith) s

check_host-IsChecked :
    (name host : Text) (wild : Bool) {n : Text} → check_host name wild host ≡ ok n → IsChecked host
unfolding check_host
check_host-IsChecked name host wild h = ground arith

check_host-ok :
    (name host : Text) (wild : Bool) {n : Text}
    → check_host name wild host ≡ ok n
    → (n ≡ (if wild then star_dot ++ host else host)) × ((wild && not (any is_dot host)) ≡ false)
unfolding check_host
check_host-ok name host wild h = ground arith

check_host-IsCanonical :
    (name host : Text) (wild : Bool) {n : Text}
    → All NotUpper host
    → check_host name wild host ≡ ok n
    → IsCanonical n
check_host-IsCanonical name host false lower h = inl (
    rw (check_host-ok name host false h).0
      (IsChecked-IsHostName host lower (check_host-IsChecked name host false h)))
check_host-IsCanonical name host true lower h =
    let (same, dotted) = check_host-ok name host true h in
    inr (
      host,
      same,
      (
        IsChecked-IsHostName host lower (check_host-IsChecked name host true h),
        (any_iff is_dot (λ c. ground arith) host).0 (ground arith),
      ),
    )

check_lowered-IsCanonical :
    (name lowered : Text) {n : Text}
    → All NotUpper lowered
    → check_lowered name lowered ≡ ok n
    → IsCanonical n
unfolding check_lowered
check_lowered-IsCanonical name lowered lower h =
    elim (Option-cases (strip_prefix star_dot lowered)) [
      | inl e ↦ check_host-IsCanonical name lowered false lower (rw (e, check_lowered) at h)
      | inr (rest, e) ↦
          let whole : All NotUpper (star_dot ++ rest) =
            rw (strip_prefix-append star_dot lowered e) at lower in
          check_host-IsCanonical name rest true whole.1.1 (rw (e, check_lowered) at h)
    ]

-- What `normalise` accepts is canonical.
pub normalise-IsCanonical : (name : Text) {n : Text} → normalise name ≡ ok n → IsCanonical n
unfolding normalise
normalise-IsCanonical name h =
    check_lowered-IsCanonical name _ (lowered-NotUpper (trim_end is_dot (trim name))) h

host_char-IsPlain : (c : ℕ) → IsHostChar c → IsPlain c × (to_lower c ≡ c)
host_char-IsPlain c h = ground arith

-- On a canonical name, `trim` and the rest of the clean-up do nothing.
cleaned :
    (name : Text)
    → All (λ c. IsPlain c × (to_lower c ≡ c)) name
    → IsFilled (later_parts (split b'.' name))
    → to_ascii_lowercase (trim_end is_dot (trim name)) ≡ name
cleaned name plain filled =
    rw (trim-plain name (All-mono (λ c h. h.0) name plain), trim_end-split b'.' name filled)
      (to_ascii_lowercase-plain name (All-mono (λ c h. h.1) name plain))

IsHostName-IsPlain : (host : Text) → IsHostName host → All (λ c. IsPlain c × (to_lower c ≡ c)) host
IsHostName-IsPlain host h = All-mono host_char-IsPlain host (IsHostName-chars host h)

IsHostName-IsFilled : (host : Text) → IsHostName host → IsFilled (split b'.' host)
IsHostName-IsFilled host h = All-mono (λ label l. l.0) (split b'.' host) h.2

pub IsHostName-no_star : (host : Text) → IsHostName host → strip_prefix star_dot host ≡ none
unfolding strip_prefix
IsHostName-no_star [] h = absurd (h.0 refl)
IsHostName-no_star (c ∷ host) h = ground (arith, (IsHostName-chars (c ∷ host) h).0)

IsHostName-check_host :
    (name host : Text) (wild : Bool)
    → IsHostName host
    → (wild && not (any is_dot host)) ≡ false
    → check_host name wild host ≡ ok (if wild then star_dot ++ host else host)
unfolding check_host
IsHostName-check_host name host wild h dotted = ground (arith, IsHostName-IsChecked host h, dotted)

-- A canonical name is its own canonical form.
pub IsCanonical-normalise : (name : Text) → IsCanonical name → normalise name ≡ ok name
unfolding normalise check_lowered
IsCanonical-normalise name (inl h) =
    rw (cleaned name (IsHostName-IsPlain name h) (IsFilled-later _ (IsHostName-IsFilled name h)))
      (rw (IsHostName-no_star name h, check_lowered) (IsHostName-check_host name name false h refl))
IsCanonical-normalise name (inr (suffix, same, (h, dotted))) =
    let filled : IsFilled (later_parts (split b'.' (star_dot ++ suffix))) =
      unfold split in IsHostName-IsFilled suffix h in
    let has_dot = (any_iff {P = λ c. c ≡ b'.'} is_dot (λ c. ground arith) suffix).1 dotted in
    let plain : All (λ c. IsPlain c × (to_lower c ≡ c)) (star_dot ++ suffix) =
      ((refl, refl), ((refl, refl), IsHostName-IsPlain suffix h)) in
    rw (same, cleaned (star_dot ++ suffix) plain filled)
      (rw (append-strip_prefix star_dot suffix, check_lowered)
        (IsHostName-check_host (star_dot ++ suffix) suffix true h (rw has_dot refl)))

-- A name is canonical exactly if `normalise` accepts it and leaves it as it is.
pub normalise_iff : (name : Text) → (normalise name ≡ ok name) ↔ IsCanonical name
normalise_iff name = (normalise-IsCanonical name, IsCanonical-normalise name)

-- `normalise` answers canonical names only, and applied again it changes nothing.
pub normalise-normalise :
    (name : Text) {n : Text} → normalise name ≡ ok n → IsCanonical n × (normalise n ≡ ok n)
normalise-normalise name {n} h =
    let canonical = normalise-IsCanonical name h in (canonical, IsCanonical-normalise n canonical)
