-- ===== src/Base/Strings/Plain.antt =====
-- When the operations on a `str` leave a text as it is.
use Prim.Native.Nat.{ℕ, ◌<◌}
use mathlib.Core.Path.{◌≡◌, refl}
use mathlib.Core.Logic.{◌≢◌, ◌⊎◌, inl, inr}
use mathlib.Core.Bool.{Bool, false}
use mathlib.Core.List.{List, [], ◌∷◌, ◌++◌}
use mathlib.Core.Option.{some}
use native.Mathlib.Omega.{arith}
use wslvpn.Base.Tests.{◌==◌, Bool-cases}
use wslvpn.Base.Lists.{is_empty}
use wslvpn.Base.Predicates.{All}
use wslvpn.Base.Text.{Text}
use wslvpn.Base.Strings.{
  split, cons_head, trim_end, trim_start, trim, is_whitespace, to_lower, to_ascii_lowercase,
  encode_char, as_bytes, strip_prefix,
}

module _ {ℓ} {A : Type ℓ} (P : A → Type 0) where
  pub All-append : (xs ys : List A) → All P xs → All P ys → All P (xs ++ ys)
  All-append [] ys h k = k
  All-append (x ∷ xs) ys h k = (h.0, All-append xs ys h.1 k)

  pub All-append_right : (xs ys : List A) → All P (xs ++ ys) → All P ys
  All-append_right [] ys h = h
  All-append_right (x ∷ xs) ys h = All-append_right xs ys h.1

-- What the parts of a text have, its characters have, and the other way round.
module _ (P : ℕ → Type 0) (sep : ℕ) where
  cons_head-All :
      (c : ℕ) (parts : List Text) → P c → All (All P) parts → All (All P) (cons_head c parts)
  cons_head-All c [] p h = ((p, tt), tt)
  cons_head-All c (part ∷ parts) p h = ((p, h.0), h.1)

  pub split-All : (s : Text) → All P s → All (All P) (split sep s)
  unfolding split
  split-All [] h = (tt, tt)
  split-All (c ∷ s) h =
      ground (arith, split-All s h.1, cons_head-All c (split sep s) h.0 (split-All s h.1))

pub split-cons :
    (sep : ℕ) (s : Text) → (part : Text) × (parts : List Text) × (split sep s ≡ part ∷ parts)
unfolding split
split-cons sep [] = ([], [], refl)
split-cons sep (c ∷ s) = elim (Bool-cases (c == sep)) [
  | inl e ↦ ([], split sep s, rw e refl)
  | inr e ↦ let (part, parts, same) = split-cons sep s in (c ∷ part, parts, rw (e, same) refl)
]

pub All-of_split :
    (P : ℕ → Type 0) (sep : ℕ) (s : Text) → All (All P) (split sep s) → All (λ c. P c ⊎ (c ≡ sep)) s
unfolding split
All-of_split P sep [] h = tt
All-of_split P sep (c ∷ s) h =
    let (part, parts, same) = split-cons sep s in
    elim (Bool-cases (c == sep)) [
      | inl e ↦ (inr (ground arith), All-of_split P sep s (rw e at h).1)
      | inr e ↦
          let cut : All (All P) (cons_head c (split sep s)) = rw e at h in
          let split_tail : All (All P) (cons_head c (part ∷ parts)) = rw same at cut in
          (inl split_tail.0.0, All-of_split P sep s (rw same (split_tail.0.1, split_tail.1)))
    ]

pub trim_end-plain : (p : ℕ → Bool) (s : Text) → All (λ c. p c ≡ false) s → trim_end p s ≡ s
unfolding trim_end
trim_end-plain p [] h = refl
trim_end-plain p (c ∷ s) h = rw (h.0, trim_end-plain p s h.1)

abbrev pub IsPlain : ℕ → Type 0
IsPlain c = is_whitespace c ≡ false

pub trim-plain : (s : Text) → All IsPlain s → trim s ≡ s
unfolding trim trim_start
trim-plain [] h = trim_end-plain is_whitespace [] tt
trim-plain (c ∷ s) h = rw h.0 (trim_end-plain is_whitespace (c ∷ s) h)

-- Where no part after the first is empty, no separator stands at the end.
abbrev pub later_parts : List Text → List Text
later_parts [] = []
later_parts (part ∷ parts) = parts

abbrev pub IsFilled : List Text → Type 0
IsFilled = All (λ part. part ≢ [])

pub IsFilled-later : (parts : List Text) → IsFilled parts → IsFilled (later_parts parts)
IsFilled-later [] h = tt
IsFilled-later (part ∷ parts) h = h.1

IsFilled-ne-nil : (sep : ℕ) (s : Text) → IsFilled (split sep s) → is_empty s ≡ false
unfolding split
IsFilled-ne-nil sep [] h = absurd (h.0 refl)
IsFilled-ne-nil sep (c ∷ s) h = refl

later_parts-cons_head :
    (c sep : ℕ) (s : Text) → later_parts (cons_head c (split sep s)) ≡ later_parts (split sep s)
later_parts-cons_head c sep s = let (part, parts, same) = split-cons sep s in rw same refl

pub trim_end-split :
    (sep : ℕ) (s : Text) → IsFilled (later_parts (split sep s)) → trim_end (λ c. c == sep) s ≡ s
unfolding trim_end split
trim_end-split sep [] h = refl
trim_end-split sep (c ∷ s) h = elim (Bool-cases (c == sep)) [
  | inl e ↦
      let filled : IsFilled (split sep s) = rw e at h in
      rw (e, trim_end-split sep s (IsFilled-later _ filled), IsFilled-ne-nil sep s filled) refl
  | inr e ↦
      let cut : IsFilled (later_parts (cons_head c (split sep s))) = rw e at h in
      rw (e, trim_end-split sep s (rw (later_parts-cons_head c sep s) at cut)) refl
]

pub to_ascii_lowercase-plain : (s : Text) → All (λ c. to_lower c ≡ c) s → to_ascii_lowercase s ≡ s
unfolding to_ascii_lowercase
to_ascii_lowercase-plain [] h = refl
to_ascii_lowercase-plain (c ∷ s) h = rw (h.0, to_ascii_lowercase-plain s h.1)

pub to_ascii_lowercase-All :
    (P : ℕ → Type 0) → ((c : ℕ) → P (to_lower c)) → (s : Text) → All P (to_ascii_lowercase s)
unfolding to_ascii_lowercase
to_ascii_lowercase-All P f [] = tt
to_ascii_lowercase-All P f (c ∷ s) = (f c, to_ascii_lowercase-All P f s)

pub as_bytes-ascii : (s : Text) → All (λ c. c < 128) s → as_bytes s ≡ s
unfolding as_bytes encode_char
as_bytes-ascii [] h = refl
as_bytes-ascii (c ∷ s) h = ground (arith, h.0, as_bytes-ascii s h.1)

pub ascii-as_bytes : (s : Text) → All (λ b. b < 128) (as_bytes s) → as_bytes s ≡ s
unfolding as_bytes encode_char
ascii-as_bytes [] h = refl
ascii-as_bytes (c ∷ s) h = ground (arith, ascii-as_bytes s)

pub strip_prefix-append :
    (prefix s : Text) {rest : Text} → strip_prefix prefix s ≡ some rest → s ≡ prefix ++ rest
unfolding strip_prefix
strip_prefix-append [] s h = cc
strip_prefix-append (p ∷ prefix) [] h = cc
strip_prefix-append (p ∷ prefix) (c ∷ s) {rest} h =
    ground (arith, strip_prefix-append prefix s {rest = rest})

pub append-strip_prefix : (prefix s : Text) → strip_prefix prefix (prefix ++ s) ≡ some s
unfolding strip_prefix
append-strip_prefix [] s = refl
append-strip_prefix (p ∷ prefix) s = ground (arith, append-strip_prefix prefix s)
