-- ===== src/Dns/Wire/Skipping.antt =====
-- `skip_name` of crates/wsl-dns/src/wire.rs, on the two kinds of name that a reply holds and on any
-- bytes.
use wslvpn.Base.{
  ℕ, zero, suc, ◌+◌, ◌≤◌, ◌<◌, bit_and, ◌≡◌, refl, ap, subst, ◌∙◌, inl, inr, none, some, List, [],
  ◌∷◌, ◌++◌, arith, Option-cases, Option, ◌≢◌, ◌↔◌, ==_iff, Bool-cases, ◌==◌, length, get_elem?,
  drop, length-append, length-drop, All,
}
use mathlib.Core.List.{append_assoc}
use wslvpn.Dns.Wire.Bits.{label_bits}
use wslvpn.Dns.Wire.Labels.{IsChunk, encode_chunks}
use wslvpn.Dns.Wire.Reading.{get_elem?_at, drop_past}
use wslvpn.Dns.Wire.Response.{ended, out_of_fuel, answered, skip_loop, skip_name}

skip_loop_stops :
    (fuel : ℕ) (buf : List ℕ) (at : ℕ)
    → get_elem? buf at ≡ some 0
    → skip_loop (suc fuel) buf at ≡ ended (at + 1)
unfolding skip_loop
skip_loop_stops fuel buf at e = ground arith

skip_loop_goes_on :
    (fuel : ℕ) (buf : List ℕ) (at len : ℕ)
    → get_elem? buf at ≡ some len
    → 1 ≤ len
    → bit_and len 0xc0 ≡ 0
    → skip_loop (suc fuel) buf at ≡ skip_loop fuel buf (at + (1 + len))
unfolding skip_loop
skip_loop_goes_on fuel buf at len e pos plain = ground arith

skip_loop-chunks :
    (fuel : ℕ) (buf : List ℕ) (at : ℕ) (chunks : List (List ℕ)) (rest : List ℕ)
    → drop at buf ≡ encode_chunks chunks ++ 0 ∷ rest
    → All IsChunk chunks
    → length chunks < fuel
    → skip_loop fuel buf at ≡ ended (at + length (encode_chunks chunks) + 1)
skip_loop-chunks zero buf at chunks rest d good enough = absurd (omega arith)
skip_loop-chunks (suc fuel) buf at [] rest d good enough =
    skip_loop_stops fuel buf at (get_elem?_at buf at d) ∙ ap ended (omega arith)
skip_loop-chunks (suc fuel) buf at (c ∷ cs) rest d (g, gs) enough =
    skip_loop_goes_on fuel buf at (length c) (get_elem?_at buf at d) g.0
      ((label_bits (length c) (omega arith)).1 (omega arith))
    ∙ skip_loop-chunks fuel buf (at + (1 + length c)) cs rest behind gs (omega arith)
    ∙ ap ended (omega (arith, length-append c (encode_chunks cs)))
  where
    behind : drop (at + (1 + length c)) buf ≡ encode_chunks cs ++ 0 ∷ rest
    behind =
        let e : at + (1 + length c) ≡ at + 1 + length c = omega arith in
        rw e (
          drop_past buf (at + 1) c
            (drop_past buf at (length c ∷ []) (d ∙ ap (◌∷◌ (length c)) (append_assoc c _ _))))

length-chunks-le : (chunks : List (List ℕ)) → length chunks ≤ length (encode_chunks chunks)
length-chunks-le [] = omega arith
length-chunks-le (c ∷ cs) = omega (arith, length-append c (encode_chunks cs), length-chunks-le cs)

pub skip_name-chunks :
    (buf : List ℕ) (at : ℕ) (chunks : List (List ℕ)) (rest : List ℕ)
    → drop at buf ≡ encode_chunks chunks ++ 0 ∷ rest
    → All IsChunk chunks
    → skip_name buf at ≡ some (at + length (encode_chunks chunks) + 1)
unfolding skip_name
skip_name-chunks buf at chunks rest d good = ap answered (
    skip_loop-chunks (suc (length buf)) buf at chunks rest d good (
      omega (
        arith,
        ap length d,
        length-drop at buf,
        length-append (encode_chunks chunks) (0 ∷ rest),
        length-chunks-le chunks,
      )))

-- A compression pointer ends the name.
pub skip_name_pointer :
    (buf : List ℕ) (at : ℕ) (low : ℕ) {rest : List ℕ}
    → drop at buf ≡ 0xc0 ∷ low ∷ rest
    → skip_name buf at ≡ some (at + 2)
unfolding skip_name skip_loop
skip_name_pointer buf at low d =
    ground
      (arith, get_elem?_at buf at d, get_elem?_at buf (at + 1) (drop_past buf at (0xc0 ∷ []) d))

get_elem?_beyond : (xs : List ℕ) (i : ℕ) → length xs ≤ i → get_elem? xs i ≡ none
get_elem?_beyond [] i h = refl
get_elem?_beyond (x ∷ xs) zero h = absurd (omega arith)
get_elem?_beyond (x ∷ xs) (suc i) h = get_elem?_beyond xs i (omega arith)

-- What the bytes of a name say, read without a bound on the rounds: a derivation is a run of the loop
-- that ends. A zero byte ends the name, and so does a pointer of two bytes; any other byte is the length
-- of a label, which is passed over.
pub data Skips (buf : List ℕ) : ℕ → Option ℕ → Type 0 where
  past_end : {at : ℕ} → get_elem? buf at ≡ none → Skips buf at none
  root : {at end : ℕ} → get_elem? buf at ≡ some 0 → end ≡ at + 1 → Skips buf at (some end)
  half_pointer :
      {at len : ℕ}
      → get_elem? buf at ≡ some len
      → bit_and len 0xc0 ≡ 0xc0
      → get_elem? buf (at + 1) ≡ none
      → Skips buf at none
  pointer :
      {at len low end : ℕ}
      → get_elem? buf at ≡ some len
      → bit_and len 0xc0 ≡ 0xc0
      → get_elem? buf (at + 1) ≡ some low
      → end ≡ at + 2
      → Skips buf at (some end)
  label :
      {at len : ℕ} {o : Option ℕ}
      → get_elem? buf at ≡ some len
      → len ≢ 0
      → bit_and len 0xc0 ≢ 0xc0
      → Skips buf (at + (1 + len)) o
      → Skips buf at o

-- The loop comes to an end of its own, and that end is the one that the bytes say.
abbrev EndsAsSaid : ℕ → List ℕ → ℕ → Type 0
EndsAsSaid fuel buf at =
    (skip_loop fuel buf at ≢ out_of_fuel) × Skips buf at (answered (skip_loop fuel buf at))

skip_loop-none :
    (fuel : ℕ) (buf : List ℕ) (at : ℕ) → get_elem? buf at ≡ none → EndsAsSaid (suc fuel) buf at
unfolding skip_loop
skip_loop-none fuel buf at e = rw (e, skip_loop) ((λ h. cc), past_end e)

skip_loop_round :
    (fuel : ℕ) (buf : List ℕ) (at len : ℕ)
    → get_elem? buf at ≡ some len
    → EndsAsSaid fuel buf (at + (1 + len))
    → EndsAsSaid (suc fuel) buf at
unfolding skip_loop
skip_loop_round fuel buf at len e rest = elim (Bool-cases (len == 0)) [
  | inl z ↦ rw (e, skip_loop, z) ((λ h. cc), root (e ∙ ap some ((==_iff len 0).0 z)) refl)
  | inr nz ↦ elim (Bool-cases (bit_and len 0xc0 == 0xc0)) [
    | inr plain ↦
        rw (e, skip_loop, nz, plain)
          (
            rest.0,
            label e (λ h. cc (nz, (==_iff len 0).1 h)) (λ h. cc (plain, (==_iff _ _).1 h)) rest.1,
          )
    | inl two ↦ elim (Option-cases (get_elem? buf (at + 1))) [
      | inl g ↦ rw (e, skip_loop, nz, two, g) ((λ h. cc), half_pointer e ((==_iff _ _).0 two) g)
      | inr (low, g) ↦
          rw (e, skip_loop, nz, two, g) ((λ h. cc), pointer e ((==_iff _ _).0 two) g refl)
    ]
  ]
]

skip_loop-EndsAsSaid :
    (fuel : ℕ) (buf : List ℕ) (at : ℕ) → length buf ≤ at + fuel → EndsAsSaid (suc fuel) buf at
skip_loop-EndsAsSaid zero buf at h = skip_loop-none 0 buf at (get_elem?_beyond buf at (omega arith))
skip_loop-EndsAsSaid (suc fuel) buf at h = elim (Option-cases (get_elem? buf at)) [
  | inl e ↦ skip_loop-none (suc fuel) buf at e
  | inr (len, e) ↦
      skip_loop_round (suc fuel) buf at len e
        (skip_loop-EndsAsSaid fuel buf (at + (1 + len)) (omega arith))
]

get_elem?-lt-length : (xs : List ℕ) (i : ℕ) {x : ℕ} → get_elem? xs i ≡ some x → i < length xs
get_elem?-lt-length [] i h = cc
get_elem?-lt-length (y ∷ xs) zero h = omega arith
get_elem?-lt-length (y ∷ xs) (suc i) h = omega (arith, get_elem?-lt-length xs i h)

Skips-skip_loop :
    (buf : List ℕ) (at : ℕ) (o : Option ℕ) (fuel : ℕ)
    → Skips buf at o
    → length buf ≤ at + fuel
    → answered (skip_loop (suc fuel) buf at) ≡ o
unfolding skip_loop
Skips-skip_loop buf at o fuel (past_end e) h = rw (e, skip_loop) refl
Skips-skip_loop buf at o fuel (root e f) h = rw (e, skip_loop) (ap some (omega (arith, f)))
Skips-skip_loop buf at o fuel (half_pointer {len = len} e two g) h = ground (arith, e, two, g)
Skips-skip_loop buf at o fuel (pointer {len = len} e two g f) h = ground (arith, e, two, g, f)
Skips-skip_loop buf at o zero (label e nz plain rest) h =
    absurd (omega (arith, get_elem?-lt-length buf at e))
Skips-skip_loop buf at o (suc fuel) (label {len = len} e nz plain rest) h =
    ground (arith, e, nz, plain, Skips-skip_loop buf (at + (1 + len)) o fuel rest)

-- `skip_name` ends by itself and answers what the bytes say: on every buffer and from every offset its
-- loop is never stopped for want of fuel, and it gives an end, or none, exactly if a finite run over
-- whole labels, without any bound on their number, comes to it.
pub skip_name-Skips :
    (buf : List ℕ) (at : ℕ)
    → (skip_loop (suc (length buf)) buf at ≢ out_of_fuel)
      × ((o : Option ℕ) → (skip_name buf at ≡ o) ↔ Skips buf at o)
unfolding skip_name
skip_name-Skips buf at =
    let (ends, said) = skip_loop-EndsAsSaid (length buf) buf at (omega arith) in
    (
      ends,
      λ o. (
        λ e. subst (Skips buf at) e said,
        λ d. Skips-skip_loop buf at o (length buf) d (omega arith),
      ),
    )
