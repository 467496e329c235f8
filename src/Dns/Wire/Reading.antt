-- ===== src/Dns/Wire/Reading.antt =====
-- What a read of a buffer says of the bytes from that index on, and the other way round.
use wslvpn.Base.{
  ℕ, zero, suc, ◌+◌, ◌*◌, ◌≤◌, ◌≡◌, refl, sym, ap, ◌∙◌, inl, inr, Option, none, some, List, [], ◌∷◌,
  ◌++◌, arith, leb, leb→le, le→leb, Bool-cases, none-ne-some, some_inj, length, get_elem?, take,
  drop, length-append, length-take, length-drop, take-append_length, drop-append_length,
}
use native.Mathlib.Numerals.{add-one}
use wslvpn.Dns.Wire.Bytes.{u16_at, slice, ◌>>=◌}

module _ {ℓ} {A : Type ℓ} where
  drop_nil : (n : ℕ) → ◌≡◌ {A = List A} [] (drop n [])
  drop_nil zero = refl
  drop_nil (suc n) = refl

  pub drop-add : (i j : ℕ) (xs : List A) → drop (i + j) xs ≡ drop j (drop i xs)
  drop-add zero j xs = ap (λ n. drop n xs) (omega arith)
  drop-add (suc i) j [] = let e : suc i + j ≡ suc (i + j) = omega arith in rw e (drop_nil j)
  drop-add (suc i) j (x ∷ xs) =
      let e : suc i + j ≡ suc (i + j) = omega arith in rw e (drop-add i j xs)

  pub get_elem?-drop : (i : ℕ) (xs : List A) → get_elem? xs i ≡ get_elem? (drop i xs) 0
  get_elem?-drop zero xs = refl
  get_elem?-drop (suc i) [] = refl
  get_elem?-drop (suc i) (x ∷ xs) = get_elem?-drop i xs

  pub drop_of_get_elem? :
      (xs : List A) (i : ℕ) {x : A} → get_elem? xs i ≡ some x → drop i xs ≡ x ∷ drop (i + 1) xs
  drop_of_get_elem? [] i e = cc
  drop_of_get_elem? (y ∷ xs) zero e = cc
  drop_of_get_elem? (y ∷ xs) (suc i) e = rw add-one (rw add-one at (drop_of_get_elem? xs i e))

  pub take-append-drop : (n : ℕ) (xs : List A) → take n xs ++ drop n xs ≡ xs
  take-append-drop zero xs = refl
  take-append-drop (suc n) [] = refl
  take-append-drop (suc n) (x ∷ xs) = rw (take-append-drop n xs)

  pub drop-length-le : (n : ℕ) (xs : List A) → length xs ≤ n → drop n xs ≡ []
  drop-length-le zero [] h = refl
  drop-length-le zero (x ∷ xs) h = absurd (omega arith)
  drop-length-le (suc n) [] h = refl
  drop-length-le (suc n) (x ∷ xs) h = drop-length-le n xs (omega arith)

pub get_elem?_at :
    {A : Type 0} (xs : List A) (i : ℕ) {x : A} {r : List A}
    → drop i xs ≡ x ∷ r
    → get_elem? xs i ≡ some x
get_elem?_at xs i e = rw (get_elem?-drop i xs, e)

-- The bytes behind a part of the buffer that is known.
pub drop_past :
    (xs : List ℕ) (i : ℕ) (ys : List ℕ) {zs : List ℕ}
    → drop i xs ≡ ys ++ zs
    → drop (i + length ys) xs ≡ zs
drop_past xs i ys {zs} e = rw (drop-add i (length ys) xs, e) (drop-append_length ys zs)

pub u16_at_of :
    (buf : List ℕ) (at hi lo : ℕ) {r : List ℕ}
    → drop at buf ≡ hi ∷ lo ∷ r
    → u16_at buf at ≡ some (hi * 256 + lo)
unfolding u16_at
u16_at_of buf at hi lo e =
    rw (get_elem?_at buf at e, get_elem?_at buf (at + 1) (drop_past buf at (hi ∷ []) e))

pub slice_of :
    (buf : List ℕ) (at : ℕ) (ys zs : List ℕ)
    → at ≤ length buf
    → drop at buf ≡ ys ++ zs
    → slice buf at (length ys) ≡ some ys
unfolding slice
slice_of buf at ys zs h e =
    rw
      (le→leb (at + length ys) (length buf)
        (omega (arith, length-drop at buf, ap length e, length-append ys zs)))
      (rw e (ap some (take-append_length ys zs)))

pub u16_at_inv :
    (buf : List ℕ) (at : ℕ) {v : ℕ}
    → u16_at buf at ≡ some v
    → (hi : ℕ) × (lo : ℕ) × (drop at buf ≡ hi ∷ lo ∷ drop (at + 2) buf) × (v ≡ hi * 256 + lo)
unfolding u16_at
u16_at_inv buf at {v} e = read (get_elem? buf at) (get_elem? buf (at + 1)) refl refl e
  where
    read :
        (a b : Option ℕ)
        → get_elem? buf at ≡ a
        → get_elem? buf (at + 1) ≡ b
        → (a >>= λ hi. b >>= λ lo. some (hi * 256 + lo)) ≡ some v
        → (hi : ℕ) × (lo : ℕ) × (drop at buf ≡ hi ∷ lo ∷ drop (at + 2) buf) × (v ≡ hi * 256 + lo)
    read none b ha hb h = absurd (none-ne-some h)
    read (some hi) none ha hb h = absurd (none-ne-some h)
    read (some hi) (some lo) ha hb h =
        let next : drop (at + 1) buf ≡ lo ∷ drop (at + 1 + 1) buf =
          drop_of_get_elem? buf (at + 1) hb in
        let two : at + 1 + 1 ≡ at + 2 = omega arith in
        (hi, lo, rw (drop_of_get_elem? buf at ha, next, two), sym (some_inj h))

pub slice_inv :
    (buf : List ℕ) (at n : ℕ) {ys : List ℕ}
    → slice buf at n ≡ some ys
    → (drop at buf ≡ ys ++ drop (at + n) buf) × (length ys ≡ n) × (at + n ≤ length buf)
unfolding slice
slice_inv buf at n {ys} e = elim (Bool-cases (leb (at + n) (length buf))) [
  | inr out ↦ absurd (none-ne-some (rw out at e))
  | inl fits ↦
      let same : take n (drop at buf) ≡ ys = some_inj (rw fits at e) in
      let room = leb→le (at + n) (length buf) fits in
      (
        rw (← same, drop-add at n buf) (sym (take-append-drop n (drop at buf))),
        rw (← same) (omega (arith, length-take n (drop at buf), length-drop at buf)),
        room,
      )
]

pub u16_at_room : (buf : List ℕ) (at : ℕ) {v : ℕ} → u16_at buf at ≡ some v → at + 2 ≤ length buf
u16_at_room buf at e =
    let (hi, lo, d, v) = u16_at_inv buf at e in omega (arith, ap length d, length-drop at buf)

pub slice_total :
    (buf : List ℕ) (at n : ℕ) → at + n ≤ length buf → slice buf at n ≡ some (take n (drop at buf))
unfolding slice
slice_total buf at n h = rw (le→leb (at + n) (length buf) h)

pub u16_at_total :
    (buf : List ℕ) (at : ℕ) → at + 2 ≤ length buf → (v : ℕ) × (u16_at buf at ≡ some v)
u16_at_total buf at h = read (drop at buf) refl
  where
    read : (xs : List ℕ) → drop at buf ≡ xs → (v : ℕ) × (u16_at buf at ≡ some v)
    read [] e = absurd (omega (arith, ap length e, length-drop at buf))
    read (hi ∷ []) e = absurd (omega (arith, ap length e, length-drop at buf))
    read (hi ∷ (lo ∷ xs)) e = (hi * 256 + lo, u16_at_of buf at hi lo e)

-- The two ways to cut one list at one place agree.
pub append-front_eq :
    {A : Type 0} (xs ys zs ws : List A) → xs ++ zs ≡ ys ++ ws → length xs ≡ length ys → xs ≡ ys
append-front_eq xs ys zs ws e l =
    sym (take-append_length xs zs)
    ∙ ap (take (length xs)) e
    ∙ ap (λ n. take n (ys ++ ws)) l
    ∙ take-append_length ys ws
