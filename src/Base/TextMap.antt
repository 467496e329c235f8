-- ===== src/Base/TextMap.antt =====
-- A `BTreeMap` with text as keys: its entries in the order of the keys.
use mathlib.Core.Path.{◌≡◌, refl, sym, ap, subst}
use mathlib.Core.Logic.{inl, inr}
use mathlib.Core.Bool.{Bool, true, false, ◌&&◌, ◌||◌}
use mathlib.Core.List.{List, [], ◌∷◌, ◌++◌}
use mathlib.Core.Option.{Option, none, some}
use native.Mathlib.Omega.{arith}
use wslvpn.Base.Tests.{ltb, ◌==◌, if◌then◌else◌, Bool-cases, some_inj}
use wslvpn.Base.Predicates.{All, Any, All-mono}
use wslvpn.Base.Text.{Text, text_eq, text_eq_iff}

-- The order of `str`, which is that of the code points.
unfoldable pub text_ltb : Text → Text → Bool
text_ltb s [] = false
text_ltb [] (_ ∷ _) = true
text_ltb (a ∷ s) (b ∷ t) = ltb a b || a == b && text_ltb s t

abbrev pub ComesBefore : Text → Text → Type 0
ComesBefore s t = text_ltb s t ≡ true

pub text_ltb_trans : (s t u : Text) → ComesBefore s t → ComesBefore t u → ComesBefore s u
unfolding text_ltb
text_ltb_trans s t [] p q = cc
text_ltb_trans s [] (c ∷ u) p q = cc
text_ltb_trans [] (b ∷ t) (c ∷ u) p q = refl
text_ltb_trans (a ∷ s) (b ∷ t) (c ∷ u) p q = ground (arith, text_ltb_trans s t u)

pub text_ltb_irrefl : (s : Text) → text_ltb s s ≡ false
unfolding text_ltb
text_ltb_irrefl [] = refl
text_ltb_irrefl (a ∷ s) = ground (arith, text_ltb_irrefl s)

pub text_ltb_total : (s t : Text) → text_eq s t ≡ false → text_ltb s t ≡ false → ComesBefore t s
unfolding text_ltb text_eq
text_ltb_total [] [] p q = cc
text_ltb_total [] (b ∷ t) p q = cc
text_ltb_total (a ∷ s) [] p q = refl
text_ltb_total (a ∷ s) (b ∷ t) p q = ground (arith, text_ltb_total s t)

pub before-ne : (j k : Text) → ComesBefore j k → text_eq j k ≡ false
before-ne j k b = elim (Bool-cases (text_eq j k)) [
  | inr e ↦ e
  | inl e ↦
      let loop : ComesBefore k k = subst (λ i. ComesBefore i k) ((text_eq_iff j k).0 e) b in
      cc (text_ltb_irrefl k)
]

pub before-asym : (j k : Text) → ComesBefore j k → text_ltb k j ≡ false
before-asym j k b = elim (Bool-cases (text_ltb k j)) [
  | inr e ↦ e
  | inl e ↦ let loop = text_ltb_trans j k j b e in cc (text_ltb_irrefl j)
]

text_eq_comm : (s t : Text) → text_eq s t ≡ false → text_eq t s ≡ false
text_eq_comm s t h = elim (Bool-cases (text_eq t s)) [
  | inr e ↦ e
  | inl e ↦ cc (h, (text_eq_iff s t).1 (sym ((text_eq_iff t s).0 e)))
]

pub text_eq_refl : (s : Text) → text_eq s s ≡ true
text_eq_refl s = (text_eq_iff s s).1 refl

abbrev pub TextMap {ℓ} : Type ℓ → Type ℓ
TextMap V = List (Text × V)

module _ {ℓ} {V : Type ℓ} where
  unfoldable pub get : Text → TextMap V → Option V
  get k [] = none
  get k ((j, v) ∷ m) = if text_eq j k then some v else get k m

  -- The value of a key as a function of the old one.
  unfoldable pub alter : Text → (Option V → V) → TextMap V → TextMap V
  alter k f [] = (k, f none) ∷ []
  alter k f ((j, v) ∷ m) =
      let rest = alter k f m in
      if text_eq j k
      then (j, f (some v)) ∷ m
      else if text_ltb k j
      then (k, f none) ∷ (j, v) ∷ m
      else (j, v) ∷ rest

  unfoldable pub remove : Text → TextMap V → TextMap V
  remove k [] = []
  remove k ((j, v) ∷ m) = let rest = remove k m in if text_eq j k then rest else (j, v) ∷ rest

  pub get-remove :
      (j k : Text) (m : TextMap V) → get j (remove k m) ≡ (if text_eq k j then none else get j m)
  unfolding get remove
  get-remove j k [] = ground arith
  get-remove j k ((i, v) ∷ m) =
      ground (arith, text_eq_iff k j, text_eq_iff i k, text_eq_iff i j, get-remove j k m)

  -- The value of a key, whatever it was.
  unfoldable pub put : Text → V → TextMap V → TextMap V
  put k v m = (k, v) ∷ remove k m

  pub get-put :
      (j k : Text) (v : V) (m : TextMap V)
      → get j (put k v m) ≡ (if text_eq k j then some v else get j m)
  unfolding get put
  get-put j k v m = ground (arith, get-remove j k m)

  -- A value that is found stands at its key.
  pub get-Any :
      (Q : V → Type 0) (k : Text) (m : TextMap V) (v : V)
      → get k m ≡ some v
      → Q v
      → Any (λ (j, w). (j ≡ k) × Q w) m
  unfolding get
  get-Any Q k [] v h q = cc
  get-Any Q k ((j, w) ∷ m) v h q = elim (Bool-cases (text_eq j k)) [
    | inl e ↦
        let found : some w ≡ some v = rw e at h in
        inl ((text_eq_iff j k).0 e, subst Q (sym (some_inj found)) q)
    | inr e ↦ inr (get-Any Q k m v (rw e at h) q)
  ]

  -- A key that was not there gets the value of a new one, and no other key changes.
  pub get-alter_fresh :
      (j k : Text) (f : Option V → V) (m : TextMap V)
      → get k m ≡ none
      → get j (alter k f m) ≡ (if text_eq k j then some (f none) else get j m)
  unfolding get alter
  get-alter_fresh j k f [] h = ground arith
  get-alter_fresh j k f ((i, v) ∷ m) h =
      ground (arith, text_eq_iff k j, text_eq_iff i k, text_eq_iff i j, get-alter_fresh j k f m)

  -- Every entry has a property of keys and values.
  abbrev pub Entries : (Text → V → Type 0) → TextMap V → Type 0
  Entries P = All (λ (k, v). P k v)

  abbrev pub IsSorted : TextMap V → Type 0
  IsSorted [] = Unit
  IsSorted ((k, v) ∷ m) = Entries (λ j _. ComesBefore k j) m × IsSorted m

  module _ (Q : Text → V → Type 0) where
    pub alter-Entries :
        (k : Text) (f : Option V → V)
        → Q k (f none)
        → ((v : V) → Q k v → Q k (f (some v)))
        → (m : TextMap V) → Entries Q m
        → Entries Q (alter k f m)
    unfolding alter
    alter-Entries k f fresh old [] h = (fresh, tt)
    alter-Entries k f fresh old ((j, v) ∷ m) h = elim (Bool-cases (text_eq j k)) [
      | inl e ↦
          let same : j ≡ k = (text_eq_iff j k).0 e in
          rw e (subst (λ i. Q i (f (some v))) (sym same) (old v (subst (λ i. Q i v) same h.0)), h.1)
      | inr e ↦ elim (Bool-cases (text_ltb k j)) [
        | inl l ↦ rw (e, l) (fresh, h)
        | inr l ↦ rw (e, l) (h.0, alter-Entries k f fresh old m h.1)
      ]
    ]

    pub remove-Entries : (k : Text) (m : TextMap V) → Entries Q m → Entries Q (remove k m)
    unfolding remove
    remove-Entries k [] h = tt
    remove-Entries k ((j, v) ∷ m) h = elim (Bool-cases (text_eq j k)) [
      | inl e ↦ rw e (remove-Entries k m h.1)
      | inr e ↦ rw e (h.0, remove-Entries k m h.1)
    ]

  pub alter-IsSorted :
      (k : Text) (f : Option V → V) (m : TextMap V) → IsSorted m → IsSorted (alter k f m)
  unfolding alter
  alter-IsSorted k f [] s = (tt, tt)
  alter-IsSorted k f ((j, v) ∷ m) s = elim (Bool-cases (text_eq j k)) [
    | inl e ↦ rw e s
    | inr e ↦ elim (Bool-cases (text_ltb k j)) [
      | inl l ↦ rw (e, l) (((l, All-mono (λ (i, w) b. text_ltb_trans k j i l b) m s.0), s))
      | inr l ↦
          let after : ComesBefore j k = text_ltb_total k j (text_eq_comm j k e) l in
          rw (e, l)
            (
              alter-Entries (λ i _. ComesBefore j i) k f after (λ _ _. after) m s.0,
              alter-IsSorted k f m s.1,
            )
    ]
  ]

  pub remove-IsSorted : (k : Text) (m : TextMap V) → IsSorted m → IsSorted (remove k m)
  unfolding remove
  remove-IsSorted k [] s = tt
  remove-IsSorted k ((j, v) ∷ m) s = elim (Bool-cases (text_eq j k)) [
    | inl e ↦ rw e (remove-IsSorted k m s.1)
    | inr e ↦ rw e (remove-Entries (λ i _. ComesBefore j i) k m s.0, remove-IsSorted k m s.1)
  ]

  -- A key behind all others is put at the end.
  pub alter-append :
      (k : Text) (f : Option V → V) (m : TextMap V)
      → Entries (λ j _. ComesBefore j k) m
      → alter k f m ≡ m ++ (k, f none) ∷ []
  unfolding alter
  alter-append k f [] h = refl
  alter-append k f ((j, v) ∷ m) h =
      rw (before-ne j k h.0, before-asym j k h.0) (ap (◌∷◌ (j, v)) (alter-append k f m h.1))

  -- A key that is the last one keeps its place.
  pub alter-last :
      (k : Text) (f : Option V → V) (m : TextMap V) (v : V)
      → Entries (λ j _. ComesBefore j k) m
      → alter k f (m ++ (k, v) ∷ []) ≡ m ++ (k, f (some v)) ∷ []
  unfolding alter
  alter-last k f [] v h = rw (text_eq_refl k) refl
  alter-last k f ((j, w) ∷ m) v h =
      rw (before-ne j k h.0, before-asym j k h.0) (ap (◌∷◌ (j, w)) (alter-last k f m v h.1))
