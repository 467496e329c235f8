-- ===== src/Base/Predicates.antt =====
-- Predicates on lists that compute, with what a Boolean `any` or `all` says of them.
use mathlib.Core.Path.{◌≡◌, refl}
use mathlib.Core.Logic.{◌↔◌, ◌⊎◌, inl, inr}
use mathlib.Core.Bool.{Bool, true, false}
use mathlib.Core.List.{List, [], ◌∷◌, map}
use native.Mathlib.Omega.{arith}
use wslvpn.Base.Lists.{any, all, filter}

module _ {ℓ} {A : Type ℓ} (P : A → Type 0) where
  -- Every element satisfies `P`.
  abbrev pub All : List A → Type 0
  All [] = Unit
  All (x ∷ xs) = P x × All xs

  -- Some element satisfies `P`.
  abbrev pub Any : List A → Type 0
  Any [] = ⊥
  Any (x ∷ xs) = P x ⊎ Any xs

module _ {ℓ} {A : Type ℓ} {P : A → Type 0} (p : A → Bool)
    (reads : (x : A) → (p x ≡ true) ↔ P x) where
  pub any_iff : (xs : List A) → (any p xs ≡ true) ↔ Any P xs
  any_iff [] = (λ h. cc, λ h. absurd h)
  any_iff (x ∷ xs) = ground (arith, reads x, any_iff xs)

  pub all_iff : (xs : List A) → (all p xs ≡ true) ↔ All P xs
  all_iff [] = (λ h. tt, λ h. refl)
  all_iff (x ∷ xs) = ground (arith, reads x, all_iff xs)

  pub not-any_of : (xs : List A) → any p xs ≡ false → ¬ Any P xs
  not-any_of xs h a = cc (h, (any_iff xs).1 a)

module _ {ℓ} {A : Type ℓ} {P : A → Type 0} where
  pub All-mono : {Q : A → Type 0} → ((x : A) → P x → Q x) → (xs : List A) → All P xs → All Q xs
  All-mono f [] h = tt
  All-mono f (x ∷ xs) h = (f x h.0, All-mono f xs h.1)

  pub Any-mono : {Q : A → Type 0} → ((x : A) → P x → Q x) → (xs : List A) → Any P xs → Any Q xs
  Any-mono f [] h = h
  Any-mono f (x ∷ xs) (inl p) = inl (f x p)
  Any-mono f (x ∷ xs) (inr r) = inr (Any-mono f xs r)

  pub All-filter_passed :
      {Q : A → Type 0} (p : A → Bool)
      → ((x : A) → p x ≡ true → P x → Q x)
      → (xs : List A) → All P xs
      → All Q (filter p xs)
  All-filter_passed p f [] h = tt
  All-filter_passed p f (x ∷ xs) h = ground (arith, f x, All-filter_passed p f xs h.1)

  -- An element that has `P` and passes the test is still there.
  pub Any-filter :
      (p : A → Bool) → ((x : A) → P x → p x ≡ true) → (xs : List A) → Any P xs → Any P (filter p xs)
  Any-filter p f [] h = h
  Any-filter p f (x ∷ xs) (inl h) = rw (f x h) (inl h)
  Any-filter p f (x ∷ xs) (inr r) = ground (arith, Any-filter p f xs r)

module _ {ℓ} {A : Type ℓ} (P : A → Type 0) where
  -- What holds of all elements holds of those that a test lets through.
  pub All-filter : (p : A → Bool) (xs : List A) → All P xs → All P (filter p xs)
  All-filter p [] h = tt
  All-filter p (x ∷ xs) h = ground (arith, All-filter p xs h.1)

module _ {ℓ κ} {A : Type ℓ} {B : Type κ} (P : A → Type 0) (Q : B → Type 0) (g : A → B)
    (f : (x : A) → P x → Q (g x)) where
  pub All-map : (xs : List A) → All P xs → All Q (map g xs)
  All-map [] h = tt
  All-map (x ∷ xs) h = (f x h.0, All-map xs h.1)

  pub Any-map : (xs : List A) → Any P xs → Any Q (map g xs)
  Any-map [] h = absurd h
  Any-map (x ∷ xs) (inl p) = inl (f x p)
  Any-map (x ∷ xs) (inr r) = inr (Any-map xs r)
