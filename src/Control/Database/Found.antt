-- ===== src/Control/Database/Found.antt =====
-- The row that a query finds.
use wslvpn.Base.{
  ◌≡◌, refl, inl, inr, Bool, true, false, List, [], ◌∷◌, arith, Bool-cases, some, none, All, Any,
  All-mono,
}
use wslvpn.Control.Database.{find}

module _ {A : Type 0} where
  -- It is in the table, and passes the test.
  pub find-Any :
      (p : A → Bool) (xs : List A) {x : A} → find p xs ≡ some x → Any (λ y. y ≡ x) xs × (p x ≡ true)
  find-Any p [] e = cc
  find-Any p (y ∷ xs) e = elim (Bool-cases (p y)) [
    | inl h ↦ (inl (ground arith), ground arith)
    | inr h ↦ let (there, passed) = find-Any p xs (ground arith) in (inr there, passed)
  ]

  -- Where it finds nothing, no row passes.
  pub find-none : (p : A → Bool) (xs : List A) → find p xs ≡ none → All (λ y. p y ≡ false) xs
  find-none p [] e = tt
  find-none p (y ∷ xs) e = elim (Bool-cases (p y)) [
    | inl h ↦ absurd (ground arith)
    | inr h ↦ (h, find-none p xs (ground arith))
  ]

  pub All-self : (xs : List A) → All (λ a. Any (λ b. b ≡ a) xs) xs
  All-self [] = tt
  All-self (x ∷ xs) = (inl refl, All-mono (λ a h. inr h) xs (All-self xs))
