-- ===== src/Control/RateLimit/Isolation.antt =====
-- What the calls of other clients of crates/wsl-control/src/middleware/rate_limit.rs mean for a client.
use wslvpn.Base.{
  ℕ, ◌≡◌, refl, sym, ap, subst, ◌∙◌, inl, inr, true, some, List, [], ◌∷◌, ◌==◌, if◌then◌else◌,
  ==_iff, Bool-cases, filter,
}
use wslvpn.Control.RateLimit.{RateLimitConfig, Decision, Windows, is_enabled, get, check_at}
use wslvpn.Control.RateLimit.Serving.{
  Agrees, IsMap, serve-Agrees, check_at-IsMap, check_at-serve, check_at_other,
}
use wslvpn.Control.RateLimit.Budget.{IsSorted, Agrees-trans}

-- The decisions on the calls of client `k`, in order, while other clients call as well.
abbrev pub decisions : RateLimitConfig → Windows → ℕ → List (ℕ × ℕ) → List Decision
decisions config windows k [] = []
decisions config windows k ((key, now) ∷ calls) =
    let (decision, after) = check_at config windows key now in
    let later = decisions config after k calls in if key == k then decision ∷ later else later

-- The calls of client `k`.
abbrev pub own_calls : ℕ → List (ℕ × ℕ) → List (ℕ × ℕ)
own_calls k calls = filter (λ c. c.0 == k) calls

module _ (config : RateLimitConfig) (enabled : is_enabled config ≡ true) (k : ℕ) where
  decisions_alone :
      (all alone : Windows) (now : ℕ) (calls : List (ℕ × ℕ))
      → IsMap all
      → IsMap alone
      → IsSorted now calls
      → Agrees config now (get k all) (get k alone)
      → decisions config all k calls ≡ decisions config alone k (own_calls k calls)
  decisions_alone all alone now [] m m' s a = refl
  decisions_alone all alone now ((key, later) ∷ calls) m m' (le, s) a =
      let map' = check_at-IsMap config all key later m in
      elim (Bool-cases (key == k)) [
        | inl same ↦
            let kk : key ≡ k = (==_iff key k).0 same in
            let (decided, kept) = check_at-serve config all key later enabled m in
            let (decided', kept') = check_at-serve config alone key later enabled m' in
            let agree =
              serve-Agrees config now later (get key all) (get key alone)
                (subst (λ x. Agrees config now (get x all) (get x alone)) (sym kk) a) le in
            let decision = decided ∙ ap (λ r. r.0) agree ∙ sym decided' in
            let entry = kept ∙ ap (λ r. some r.1) agree ∙ sym kept' in
            let rest =
              decisions_alone (check_at config all key later).1 (check_at config alone key later).1
                later calls map' (check_at-IsMap config alone key later m') s
                (inl (
                  subst
                    (λ x.
                      get x (check_at config all key later).1
                      ≡ get x (check_at config alone key later).1)
                    kk entry)) in
            rw (same, same)
              (ap (λ d. d ∷ decisions config (check_at config all key later).1 k calls) decision
                ∙ ap (◌∷◌ (check_at config alone key later).0) rest)
        | inr other ↦
            let away =
              check_at_other config all key later enabled m k
                (λ e. cc (other, (==_iff key k).1 e)) in
            rw other (
              decisions_alone (check_at config all key later).1 alone later calls map' m' s
                (Agrees-trans config now later _ (get k all) _ away a le))
      ]

-- The decisions that a client gets are those that it would get if no other client called, however the
-- calls of the others are mixed with its own and however often the map is swept, from any map with each key
-- once, as long as the instants of the calls do not fall. The limiter is enabled.
pub decisions-own_calls :
    (config : RateLimitConfig) (windows : Windows) (k from : ℕ) (calls : List (ℕ × ℕ))
    → is_enabled config ≡ true
    → IsMap windows
    → IsSorted from calls
    → decisions config windows k calls ≡ decisions config windows k (own_calls k calls)
decisions-own_calls config windows k from calls enabled m s =
    decisions_alone config enabled k windows windows from calls m m s (inl refl)
