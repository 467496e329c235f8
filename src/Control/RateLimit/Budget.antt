-- ===== src/Control/RateLimit/Budget.antt =====
-- How many requests of one client crates/wsl-control/src/middleware/rate_limit.rs lets through.
use wslvpn.Base.{
  ℕ, ◌+◌, ◌-◌, ◌*◌, ◌≤◌, ◌<◌, ◌≡◌, refl, sym, ap, subst, ◌∙◌, inl, inr, true, false, ◌&&◌, Option,
  none, some, List, [], ◌∷◌, arith, ltb, leb, ◌==◌, if◌then◌else◌, leb→le, ==_iff, Bool-cases,
}
use wslvpn.Control.RateLimit.{
  RateLimitConfig, Decision, allowed, limited, Window, Windows, window, is_enabled, get, fresh,
  current, serve, check_at,
}
use wslvpn.Control.RateLimit.Serving.{
  Agrees, IsMap, current-none, current_over, serve-Agrees, check_at-IsMap, check_at-serve,
  check_at_other,
}

-- A sequence of calls, each a client and an instant, with instants that do not fall.
abbrev pub IsSorted : ℕ → List (ℕ × ℕ) → Type 0
IsSorted now [] = Unit
IsSorted now ((key, later) ∷ calls) = (now ≤ later) × IsSorted later calls

abbrev pub counts : Decision → ℕ
counts (allowed _) = 1
counts (limited _) = 0

-- The requests of client `k` that are let through at instants from `from` to before `until`.
pub admitted : RateLimitConfig → Windows → ℕ → ℕ → ℕ → List (ℕ × ℕ) → ℕ
admitted config windows k from until [] = 0
admitted config windows k from until ((key, now) ∷ calls) =
    let (decision, windows') = check_at config windows key now in
    (if key == k && leb from now && ltb now until then counts decision else 0)
    + admitted config windows' k from until calls

pub Agrees-trans :
    (config : RateLimitConfig) (now later : ℕ) (a b c : Option Window)
    → Agrees config later a b
    → Agrees config now b c
    → now ≤ later
    → Agrees config later a c
Agrees-trans config now later a b c (inl e) (inl f) h = inl (e ∙ f)
Agrees-trans config now later a b c (inl e) (inr (w, over, f, g)) h =
    inr (w, omega (arith, over), e ∙ f, g)
Agrees-trans config now later a b c (inr (w, over, e, f)) (inl g) h = inr (w, over, e, sym g ∙ f)
Agrees-trans config now later a b c (inr (w, over, e, f)) (inr (v, over', g, k)) h =
    inr (v, omega (arith, over'), e, k)

admitted_late :
    (config : RateLimitConfig) (windows : Windows) (k from until now : ℕ) (calls : List (ℕ × ℕ))
    → IsSorted now calls
    → until ≤ now
    → admitted config windows k from until calls ≡ 0
unfolding admitted
admitted_late config windows k from until now [] s h = refl
admitted_late config windows k from until now ((key, later) ∷ calls) (le, s) h =
    let none_later =
      admitted_late config (check_at config windows key later).1 k from until later calls s
        (omega arith) in
    let late : ltb later until ≡ false = ground arith in ground (arith, none_later, late)

module _ (config : RateLimitConfig) (enabled : is_enabled config ≡ true) where
  some_requests : 0 < config.requests
  unfolding is_enabled
  some_requests = ground arith

  -- An entry that is missing or over is begun anew, and the request let through.
  abbrev Begins : Option Window → ℕ → Type 0
  Begins o now =
      let (d, w') = serve config o now in (counts d ≡ 1) × (w'.started ≡ now) × (w'.count ≡ 1)

  Begins-of : (o : Option Window) (now : ℕ) → current config o now ≡ fresh now → Begins o now
  unfolding serve
  Begins-of o now e =
      let room : leb config.requests 0 ≡ false = ground (arith, some_requests) in
      rw (e, room) (refl, refl, refl)

  -- Any other keeps its start, and counts what is let through up to the budget.
  abbrev Continues : Window → ℕ → Type 0
  Continues w now =
      let (d, w') = serve config (some w) now in
      (w'.started ≡ w.started)
      × (w'.count ≡ w.count + counts d)
      × (w.count ≤ config.requests → w'.count ≤ config.requests)

  Continues-of : (w : Window) (now : ℕ) → now - w.started < window config → Continues w now
  unfolding serve current
  Continues-of w now h = ground arith

  module _ (from : ℕ) where
    abbrev until : ℕ
    until = from + window config

    -- What may still be let through before `until`, by the entry at hand.
    abbrev Bound : Option Window → ℕ → Type 0
    Bound none n = n ≤ 2 * config.requests
    Bound (some w) n =
        (n ≤ 2 * config.requests)
        × (until ≤ w.started + 2 * window config → n + w.count ≤ 2 * config.requests)
        × (until ≤ w.started + window config → n + w.count ≤ config.requests)

    abbrev Fits : Option Window → ℕ → Type 0
    Fits none now = Unit
    Fits (some w) now = (w.count ≤ config.requests) × (w.started ≤ now)

    abbrev one_call : Option Window → ℕ → ℕ
    one_call o now = if leb from now && ltb now until then counts (serve config o now).0 else 0

    after_one :
        (o : Option Window) (now rest : ℕ)
        → Fits o now
        → Bound (some (serve config o now).1) rest
        → (until ≤ now → rest ≡ 0)
        → Bound o (one_call o now + rest)
    after_one none now rest f b late =
        ground (arith, Begins-of none now (current-none config now), some_requests)
    after_one (some w) now rest f b late =
        elim (Bool-cases (leb (window config) (now - w.started))) [
          | inl over ↦ ground (
            arith,
            Begins-of (some w) now (current_over config w now (leb→le _ _ over)),
            some_requests,
          )
          | inr live ↦ ground (arith, Continues-of w now (ground arith))
        ]

    Fits-after :
        (o : Option Window) (now later : ℕ) → Fits o now → Fits (some (serve config o now).1) now
    Fits-after none now later f =
        ground (arith, Begins-of none now (current-none config now), some_requests)
    Fits-after (some w) now later f = elim (Bool-cases (leb (window config) (now - w.started))) [
      | inl over ↦ ground (
        arith,
        Begins-of (some w) now (current_over config w now (leb→le _ _ over)),
        some_requests,
      )
      | inr live ↦ ground (arith, Continues-of w now (ground arith))
    ]

    Fits-later : (o : Option Window) (now later : ℕ) → Fits o now → now ≤ later → Fits o later
    Fits-later none now later f h = tt
    Fits-later (some w) now later f h = (f.0, omega arith)

    admitted-Bound :
        (windows : Windows) (k now : ℕ) (calls : List (ℕ × ℕ)) (o : Option Window)
        → IsMap windows
        → IsSorted now calls
        → Agrees config now (get k windows) o
        → Fits o now
        → Bound o (admitted config windows k from until calls)
    unfolding admitted
    admitted-Bound windows k now [] none m s a f = omega arith
    admitted-Bound windows k now [] (some w) m s a f = omega arith
    admitted-Bound windows k now ((key, later) ∷ calls) o m (le, s) a f =
        let map' = check_at-IsMap config windows key later m in
        let after = (check_at config windows key later).1 in
        elim (Bool-cases (key == k)) [
          | inl same ↦
              let kk : key ≡ k = (==_iff key k).0 same in
              let (decided, kept) = check_at-serve config windows key later enabled m in
              let agree =
                serve-Agrees config now later (get key windows) o
                  (subst (λ x. Agrees config now (get x windows) o) (sym kk) a) le in
              let decision : (check_at config windows key later).0 ≡ (serve config o later).0 =
                decided ∙ ap (λ r. r.0) agree in
              let entry : get k after ≡ some (serve config o later).1 =
                subst (λ x. get x after ≡ some (serve config o later).1) kk
                  (kept ∙ ap (λ r. some r.1) agree) in
              let f' = Fits-later o now later f le in
              rw (same, decision)
                (after_one o later (admitted config after k from until calls) f'
                  (admitted-Bound after k later calls (some (serve config o later).1) map' s
                    (inl entry) (Fits-after o later later f'))
                  (admitted_late config after k from until later calls s))
          | inr other ↦
              let away =
                check_at_other config windows key later enabled m k
                  (λ e. cc (other, (==_iff key k).1 e)) in
              let rest =
                admitted-Bound after k later calls o map' s
                  (Agrees-trans config now later (get k after) (get k windows) o away a le)
                  (Fits-later o now later f le) in
              rw other (subst (Bound o) (omega arith) rest)
        ]

-- Within any stretch of time as long as the window a client is let through at most twice its
-- budget, whatever the calls of the other clients, however often the map is swept, and whatever
-- the instants of the calls, as long as they do not fall. The limiter starts empty and is enabled.
pub admitted-le :
    (config : RateLimitConfig) (k from : ℕ) (calls : List (ℕ × ℕ))
    → is_enabled config ≡ true
    → IsSorted 0 calls
    → admitted config [] k from (from + window config) calls ≤ 2 * config.requests
admitted-le config k from calls enabled s =
    admitted-Bound config enabled from [] k 0 calls none tt s (unfold get in inl refl) tt
