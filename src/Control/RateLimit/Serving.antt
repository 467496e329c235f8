-- ===== src/Control/RateLimit/Serving.antt =====
-- One call of `check_at` of crates/wsl-control/src/middleware/rate_limit.rs.
use wslvpn.Base.{
  ℕ, ◌-◌, ◌≤◌, ◌≡◌, refl, ap, subst, ◌≢◌, ◌⊎◌, inl, inr, Bool, true, false, Option, none, some, [],
  ◌∷◌, arith, ltb, leb, ◌==◌, if◌then◌else◌, le→leb, ==_iff, Bool-cases, length,
}
use wslvpn.Control.RateLimit.{
  RateLimitConfig, Window, Windows, window, is_enabled, get, insert, retain, fresh, current, serve,
  sweep, sweep_threshold, check_at,
}

pub get-insert :
    (key k : ℕ) (w : Window) (windows : Windows)
    → get k (insert key w windows) ≡ (if key == k then some w else get k windows)
unfolding get insert
get-insert key k w [] = refl
get-insert key k w ((j, v) ∷ windows) = ground (arith, get-insert key k w windows)

-- An entry that is over at `now`.
abbrev pub IsOver : RateLimitConfig → Window → ℕ → Type 0
IsOver config w now = window config ≤ now - w.started

-- Two entries that no call from `now` on tells apart: equal ones, or one that is over and none.
abbrev pub Agrees : RateLimitConfig → ℕ → Option Window → Option Window → Type 0
Agrees config now o o' =
    (o ≡ o') ⊎ ((w : Window) × IsOver config w now × (o ≡ none) × (o' ≡ some w))

pub current_over :
    (config : RateLimitConfig) (w : Window) (now : ℕ)
    → IsOver config w now
    → current config (some w) now ≡ fresh now
unfolding current
current_over config w now over = rw (le→leb _ _ over)

pub current-none : (config : RateLimitConfig) (now : ℕ) → current config none now ≡ fresh now
unfolding current
current-none config now = elim (Bool-cases (leb (window config) (now - now))) [
  | inl e ↦ rw e
  | inr e ↦ rw e
]

pub serve-Agrees :
    (config : RateLimitConfig) (now later : ℕ) (o o' : Option Window)
    → Agrees config now o o'
    → now ≤ later
    → serve config o later ≡ serve config o' later
unfolding serve
serve-Agrees config now later o o' (inl e) h = ap (λ x. serve config x later) e
serve-Agrees config now later o o' (inr (w, over, e, e')) h =
    rw (e, e', current-none config later, current_over config w later (omega (arith, over)))

-- Each key stands in the map once.
abbrev pub IsMap : Windows → Type 0
IsMap [] = Unit
IsMap ((k, w) ∷ windows) = (get k windows ≡ none) × IsMap windows

insert-IsMap :
    (key : ℕ) (w : Window) (windows : Windows) → IsMap windows → IsMap (insert key w windows)
unfolding insert get
insert-IsMap key w [] h = (refl, tt)
insert-IsMap key w ((k, v) ∷ windows) (absent, h) =
    ground (arith, insert-IsMap key w windows h, get-insert key k w windows)

module _ (keep : Window → Bool) where
  get-retain-none :
      (k : ℕ) (windows : Windows) → get k windows ≡ none → get k (retain keep windows) ≡ none
  unfolding get retain
  get-retain-none k [] e = refl
  get-retain-none k ((j, w) ∷ windows) e = ground (arith, get-retain-none k windows)

  retain-IsMap : (windows : Windows) → IsMap windows → IsMap (retain keep windows)
  unfolding retain
  retain-IsMap [] h = tt
  retain-IsMap ((k, w) ∷ windows) (absent, h) =
      ground (arith, retain-IsMap windows h, get-retain-none k windows absent)

  -- A key that is kept keeps its entry, and one that is dropped had an entry to drop.
  get-retain :
      (k : ℕ) (windows : Windows)
      → IsMap windows
      → (get k (retain keep windows) ≡ get k windows)
        ⊎ ((w : Window) × (keep w ≡ false)
            × (get k (retain keep windows) ≡ none)
            × (get k windows ≡ some w))
  unfolding get retain
  get-retain k [] h = inl refl
  get-retain k ((j, w) ∷ windows) (absent, h) = elim (Bool-cases (j == k)) [
    | inl same ↦ elim (Bool-cases (keep w)) [
      | inl kept ↦ inl (ground arith)
      | inr dropped ↦ inr (
        w,
        dropped,
        rw dropped (
            get-retain-none k windows
              (subst (λ x. get x windows ≡ none) ((==_iff j k).0 same) absent)),
        ground arith,
      )
    ]
    | inr other ↦ elim (get-retain k windows h) [
      | inl e ↦ inl (ground arith)
      | inr (x, dropped, gone, had) ↦ inr (x, dropped, ground arith, ground arith)
    ]
  ]

-- A sweep changes nothing that a call can tell.
sweep-Agrees :
    (config : RateLimitConfig) (windows : Windows) (now k : ℕ)
    → IsMap windows
    → Agrees config now (get k (sweep config windows now)) (get k windows)
unfolding sweep
sweep-Agrees config windows now k h = elim (Bool-cases (ltb sweep_threshold (length windows))) [
  | inr e ↦ inl (rw e)
  | inl e ↦ elim (get-retain (λ w. ltb (now - w.started) (window config)) k windows h) [
    | inl same ↦ inl (rw e same)
    | inr (w, dropped, gone, had) ↦ inr (w, ground (arith, dropped), rw e gone, had)
  ]
]

sweep-IsMap :
    (config : RateLimitConfig) (windows : Windows) (now : ℕ)
    → IsMap windows
    → IsMap (sweep config windows now)
unfolding sweep
sweep-IsMap config windows now h =
    ground (arith, retain-IsMap (λ w. ltb (now - w.started) (window config)) windows h)

-- Each call keeps every key in the map at most once.
pub check_at-IsMap :
    (config : RateLimitConfig) (windows : Windows) (key now : ℕ)
    → IsMap windows
    → IsMap (check_at config windows key now).1
unfolding check_at
check_at-IsMap config windows key now h = elim (Bool-cases (is_enabled config)) [
  | inl e ↦ rw e (insert-IsMap key _ _ (sweep-IsMap config windows now h))
  | inr e ↦ rw e h
]

module _ (config : RateLimitConfig) (windows : Windows) (key now : ℕ)
    (enabled : is_enabled config ≡ true) (map : IsMap windows) where
  -- The decision on a key rests on that key's own entry: neither the entries of other clients nor
  -- the sweep of a large map have a part in it, and the entry that is kept is the one that was served.
  pub check_at-serve :
      ((check_at config windows key now).0 ≡ (serve config (get key windows) now).0)
      × (get key (check_at config windows key now).1 ≡ some (serve config (get key windows) now).1)
  unfolding check_at
  check_at-serve =
      let same =
        serve-Agrees config now now _ _ (sweep-Agrees config windows now key map) (omega arith) in
      rw enabled (
        ap (λ r. r.0) same,
        rw (get-insert key key, (==_iff key key).1 refl) (ap (λ r. some r.1) same),
      )

  -- What a call leaves of another client's entry makes no difference to any later call.
  pub check_at_other :
      (k : ℕ)
      → key ≢ k
      → Agrees config now (get k (check_at config windows key now).1) (get k windows)
  unfolding check_at
  check_at_other k ne =
      let other : (key == k) ≡ false = ground arith in
      rw (enabled, get-insert key k, other) (sweep-Agrees config windows now k map)
