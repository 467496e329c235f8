-- ===== src/Control/RateLimit.antt =====
-- crates/wsl-control/src/middleware/rate_limit.rs. An address is a number that is only compared; an
-- instant and a duration count nanoseconds, and the difference of two instants stops at zero, as
-- `Instant::duration_since` does. The map is a list of pairs with each key at most once.
pub mod Serving
pub mod Budget
pub mod Isolation
pub mod Retry
mod Runs
use wslvpn.Base.{
  ℕ, ◌+◌, ◌-◌, ◌*◌, ◌/◌, max, Bool, not, ◌&&◌, Option, none, some, List, [], ◌∷◌, ltb, leb, ◌==◌,
  if◌then◌else◌, length,
}

pub record RateLimitConfig : Type 0 where
  pub enabled : Bool
  pub requests : ℕ
  pub window_secs : ℕ

pub data Decision : Type 0 where
  allowed : (remaining : ℕ) → Decision
  limited : (retry_after : ℕ) → Decision

pub record Window : Type 0 where
  pub started : ℕ
  pub count : ℕ

abbrev pub Windows : Type 0
Windows = List (ℕ × Window)

abbrev pub sweep_threshold : ℕ
sweep_threshold = 10_000

pub window : RateLimitConfig → ℕ
window config = max config.window_secs 1 * 1_000_000_000

pub is_enabled : RateLimitConfig → Bool
is_enabled config = config.enabled && ltb 0 config.requests

-- The map's operations.
pub get : ℕ → Windows → Option Window
get key [] = none
get key ((k, w) ∷ windows) = if k == key then some w else get key windows

pub insert : ℕ → Window → Windows → Windows
insert key w [] = (key, w) ∷ []
insert key w ((k, v) ∷ windows) =
    if k == key then (key, w) ∷ windows else (k, v) ∷ insert key w windows

pub retain : (Window → Bool) → Windows → Windows
retain keep [] = []
retain keep ((k, w) ∷ windows) =
    if keep w then (k, w) ∷ retain keep windows else retain keep windows

-- `entry(key).or_insert(..)`, and the reset of a window that is over.
abbrev pub fresh : ℕ → Window
fresh now = record { started = now; count = 0 }

abbrev pub or_insert : Option Window → ℕ → Window
or_insert none now = fresh now
or_insert (some w) now = w

pub current : RateLimitConfig → Option Window → ℕ → Window
current config found now =
    let entry = or_insert found now in
    if leb (window config) (now - entry.started) then fresh now else entry

-- The decision on one entry, and what becomes of it.
pub serve : RateLimitConfig → Option Window → ℕ → Decision × Window
serve config found now =
    let entry = current config found now in
    if leb config.requests entry.count
    then (limited (window config - (now - entry.started)), entry)
    else (
      allowed (config.requests - (entry.count + 1)),
      record { started = entry.started; count = entry.count + 1 },
    )

pub sweep : RateLimitConfig → Windows → ℕ → Windows
sweep config windows now =
    if ltb sweep_threshold (length windows)
    then retain (λ w. ltb (now - w.started) (window config)) windows
    else windows

pub check_at : RateLimitConfig → Windows → ℕ → ℕ → Decision × Windows
check_at config windows key now =
    if not (is_enabled config)
    then (allowed config.requests, windows)
    else (let swept = sweep config windows now in
        let (decision, entry) = serve config (get key swept) now in
        (decision, insert key entry swept))

-- The response of the middleware: the inner handler's, or 429 with a `retry-after` in seconds.
pub data Outcome : Type 0 where
  next_runs : Outcome
  too_many_requests : (retry_after : ℕ) → Outcome

pub rate_limit : Decision → Outcome
rate_limit (allowed remaining) = next_runs
rate_limit (limited retry_after) = too_many_requests (max (retry_after / 1_000_000_000) 1)
