-- ===== src/Control/RateLimit/Runs.antt =====
-- A limiter of one request in a minute, and the theorems on the rate limit at it.
use wslvpn.Base.{ℕ, List, ◌+◌, ◌-◌, ◌*◌, ◌≤◌, ◌≡◌, refl, true, some, [], ◌∷◌, arith}
use wslvpn.Control.RateLimit.{
  RateLimitConfig, allowed, limited, Window, Windows, window, is_enabled, get, current, serve,
  insert, sweep, check_at,
}
use wslvpn.Control.RateLimit.Serving.{IsMap, check_at-serve}
use wslvpn.Control.RateLimit.Isolation.{decisions, decisions-own_calls}
use wslvpn.Control.RateLimit.Budget.{admitted, admitted-le}
use wslvpn.Control.RateLimit.Retry.{limited-retry_after}

abbrev one_a_minute : RateLimitConfig
one_a_minute = record { enabled = true; requests = 1; window_secs = 60 }

abbrev second : ℕ
second = 1_000_000_000

abbrev once : Windows
once = (7, record { started = 0; count = 1 }) ∷ []

turned_on : is_enabled one_a_minute ≡ true
unfolding is_enabled
turned_on = refl

once-IsMap : IsMap once
unfolding get
once-IsMap = (refl, tt)

after_twenty_seconds : (check_at one_a_minute once 7 (20 * second)).0 ≡ limited (40 * second)
unfolding check_at is_enabled sweep serve current window get
after_twenty_seconds = refl

check_at-serve_example :
    ((check_at one_a_minute once 7 second).0 ≡ (serve one_a_minute (get 7 once) second).0)
    × (get 7 (check_at one_a_minute once 7 second).1
        ≡ some (serve one_a_minute (get 7 once) second).1)
check_at-serve_example = check_at-serve one_a_minute once 7 second turned_on once-IsMap

-- Two clients whose calls are mixed.
abbrev mixed : List (ℕ × ℕ)
mixed = (7, second) ∷ (8, 2 * second) ∷ (7, 60 * second) ∷ (8, 60 * second) ∷ (7, 61 * second) ∷ []

own_three :
    decisions one_a_minute once 7 mixed
    ≡ limited (59 * second) ∷ allowed 0 ∷ limited (59 * second) ∷ []
unfolding check_at is_enabled sweep serve current window get insert
own_three = refl

decisions-own_calls_example :
    decisions one_a_minute once 7 mixed
    ≡ decisions one_a_minute once 7 ((7, second) ∷ (7, 60 * second) ∷ (7, 61 * second) ∷ [])
decisions-own_calls_example =
    decisions-own_calls one_a_minute once 7 0 mixed turned_on once-IsMap (omega arith)

admitted-le_example :
    admitted one_a_minute [] 7
      (30 * second)
      (30 * second + window one_a_minute)
      ((7, 0) ∷ (7, 59 * second) ∷ (8, 59 * second) ∷ (7, 60 * second) ∷ [])
    ≤ 2 * 1
admitted-le_example =
    admitted-le one_a_minute 7 (30 * second)
      ((7, 0) ∷ (7, 59 * second) ∷ (8, 59 * second) ∷ (7, 60 * second) ∷ []) turned_on (omega arith)

started_before : (w : Window) → get 7 once ≡ some w → w.started ≤ 20 * second
unfolding get
started_before w e = ground arith

limited-retry_after_example :
    (1 ≤ 40 * second)
    × (40 * second ≤ window one_a_minute)
    × ((check_at one_a_minute (check_at one_a_minute once 7 (20 * second)).1 7 (60 * second)).0
        ≡ allowed (one_a_minute.requests - 1))
limited-retry_after_example =
    limited-retry_after one_a_minute once 7 (20 * second) (60 * second) (40 * second) turned_on
      once-IsMap started_before after_twenty_seconds (omega arith)
