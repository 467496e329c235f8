-- ===== src/Control/RateLimit/Retry.antt =====
-- The `retry_after` of a refusal by crates/wsl-control/src/middleware/rate_limit.rs.
use wslvpn.Base.{
  ℕ, ◌+◌, ◌-◌, ◌≤◌, ◌<◌, ◌≡◌, refl, sym, ap, ◌∙◌, inl, inr, true, false, Option, none, some, arith,
  leb, leb→le, Bool-cases,
}
use wslvpn.Control.RateLimit.{
  RateLimitConfig, allowed, limited, Window, Windows, window, is_enabled, get, fresh, current,
  serve, check_at,
}
use wslvpn.Control.RateLimit.Serving.{
  IsMap, current-none, current_over, check_at-IsMap, check_at-serve,
}

module _ (config : RateLimitConfig) (enabled : is_enabled config ≡ true) where
  begun :
      (o : Option Window) (now : ℕ)
      → current config o now ≡ fresh now
      → (serve config o now).0 ≡ allowed (config.requests - 1)
  unfolding serve is_enabled
  begun o now e = let room : leb config.requests 0 ≡ false = ground arith in rw (e, room)

  refused :
      (w : Window) (now r : ℕ)
      → now - w.started < window config
      → (serve config (some w) now).0 ≡ limited r
      → (r ≡ window config - (now - w.started)) × ((serve config (some w) now).1 ≡ w)
  unfolding serve current
  refused w now r live e = ground arith

  refusal :
      (o : Option Window) (now r : ℕ)
      → (serve config o now).0 ≡ limited r
      → (w : Window) × (o ≡ some w)
        × (now - w.started < window config)
        × (r ≡ window config - (now - w.started))
        × ((serve config o now).1 ≡ w)
  refusal none now r e = cc (e, begun none now (current-none config now))
  refusal (some w) now r e = elim (Bool-cases (leb (window config) (now - w.started))) [
    | inl over ↦ cc (e, begun (some w) now (current_over config w now (leb→le _ _ over)))
    | inr live ↦
        let short : now - w.started < window config = ground arith in
        let (same, kept) = refused w now r short e in (w, refl, short, same, kept)
  ]

-- A refusal is honest: it gives a time of at least a nanosecond and at most a window, and a client
-- that asks again when that time has passed, with no call between the two, is let through with a
-- new budget. The entry of the client was begun before the first of the calls.
pub limited-retry_after :
    (config : RateLimitConfig) (windows : Windows) (key now later retry_after : ℕ)
    → is_enabled config ≡ true
    → IsMap windows
    → ((w : Window) → get key windows ≡ some w → w.started ≤ now)
    → (check_at config windows key now).0 ≡ limited retry_after
    → now + retry_after ≤ later
    → (1 ≤ retry_after)
      × (retry_after ≤ window config)
      × ((check_at config (check_at config windows key now).1 key later).0
          ≡ allowed (config.requests - 1))
limited-retry_after config windows key now later retry_after enabled m before e h =
    let (decided, kept) = check_at-serve config windows key now enabled m in
    let (w, had, short, time, same) =
      refusal config enabled (get key windows) now retry_after (sym decided ∙ e) in
    let old = before w had in
    let next =
      check_at-serve config (check_at config windows key now).1 key later enabled
        (check_at-IsMap config windows key now m) in
    let entry : get key (check_at config windows key now).1 ≡ some w = kept ∙ ap some same in
    (
      omega (arith, time, short),
      omega (arith, time),
      next.0
          ∙ ap (λ o. (serve config o later).0) entry
          ∙ begun config enabled (some w) later
              (current_over config w later (omega (arith, time, short, old))),
    )
