-- ===== src/RateLimit/Window.antt =====
-- The counter of a key within one window, under the documented behaviour of Redis.

use text.Mathlib.Text.{◌==◌ as str_eq}
use text.Mathlib.TextEquality.{eq_iff}
use text.Mathlib.TextLemmas.{append_cancel_left}
use express_nest_blueprint.Base.{
  ℕ, suc, ◌+◌, ◌-◌, ◌<◌, String, ◌≡◌, ◌≢◌, Option, none, List, [], ◌∷◌, All, ltb, ◌==◌, arith, ap,
  if◌then◌else◌, ◌||◌,
}
use express_nest_blueprint.Base.Int.{ℤ, pos, is_non_positive}
use express_nest_blueprint.RateLimit.Commands.{ok, Redis, IsRedis, ttl_reply}
use express_nest_blueprint.RateLimit.{
  CheckRateLimitParams, RateLimitStatus, full_key, check_rate_limit,
}

full_key-eq : (k j : String) → str_eq (full_key k) (full_key j) ≡ str_eq k j
full_key-eq k j = ground (
  arith,
  eq_iff (full_key k) (full_key j),
  eq_iff k j,
  λ (e : full_key k ≡ full_key j). append_cancel_left "throttle:" k j e,
)

-- How many checks of a list use a key.
unfoldable pub uses : String → List CheckRateLimitParams → ℕ
uses k [] = 0
uses k (p ∷ ps) = if str_eq p.key k then suc (uses k ps) else uses k ps

-- The first request of a window, or a counter with no positive time to live, starts the window anew.
abbrev pub expected_reset : ℕ → Option ℕ → ℕ → ℤ
expected_reset count ttl full =
    if count == 0 || is_non_positive (ttl_reply ttl) then pos full else ttl_reply ttl

-- Checks one after the other.
unfoldable pub checks : (redis : Redis) → List CheckRateLimitParams → redis.Store → redis.Store
checks redis [] s = s
checks redis (p ∷ ps) s = checks redis ps (check_rate_limit redis p s).1

module _ (redis : Redis) (count : redis.Store → String → ℕ) (ttl : redis.Store → String → Option ℕ)
    (laws : IsRedis redis count ttl) where
  pub check_status :
      (p : CheckRateLimitParams) (s : redis.Store)
      → 0 < p.ttl
      → (check_rate_limit redis p s).0
        ≡ ok (record {
          total = pos (count s (full_key p.key) + 1);
          remaining = p.limit - (count s (full_key p.key) + 1);
          reset = expected_reset (count s (full_key p.key)) (ttl s (full_key p.key)) p.ttl;
          is_blocked = ltb p.limit (count s (full_key p.key) + 1);
        })
  unfolding check_rate_limit
  check_status p s h = ground (
    arith,
    laws.exec_reply (full_key p.key) s,
    laws.expire_reply (full_key p.key) p.ttl (redis.exec (full_key p.key) s).1 h,
  )

  count-check :
      (p : CheckRateLimitParams) (s : redis.Store) (j : String)
      → 0 < p.ttl
      → count (check_rate_limit redis p s).1 j
        ≡ (if str_eq (full_key p.key) j then count s j + 1 else count s j)
  unfolding check_rate_limit
  count-check p s j h = ground (
    arith,
    laws.exec_reply (full_key p.key) s,
    laws.count_exec (full_key p.key) j s,
    laws.expire_reply (full_key p.key) p.ttl (redis.exec (full_key p.key) s).1 h,
    laws.count_expire (full_key p.key) j p.ttl (redis.exec (full_key p.key) s).1 h,
  )

  count-checks :
      (ps : List CheckRateLimitParams) (k : String) (s : redis.Store)
      → All (λ p. 0 < p.ttl) ps
      → count (checks redis ps s) (full_key k) ≡ count s (full_key k) + uses k ps
  unfolding checks uses
  count-checks [] k s h = omega arith
  count-checks (p ∷ ps) k s (h, hs) = ground (
    arith,
    full_key-eq p.key k,
    count-check p s (full_key k) h,
    count-checks ps k (check_rate_limit redis p s).1 hs,
  )

  -- After any earlier checks of any keys in the same window, a check answers with the number of the
  -- key's checks so far, itself included, and what is left of its limit; it is blocked exactly when
  -- that number is above the limit.
  pub check_counts_key :
      (ps : List CheckRateLimitParams) (p : CheckRateLimitParams) (s : redis.Store)
      → All (λ q. 0 < q.ttl) ps
      → 0 < p.ttl
      → let n = count s (full_key p.key) + uses p.key ps + 1 in
        (r : RateLimitStatus) × ((check_rate_limit redis p (checks redis ps s)).0 ≡ ok r)
        × (r.total ≡ pos n)
        × (r.remaining ≡ p.limit - n)
        × (r.is_blocked ≡ ltb p.limit n)
  check_counts_key ps p s hs h =
      let c = count-checks ps p.key s hs in
      (
        _,
        check_status p (checks redis ps s) h,
        ap (λ (n : ℕ). pos (n + 1)) c,
        ap (λ (n : ℕ). p.limit - (n + 1)) c,
        ap (λ (n : ℕ). ltb p.limit (n + 1)) c,
      )

  -- A check that is counted never leaves its counter without an expiry.
  pub check_expires :
      (p : CheckRateLimitParams) (s : redis.Store)
      → 0 < p.ttl
      → ttl (check_rate_limit redis p s).1 (full_key p.key) ≢ none
  unfolding check_rate_limit
  check_expires p s h = ground (
    arith,
    eq_iff (full_key p.key) (full_key p.key),
    laws.exec_reply (full_key p.key) s,
    laws.ttl_exec (full_key p.key) (full_key p.key) s,
    laws.expire_reply (full_key p.key) p.ttl (redis.exec (full_key p.key) s).1 h,
    laws.ttl_expire (full_key p.key) (full_key p.key) p.ttl (redis.exec (full_key p.key) s).1 h,
  )
