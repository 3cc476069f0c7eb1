-- ===== src/RateLimit.antt =====
-- Rate limiting: ThrottlerService.checkRateLimit of
-- packages/backend/common/src/infrastructure/throttler/throttler.service.ts and
-- RateLimitMiddleware.use of packages/backend/common/src/core/middleware/rate-limit.middleware.ts.
-- Redis is the parameter `Redis`. A request's URL is ASCII, so `toLowerCase` maps the letters A to Z.
pub mod Commands
pub mod Window
pub mod Answers
mod Tests
use Prim.Native.String
use text.Mathlib.Text.{◌==◌ as str_eq}
use express_nest_blueprint.Base.{
  ℕ, String, Bool, true, false, Option, none, some, List, [], ◌∷◌, ◌||◌, any, if◌then◌else◌,
}
use express_nest_blueprint.Base.Int.{ℤ, pos, room_below, exceeds, is_nat, is_non_positive}
use express_nest_blueprint.Base.Text.{codes, includes, to_lower_case}
use Commands.{Result, ok, throws, Value, number, other, Redis}

pub record CheckRateLimitParams : Type 0 where
  pub key : String
  pub limit : ℕ
  pub ttl : ℕ

pub record RateLimitStatus : Type 0 where
  pub total : ℤ
  pub remaining : ℕ
  pub reset : ℤ
  pub is_blocked : Bool

abbrev pub full_key : String → String
full_key key = String.◌++◌ "throttle:" key

resolve_result_value : Value → ℤ → ℤ
resolve_result_value (number z) fallback = z
resolve_result_value other fallback = fallback

status : CheckRateLimitParams → ℤ → ℤ → RateLimitStatus
status p count expires_at = record {
  total = count;
  remaining = room_below p.limit count;
  reset = expires_at;
  is_blocked = exceeds count p.limit;
}

module _ (redis : Redis) where
  -- After `await redis.expire(...)`.
  expired :
      CheckRateLimitParams
      → ℤ
      → Result (Unit {0}) × redis.Store
      → Result RateLimitStatus × redis.Store
  unfolding status
  expired p count (ok _, s) = (ok (status p count (pos p.ttl)), s)
  expired p count (throws, s) = (throws, s)

  resolved : CheckRateLimitParams → ℤ → ℤ → redis.Store → Result RateLimitStatus × redis.Store
  unfolding expired status
  resolved p count expires_at s =
      if is_nat count 1 || is_non_positive expires_at
      then expired p count (redis.expire (full_key p.key) p.ttl s)
      else (ok (status p count expires_at), s)

  -- After `await multi.exec()`.
  executed :
      CheckRateLimitParams
      → Result (Option (List Value)) × redis.Store
      → Result RateLimitStatus × redis.Store
  unfolding resolved resolve_result_value
  executed p (ok (some (incr ∷ ttl ∷ _)), s) =
      resolved p (resolve_result_value incr (pos 1)) (resolve_result_value ttl (pos p.ttl)) s
  executed p (_, s) = (throws, s)

  pub check_rate_limit : CheckRateLimitParams → redis.Store → Result RateLimitStatus × redis.Store
  unfolding executed
  check_rate_limit p s = executed p (redis.exec (full_key p.key) s)

-- The parts of a request that the middleware reads; an absent one is `none`.
pub record Request : Type 0 where
  pub original_url : Option String
  pub path : Option String
  pub forwarded_for : Option String
  pub ip : Option String

pub record RateLimitMiddleware : Type 0 where
  pub ttl : ℕ
  pub default_limit : ℕ
  pub admin_limit : ℕ

pub record Headers : Type 0 where
  pub limit : ℕ
  pub remaining : ℕ
  pub reset : ℤ

-- `next()`, with the headers set before it, or the 429 response with its `retryAfter`.
pub data Answer : Type 0 where
  next : Option Headers → Answer
  too_many_requests : Headers → ℤ → Answer

-- JavaScript's `value || fallback` on texts.
abbrev pub or_else : Option String → String → String
or_else none d = d
or_else (some s) d = if str_eq s "" then d else s

abbrev pub excluded_paths : List String
excluded_paths = "/health" ∷ "/metrics" ∷ "/settings" ∷ []

pub path_of : Request → List ℕ
path_of req = to_lower_case (codes (or_else req.original_url (or_else req.path "")))

pub is_excluded : Request → Bool
is_excluded req = any (λ e. includes (path_of req) (codes e)) excluded_paths

pub key_of : Request → String
key_of req = or_else req.forwarded_for (or_else req.ip "unknown")

pub current_limit : RateLimitMiddleware → Request → ℕ
current_limit m req =
    if includes (path_of req) (codes "/admin") then m.admin_limit else m.default_limit

pub params_of : RateLimitMiddleware → Request → CheckRateLimitParams
params_of m req = record { key = key_of req; limit = current_limit m req; ttl = m.ttl }

-- The `then` and `catch` handlers.
answer : ℕ → Result RateLimitStatus → Answer
answer limit throws = next none
answer limit (ok r) =
    let headers : Headers = record { limit = limit; remaining = r.remaining; reset = r.reset } in
    if r.is_blocked then too_many_requests headers r.reset else next (some headers)

pub use_middleware :
    (redis : Redis) → RateLimitMiddleware → Request → redis.Store → Answer × redis.Store
unfolding answer
use_middleware redis m req s =
    if is_excluded req
    then (next none, s)
    else (let (r, s') = check_rate_limit redis (params_of m req) s in
        (answer (current_limit m req) r, s'))
