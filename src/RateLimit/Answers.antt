-- ===== src/RateLimit/Answers.antt =====
-- What a request gets from the middleware.
use express_nest_blueprint.Base.{
  ℕ, ◌+◌, ◌-◌, ◌<◌, String, ◌≡◌, Option, none, some, List, [], ◌∷◌, ◌++◌, arith, ltb, if◌then◌else◌,
  refl,
}
use express_nest_blueprint.Base.Text.{codes, includes-append}
use express_nest_blueprint.RateLimit.Commands.{Result, ok, throws, Value, Redis, IsRedis}
use express_nest_blueprint.RateLimit.{
  Request, RateLimitMiddleware, next, too_many_requests, check_rate_limit, path_of, is_excluded,
  key_of, current_limit, params_of, full_key, use_middleware,
}
use express_nest_blueprint.RateLimit.Window.{expected_reset, check_status}

-- Under the documented behaviour of Redis, a request to an excluded path passes without headers;
-- any other one is answered by 429 exactly when the key's counter passes the limit of its path, and
-- otherwise passes, with the limit, what is left of it and the seconds to the reset in its headers.
pub use_middleware_lem :
    (redis : Redis) (count : redis.Store → String → ℕ) (ttl : redis.Store → String → Option ℕ)
    → IsRedis redis count ttl
    → (m : RateLimitMiddleware) (req : Request) (s : redis.Store) → 0 < m.ttl
    → let n = count s (full_key (key_of req)) + 1 in
      let limit = current_limit m req in
      let reset =
        expected_reset (count s (full_key (key_of req))) (ttl s (full_key (key_of req))) m.ttl in
      (use_middleware redis m req s).0 ≡ (
        if is_excluded req
        then next none
        else if ltb limit n
        then too_many_requests (record { limit = limit; remaining = 0; reset = reset }) reset
        else next (some (record { limit = limit; remaining = limit - n; reset = reset })))
unfolding use_middleware params_of
use_middleware_lem redis count ttl laws m req s h =
    ground (arith, check_status redis count ttl laws (params_of m req) s h)

-- A reply of `exec` that the throttler does not accept.
pub data IsPartial : Result (Option (List Value)) → Type 0 where
  rejected : IsPartial throws
  null : IsPartial (ok none)
  empty : IsPartial (ok (some []))
  single : (v : Value) → IsPartial (ok (some (v ∷ [])))

check_throws :
    (redis : Redis) (m : RateLimitMiddleware) (req : Request) (s : redis.Store)
    (r : Result (Option (List Value)))
    → (redis.exec (full_key (key_of req)) s).0 ≡ r
    → IsPartial r
    → (check_rate_limit redis (params_of m req) s).0 ≡ throws
unfolding check_rate_limit params_of
check_throws redis m req s r e rejected = ground arith
check_throws redis m req s r e null = ground arith
check_throws redis m req s r e empty = ground arith
check_throws redis m req s r e (single v) = ground arith

-- Where Redis rejects the transaction, or answers null or with a reply missing, every request
-- passes, without headers: the limiter fails open.
pub use_middleware_fails_open :
    (redis : Redis) (m : RateLimitMiddleware) (req : Request) (s : redis.Store)
    → IsPartial (redis.exec (full_key (key_of req)) s).0
    → (use_middleware redis m req s).0 ≡ next none
unfolding use_middleware
use_middleware_fails_open redis m req s h =
    ground (arith, check_throws redis m req s (redis.exec (full_key (key_of req)) s).0 refl h)

-- A request whose URL, query string included, has "/health" anywhere in it is neither counted nor
-- limited, whatever path it is for.
pub use_middleware_bypass :
    (redis : Redis) (m : RateLimitMiddleware) (req : Request) (s : redis.Store) (a b : List ℕ)
    → path_of req ≡ a ++ (codes "/health" ++ b)
    → use_middleware redis m req s ≡ (next none, s)
unfolding use_middleware is_excluded
use_middleware_bypass redis m req s a b e = rw (e, includes-append a (codes "/health") b) refl
