-- ===== src/RateLimit/Tests.antt =====
-- Rate limiting at concrete inputs, over a Redis that keeps two maps.
use text.Mathlib.TextEquality.{eq_iff}
use express_nest_blueprint.Base.{
  ℕ, ◌+◌, ◌-◌, String, ◌≡◌, Option, none, some, [], ◌∷◌, arith, refl, get_or, if◌then◌else◌, ltb,
}
use express_nest_blueprint.Base.Map
use express_nest_blueprint.Base.Map.{Map, get-set}
use express_nest_blueprint.Base.Text.{includes, to_lower_case}
use express_nest_blueprint.Base.Int.{pos}
use express_nest_blueprint.RateLimit.Commands.{ok, throws, number, Redis, IsRedis, ttl_reply}
use express_nest_blueprint.RateLimit.{
  CheckRateLimitParams, RateLimitStatus, Request, RateLimitMiddleware, next, too_many_requests,
  check_rate_limit, path_of, is_excluded, current_limit, use_middleware, full_key, key_of,
  params_of,
}
use express_nest_blueprint.RateLimit.Window.{check_counts_key, checks, uses}
use express_nest_blueprint.RateLimit.Answers.{use_middleware_lem}

record Memory : Type 0 where
  counts : Map ℕ
  ttls : Map ℕ

abbrev count_in : Memory → String → ℕ
count_in s k = get_or (Map.get s.counts k) 0

abbrev ttl_in : Memory → String → Option ℕ
ttl_in s k = Map.get s.ttls k

abbrev memory : Redis
memory = record {
  Store = Memory;
  exec = λ k s. (
    ok (some (number (pos (count_in s k + 1)) ∷ number (ttl_reply (ttl_in s k)) ∷ [])),
    record s { counts = Map.set s.counts k (count_in s k + 1) },
  );
  expire = λ k n s. (ok tt, record s { ttls = Map.set s.ttls k n });
}

memory-IsRedis : IsRedis memory count_in ttl_in
memory-IsRedis = record {
  exec_reply = λ k s. refl;
  count_exec = λ k j s. ground (arith, eq_iff k j, get-set s.counts k j (count_in s k + 1));
  ttl_exec = λ k j s. refl;
  expire_reply = λ k n s h. refl;
  count_expire = λ k j n s h. refl;
  ttl_expire = λ k j n s h. get-set s.ttls k j n;
}

-- A server whose transactions are discarded.
abbrev broken : Redis
broken = record { Store = Unit {0}; exec = λ k s. (ok none, s); expire = λ k n s. (throws, s) }

abbrev blank : Memory
blank = record { counts = []; ttls = [] }

abbrev middleware : RateLimitMiddleware
middleware = record { ttl = 60; default_limit = 2; admin_limit = 5000 }

abbrev request : String → Request
request url = record {
  original_url = some url;
  path = some url;
  forwarded_for = none;
  ip = some "10.0.0.1";
}

abbrev ask : CheckRateLimitParams
ask = record { key = "10.0.0.1"; limit = 2; ttl = 60 }

abbrev busy : Memory
busy = record { counts = ("throttle:10.0.0.1", 2) ∷ []; ttls = ("throttle:10.0.0.1", 30) ∷ [] }

limiter : Unit {0}
unfolding use_middleware check_rate_limit is_excluded path_of current_limit key_of params_of
    includes to_lower_case Map.get Map.set checks uses
limiter = tt

use_middleware_tests :
    ((use_middleware memory middleware (request "/api/users") blank).0
      ≡ next (some (record { limit = 2; remaining = 1; reset = pos 60 })))
    × ((use_middleware memory middleware (request "/api/users") busy).0
        ≡ too_many_requests (record { limit = 2; remaining = 0; reset = pos 30 }) (pos 30))
    × ((use_middleware memory middleware (request "/api/ADMIN/x") busy).0
        ≡ next (some (record { limit = 5000; remaining = 4997; reset = pos 30 })))
    × ((use_middleware memory middleware (request "/api/users?x=/Health") busy).0 ≡ next none)
unfolding limiter
use_middleware_tests = (refl, refl, refl, refl)

check_counts_key_example :
    (r : RateLimitStatus) × ((check_rate_limit memory ask (checks memory (ask ∷ ask ∷ []) blank)).0
      ≡ ok r)
    × (r.total ≡ pos (count_in blank (full_key "10.0.0.1") + uses "10.0.0.1" (ask ∷ ask ∷ []) + 1))
    × (r.remaining
        ≡ 2 - (count_in blank (full_key "10.0.0.1") + uses "10.0.0.1" (ask ∷ ask ∷ []) + 1))
    × (r.is_blocked
        ≡ ltb 2 (count_in blank (full_key "10.0.0.1") + uses "10.0.0.1" (ask ∷ ask ∷ []) + 1))
check_counts_key_example =
    check_counts_key memory count_in ttl_in memory-IsRedis (ask ∷ ask ∷ []) ask blank (omega arith)
      (omega arith)

use_middleware_lem_example : (use_middleware memory middleware (request "/api/users") busy).0 ≡ (
    if is_excluded (request "/api/users")
    then next none
    else if ltb 2 3
    then too_many_requests (record { limit = 2; remaining = 0; reset = pos 30 }) (pos 30)
    else next (some (record { limit = 2; remaining = 0; reset = pos 30 })))
unfolding limiter
use_middleware_lem_example =
    use_middleware_lem memory count_in ttl_in memory-IsRedis middleware (request "/api/users") busy
      (omega arith)
