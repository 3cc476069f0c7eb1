-- ===== src/RateLimit/Commands.antt =====
-- What the throttler uses of Redis, through the ioredis client.
use text.Mathlib.Text.{◌==◌ as str_eq}
use express_nest_blueprint.Base.{
  ℕ, zero, ◌+◌, ◌<◌, String, ◌≡◌, Option, none, some, List, [], ◌∷◌, if◌then◌else◌,
}
use express_nest_blueprint.Base.Int.{ℤ, pos, negsuc}

-- What a promise does: its value, or a rejection.
pub data Result {ℓ} (A : Type ℓ) : Type ℓ where
  ok : A → Result A
  throws : Result A

-- The value of one command's reply, which the code holds as `unknown`.
pub data Value : Type 0 where
  number : ℤ → Value
  other : Value

-- `multi().incr(key).ttl(key).exec()` gives null, or the value of each command's reply.
pub record Redis : Type 1 where
  pub Store : Type 0
  pub exec : String → Store → Result (Option (List Value)) × Store
  pub expire : String → ℕ → Store → Result (Unit {0}) × Store

-- TTL answers -1 for a key that does not expire.
abbrev pub ttl_reply : Option ℕ → ℤ
ttl_reply none = negsuc zero
ttl_reply (some n) = pos n

-- The documented behaviour of INCR, TTL and EXPIRE while the server answers and no key expires:
-- `count` is the number under a key, 0 where there is none, and `ttl` its seconds to live.
pub record IsRedis (r : Redis) (count : r.Store → String → ℕ) (ttl : r.Store → String → Option ℕ)
    : Type 0 where
  pub exec_reply :
      (k : String) (s : r.Store)
      → (r.exec k s).0
        ≡ ok (some (number (pos (count s k + 1)) ∷ number (ttl_reply (ttl s k)) ∷ []))
  pub count_exec :
      (k j : String) (s : r.Store)
      → count (r.exec k s).1 j ≡ (if str_eq k j then count s j + 1 else count s j)
  pub ttl_exec : (k j : String) (s : r.Store) → ttl (r.exec k s).1 j ≡ ttl s j
  pub expire_reply : (k : String) (n : ℕ) (s : r.Store) → 0 < n → (r.expire k n s).0 ≡ ok tt
  pub count_expire :
      (k j : String) (n : ℕ) (s : r.Store) → 0 < n → count (r.expire k n s).1 j ≡ count s j
  pub ttl_expire :
      (k j : String) (n : ℕ) (s : r.Store)
      → 0 < n
      → ttl (r.expire k n s).1 j ≡ (if str_eq k j then some n else ttl s j)
