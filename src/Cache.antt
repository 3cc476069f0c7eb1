-- ===== src/Cache.antt =====
-- CacheService and the wrappers of CacheExplorer: packages/backend/common/src/infrastructure/cache,
-- cache.service.ts and cache.explorer.ts. Redis and JSON are parameters; the metrics are left out. Each
-- call is given its time.
pub mod Commands
pub mod Instance
pub mod Tags
mod Tests
use Prim.Native.String
use express_nest_blueprint.Base.{ℕ, zero, suc, String, Option, none, some, List, [], ◌∷◌}
use express_nest_blueprint.Base.Settled.{Settled, ok, throws, and_then}
use express_nest_blueprint.Cache.Commands.{Redis}

-- `{cache:tag}:${tag}`.
unfoldable pub tag_key : String → String
tag_key tag = String.◌++◌ "{cache:tag}:" tag

-- `ttl` of 0 is falsy.
unfoldable pub given : Option ℕ → Option ℕ
given (some (suc n)) = some (suc n)
given _ = none

-- JSON.stringify and JSON.parse, of which `none` is null.
pub record Json (V : Type 0) : Type 0 where
  pub stringify : V → String
  pub parse : String → Option V

module _ {S : Type 0} (redis : Redis S) (now : ℕ) where
  unfoldable pub expire_tag : Option ℕ → String → S → S
  expire_tag none key s = s
  expire_tag (some ttl) key s = redis.expire now key ttl s

  -- `for (const tag of tags)`: the key joins the set of each tag, whose expiry becomes the entry's.
  unfoldable pub tag_entry : String → Option ℕ → List String → S → S
  unfolding tag_key expire_tag
  tag_entry key ttl [] s = s
  tag_entry key ttl (tag ∷ tags) s =
      tag_entry key ttl tags (expire_tag ttl (tag_key tag) (redis.sadd now (tag_key tag) key s))

  -- `keys.map(key => client.del(key))`.
  unfoldable pub delete_keys : List String → S → S
  delete_keys [] s = s
  delete_keys (key ∷ keys) s = delete_keys keys (redis.del now key s)

  unfoldable pub invalidate_members : String → List String → S → S
  unfolding delete_keys
  invalidate_members key [] s = s
  invalidate_members key (member ∷ members) s = redis.del now key (delete_keys (member ∷ members) s)

  unfoldable pub invalidate_tags : List String → S → S
  unfolding invalidate_members tag_key
  invalidate_tags [] s = s
  invalidate_tags (tag ∷ tags) s =
      invalidate_tags tags (invalidate_members (tag_key tag) (redis.smembers now (tag_key tag) s) s)

  unfoldable pub delete : String → S → S
  delete key s = redis.del now key s

module _ {V S : Type 0} (redis : Redis S) (json : Json V) where
  unfoldable pub parsed : Option String → Option V
  parsed none = none
  parsed (some text) = json.parse text

  unfoldable pub get : ℕ → String → S → Option V
  unfolding parsed
  get now key s = parsed (redis.get now key s)

  unfoldable pub set : ℕ → String → V → Option ℕ → List String → S → S
  unfolding tag_entry given
  set now key value ttl tags s =
      tag_entry redis now key (given ttl) tags
        (redis.set now key (json.stringify value) (given ttl) s)

  unfoldable pub fetched : ℕ → String → Option ℕ → Option String → Settled V × S → Settled V × S
  unfolding set
  fetched now key ttl prefix (throws e, s) = (throws e, s)
  fetched now key ttl none (ok v, s) = (ok v, set now key v ttl [] s)
  fetched now key ttl (some prefix) (ok v, s) = (ok v, set now key v ttl (prefix ∷ []) s)

  unfoldable pub from_cache :
      ℕ → String → Option ℕ → Option String → (S → Settled V × S) → S → Option V → Settled V × S
  unfolding fetched
  from_cache later key ttl prefix method s (some v) = (ok v, s)
  from_cache later key ttl prefix method s none = fetched later key ttl prefix (method s)

  -- The method that `patchCacheMethod` installs, on a key and a truthy prefix: read at `now`, and
  -- where that gives null, called and stored at `later`.
  unfoldable pub cached_call :
      ℕ → ℕ → String → Option ℕ → Option String → (S → Settled V × S) → S → Settled V × S
  unfolding from_cache get
  cached_call now later key ttl prefix method s =
      from_cache later key ttl prefix method s (get now key s)

module _ {S : Type 0} (redis : Redis S) where
  -- `for (const keyOrFn of options.keys)`, on the keys.
  unfoldable pub delete_each : ℕ → List String → S → S
  unfolding delete
  delete_each now [] s = s
  delete_each now (key ∷ keys) s = delete_each now keys (delete redis now key s)

module _ {V S : Type 0} (redis : Redis S) where
  -- The method that `patchInvalidationMethod` installs.
  unfoldable pub invalidating_call : ℕ → List String → Settled V × S → Settled V × S
  unfolding delete_each
  invalidating_call now keys result = and_then result (λ v s. (ok v, delete_each redis now keys s))
