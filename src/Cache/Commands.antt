-- ===== src/Cache/Commands.antt =====
-- What the cache uses of Redis, through the ioredis client.
use package.text.Mathlib.Text.{◌==◌ as str_eq}
use express_nest_blueprint.Base.{
  ℕ, ◌+◌, ◌≤◌, String, Bool, true, false, Option, none, some, List, [], any, ◌≡◌, if◌then◌else◌,
  ltb,
}

-- A call is made at a time in seconds.
pub record Redis (S : Type 0) : Type 0 where
  pub get : ℕ → String → S → Option String
  pub set : ℕ → String → String → Option ℕ → S → S
  pub sadd : ℕ → String → String → S → S
  pub expire : ℕ → String → ℕ → S → S
  pub smembers : ℕ → String → S → List String
  pub del : ℕ → String → S → S

abbrev pub is_member : String → List String → Bool
is_member k members = any (str_eq k) members

abbrev pub alive : Option ℕ → ℕ → ℕ → Bool
alive none now t = true
alive (some ttl) now t = ltb t (now + ttl)

-- The documented behaviour of the commands, on keys that hold texts or sets, at times after the call:
-- SET puts a text for the time to live, SADD adds to a set and leaves its expiry, EXPIRE replaces the
-- expiry, DEL takes a key away, and none touches another key.
pub record IsRedis {S : Type 0} (r : Redis S) : Type 0 where
  pub get-set :
      (now t : ℕ) (k j v : String) (ttl : Option ℕ) (s : S)
      → now ≤ t
      → r.get t j (r.set now k v ttl s)
        ≡ (if str_eq k j then (if alive ttl now t then some v else none) else r.get t j s)
  pub get-sadd :
      (now t : ℕ) (k j m : String) (s : S)
      → now ≤ t
      → str_eq k j ≡ false
      → r.get t j (r.sadd now k m s) ≡ r.get t j s
  pub get-expire :
      (now t : ℕ) (k j : String) (ttl : ℕ) (s : S)
      → now ≤ t
      → str_eq k j ≡ false
      → r.get t j (r.expire now k ttl s) ≡ r.get t j s
  pub get-del :
      (now t : ℕ) (k j : String) (s : S)
      → now ≤ t
      → r.get t j (r.del now k s) ≡ (if str_eq k j then none else r.get t j s)
  pub smembers-set :
      (now t : ℕ) (k j v : String) (ttl : Option ℕ) (s : S)
      → now ≤ t
      → str_eq k j ≡ false
      → r.smembers t j (r.set now k v ttl s) ≡ r.smembers t j s
  pub smembers-sadd :
      (now : ℕ) (k m j : String) (s : S)
      → is_member j (r.smembers now k (r.sadd now k m s))
        ≡ (if str_eq j m then true else is_member j (r.smembers now k s))
  pub smembers-expire :
      (now t : ℕ) (k : String) (ttl : ℕ) (s : S)
      → now ≤ t
      → r.smembers t k (r.expire now k ttl s)
        ≡ (if ltb t (now + ttl) then r.smembers now k s else [])
