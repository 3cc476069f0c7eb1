-- ===== src/Cache/Instance.antt =====
-- A Redis of two functions of time, which shows that the commands can be as they are documented.
use package.text.Mathlib.Text.{◌==◌ as str_eq}
use package.text.Mathlib.TextEquality.{eq_iff}
use express_nest_blueprint.Base.{
  ℕ, ◌+◌, ◌≡◌, refl, none, some, Option, List, [], ◌∷◌, String, Bool, true, false, ltb, ◌&&◌, not,
  arith, if◌then◌else◌,
}
use express_nest_blueprint.Cache.Commands.{Redis, IsRedis, alive, is_member}

-- The texts and the sets as they are found at each time.
pub record Store : Type 0 where
  pub texts : ℕ → String → Option String
  pub sets : ℕ → String → List String

abbrev is_empty : List String → Bool
is_empty [] = true
is_empty (m ∷ ms) = false

abbrev pub redis : Redis Store
redis = record {
  get = λ t k s. s.texts t k;
  set = λ now k v ttl s. record {
    texts = λ t j. if str_eq k j then (if alive ttl now t then some v else none) else s.texts t j;
    sets = λ t j. if str_eq k j then [] else s.sets t j;
  };
  sadd = λ now k m s. record s {
    sets = λ t j.
        if str_eq k j
        then (if not (is_empty (s.sets now k)) && is_empty (s.sets t k) then [] else m ∷ s.sets t k)
        else s.sets t j;
  };
  expire = λ now k ttl s. record {
    texts = λ t j.
        if str_eq k j then (if ltb t (now + ttl) then s.texts now k else none) else s.texts t j;
    sets =
        λ t j. if str_eq k j then (if ltb t (now + ttl) then s.sets now k else []) else s.sets t j;
  };
  smembers = λ t k s. s.sets t k;
  del = λ now k s. record {
    texts = λ t j. if str_eq k j then none else s.texts t j;
    sets = λ t j. if str_eq k j then [] else s.sets t j;
  };
}

same : (k : String) → str_eq k k ≡ true
same k = ground (arith, eq_iff k k)

added :
    (ms : List String) (j m : String)
    → is_member j (if not (is_empty ms) && is_empty ms then [] else m ∷ ms)
      ≡ (if str_eq j m then true else is_member j ms)
added [] j m = ground (arith, eq_iff j m)
added (x ∷ ms) j m = ground (arith, eq_iff j m)

pub redis-IsRedis : IsRedis redis
redis-IsRedis = record {
  get-set = λ now t k j v ttl s h. refl;
  get-sadd = λ now t k j m s h other. refl;
  get-expire = λ now t k j ttl s h other. rw other refl;
  get-del = λ now t k j s h. refl;
  smembers-set = λ now t k j v ttl s h other. rw other refl;
  smembers-sadd = λ now k m j s. rw (same k) (added (s.sets now k) j m);
  smembers-expire = λ now t k ttl s h. rw (same k) refl;
}

abbrev pub nothing : Store
nothing = record { texts = λ t k. none; sets = λ t k. [] }
