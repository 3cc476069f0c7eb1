-- ===== src/Cache/Tags.antt =====
-- Which entries an invalidation of tags reaches, and what the cached methods answer:
-- packages/backend/common/src/infrastructure/cache.
use package.text.Mathlib.Text.{◌==◌ as str_eq}
use package.text.Mathlib.TextEquality.{eq_iff}
use express_nest_blueprint.Base.{
  ℕ, zero, suc, ◌+◌, ◌≤◌, ◌<◌, String, true, false, Option, none, some, List, [], ◌∷◌, ◌≡◌, refl,
  ◌∙◌, arith,
}
use express_nest_blueprint.Base.Settled.{Settled, ok}
use express_nest_blueprint.Cache.Commands.{Redis, IsRedis, is_member}
use express_nest_blueprint.Cache.{
  Json, tag_key, given, expire_tag, tag_entry, delete_keys, invalidate_members, invalidate_tags,
  set, get, parsed, cached_call, from_cache, fetched,
}

module _ {S : Type 0} (redis : Redis S) (r : IsRedis redis) (now t : ℕ) (later : now ≤ t) where
  del-none :
      (key k : String) (s : S)
      → redis.get t key s ≡ none
      → redis.get t key (redis.del now k s) ≡ none
  del-none key k s h = rw (r.get-del now t k key s later, h) (ground arith)

  delete_keys-none :
      (key : String) (keys : List String) (s : S)
      → redis.get t key s ≡ none
      → redis.get t key (delete_keys redis now keys s) ≡ none
  unfolding delete_keys
  delete_keys-none key [] s h = h
  delete_keys-none key (k ∷ keys) s h =
      delete_keys-none key keys (redis.del now k s) (del-none key k s h)

  get-delete_keys :
      (key : String) (keys : List String) (s : S)
      → is_member key keys ≡ true
      → redis.get t key (delete_keys redis now keys s) ≡ none
  unfolding delete_keys
  get-delete_keys key [] s h = ground (arith, h)
  get-delete_keys key (k ∷ keys) s h = ground (
    arith,
    h,
    eq_iff key k,
    eq_iff k key,
    r.get-del now t k key s later,
    delete_keys-none key keys (redis.del now k s),
    get-delete_keys key keys (redis.del now k s),
  )

  invalidate_members-none :
      (key k : String) (members : List String) (s : S)
      → redis.get t key s ≡ none
      → redis.get t key (invalidate_members redis now k members s) ≡ none
  unfolding invalidate_members
  invalidate_members-none key k [] s h = h
  invalidate_members-none key k (m ∷ members) s h =
      del-none key k (delete_keys redis now (m ∷ members) s)
        (delete_keys-none key (m ∷ members) s h)

  get-invalidate_members :
      (key k : String) (members : List String) (s : S)
      → is_member key members ≡ true
      → redis.get t key (invalidate_members redis now k members s) ≡ none
  unfolding invalidate_members
  get-invalidate_members key k [] s h = ground (arith, h)
  get-invalidate_members key k (m ∷ members) s h =
      del-none key k (delete_keys redis now (m ∷ members) s) (get-delete_keys key (m ∷ members) s h)

  invalidate_tags-none :
      (key : String) (tags : List String) (s : S)
      → redis.get t key s ≡ none
      → redis.get t key (invalidate_tags redis now tags s) ≡ none
  unfolding invalidate_tags
  invalidate_tags-none key [] s h = h
  invalidate_tags-none key (tag ∷ tags) s h =
      invalidate_tags-none key tags _ (invalidate_members-none key (tag_key tag) _ s h)

  -- An invalidation of a tag removes every entry that the tag's set has then.
  get-invalidate_tags :
      (key tag : String) (tags : List String) (s : S)
      → is_member key (redis.smembers now (tag_key tag) s) ≡ true
      → redis.get t key (invalidate_tags redis now (tag ∷ tags) s) ≡ none
  unfolding invalidate_tags
  get-invalidate_tags key tag tags s h =
      invalidate_tags-none key tags _ (get-invalidate_members key (tag_key tag) _ s h)

module _ {V S : Type 0} (redis : Redis S) (json : Json V) (r : IsRedis redis) where
  smembers-expire_tag :
      (now : ℕ) (ttl : Option ℕ) (key k : String) (s : S)
      → is_member key (redis.smembers now k s) ≡ true
      → is_member key (redis.smembers now k (expire_tag redis now (given ttl) k s)) ≡ true
  unfolding expire_tag given
  smembers-expire_tag now none key k s h = h
  smembers-expire_tag now (some zero) key k s h = h
  smembers-expire_tag now (some (suc n)) key k s h =
      ground (arith, h, r.smembers-expire now now k (suc n) s)

  -- The entry that is set is in the set of its tag.
  smembers-set_tag :
      (now : ℕ) (key tag : String) (v : V) (ttl : Option ℕ) (s : S)
      → is_member key (redis.smembers now (tag_key tag) (set redis json now key v ttl (tag ∷ []) s))
        ≡ true
  unfolding set tag_entry
  smembers-set_tag now key tag v ttl s =
      let s₁ = redis.set now key (json.stringify v) (given ttl) s in
      smembers-expire_tag now ttl key (tag_key tag) (redis.sadd now (tag_key tag) key s₁)
        (ground (arith, eq_iff key key, r.smembers-sadd now (tag_key tag) key key s₁))

-- An entry that is set with a tag is gone once the tag is invalidated, at that time and later, with or
-- without a time to live, whatever other tags are invalidated with it.
pub set-invalidate_tags :
    {V S : Type 0} (redis : Redis S) (json : Json V) (now t : ℕ) (key tag : String) (v : V)
    (ttl : Option ℕ) (tags : List String) (s : S)
    → IsRedis redis
    → now ≤ t
    → get redis json t key
        (invalidate_tags redis now (tag ∷ tags) (set redis json now key v ttl (tag ∷ []) s))
      ≡ none
unfolding get parsed
set-invalidate_tags redis json now t key tag v ttl tags s r later =
    let e =
      get-invalidate_tags redis r now t later key tag tags
        (set redis json now key v ttl (tag ∷ []) s)
        (smembers-set_tag redis json r now key tag v ttl s) in
    rw e refl

module _ {V S : Type 0} (redis : Redis S) (json : Json V) (r : IsRedis redis) where
  get-set_tag :
      (now t : ℕ) (key j tag : String) (v : V) (n : ℕ) (s : S)
      → now ≤ t
      → str_eq (tag_key tag) j ≡ false
      → redis.get t j (set redis json now key v (some (suc n)) (tag ∷ []) s)
        ≡ redis.get t j (redis.set now key (json.stringify v) (some (suc n)) s)
  unfolding set tag_entry given expire_tag
  get-set_tag now t key j tag v n s later other =
      let s₁ = redis.set now key (json.stringify v) (some (suc n)) s in
      r.get-expire now t (tag_key tag) j (suc n) (redis.sadd now (tag_key tag) key s₁) later other
      ∙ r.get-sadd now t (tag_key tag) j key s₁ later other

  -- Once the time to live of the last entry that was set with a tag is over, the tag's set is empty.
  invalidate-expired :
      (now t : ℕ) (key tag : String) (v : V) (n : ℕ) (s : S)
      → now + suc n ≤ t
      → invalidate_tags redis t (tag ∷ []) (set redis json now key v (some (suc n)) (tag ∷ []) s)
        ≡ set redis json now key v (some (suc n)) (tag ∷ []) s
  unfolding invalidate_tags invalidate_members set tag_entry given expire_tag
  invalidate-expired now t key tag v n s over =
      let s₁ =
        redis.sadd now (tag_key tag) key (redis.set now key (json.stringify v) (some (suc n)) s) in
      let e : redis.smembers t (tag_key tag) (redis.expire now (tag_key tag) (suc n) s₁) ≡ [] =
        ground (arith, over, r.smembers-expire now t (tag_key tag) (suc n) s₁) in
      rw e refl

-- Of two entries with one tag, the later of which lives for a shorter time, the earlier one outlives an
-- invalidation of the tag that comes after the end of the later: the tag's set has expired with the later.
pub invalidate_tags-misses :
    {V S : Type 0} (redis : Redis S) (json : Json V) (now t : ℕ) (key key' tag : String) (v v' : V)
    (n n' : ℕ) (s : S)
    → IsRedis redis
    → str_eq (tag_key tag) key ≡ false
    → str_eq key' key ≡ false
    → json.parse (json.stringify v) ≡ some v
    → now + suc n' ≤ t
    → t < now + suc n
    → get redis json t key (
        invalidate_tags redis t (tag ∷ []) (
          set redis json now key' v'
            (some (suc n'))
            (tag ∷ [])
            (set redis json now key v (some (suc n)) (tag ∷ []) s)))
      ≡ some v
unfolding get parsed
invalidate_tags-misses redis json now t key key' tag v v' n n' s r other distinct parsed_back over
      living =
    let s₁ = set redis json now key v (some (suc n)) (tag ∷ []) s in
    let later : now ≤ t = omega arith in
    let kept : redis.get t key (set redis json now key' v' (some (suc n')) (tag ∷ []) s₁)
        ≡ some (json.stringify v) =
      get-set_tag redis json r now t key' key tag v' n' s₁ later other
      ∙ ground
          (arith, distinct, r.get-set now t key' key (json.stringify v') (some (suc n')) s₁ later)
      ∙ get-set_tag redis json r now t key key tag v n s later other
      ∙ ground (
        arith,
        living,
        eq_iff key key,
        r.get-set now t key key (json.stringify v) (some (suc n)) s later,
      ) in
    rw (invalidate-expired redis json r now t key' tag v' n' s₁ over, kept) parsed_back

-- A cached method that was called and returned is not called again while its entry lives: it answers
-- with the same value and changes nothing, whatever the method would do by then.
pub cached_call_twice :
    {V S : Type 0} (redis : Redis S) (json : Json V) (now later t after_t : ℕ) (key prefix : String)
    (n : ℕ) (method method' : S → Settled V × S) (v : V) (s s₁ : S)
    → IsRedis redis
    → str_eq (tag_key prefix) key ≡ false
    → json.parse (json.stringify v) ≡ some v
    → get redis json now key s ≡ none
    → method s ≡ (ok v, s₁)
    → later ≤ t
    → t < later + suc n
    → cached_call redis json t after_t key
        (some (suc n))
        (some prefix)
        method'
        (cached_call redis json now later key (some (suc n)) (some prefix) method s).1
      ≡ (ok v, (cached_call redis json now later key (some (suc n)) (some prefix) method s).1)
unfolding cached_call from_cache fetched get parsed
cached_call_twice redis json now later t after_t key prefix n method method' v s s₁ r other
      parsed_back missed returned after living =
    let s₂ = set redis json later key v (some (suc n)) (prefix ∷ []) s₁ in
    let kept : redis.get t key s₂ ≡ some (json.stringify v) =
      get-set_tag redis json r later t key key prefix v n s₁ after other
      ∙ ground (
        arith,
        living,
        eq_iff key key,
        r.get-set later t key key (json.stringify v) (some (suc n)) s₁ after,
      ) in
    rw (missed, returned, kept, parsed_back) refl
