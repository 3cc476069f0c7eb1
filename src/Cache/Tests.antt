-- ===== src/Cache/Tests.antt =====
-- The cache at concrete inputs and witnesses.
use package.text.Mathlib.Text.{◌==◌ as str_eq}
use express_nest_blueprint.Base.{ℕ, ◌≡◌, refl, none, some, [], ◌∷◌, false, arith, if◌then◌else◌}
use express_nest_blueprint.Cache.Instance.{redis, redis-IsRedis, nothing}
use express_nest_blueprint.Cache.{Json, tag_key, set, get, parsed, invalidate_tags}
use express_nest_blueprint.Cache.Tags.{set-invalidate_tags, invalidate_tags-misses}

-- JSON of the value 0, and null for every other text.
abbrev json : Json ℕ
json = record { stringify = λ n. "0"; parse = λ text. if str_eq text "0" then some 0 else none }

tag_and_key : str_eq (tag_key "users") "users:1" ≡ false
unfolding tag_key
tag_and_key = refl

set-invalidate_tags_example :
    get redis json 8 "users:1" (
      invalidate_tags redis 5
        ("users" ∷ [])
        (set redis json 5 "users:1" 0 (some 60) ("users" ∷ []) nothing))
    ≡ none
set-invalidate_tags_example =
    set-invalidate_tags redis json 5 8 "users:1" "users" 0 (some 60) [] nothing redis-IsRedis
      (omega arith)

invalidate_tags-misses_example :
    get redis json 20 "users:1" (
      invalidate_tags redis 20 ("users" ∷ []) (
        set redis json 5 "users:2" 0
          (some 10)
          ("users" ∷ [])
          (set redis json 5 "users:1" 0 (some 60) ("users" ∷ []) nothing)))
    ≡ some 0
invalidate_tags-misses_example =
    invalidate_tags-misses redis json 5 20 "users:1" "users:2" "users" 0 0 59 9 nothing
      redis-IsRedis tag_and_key refl refl (omega arith) (omega arith)

missed : get redis json 4 "users:1" nothing ≡ none
unfolding get parsed
missed = refl
