-- ===== src/Settings/Fresh.antt =====
-- That a change of the settings is seen at once: SettingsService, in
-- packages/backend/core-api/src/modules/settings/settings.service.ts, with the cache.
use mathlib.Core.Path.{subst}
use express_nest_blueprint.Base.{ℕ, ◌≤◌, String, Option, none, some, List, ◌≡◌, refl, ap}
use express_nest_blueprint.Base.Settled.{Settled, ok, throws, and_then, and_then-ok}
use express_nest_blueprint.Cache.Commands.{Redis, IsRedis}
use express_nest_blueprint.Cache.{
  Json, cached_call, from_cache, fetched, get, parsed, invalidating_call, delete, delete_each,
}
use express_nest_blueprint.Settings.{
  SystemSetting, SettingsTable, SettingValueDto, SettingsResponseDto, list_prefix, find_setting,
  value_or, get_all_settings_raw, get_setting_by_key, get_setting_value, update_settings,
  update_settings_and_invalidate,
}

module _ {V S : Type 0} (redis : Redis S) (json : Json (List (SystemSetting V))) where
  fetched-value :
      (later : ℕ) (key : String) (default : Option V) (x : Settled (List (SystemSetting V)) × S)
      → (and_then
          (and_then
            (fetched redis json later list_prefix (some 60) none x)
            (λ settings s'. (ok (find_setting key settings), s')))
          (λ setting s'. (value_or key default setting, s'))).0
        ≡ (and_then x (λ settings s'. (value_or key default (find_setting key settings), s'))).0
  unfolding fetched
  fetched-value later key default (ok settings, s) = refl
  fetched-value later key default (throws e, s) = refl

-- Once updateSettings has returned, whatever was cached before, a setting has at any later time the value
-- that the table then gives it, where no one has read the settings in between.
pub update-get_setting_value :
    {V S : Type 0} (table : SettingsTable V S) (redis : Redis S)
    (json : Json (List (SystemSetting V))) (now t later : ℕ) (dtos : List (SettingValueDto V))
    (key : String) (default : Option V) (s s₁ : S) (r : List (SettingsResponseDto V))
    → IsRedis redis
    → now ≤ t
    → update_settings_and_invalidate table redis now dtos s ≡ (ok r, s₁)
    → (get_setting_value table redis json t later key default s₁).0
      ≡ (and_then
          (table.find_all s₁)
          (λ settings s'. (value_or key default (find_setting key settings), s'))).0
unfolding update_settings_and_invalidate invalidating_call delete_each delete get_setting_value
    get_setting_by_key get_all_settings_raw cached_call from_cache get parsed
update-get_setting_value table redis json now t later dtos key default s s₁ r laws after returned =
    let (answer, s₀, _, h) =
      and_then-ok (update_settings table dtos s) (λ v s'. (ok v, redis.del now list_prefix s')) r s₁
        returned in
    let gone : redis.get t list_prefix (redis.del now list_prefix s₀) ≡ none =
      laws.get-del now t list_prefix list_prefix s₀ after in
    let missed : redis.get t list_prefix s₁ ≡ none =
      subst (λ z. redis.get t list_prefix z ≡ none) (ap (λ p. p.1) h) gone in
    rw missed (fetched-value redis json later key default (table.find_all s₁))
