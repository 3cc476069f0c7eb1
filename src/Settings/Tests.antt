-- ===== src/Settings/Tests.antt =====
-- Settings at concrete inputs, and witnesses.
use express_nest_blueprint.Base.{ℕ, ◌≡◌, refl, none, some, List, [], ◌∷◌, Bool, true, false, arith}
use express_nest_blueprint.Base.Settled.{ok, and_then}
use express_nest_blueprint.Base.Text.{codes}
use express_nest_blueprint.Cache.{Json, invalidating_call, delete_each, delete}
use express_nest_blueprint.Cache.Instance.{Store, redis, redis-IsRedis, nothing}
use express_nest_blueprint.Guards.{Request, UserRoles}
use express_nest_blueprint.Settings.{
  SystemSetting, SettingsTable, SettingValueDto, list_prefix, find_setting, value_or, update_by_key,
  get_setting_value, update_settings, update_settings_and_invalidate, transform_to_response,
}
use express_nest_blueprint.Settings.Fresh.{update-get_setting_value}
use express_nest_blueprint.Settings.Maintenance.{
  use_maintenance, unavailable, is_excluded_path, mode_of, ModeRead, enabled, answer,
  maintenance_message,
}

abbrev mode : SystemSetting Bool
mode = record {
  id = 1;
  key = "maintenance_mode";
  value = true;
  category = "general";
  description = none;
  is_active = true;
}

abbrev table : SettingsTable Bool Store
table = record {
  find_by_key = λ key s. (ok (some mode), s);
  find_all = λ s. (ok (mode ∷ []), s);
  update_row = λ id change s. (ok (some mode), s);
}

-- JSON that reads every text as the old list.
abbrev json : Json (List (SystemSetting Bool))
json = record { stringify = λ settings. "[]"; parse = λ text. some [] }

abbrev change : SettingValueDto Bool
change = record { key = "maintenance_mode"; value = true; is_active = none }

abbrev cached : Store
cached = redis.set 0 list_prefix "[]" (some 60) nothing

abbrev emptied : Store
emptied = redis.del 5 list_prefix cached

changed :
    update_settings_and_invalidate table redis 5 (change ∷ []) cached
    ≡ (ok (transform_to_response (mode ∷ [])), emptied)
unfolding update_settings_and_invalidate update_settings update_by_key invalidating_call delete_each
    delete
changed = refl

update-get_setting_value_example :
    (get_setting_value table redis json 6 7 "maintenance_mode" (some false) emptied).0
    ≡ (and_then (table.find_all emptied) (λ settings s'. (
      value_or "maintenance_mode" (some false) (find_setting "maintenance_mode" settings),
      s',
    ))).0
update-get_setting_value_example =
    update-get_setting_value table redis json 5 6 7 (change ∷ []) "maintenance_mode" (some false)
      cached emptied (transform_to_response (mode ∷ [])) redis-IsRedis (omega arith) changed

abbrev always_on : ℕ → ModeRead × ℕ
always_on s = (enabled true, s)

abbrev request : Request
request = record {
  path = codes "/users";
  url = codes "/users";
  authorization = none;
  query_token = none;
  health_key = none;
  user = some (record { sub = 5; email = []; role = UserRoles.user });
}

refused : (use_maintenance (some always_on) request false 0).0 ≡ unavailable maintenance_message
unfolding use_maintenance is_excluded_path mode_of answer
refused = refl
