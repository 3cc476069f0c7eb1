-- ===== src/Settings.antt =====
-- SettingsService and SettingsRepository, in packages/backend/core-api/src/modules/settings. The rows of
-- the table and Redis, on one state `S`, are arguments, and so is the time of each call. A value is a `V`.
pub mod Maintenance
pub mod Fresh
mod Tests
use Prim.Native.String
use package.text.Mathlib.Text.{◌==◌ as str_eq}
use express_nest_blueprint.Base.{
  ℕ, String, Bool, true, false, not, Option, none, some, List, [], ◌∷◌, map, get_or, if◌then◌else◌,
}
use express_nest_blueprint.Base.Settled.{Settled, ok, throws, and_then}
use express_nest_blueprint.Base.Map
use express_nest_blueprint.Base.Map.{Map}
use express_nest_blueprint.Cache.Commands.{Redis}
use express_nest_blueprint.Cache.{Json, cached_call, invalidating_call}

pub record SystemSetting (V : Type 0) : Type 0 where
  pub id : ℕ
  pub key : String
  pub value : V
  pub category : String
  pub description : Option String
  pub is_active : Bool

-- What an UPDATE sets.
pub data Change (V : Type 0) : Type 0 where
  set_value : V → Change V
  set_active : Bool → Change V

-- The table: a SELECT by key, one of all, and an UPDATE by id, with the first row it returns.
pub record SettingsTable (V S : Type 0) : Type 0 where
  pub find_by_key : String → S → Settled (Option (SystemSetting V)) × S
  pub find_all : S → Settled (List (SystemSetting V)) × S
  pub update_row : ℕ → Change V → S → Settled (Option (SystemSetting V)) × S

pub record SettingValueDto (V : Type 0) : Type 0 where
  pub key : String
  pub value : V
  pub is_active : Option Bool

pub record SettingsResponseDto (V : Type 0) : Type 0 where
  pub id : String
  pub label : String
  pub description : String
  pub value : V
  pub is_active : Bool
  pub category : String

abbrev quoted : String → String → String → String
quoted before key after =
    String.◌++◌ before (String.◌++◌ "\"" (String.◌++◌ key (String.◌++◌ "\"" after)))

labels : Map String
labels =
    ("maintenance_mode", "Maintenance Mode")
    ∷ ("debug_logging", "Debug Logging")
    ∷ ("allow_registration", "Allow Registration")
    ∷ ("enforce_mfa", "Enforce MFA")
    ∷ []

transform_single_to_response : {V : Type 0} → SystemSetting V → SettingsResponseDto V
unfolding labels Map.get
transform_single_to_response setting = record {
  id = setting.key;
  label = get_or (Map.get labels setting.key) setting.key;
  description = get_or setting.description "";
  value = setting.value;
  is_active = setting.is_active;
  category = setting.category;
}

unfoldable pub transform_to_response :
    {V : Type 0} → List (SystemSetting V) → List (SettingsResponseDto V)
unfolding transform_single_to_response
transform_to_response settings = map transform_single_to_response settings

-- `settings.find(s => s.key === key)`.
unfoldable pub find_setting :
    {V : Type 0} → String → List (SystemSetting V) → Option (SystemSetting V)
find_setting key [] = none
find_setting key (setting ∷ settings) =
    let found = find_setting key settings in if str_eq setting.key key then some setting else found

-- The value of an active setting, or the default.
unfoldable pub value_or : {V : Type 0} → String → Option V → Option (SystemSetting V) → Settled V
value_or key (some d) none = ok d
value_or key none none = throws (quoted "Setting " key " not found or not active")
value_or key (some d) (some setting) = if setting.is_active then ok setting.value else ok d
value_or key none (some setting) =
    if setting.is_active
    then ok setting.value
    else throws (quoted "Setting " key " not found or not active")

-- `CACHE_KEYS.SETTINGS.LIST_PREFIX`.
abbrev pub list_prefix : String
list_prefix = "{system_all_settings}:list"

module _ {V S : Type 0} (table : SettingsTable V S) where
  returned :
      String → String → Settled (Option (SystemSetting V)) × S → Settled (SystemSetting V) × S
  returned what key (throws e, s) = (throws e, s)
  returned what key (ok none, s) = (throws (quoted what key ""), s)
  returned what key (ok (some setting), s) = (ok setting, s)

  if_known :
      String
      → (SystemSetting V → S → Settled (SystemSetting V) × S)
      → Settled (Option (SystemSetting V)) × S
      → Settled (SystemSetting V) × S
  if_known key next (throws e, s) = (throws e, s)
  if_known key next (ok none, s) = (throws (quoted "Setting with key " key " not found"), s)
  if_known key next (ok (some setting), s) = next setting s

  unfoldable pub update_by_key : String → V → S → Settled (SystemSetting V) × S
  unfolding if_known returned
  update_by_key key value s =
      if_known key
        (λ setting s'.
          returned "Failed to update setting with key " key
            (table.update_row setting.id (set_value value) s'))
        (table.find_by_key key s)

  unfoldable pub update_active_status : String → Bool → S → Settled (SystemSetting V) × S
  unfolding if_known returned
  update_active_status key active s =
      if_known key
        (λ setting s'.
          returned "Failed to update active status for setting " key
            (table.update_row setting.id (set_active active) s'))
        (table.find_by_key key s)

  set_status : String → Option Bool → S → Settled Unit × S
  unfolding update_active_status
  set_status key none s = (ok tt, s)
  set_status key (some active) s =
      and_then (update_active_status key active s) (λ _ s'. (ok tt, s'))

  -- The loop of `updateSettings`, whose list of updated settings nobody reads.
  update_each : List (SettingValueDto V) → S → Settled Unit × S
  unfolding update_by_key set_status
  update_each [] s = (ok tt, s)
  update_each (dto ∷ dtos) s =
      and_then (update_by_key dto.key dto.value s)
        (λ _ s₁. and_then (set_status dto.key dto.is_active s₁) (λ _ s₂. update_each dtos s₂))

  -- `updateSettings`, before it is wrapped.
  unfoldable pub update_settings :
      List (SettingValueDto V) → S → Settled (List (SettingsResponseDto V)) × S
  unfolding update_each transform_to_response
  update_settings dtos s = and_then (update_each dtos s) (λ _ s₁.
      and_then (table.find_all s₁) (λ settings s₂. (ok (transform_to_response settings), s₂)))

  -- `updateSettings` under @InvalidateCache.
  unfoldable pub update_settings_and_invalidate :
      Redis S → ℕ → List (SettingValueDto V) → S → Settled (List (SettingsResponseDto V)) × S
  unfolding update_settings
  update_settings_and_invalidate redis now dtos s =
      invalidating_call redis now (list_prefix ∷ []) (update_settings dtos s)

  -- `getAllSettingsRaw` under @Cache, read at `now` and stored at `later`.
  unfoldable pub get_all_settings_raw :
      Redis S → Json (List (SystemSetting V)) → ℕ → ℕ → S → Settled (List (SystemSetting V)) × S
  get_all_settings_raw redis json now later s =
      cached_call redis json now later list_prefix (some 60) none table.find_all s

  unfoldable pub get_setting_by_key :
      Redis S
      → Json (List (SystemSetting V))
      → ℕ
      → ℕ
      → String
      → S
      → Settled (Option (SystemSetting V)) × S
  unfolding get_all_settings_raw find_setting
  get_setting_by_key redis json now later key s =
      and_then (get_all_settings_raw redis json now later s)
        (λ settings s'. (ok (find_setting key settings), s'))

  unfoldable pub get_setting_value :
      Redis S → Json (List (SystemSetting V)) → ℕ → ℕ → String → Option V → S → Settled V × S
  unfolding get_setting_by_key value_or
  get_setting_value redis json now later key default s =
      and_then (get_setting_by_key redis json now later key s)
        (λ setting s'. (value_or key default setting, s'))

  pub get_all_settings :
      Redis S
      → Json (List (SystemSetting V))
      → ℕ
      → ℕ
      → S
      → Settled (List (SettingsResponseDto V)) × S
  unfolding get_all_settings_raw transform_to_response
  get_all_settings redis json now later s =
      and_then (get_all_settings_raw redis json now later s)
        (λ settings s'. (ok (transform_to_response settings), s'))
