-- ===== src/Forms/Tests.antt =====
-- Forms of the admin front end at concrete inputs, and a witness.
use express_nest_blueprint.Base.{
  ℕ, ◌==◌, String, Bool, true, false, [], ◌∷◌, some, Option, ◌≡◌, ◌↔◌, refl, arith,
}
use express_nest_blueprint.Base.Map
use express_nest_blueprint.Forms.{
  null, text, Record, has_form_changes, any_changed, keys, value_at, are_values_equal, is_empty,
  strictly_equal, validate_form_data, CurrentUser, is_field_excluded_from_update, is_role_excluded,
  is_global_admin, is_current_user,
}
use express_nest_blueprint.Forms.Changed.{Decides, SameValue, has_form_changes_iff}

abbrev same : ℕ → ℕ → Bool
same a b = a == b

abbrev before : Record ℕ
before = ("firstName", text "Ann") ∷ ("phone", null) ∷ []

abbrev after : Record ℕ
after = ("firstName", text "Ann") ∷ ("phone", text "") ∷ []

emptied : has_form_changes same after before ≡ false
unfolding has_form_changes any_changed keys value_at are_values_equal is_empty strictly_equal
    Map.get
emptied = refl

missing :
    validate_form_data after (("firstName", true) ∷ ("phone", true) ∷ []) ≡ "phone is required" ∷ []
unfolding validate_form_data value_at is_empty Map.get
missing = refl

abbrev root : Option CurrentUser
root = some (record { id = "1"; role = "global admin" })

own_role : is_field_excluded_from_update root "role" (some "1") ≡ true
unfolding is_field_excluded_from_update is_role_excluded is_global_admin is_current_user
own_role = refl

same-Decides : Decides same
same-Decides a b = ground arith

has_form_changes_iff_example :
    (has_form_changes same after before ≡ false)
    ↔ ((key : String) → SameValue (value_at after key) (value_at before key))
has_form_changes_iff_example = has_form_changes_iff same same-Decides after before
