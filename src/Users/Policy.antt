-- ===== src/Users/Policy.antt =====
-- Who may change which fields of a user: UsersRepository.update and delete, in
-- packages/backend/core-api/src/modules/users/users.repository.ts.
use express_nest_blueprint.Base.{
  String, ◌↔◌, Bool, true, false, not, ◌&&◌, Option, none, some, ◌≡◌, ◌⊎◌, inl, inr, refl, ◌∙◌,
  arith, if◌then◌else◌,
}
use express_nest_blueprint.Base.Settled.{Settled, throws, and_then}
use express_nest_blueprint.Guards.{JwtPayload, global_admin}
use express_nest_blueprint.Guards.Roles.{same_role_sound, same_role_refl}
use express_nest_blueprint.Bulk.{RecordId}
use express_nest_blueprint.Base.Map
use express_nest_blueprint.Base.Text.{to_lower_case}
use express_nest_blueprint.Query.Sql.{decimal}
use package.text.Mathlib.TextEquality.{eq_iff}
use express_nest_blueprint.Users.Fields.{
  Sets, GivesRole, Finds, Sets-case, has_field_iff, is_defined_iff,
}
use express_nest_blueprint.Users.{
  text_of, UserData, UsersTable, has_field, sets_role, restricted_fields, sensitive_fields, is_self,
  is_global_admin, passing, validate_self_update, validate_sensitive_fields, validate_role_update,
  updated, update_as, update,
}

-- For the own account, no field isActive, is_active, isEmailVerified, is_email_verified or role, in any
-- case. For every account, isActive and isEmailVerified, in any case, and a value of the key `role` only
-- by a global admin; is_active and Role, of another account, are for everyone.
pub record IsAllowed (user : JwtPayload) (id : RecordId) (fields : UserData) : Type 0 where
  pub no_own_status :
      decimal user.sub ≡ text_of id
      → ¬ Sets "isActive" fields
        × ¬ Sets "is_active" fields
        × ¬ Sets "isEmailVerified" fields
        × ¬ Sets "is_email_verified" fields
        × ¬ Sets "role" fields
  pub sensitive : Sets "isActive" fields ⊎ Sets "isEmailVerified" fields → user.role ≡ global_admin
  pub role : GivesRole fields → user.role ≡ global_admin

module _ {A S : Type 0} where
  -- A check lets on, or throws.
  self_gate :
      (self restricted : Bool) (e : String) (next : S → Settled A × S) (s : S)
      → ((self ≡ true → restricted ≡ false)
          × (passing (if self && restricted then some e else none) next s ≡ next s))
        ⊎ (¬ (self ≡ true → restricted ≡ false)
            × (passing (if self && restricted then some e else none) next s ≡ (throws e, s)))
  self_gate true true e next s = inr (λ h. ground (arith, h refl), refl)
  self_gate true false e next s = inl (λ h. refl, refl)
  self_gate false restricted e next s = inl (λ h. ground (arith, h), refl)

  admin_gate :
      (asked admin : Bool) (e : String) (next : S → Settled A × S) (s : S)
      → ((asked ≡ true → admin ≡ true)
          × (passing (if asked && not admin then some e else none) next s ≡ next s))
        ⊎ (¬ (asked ≡ true → admin ≡ true)
            × (passing (if asked && not admin then some e else none) next s ≡ (throws e, s)))
  admin_gate true true e next s = inl (λ h. refl, refl)
  admin_gate true false e next s = inr (λ h. ground (arith, h refl), refl)
  admin_gate false admin e next s = inl (λ h. ground (arith, h), refl)

-- The update of a row and its notification, for a user who has passed.
pub carried_out :
    {U S : Type 0} → UsersTable U S → JwtPayload → RecordId → UserData → S → Settled (Option U) × S
carried_out table user id fields s =
    and_then (table.update_row id fields s) (λ u s'. updated table user id u s')

-- The three checks of the repository let on.
record Passes (user : JwtPayload) (id : RecordId) (fields : UserData) : Type 0 where
  own : is_self user id ≡ true → has_field restricted_fields fields ≡ false
  sensitive : has_field sensitive_fields fields ≡ true → is_global_admin user ≡ true
  role : sets_role fields ≡ true → is_global_admin user ≡ true

-- The names that the checks look for.
restricted_iff :
    (fields : UserData)
    → (has_field restricted_fields fields ≡ false) ↔ (
        ¬ Sets "isActive" fields
        × ¬ Sets "is_active" fields
        × ¬ Sets "isEmailVerified" fields
        × ¬ Sets "is_email_verified" fields
        × ¬ Sets "role" fields)
unfolding Finds to_lower_case
restricted_iff fields = ground (
  arith,
  has_field_iff restricted_fields fields,
  Sets-case "isActive" "isactive" refl fields,
  Sets-case "isEmailVerified" "isemailverified" refl fields,
)

sensitive_iff :
    (fields : UserData)
    → (has_field sensitive_fields fields ≡ true)
      ↔ (Sets "isActive" fields ⊎ Sets "isEmailVerified" fields)
unfolding Finds
sensitive_iff fields = ground (arith, has_field_iff sensitive_fields fields)

is_global_admin_iff :
    (user : JwtPayload) → (is_global_admin user ≡ true) ↔ (user.role ≡ global_admin)
is_global_admin_iff user =
    (same_role_sound user.role global_admin, λ e. rw e (same_role_refl global_admin))

Passes-iff :
    (user : JwtPayload) (id : RecordId) (fields : UserData)
    → Passes user id fields ↔ IsAllowed user id fields
Passes-iff user id fields =
    let own = eq_iff (decimal user.sub) (text_of id) in
    let restricted = restricted_iff fields in
    let sensitive = sensitive_iff fields in
    let role : (sets_role fields ≡ true) ↔ GivesRole fields =
      unfold sets_role in is_defined_iff (Map.get fields "role") in
    let admin = is_global_admin_iff user in
    (
      (λ p. record {
        no_own_status = λ e. restricted.0 (p.own (own.1 e));
        sensitive = λ h. admin.0 (p.sensitive (sensitive.1 h));
        role = λ h. admin.0 (p.role (role.1 h));
      }),
      (λ a. record {
        own = λ e. restricted.1 (a.no_own_status (own.0 e));
        sensitive = λ h. admin.1 (a.sensitive (sensitive.0 h));
        role = λ h. admin.1 (a.role (role.0 h));
      }),
    )

update_as-Passes :
    {U S : Type 0} (table : UsersTable U S) (user : JwtPayload) (id : RecordId) (fields : UserData)
    (s : S)
    → (Passes user id fields
        × (update table id fields (some user) s ≡ carried_out table user id fields s))
      ⊎ (¬ Passes user id fields
          × ((e : String) × (update table id fields (some user) s ≡ (throws e, s))))
unfolding update update_as validate_self_update validate_sensitive_fields validate_role_update
    carried_out
update_as-Passes table user id fields s =
    let next = carried_out table user id fields in
    let third = passing (validate_role_update user fields) next in
    let second = passing (validate_sensitive_fields user fields) third in
    elim (self_gate (is_self user id) (has_field restricted_fields fields)
      "Forbidden account update" second s) [
        | inr (bad, e) ↦ inr (λ a. bad a.own, ("Forbidden account update", e))
        | inl (own, e) ↦
            elim (admin_gate (has_field sensitive_fields fields) (is_global_admin user)
              "Admin required for sensitive fields" third s) [
                | inr (bad, f) ↦
                    inr (λ a. bad a.sensitive, ("Admin required for sensitive fields", e ∙ f))
                | inl (sensitive, f) ↦
                    elim (admin_gate (sets_role fields) (is_global_admin user)
                      "Admin required for role update" next s) [
                        | inr (bad, g) ↦
                            inr (λ a. bad a.role, ("Admin required for role update", e ∙ f ∙ g))
                        | inl (role, g) ↦
                            inl
                              (record { own = own; sensitive = sensitive; role = role }, e ∙ f ∙ g)
                      ]
              ]
      ]

-- Where a user asks for it, the row is updated where the rules of IsAllowed hold of the user, the row and
-- the fields, and otherwise the update throws and nothing has changed.
pub update_as_lem :
    {U S : Type 0} (table : UsersTable U S) (user : JwtPayload) (id : RecordId) (fields : UserData)
    (s : S)
    → (IsAllowed user id fields
        × (update table id fields (some user) s ≡ carried_out table user id fields s))
      ⊎ (¬ IsAllowed user id fields
          × ((e : String) × (update table id fields (some user) s ≡ (throws e, s))))
update_as_lem table user id fields s =
    let iff = Passes-iff user id fields in
    elim (update_as-Passes table user id fields s) [
      | inl (p, e) ↦ inl (iff.0 p, e)
      | inr (p, e) ↦ inr (λ a. p (iff.1 a), e)
    ]
