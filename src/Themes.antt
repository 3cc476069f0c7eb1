-- ===== src/Themes.antt =====
-- ThemeVersionsRepository.update and delete:
-- packages/backend/core-api/src/modules/themes/repositories/theme-versions.repository.ts. The table of the
-- database, with its state `S`, is a parameter: `IsTable` says what the statements sent to it do.
pub mod Active
mod Tests
use express_nest_blueprint.Base.{
  ℕ, Bool, true, false, not, ◌&&◌, ◌||◌, Option, none, some, List, [], ◌∷◌, get_or, is_some, ◌==◌,
  ◌≡◌, if◌then◌else◌,
}
use express_nest_blueprint.Guards.{UserRoles, global_admin, admin, same_role, JwtPayload}

-- `published`, or any other status.
pub data ThemeStatus : Type 0 where
  published : ThemeStatus
  other_status : ℕ → ThemeStatus

-- The part of `Partial<ThemeVersionEntity>` that the repository looks at; times are numbers, and a
-- time of `none` is absent or falsy.
pub record ThemeData : Type 0 where
  pub is_active : Option Bool
  pub status : Option ThemeStatus
  pub published_at : Option ℕ

-- The statements: UPDATE of all active rows, UPDATE and DELETE of one row. `active` is the row's
-- `is_active`, `none` where there is no row.
pub record ThemeTable (S : Type 0) : Type 0 where
  pub active : S → ℕ → Option Bool
  pub deactivate_all : S → S
  pub update_row : ℕ → ThemeData → S → S
  pub delete_row : ℕ → S → S

abbrev deactivated : Option Bool → Option Bool
deactivated none = none
deactivated (some b) = some false

abbrev overwritten : Option Bool → Option Bool → Option Bool
overwritten new none = none
overwritten new (some b) = some (get_or new b)

pub record IsTable {S : Type 0} (table : ThemeTable S) : Type 0 where
  pub active-deactivate_all :
      (s : S) (j : ℕ) → table.active (table.deactivate_all s) j ≡ deactivated (table.active s j)
  pub active-update_row :
      (i : ℕ) (d : ThemeData) (s : S) (j : ℕ)
      → table.active (table.update_row i d s) j
        ≡ (if i == j then overwritten d.is_active (table.active s j) else table.active s j)
  pub active-delete_row :
      (i : ℕ) (s : S) (j : ℕ)
      → table.active (table.delete_row i s) j ≡ (if i == j then none else table.active s j)

-- `done` tells whether the row was there.
pub data Result : Type 0 where
  done : Bool → Result
  forbidden : Result

abbrev may_update : Option JwtPayload → Bool
may_update none = true
may_update (some u) = same_role u.role global_admin || same_role u.role admin

abbrev may_delete : Option JwtPayload → Bool
may_delete none = true
may_delete (some u) = same_role u.role global_admin

-- `if (data.status === 'published' && !data.publishedAt) data.publishedAt = new Date()`.
abbrev publishes : Option ThemeStatus → Option ℕ → Bool
publishes (some published) none = true
publishes _ _ = false

with_published_at : ThemeData → ℕ → ThemeData
with_published_at d now =
    if publishes d.status d.published_at then record d { published_at = some now } else d

-- `data.isActive === true`.
abbrev activates : Option Bool → Bool
activates none = false
activates (some b) = b

module _ {S : Type 0} (table : ThemeTable S) where
  pub update : ℕ → ThemeData → Option JwtPayload → ℕ → S → Result × S
  unfolding with_published_at
  update id d current_user now s =
      let s₁ = if activates d.is_active then table.deactivate_all s else s in
      if may_update current_user
      then (done (is_some (table.active s₁ id)), table.update_row id (with_published_at d now) s₁)
      else (forbidden, s)

  abbrev is_active_row : Option Bool → Bool
  is_active_row none = false
  is_active_row (some b) = b

  pub delete : ℕ → Option JwtPayload → S → Result × S
  delete id current_user s =
      if not (may_delete current_user)
      then (forbidden, s)
      else if is_active_row (table.active s id)
      then (forbidden, s)
      else (done (is_some (table.active s id)), table.delete_row id s)
