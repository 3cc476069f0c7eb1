-- ===== src/Users/Service.antt =====
-- UsersService, UserCreationService, UserUpdateService, the id of UserQueryService and QueryHelper:
-- packages/backend/core-api/src/modules/users. The queue, with its state, is an argument.
use express_nest_blueprint.Base.{
  ℕ, zero, suc, String, Bool, true, false, ◌||◌, ◌==◌, Option, none, some, List, [], ◌∷◌, ◌++◌,
  get_or, if◌then◌else◌, refl, ◌≡◌,
}
use express_nest_blueprint.Base.Int.{ℤ, pos}
use express_nest_blueprint.Base.Settled.{Settled, ok, throws, and_then}
use express_nest_blueprint.Base.Map
use express_nest_blueprint.Base.Map.{Map}
use express_nest_blueprint.Guards.{JwtPayload}
use express_nest_blueprint.Bulk.{RecordId, number, text}
use express_nest_blueprint.Query.Where.{Where, object}
use express_nest_blueprint.Pages.{QueryAllWithPaginationOptions}
use express_nest_blueprint.Users.{
  FieldValue, flag, word, UserData, passing, is_self, Check, text_of, is_defined,
}

pub data JobId : Type 0 where
  string_id : String → JobId
  number_id : ℕ → JobId
  no_id : JobId

pub record CommandJobData : Type 0 where
  pub command : String
  pub fields : Option UserData
  pub user_id : Option RecordId
  pub current_user : Option JwtPayload
  pub timestamp : ℕ

-- `commandQueue.add(name, data)`, with the id of the job.
abbrev pub AddCommand : Type 0 → Type 0
AddCommand S = String → CommandJobData → S → Settled JobId × S

pub record JobResponseDto : Type 0 where
  pub job_id : String
  pub status : String
  pub message : String

-- `resolveJobId`, on its message, and the answer.
unfoldable pub respond : {S : Type 0} → String → String → JobId → S → Settled JobResponseDto × S
respond invalid message (string_id id) s =
    (ok (record { job_id = id; status = "pending"; message = message }), s)
respond invalid message _ s = (throws invalid, s)

abbrev pub create_job : UserData → ℕ → CommandJobData
create_job fields now = record {
  command = "CREATE";
  fields = some fields;
  user_id = none;
  current_user = none;
  timestamp = now;
}

abbrev pub update_job : ℕ → UserData → ℕ → CommandJobData
update_job user_id fields now = record {
  command = "UPDATE";
  fields = some fields;
  user_id = some (number user_id);
  current_user = none;
  timestamp = now;
}

abbrev pub delete_job : ℕ → ℕ → CommandJobData
delete_job user_id now = record {
  command = "DELETE";
  fields = some [];
  user_id = some (number user_id);
  current_user = none;
  timestamp = now;
}

-- `currentUser && currentUser.sub === userId` with a sensitive field.
unfoldable pub own_sensitive : Option JwtPayload → ℕ → UserData → Check
unfolding Map.get
own_sensitive none user_id fields = none
own_sensitive (some user) user_id fields =
    if user.sub == user_id
    then (if is_defined (Map.get fields "isEmailVerified") || is_defined (Map.get fields "isActive")
        then some
            "You are not allowed to update sensitive fields (isEmailVerified, isActive) on your own account"
        else none)
    else none

unfoldable pub own_account : Option JwtPayload → ℕ → Check
unfolding text_of
own_account none user_id = none
own_account (some user) user_id =
    if is_self user (number user_id) then some "You cannot delete your own account" else none

-- `parseAndValidateId`; `parse_int` is JavaScript's, with `none` for NaN.
unfoldable pub parse_and_validate_id : (String → Option ℤ) → RecordId → Settled ℕ
parse_and_validate_id parse_int (number zero) =
    throws "Invalid user ID. ID must be a positive number"
parse_and_validate_id parse_int (number (suc n)) = ok (suc n)
parse_and_validate_id parse_int (text t) = elim (parse_int t) [
  | some (pos (suc n)) ↦ ok (suc n)
  | _ ↦ throws "Invalid user ID. ID must be a positive number"
]

module _ {S : Type 0} (add : AddCommand S) (now : ℕ) where
  -- UserCreationService.create, which UsersService hands its queue.
  pub create : UserData → S → Settled JobResponseDto × S
  unfolding respond
  create fields s = and_then (add "user.create" (create_job fields now) s) (λ id s'.
      respond "Invalid queue job id generated for user creation" "User creation queued" id s')

  unfoldable pub update_user : ℕ → UserData → Option JwtPayload → S → Settled JobResponseDto × S
  unfolding own_sensitive respond
  update_user user_id fields user = passing (own_sensitive user user_id fields) (λ s.
      and_then (add "user.update" (update_job user_id fields now) s) (λ id s'.
        respond "Invalid queue job id generated for user update" "User update queued" id s'))

  unfoldable pub remove_user : ℕ → Option JwtPayload → S → Settled JobResponseDto × S
  unfolding own_account respond
  remove_user user_id user = passing (own_account user user_id) (λ s.
      and_then (add "user.delete" (delete_job user_id now) s) (λ id s'.
        respond "Invalid queue job id generated for user deletion" "User deletion queued" id s'))

  -- UsersService.update and remove.
  pub update :
      (String → Option ℤ) → RecordId → UserData → Option JwtPayload → S → Settled JobResponseDto × S
  unfolding parse_and_validate_id update_user
  update parse_int id fields user s =
      and_then (parse_and_validate_id parse_int id, s)
        (λ user_id s'. update_user user_id fields user s')

  pub remove : (String → Option ℤ) → RecordId → Option JwtPayload → S → Settled JobResponseDto × S
  unfolding parse_and_validate_id remove_user
  remove parse_int id user s =
      and_then (parse_and_validate_id parse_int id, s) (λ user_id s'. remove_user user_id user s')

-- `FindUsersQueryDto`; a text of none is absent or empty.
pub record FindUsersQueryDto : Type 0 where
  pub page : Option ℕ
  pub limit : Option ℕ
  pub search : Option String
  pub email : Option String
  pub first_name : Option String
  pub last_name : Option String
  pub is_active : Option Bool
  pub sort_by : Option String
  pub sort_order : Option String

abbrev word_clause : String → Option String → List (String × FieldValue)
word_clause field none = []
word_clause field (some t) = (field, word t) ∷ []

abbrev active_clause : Option Bool → List (String × FieldValue)
active_clause (some true) = ("isActive", flag true) ∷ []
active_clause _ = []

-- `buildWhereClause`.
unfoldable pub build_where_clause : FindUsersQueryDto → List (String × FieldValue)
build_where_clause opts =
    active_clause opts.is_active
    ++ (word_clause "email" opts.email
        ++ (word_clause "firstName" opts.first_name ++ word_clause "lastName" opts.last_name))

abbrev where_option : List (String × FieldValue) → Option (Where FieldValue)
where_option [] = none
where_option (c ∷ cs) = some (object (c ∷ cs))

-- `buildPaginationOptions`.
pub build_pagination_options :
    FindUsersQueryDto → List (String × FieldValue) → QueryAllWithPaginationOptions FieldValue
build_pagination_options opts clause = record {
  page = get_or opts.page 1;
  limit = get_or opts.limit 10;
  search = opts.search;
  search_fields = some ("firstName" ∷ "lastName" ∷ "email" ∷ []);
  filter_by = where_option clause;
  order_by = some (get_or opts.sort_by "id");
  order_direction = some (get_or opts.sort_order "ASC");
}

-- A query for the users that are not active is the query for all users.
build_where_clause-inactive :
    (opts : FindUsersQueryDto)
    → build_where_clause (record opts { is_active = some false })
      ≡ build_where_clause (record opts { is_active = none })
unfolding build_where_clause
build_where_clause-inactive opts = refl
