-- ===== src/Users/Worker.antt =====
-- UsersCommandsWorker and its handlers: packages/backend/core-api/src/modules/users/workers. The
-- transaction of the write connection is an argument; the table with the transaction's connection is the
-- table.
use package.text.Mathlib.Text.{◌==◌ as str_eq}
use Prim.Native.String
use express_nest_blueprint.Base.{String, Bool, true, false, Option, none, some, [], if◌then◌else◌}
use express_nest_blueprint.Base.Settled.{Settled, ok, throws, and_then}
use express_nest_blueprint.Base.Map
use express_nest_blueprint.Base.Map.{Map}
use express_nest_blueprint.Guards.{JwtPayload}
use express_nest_blueprint.Bulk.{RecordId, is_truthy_id}
use express_nest_blueprint.Users.{FieldValue, word, UserData, UsersTable, update, delete, text_of}
use express_nest_blueprint.Users.Service.{CommandJobData}

-- `transactionWithRetry` on a callback that gives a user or null.
abbrev pub Transaction : Type 0 → Type 0 → Type 0
Transaction U S = (S → Settled (Option U) × S) → S → Settled (Option U) × S

abbrev user_error : RecordId → String → String
user_error id what = String.◌++◌ "User with ID " (String.◌++◌ (text_of id) what)

abbrev email_taken : String → String
email_taken email = String.◌++◌ "User with email " (String.◌++◌ email " already exists")

-- `data.email`, where it is a text that is not empty.
unfoldable pub email_given : Option FieldValue → Option String
email_given (some (word t)) = if str_eq t "" then none else some t
email_given _ = none

-- The email of a new user, which CreateUserDto requires to be a text.
abbrev email_text : Option FieldValue → String
email_text (some (word t)) = t
email_text _ = ""

module _ {U S : Type 0} (table : UsersTable U S) where
  unfoldable pub if_free :
      String → (S → Settled (Option U) × S) → Settled (Option U) × S → Settled (Option U) × S
  if_free email next (throws e, s) = (throws e, s)
  if_free email next (ok (some u), s) = (throws (email_taken email), s)
  if_free email next (ok none, s) = next s

  -- `data.email && data.email !== existingUser.email`.
  unfoldable pub with_email :
      Option String → U → (S → Settled (Option U) × S) → S → Settled (Option U) × S
  unfolding if_free
  with_email none existing next s = next s
  with_email (some email) existing next s =
      let checked = if_free email next (table.find_by_email email s) in
      let unchanged = next s in
      if str_eq email (table.email_of existing) then unchanged else checked

  unfoldable pub if_found :
      {A : Type 0} → RecordId → (U → S → Settled A × S) → Settled (Option U) × S → Settled A × S
  unfolding text_of
  if_found id next (throws e, s) = (throws e, s)
  if_found id next (ok none, s) = (throws (user_error id " not found"), s)
  if_found id next (ok (some u), s) = next u s

  -- The transaction of UpdateHandler, with its connection.
  unfoldable pub update_rows : RecordId → UserData → Option JwtPayload → S → Settled (Option U) × S
  unfolding if_found with_email email_given Map.get update
  update_rows id fields user s =
      if_found id
        (λ existing.
          with_email (email_given (Map.get fields "email")) existing (update table id fields user))
        (table.find_by_id id s)

  -- `if (!user) throw`, then the event of the topic, and the user.
  unfoldable pub announced : String → String → Settled (Option U) × S → Settled U × S
  unfolding text_of
  announced failed topic (throws e, s) = (throws e, s)
  announced failed topic (ok none, s) = (throws failed, s)
  announced failed topic (ok (some u), s) =
      and_then (table.produce topic (text_of (table.id_of u)) s) (λ _ s'. (ok u, s'))

  unfoldable pub update_handle :
      Transaction U S → RecordId → UserData → Option JwtPayload → S → Settled U × S
  unfolding update_rows announced
  update_handle transaction id fields user s =
      announced "Failed to update user" "user.updated.event"
        (transaction (update_rows id fields user) s)

  create_rows : UserData → String → S → Settled (Option U) × S
  unfolding if_free
  create_rows fields email s = if_free email (table.create_row fields) (table.find_by_email email s)

  pub create_handle : Transaction U S → UserData → S → Settled U × S
  unfolding create_rows announced Map.get
  create_handle transaction fields s =
      announced "Failed to create user" "user.created.event"
        (transaction (create_rows fields (email_text (Map.get fields "email"))) s)

  after_delete : RecordId → Bool → S → Settled Unit × S
  unfolding text_of
  after_delete id true s = table.produce "user.deleted.event" (text_of id) s
  after_delete id false s = (throws "Failed to delete user", s)

  unfoldable pub delete_handle : RecordId → Option JwtPayload → S → Settled Unit × S
  unfolding if_found delete after_delete
  delete_handle id user s =
      if_found id (λ existing s'. and_then (delete table id user s') (after_delete id))
        (table.find_by_id id s)

  -- `catch (error) { await this.handleFailure(...); throw error; }`.
  unfoldable pub or_failure : {A : Type 0} → String → Settled A × S → Settled A × S
  or_failure job_id (ok a, s) = (ok a, s)
  or_failure job_id (throws e, s) =
      and_then (table.produce "user.operation.failed" job_id s) (λ _ s'. (throws e, s'))

  unfoldable pub with_user_id :
      {A : Type 0} → String → Option RecordId → (RecordId → S → Settled A × S) → S → Settled A × S
  unfolding or_failure
  with_user_id command none next s = (throws (String.◌++◌ "userId required for " command), s)
  with_user_id command (some id) next s =
      let handled = next id s in
      if is_truthy_id (some id)
      then handled
      else (throws (String.◌++◌ "userId required for " command), s)

  abbrev fields_of : Option UserData → UserData
  fields_of none = []
  fields_of (some fields) = fields

  pub handle_create_user : Transaction U S → String → CommandJobData → S → Settled U × S
  unfolding create_handle or_failure
  handle_create_user transaction job_id job s =
      or_failure job_id (create_handle transaction (fields_of job.fields) s)

  unfoldable pub handle_update_user : Transaction U S → String → CommandJobData → S → Settled U × S
  unfolding update_handle or_failure with_user_id
  handle_update_user transaction job_id job = with_user_id "UPDATE command" job.user_id (λ id s.
      or_failure job_id (update_handle transaction id (fields_of job.fields) job.current_user s))

  unfoldable pub handle_delete_user : String → CommandJobData → S → Settled Unit × S
  unfolding delete_handle or_failure with_user_id
  handle_delete_user job_id job =
      with_user_id "DELETE command" job.user_id
        (λ id s. or_failure job_id (delete_handle id job.current_user s))
