-- ===== src/Users/Futile.antt =====
-- What becomes of the updates and deletions that UsersService queues, and of those that the admin's
-- tables make: packages/backend/core-api/src/modules/users and modules/admin.
use package.text.Mathlib.Text.{◌==◌ as str_eq}
use express_nest_blueprint.Base.{
  ℕ, String, Bool, true, false, Option, none, some, ◌≡◌, refl, if◌then◌else◌, arith,
}
use express_nest_blueprint.Base.Settled.{Settled, ok, throws, and_then-ok}
use express_nest_blueprint.Base.Map
use express_nest_blueprint.Base.Map.{Map}
use express_nest_blueprint.Guards.{JwtPayload}
use express_nest_blueprint.Bulk.{RecordId, number, is_truthy_id}
use express_nest_blueprint.Tables.{CrudTableOptions, CrudRepository, get_repository, key_of}
use express_nest_blueprint.Tables.Operations.{execute_operation, by_queue, direct}
use express_nest_blueprint.Tables.Methods.{execute, method, is_supported}
use express_nest_blueprint.Tables.Service.{
  Environment, update_table_record, table_record, on_entry, operation_params,
}
use express_nest_blueprint.Tables.Service.Direct.{queue_to_use-false}
use express_nest_blueprint.Users.{FieldValue, UserData, UsersTable, update, delete}
use express_nest_blueprint.Users.Service.{update_job, delete_job}
use express_nest_blueprint.Users.Worker.{
  email_given, Transaction, if_found, if_free, with_email, update_rows, update_handle, announced,
  handle_update_user, handle_delete_user, or_failure, with_user_id, delete_handle,
}

-- A transaction gives a result only where one of its callback's runs gives it.
pub record IsTransaction {U S : Type 0} (transaction : Transaction U S) : Type 0 where
  pub from_a_run :
      (f : S → Settled (Option U) × S) (s s' : S) (u : Option U)
      → transaction f s ≡ (ok u, s')
      → (s₁ : S) × (s₂ : S) × (f s₁ ≡ (ok u, s₂))

-- A call that never returns a value.
abbrev IsFailing : {A S : Type 0} → (S → Settled A × S) → Type 0
IsFailing {A = A} {S = S} f = (s s' : S) (a : A) → ¬ (f s ≡ (ok a, s'))

failing-or :
    {A S : Type 0} (b : Bool) (x y : Settled A × S) (a : A) (s' : S)
    → ¬ (x ≡ (ok a, s'))
    → ¬ (y ≡ (ok a, s'))
    → ¬ ((if b then x else y) ≡ (ok a, s'))
failing-or true x y a s' f g h = f h
failing-or false x y a s' f g h = g h

module _ {U S : Type 0} (table : UsersTable U S) where
  if_found-fails :
      {A : Type 0} (id : RecordId) (next : U → S → Settled A × S) (x : Settled (Option U) × S)
      (s' : S) (a : A)
      → ((u : U) → IsFailing (next u))
      → ¬ (if_found table id next x ≡ (ok a, s'))
  unfolding if_found
  if_found-fails id next (throws e, s) s' a f h = ground (arith, h)
  if_found-fails id next (ok none, s) s' a f h = ground (arith, h)
  if_found-fails id next (ok (some u), s) s' a f h = f u s s' a h

  if_free-fails :
      (email : String) (next : S → Settled (Option U) × S) (x : Settled (Option U) × S) (s' : S)
      (a : Option U)
      → IsFailing next
      → ¬ (if_free table email next x ≡ (ok a, s'))
  unfolding if_free
  if_free-fails email next (throws e, s) s' a f h = ground (arith, h)
  if_free-fails email next (ok none, s) s' a f h = f s s' a h
  if_free-fails email next (ok (some u), s) s' a f h = ground (arith, h)

  with_email-fails :
      (email : Option String) (existing : U) (next : S → Settled (Option U) × S)
      → IsFailing next
      → IsFailing (with_email table email existing next)
  unfolding with_email
  with_email-fails none existing next f s s' a h = f s s' a h
  with_email-fails (some email) existing next f s s' a h =
      failing-or (str_eq email (table.email_of existing)) (next s)
        (if_free table email next (table.find_by_email email s)) a s' (f s s' a)
        (if_free-fails email next (table.find_by_email email s) s' a f) h

  update-fails : (id : RecordId) (fields : UserData) → IsFailing (update table id fields none)
  unfolding update
  update-fails id fields s s' a h = ground (arith, h)

  -- Without a user the transaction of an update has no result.
  update_rows-fails :
      (id : RecordId) (fields : UserData) → IsFailing (update_rows table id fields none)
  unfolding update_rows
  update_rows-fails id fields s s' a h =
      if_found-fails id
        (λ existing.
          with_email table (email_given (Map.get fields "email")) existing
            (update table id fields none))
        (table.find_by_id id s) s' a
        (λ u.
          with_email-fails (email_given (Map.get fields "email")) u (update table id fields none)
            (update-fails id fields))
        h

  announced-fails :
      (failed topic : String) (x : Settled (Option U) × S) (u : U) (s' : S)
      → ((a : Option U) (s₁ : S) → ¬ (x ≡ (ok a, s₁)))
      → ¬ (announced table failed topic x ≡ (ok u, s'))
  unfolding announced
  announced-fails failed topic (throws e, s) u s' f h = ground (arith, h)
  announced-fails failed topic (ok a, s) u s' f h = absurd (f a s refl)

  or_failure-fails :
      {A : Type 0} (job_id : String) (x : Settled A × S) (a : A) (s' : S)
      → ((a : A) (s₁ : S) → ¬ (x ≡ (ok a, s₁)))
      → ¬ (or_failure table job_id x ≡ (ok a, s'))
  unfolding or_failure
  or_failure-fails job_id (ok b, s) a s' f h = absurd (f b s refl)
  or_failure-fails job_id (throws e, s) a s' f h =
      let (u, s₁, _, k) =
        and_then-ok (table.produce "user.operation.failed" job_id s) (λ _ s'. (throws e, s')) a s'
          h in
      ground (arith, k)

  update_handle-fails :
      (transaction : Transaction U S)
      → IsTransaction transaction
      → (id : RecordId) (fields : UserData)
      → IsFailing (update_handle table transaction id fields none)
  unfolding update_handle
  update_handle-fails transaction t id fields s s' u h =
      announced-fails "Failed to update user" "user.updated.event"
        (transaction (update_rows table id fields none) s) u s'
        (λ a s₁ e.
          let (s₂, s₃, k) = t.from_a_run (update_rows table id fields none) s s₁ a e in
          update_rows-fails id fields s₂ s₃ a k)
        h

  delete-fails : (id : RecordId) → IsFailing (delete_handle table id none)
  unfolding delete_handle delete
  delete-fails id s s' a h =
      if_found-fails id (λ existing s₁. (throws "Security Context Missing", s₁))
        (table.find_by_id id s) s' a (λ u s₁ s₂ b k. ground (arith, k)) h

  handle_update_user-fails :
      (transaction : Transaction U S)
      → IsTransaction transaction
      → (job_id : String) (user_id now : ℕ) (fields : UserData)
      → IsFailing (handle_update_user table transaction job_id (update_job user_id fields now))
  unfolding handle_update_user with_user_id
  handle_update_user-fails transaction t job_id user_id now fields s s' u =
      failing-or (is_truthy_id (some (number user_id)))
        (or_failure table job_id (update_handle table transaction (number user_id) fields none s))
        (throws "userId required for UPDATE command", s) u s'
        (or_failure-fails job_id (update_handle table transaction (number user_id) fields none s) u
          s' (λ a s₁. update_handle-fails transaction t (number user_id) fields s s₁ a))
        (λ h. ground (arith, h))

  handle_delete_user-fails :
      (job_id : String) (user_id now : ℕ)
      → IsFailing (handle_delete_user table job_id (delete_job user_id now))
  unfolding handle_delete_user with_user_id
  handle_delete_user-fails job_id user_id now s s' u =
      failing-or (is_truthy_id (some (number user_id)))
        (or_failure table job_id (delete_handle table (number user_id) none s))
        (throws "userId required for DELETE command", s) u s'
        (or_failure-fails job_id (delete_handle table (number user_id) none s) u s'
          (λ a s₁. delete-fails (number user_id) s s₁ a))
        (λ h. ground (arith, h))

-- No update and no deletion of a user that UserUpdateService queues succeeds in the worker, whoever has
-- asked for it: the job carries no user, and without one the repository refuses.
pub jobs-fail :
    {U S : Type 0} (table : UsersTable U S) (transaction : Transaction U S)
    → IsTransaction transaction
    → (job_id : String) (user_id now : ℕ) (fields : UserData) (s s' : S)
    → ((u : U)
        → ¬ (
            handle_update_user table transaction job_id (update_job user_id fields now) s
            ≡ (ok u, s')))
      × ¬ (handle_delete_user table job_id (delete_job user_id now) s ≡ (ok tt, s'))
jobs-fail table transaction t job_id user_id now fields s s' = (
  λ u. handle_update_user-fails table transaction t job_id user_id now fields s s' u,
  handle_delete_user-fails table job_id user_id now s s' tt,
)

module _ {A S : Type 0} where
  -- `await` without a use of the value.
  done : Settled A × S → Settled Unit × S
  done (ok a, s) = (ok tt, s)
  done (throws e, s) = (throws e, s)

-- The repository of the users, as the admin's tables hold it.
pub users_repository :
    {U S : Type 0} → UsersTable U S → CrudRepository FieldValue S → CrudRepository FieldValue S
unfolding done
users_repository table others = record others {
  update = some (λ id fields user s. done (update table id fields user s));
  delete = some (λ id user s. done (delete table id user s));
}

-- An update of a user in the admin's tables that does not bypass the queue throws, whoever asks and
-- whatever the fields are, before anything has changed.
pub admin_update-throws :
    {U J S : Type 0} (env : Environment FieldValue J S) (table : UsersTable U S)
    (others : CrudRepository FieldValue S) (metadata : CrudTableOptions) (category name : String)
    (id : RecordId) (fields : UserData) (user : Option JwtPayload) (s : S)
    → get_repository env.repositories (key_of category name)
      ≡ some (record { repository = users_repository table others; metadata = metadata })
    → update_table_record env category name id fields user false s
      ≡ (throws "Security Context Missing", s)
unfolding users_repository done update update_table_record table_record on_entry operation_params
    execute execute_operation by_queue direct method is_supported
admin_update-throws env table others metadata category name id fields user s registered =
    rw (registered, queue_to_use-false metadata.command_queue) refl
