-- ===== src/Tables/Tests.antt =====
-- The admin's tables at concrete inputs, and witnesses. The state counts what was done: 1 for a write
-- to the repository, 10 for a deleted cache entry, 100 for a job that is added, 1000 for a wait.
use express_nest_blueprint.Base.{ℕ, ◌+◌, ◌≡◌, refl, none, some, [], ◌∷◌, true, false}
use express_nest_blueprint.Base.Settled.{ok}
use express_nest_blueprint.Base.Map
use express_nest_blueprint.Base.Map.{Map}
use express_nest_blueprint.Guards.{JwtPayload, UserRoles}
use express_nest_blueprint.Bulk.{
  number, DatabaseOperation, BulkOperationType, BulkOperationResponse, validate_operations,
  process_bulk_operations,
}
use express_nest_blueprint.Bulk.Worker.{IsServed, AllServed, validated_bulk_succeeds}
use express_nest_blueprint.Tables.Operations.{update}
use express_nest_blueprint.Tables.{
  CrudTableOptions, CrudRepository, RepositoryEntry, CacheOperations, key_of, get_repository,
  invalidate_cache,
}
use express_nest_blueprint.Tables.Operations.{
  execute_operation, by_queue, queue_to_use, direct, invalidated, OperationResult,
}
use express_nest_blueprint.Tables.Methods.{execute, method, is_supported}
use express_nest_blueprint.Tables.Service.{
  Environment, table_record, on_entry, operation_params, bulk_service,
}
use express_nest_blueprint.Tables.Service.Queued.{IsInvalidated, table_record-IsInvalidated}

abbrev users_table : CrudTableOptions
users_table = record {
  category = "Users";
  name = "users";
  display_name = none;
  command_queue = some "users-commands";
  operation_mapping = ("update", "user.update") ∷ [];
  cache_config = some (record { prefix = "users"; detail_key = none });
  actions = none;
}

abbrev users_repository : CrudRepository ℕ ℕ
users_repository = record {
  create = none;
  update = some (λ id fields user s. (ok tt, s + 1));
  delete = none;
  find_by_id = none;
  retrieve_data_with_pagination = none;
  get_column_metadata = none;
}

abbrev counting_cache : CacheOperations ℕ
counting_cache = record {
  invalidate_tags = λ tags s. (ok tt, s + 10);
  delete_key = λ key s. (ok tt, s + 10);
}

abbrev users_entry : RepositoryEntry ℕ ℕ
users_entry = record { repository = users_repository; metadata = users_table }

abbrev env : Environment ℕ ℕ ℕ
env = record {
  repositories = ("Users:users", users_entry) ∷ [];
  add_job = λ queue job fields s. (ok 7, s + 100);
  wait_for_job = λ queue job s. (ok tt, s + 1000);
  cache = counting_cache;
}

abbrev someone : JwtPayload
someone = record { sub = 5; email = []; role = UserRoles.user }

supported : is_supported update users_repository ≡ true
unfolding is_supported
supported = refl

registered : get_repository env.repositories (key_of "Users" "users") ≡ some users_entry
unfolding get_repository key_of Map.get
registered = refl

-- The write and the cache, and no queue.
direct_update :
    table_record env update "Users" "users" (some (number 5)) (some []) none false 0
    ≡ (ok (record { success = true; id = some (number 5) }), 11)
unfolding table_record on_entry operation_params execute execute_operation by_queue queue_to_use
    direct invalidated method is_supported invalidate_cache get_repository key_of Map.get
direct_update = refl

table_record-IsInvalidated_example :
    (entry : RepositoryEntry ℕ ℕ) × (get_repository env.repositories (key_of "Users" "users")
      ≡ some entry)
    × IsInvalidated
        (invalidate_cache env.cache entry.metadata (some (number 5)))
        (some (number 5))
        (record { success = true; id = some (number 5) })
        11
table_record-IsInvalidated_example =
    table_record-IsInvalidated env update "Users" "users" (some (number 5)) (some []) none false 0
      (record { success = true; id = some (number 5) }) 11 direct_update

-- A bulk update of that table, with what the bulk service of the tables does.
abbrev rename : DatabaseOperation ℕ
rename = record {
  kind = BulkOperationType.update;
  table = "users";
  category = "Users";
  record_id = some (number 5);
  data_fields = some (("age", 41) ∷ ("updated_at", 5) ∷ []);
}

rename_validates : validate_operations (rename ∷ []) ≡ true
unfolding validate_operations
rename_validates = refl

rename_served : AllServed (bulk_service env someone) (rename ∷ [])
unfolding IsServed bulk_service table_record on_entry operation_params execute execute_operation
    by_queue queue_to_use direct invalidated method is_supported invalidate_cache get_repository
    key_of Map.get
rename_served = ((λ id fields s p q. (_, refl)), tt)

validated_bulk_succeeds_example :
    (response : BulkOperationResponse ℕ OperationResult) × ((process_bulk_operations
        (bulk_service env someone)
        none
        none
        (rename ∷ [])
        true
        0).0
      ≡ ok response)
    × (response.summary.failed ≡ 0)
    × (response.summary.successful ≡ 1)
validated_bulk_succeeds_example =
    validated_bulk_succeeds (bulk_service env someone) (rename ∷ []) 0 rename_served
      rename_validates
