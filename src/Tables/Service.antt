-- ===== src/Tables/Service.antt =====
-- AdminCrudService: packages/backend/core-api/src/modules/admin/services/admin-crud.service.ts, with
-- ReadOperations of services/crud-operations/operations/read-operations.ts. `parse_int` is JavaScript's
-- parseInt, and `parse_id` the parseId that it stands in.
pub mod Direct
pub mod Queued
use express_nest_blueprint.Base.{
  ℕ, String, Bool, true, false, Option, none, some, get_or, if◌then◌else◌,
}
use express_nest_blueprint.Base.Settled.{Settled, ok, throws}
use express_nest_blueprint.Base.Map.{Map}
use express_nest_blueprint.Guards.{JwtPayload}
use express_nest_blueprint.Bulk.{RecordId, AdminCrudService}
use express_nest_blueprint.Tables.Operations.{CrudOperationLogType, create, update, delete}
use express_nest_blueprint.Pages.{Retrieved}
use express_nest_blueprint.Tables.{
  RepositoryEntry, CacheOperations, join2, key_of, unsupported_table, get_repository,
  find_repository_by_name, invalidate_cache,
}
use express_nest_blueprint.Tables.Operations.{
  AddJob, WaitForJob, BaseOperationParams, OperationResult,
}
use express_nest_blueprint.Tables.Methods.{execute}

-- The services that AdminCrudService is made of, and the repositories that are registered.
pub record Environment (V J S : Type 0) : Type 0 where
  pub repositories : Map (RepositoryEntry V S)
  pub add_job : AddJob V J S
  pub wait_for_job : WaitForJob J S
  pub cache : CacheOperations S

module _ {V J S : Type 0} (env : Environment V J S) where
  unfoldable pub operation_params :
      RepositoryEntry V S
      → Option RecordId
      → Option (Map V)
      → Option JwtPayload
      → Bool
      → BaseOperationParams V J S
  operation_params entry id fields user bypass = record {
    repository = entry.repository;
    metadata = entry.metadata;
    id = id;
    data_fields = fields;
    current_user = user;
    bypass_queue = bypass;
    wait_for_job_completion = some env.wait_for_job;
    invalidate_cache = some (invalidate_cache env.cache);
  }

  unfoldable pub on_entry :
      Option (RepositoryEntry V S)
      → CrudOperationLogType
      → String
      → String
      → Option RecordId
      → Option (Map V)
      → Option JwtPayload
      → Bool
      → S
      → Settled OperationResult × S
  unfolding operation_params execute
  on_entry none kind category name id fields user bypass s =
      (throws (unsupported_table category name), s)
  on_entry (some entry) kind category name id fields user bypass s =
      execute env.add_job kind (operation_params entry id fields user bypass) s

  -- createTableRecord, updateTableRecord and deleteTableRecord, which differ in what they pass on.
  unfoldable pub table_record :
      CrudOperationLogType
      → String
      → String
      → Option RecordId
      → Option (Map V)
      → Option JwtPayload
      → Bool
      → S
      → Settled OperationResult × S
  unfolding on_entry get_repository key_of
  table_record kind category name id fields user bypass s =
      on_entry (get_repository env.repositories (key_of category name)) kind category name id fields
        user bypass s

  unfoldable pub create_table_record :
      String → String → Option (Map V) → Option JwtPayload → Bool → S → Settled OperationResult × S
  unfolding table_record
  create_table_record category name fields user bypass s =
      table_record create category name none fields user bypass s

  unfoldable pub update_table_record :
      String
      → String
      → RecordId
      → Map V
      → Option JwtPayload
      → Bool
      → S
      → Settled OperationResult × S
  unfolding table_record
  update_table_record category name id fields user bypass s =
      table_record update category name (some id) (some fields) user bypass s

  unfoldable pub delete_table_record :
      String → String → RecordId → Option JwtPayload → Bool → S → Settled OperationResult × S
  unfolding table_record
  delete_table_record category name id user bypass s =
      table_record delete category name (some id) none user bypass s

  -- What the worker of the bulk operations calls, for its user and with `bypassQueue: true`.
  unfoldable pub bulk_service : JwtPayload → AdminCrudService V OperationResult S
  unfolding create_table_record update_table_record delete_table_record
  bulk_service user = record {
    create_table_record =
        λ category name fields s. create_table_record category name fields (some user) true s;
    update_table_record =
        λ category name id fields s. update_table_record category name id fields (some user) true s;
    delete_table_record =
        λ category name id s. delete_table_record category name id (some user) true s;
  }

-- `pageNum ? parseInt(pageNum, 10) : 1`, and so the limit.
number_or : (String → ℕ) → Option String → ℕ → ℕ
number_or parse_int none d = d
number_or parse_int (some t) d = parse_int t

module _ {V S : Type 0} where
  data_of :
      (String → ℕ)
      → String
      → Option (ℕ → ℕ → Option String → S → Settled (Retrieved (Map V)) × S)
      → Option String
      → Option String
      → Option String
      → S
      → Settled (Retrieved (Map V)) × S
  unfolding number_or
  data_of parse_int message none page limit query s = (throws message, s)
  data_of parse_int message (some retrieve) page limit query s =
      retrieve (number_or parse_int page 1) (number_or parse_int limit 10) query s

  retriever :
      Option (RepositoryEntry V S)
      → Option (ℕ → ℕ → Option String → S → Settled (Retrieved (Map V)) × S)
  retriever none = none
  retriever (some entry) = entry.repository.retrieve_data_with_pagination

  -- `getTableData`, on its category, name, page, limit, search and `t`.
  pub get_table_data :
      (String → ℕ)
      → Map (RepositoryEntry V S)
      → String
      → String
      → Option String
      → Option String
      → Option String
      → Option String
      → S
      → Settled (Retrieved (Map V)) × S
  unfolding data_of retriever get_repository key_of
  get_table_data parse_int repositories category name page limit query t s =
      data_of parse_int
        (join2 "Table " (join2 (key_of category name) (join2 (get_or t "") " not found")))
        (retriever (get_repository repositories (key_of category name))) page limit query s

  pub get_table_data_by_name :
      (String → ℕ)
      → Map (RepositoryEntry V S)
      → String
      → Option String
      → Option String
      → Option String
      → S
      → Settled (Retrieved (Map V)) × S
  unfolding data_of retriever find_repository_by_name
  get_table_data_by_name parse_int repositories name page limit query s =
      data_of parse_int (join2 "Table " (join2 name " not found"))
        (retriever (find_repository_by_name repositories name)) page limit query s

  finder : Option (RepositoryEntry V S) → Option (RecordId → S → Settled (Option (Map V)) × S)
  finder none = none
  finder (some entry) = entry.repository.find_by_id

  record_of :
      Option (RecordId → S → Settled (Option (Map V)) × S)
      → String
      → String
      → RecordId
      → S
      → Settled (Option (Map V)) × S
  record_of none category name id s = (throws (unsupported_table category name), s)
  record_of (some find) category name id s = find id s

  pub get_table_record :
      (RecordId → RecordId)
      → Map (RepositoryEntry V S)
      → String
      → String
      → RecordId
      → S
      → Settled (Option (Map V)) × S
  unfolding record_of finder get_repository key_of
  get_table_record parse_id repositories category name id s =
      record_of (finder (get_repository repositories (key_of category name))) category name
        (parse_id id) s
