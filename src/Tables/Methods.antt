-- ===== src/Tables/Methods.antt =====
-- What CreateOperations, UpdateOperations and DeleteOperations do with a repository, under
-- packages/backend/core-api/src/modules/admin/services/crud-operations/operations.
use express_nest_blueprint.Base.{Bool, Option, none, some, String, is_some, if◌then◌else◌}
use express_nest_blueprint.Base.Settled.{Settled, throws}
use express_nest_blueprint.Base.Map.{Map}
use express_nest_blueprint.Guards.{JwtPayload}
use express_nest_blueprint.Bulk.{RecordId}
use express_nest_blueprint.Tables.Operations.{CrudOperationLogType, create, update, delete}
use express_nest_blueprint.Tables.{
  CrudTableOptions, CrudRepository, join2, key_of, unsupported_table,
}
use express_nest_blueprint.Tables.Operations.{
  AddJob, BaseOperationParams, OperationResult, execute_operation,
}

module _ {S : Type 0} where
  abbrev unsupported : {A : Type 0} → CrudTableOptions → S → Settled A × S
  unsupported metadata s = (throws (unsupported_table metadata.category metadata.name), s)

  abbrev missing : String → CrudTableOptions → S → Settled Unit × S
  missing what metadata s =
      (throws (join2 what (join2 " missing for " (key_of metadata.category metadata.name))), s)

  delete_row :
      Option (RecordId → Option JwtPayload → S → Settled Unit × S)
      → CrudTableOptions
      → Option RecordId
      → S
      → Settled Unit × S
  unfolding unsupported_table key_of
  delete_row none metadata id s = unsupported metadata s
  delete_row (some op) metadata none s = missing "Delete id" metadata s
  delete_row (some op) metadata (some id) s = op id none s

module _ {V S : Type 0} where
  create_row :
      Option (Map V → S → Settled Unit × S)
      → CrudTableOptions
      → Option (Map V)
      → S
      → Settled Unit × S
  unfolding unsupported_table key_of
  create_row none metadata fields s = unsupported metadata s
  create_row (some op) metadata none s = missing "Create data" metadata s
  create_row (some op) metadata (some fields) s = op fields s

  update_row :
      Option (RecordId → Map V → Option JwtPayload → S → Settled Unit × S)
      → CrudTableOptions
      → Option RecordId
      → Option (Map V)
      → S
      → Settled Unit × S
  unfolding unsupported_table key_of
  update_row none metadata id fields s = unsupported metadata s
  update_row (some op) metadata (some id) (some fields) s = op id fields none s
  update_row (some op) metadata _ _ s = missing "Update payload" metadata s

module _ {V J S : Type 0} where
  -- The three methods.
  unfoldable pub method : CrudOperationLogType → BaseOperationParams V J S → S → Settled Unit × S
  unfolding create_row update_row delete_row
  method create params s = create_row params.repository.create params.metadata params.data_fields s
  method update params s =
      update_row params.repository.update params.metadata params.id params.data_fields s
  method delete params s = delete_row params.repository.delete params.metadata params.id s

module _ {V S : Type 0} where
  unfoldable pub is_supported : CrudOperationLogType → CrudRepository V S → Bool
  is_supported create repository = is_some repository.create
  is_supported update repository = is_some repository.update
  is_supported delete repository = is_some repository.delete

module _ {V J S : Type 0} where
  -- `execute` of the three.
  unfoldable pub execute :
      AddJob V J S
      → CrudOperationLogType
      → BaseOperationParams V J S
      → S
      → Settled OperationResult × S
  unfolding method execute_operation is_supported
  execute add kind params s =
      if is_supported kind params.repository
      then execute_operation add (method kind) params kind s
      else unsupported params.metadata s
