-- ===== src/Tables/Service/Direct.antt =====
-- What AdminCrudService makes of an operation: its success, and its user.
use express_nest_blueprint.Base.{String, false, Option, none, some, ◌≡◌, refl}
use express_nest_blueprint.Base.Map.{Map}
use express_nest_blueprint.Guards.{JwtPayload}
use express_nest_blueprint.Bulk.{RecordId}
use express_nest_blueprint.Tables.Operations.{CrudOperationLogType, create, update, delete}
use express_nest_blueprint.Tables.{RepositoryEntry, get_repository, key_of}
use express_nest_blueprint.Tables.Operations.{
  BaseOperationParams, execute_operation, by_queue, queue_to_use, direct, invalidated,
}
use express_nest_blueprint.Tables.Methods.{execute, method}
use express_nest_blueprint.Tables.Service.{Environment, table_record, on_entry, operation_params}

pub queue_to_use-false : (queue : Option String) → queue_to_use queue false ≡ none
unfolding queue_to_use
queue_to_use-false none = refl
queue_to_use-false (some queue) = refl

module _ {V J S : Type 0} where
  method-user :
      (kind : CrudOperationLogType) (params : BaseOperationParams V J S) (user : Option JwtPayload)
      (s : S)
      → method kind (record params { current_user = user }) s ≡ method kind params s
  unfolding method
  method-user create params user s = refl
  method-user update params user s = refl
  method-user delete params user s = refl

module _ {V J S : Type 0} (env : Environment V J S) where
  entry-user :
      (kind : CrudOperationLogType) (entry : RepositoryEntry V S) (id : Option RecordId)
      (fields : Option (Map V)) (user user' : Option JwtPayload) (s : S)
      → execute env.add_job kind (operation_params env entry id fields user false) s
        ≡ execute env.add_job kind (operation_params env entry id fields user' false) s
  unfolding operation_params execute execute_operation by_queue direct invalidated
  entry-user kind entry id fields user user' s =
      let p = operation_params env entry id fields user false in
      rw (queue_to_use-false entry.metadata.command_queue, method-user kind p user' s) refl

  on_entry-user :
      (entry : Option (RepositoryEntry V S)) (kind : CrudOperationLogType) (category name : String)
      (id : Option RecordId) (fields : Option (Map V)) (user user' : Option JwtPayload) (s : S)
      → on_entry env entry kind category name id fields user false s
        ≡ on_entry env entry kind category name id fields user' false s
  unfolding on_entry
  on_entry-user none kind category name id fields user user' s = refl
  on_entry-user (some entry) kind category name id fields user user' s =
      entry-user kind entry id fields user user' s

  -- An operation that does not bypass the queue writes to the repository itself, and neither its
  -- success nor what it changes depends on the user who asks: the repository is given none.
  pub unqueued-user :
      (kind : CrudOperationLogType) (category name : String) (id : Option RecordId)
      (fields : Option (Map V)) (user user' : Option JwtPayload) (s : S)
      → table_record env kind category name id fields user false s
        ≡ table_record env kind category name id fields user' false s
  unfolding table_record
  unqueued-user kind category name id fields user user' s =
      on_entry-user (get_repository env.repositories (key_of category name)) kind category name id
        fields user user' s
