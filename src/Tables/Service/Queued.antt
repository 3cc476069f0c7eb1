-- ===== src/Tables/Service/Queued.antt =====
-- What AdminCrudService does after a write and for the worker of the bulk operations.
use mathlib.Core.Path.{subst}
use package.text.Mathlib.Text.{◌==◌ as str_eq}
use express_nest_blueprint.Base.{
  String, Bool, true, false, Option, none, some, ◌≡◌, ◌∙◌, refl, sym, ap, arith, if◌then◌else◌,
}
use express_nest_blueprint.Base.Settled.{Settled, ok, throws, and_then, and_then-ok}
use express_nest_blueprint.Base.Map.{Map}
use express_nest_blueprint.Guards.{JwtPayload}
use express_nest_blueprint.Bulk.{RecordId}
use express_nest_blueprint.Tables.Operations.{CrudOperationLogType, update}
use express_nest_blueprint.Tables.{
  RepositoryEntry, get_repository, invalidate_cache, key_of, unsupported_table,
}
use express_nest_blueprint.Tables.Operations.{
  AddJob, WaitForJob, InvalidateCache, BaseOperationParams, OperationResult, execute_operation,
  by_queue, queue_to_use, direct, queued, execute_with_queue, invalidated, succeeded, job_name,
  job_data, write_job,
}
use express_nest_blueprint.Tables.Methods.{execute, method, is_supported}
use express_nest_blueprint.Tables.Service.{
  Environment, bulk_service, update_table_record, table_record, on_entry, operation_params,
}

-- The last steps of an operation that has succeeded: the cache's invalidation, then the result.
pub record IsInvalidated {S : Type 0} (invalidate : S → Settled Unit × S) (id : Option RecordId)
    (r : OperationResult) (s' : S) : Type 0 where
  pub before : S
  pub invalidated_last : invalidate before ≡ (ok tt, s')
  pub same_id : r.id ≡ id

id_of : Option RecordId → Settled OperationResult → Option RecordId
id_of id (ok r) = r.id
id_of id (throws e) = id

finished :
    {S : Type 0} (invalidate : S → Settled Unit × S) (id : Option RecordId) (s : S)
    (r : OperationResult) (s' : S)
    → and_then (invalidate s) (λ _ s₂. succeeded id s₂) ≡ (ok r, s')
    → IsInvalidated invalidate id r s'
unfolding id_of
finished invalidate id s r s' h =
    let (u, s₂, e, f) = and_then-ok (invalidate s) (λ _ s₂. succeeded id s₂) r s' h in
    record {
      before = s;
      invalidated_last = e ∙ ap (λ p. (ok tt, p.1)) f;
      same_id = ap (λ p. id_of id p.0) (sym f);
    }

module _ {V J S : Type 0} (add : AddJob V J S) where
  direct-ok :
      (run : BaseOperationParams V J S → S → Settled Unit × S) (params : BaseOperationParams V J S)
      (invalidate : InvalidateCache S) (s : S) (r : OperationResult) (s' : S)
      → params.invalidate_cache ≡ some invalidate
      → direct add run params s ≡ (ok r, s')
      → IsInvalidated (invalidate params.metadata params.id) params.id r s'
  unfolding direct invalidated
  direct-ok run params invalidate s r s' e h =
      let (u, s₁, _, h₁) =
        and_then-ok (run params s)
          (λ _ s₁.
            and_then (invalidated add params.invalidate_cache params s₁)
              (λ _ s₂. succeeded params.id s₂))
          r s' h in
      finished (invalidate params.metadata params.id) params.id s₁ r s' (
        subst
          (λ c.
            and_then (invalidated add c params s₁) (λ _ s₂. succeeded params.id s₂) ≡ (ok r, s'))
          e h₁)

  wait_step :
      BaseOperationParams V J S
      → WaitForJob J S
      → InvalidateCache S
      → String
      → J
      → S
      → Settled OperationResult × S
  wait_step params wait invalidate queue job s =
      and_then (wait queue job s) (λ _ s₂.
        and_then (invalidate params.metadata params.id s₂) (λ _ s₃. succeeded params.id s₃))

  execute_with_queue-ok :
      (queue : String) (kind : CrudOperationLogType) (params : BaseOperationParams V J S)
      (user : JwtPayload) (wait : WaitForJob J S) (invalidate : InvalidateCache S) (s : S)
      (r : OperationResult) (s' : S)
      → execute_with_queue add queue params kind user wait invalidate s ≡ (ok r, s')
      → IsInvalidated (invalidate params.metadata params.id) params.id r s'
  unfolding execute_with_queue wait_step
  execute_with_queue-ok queue kind params user wait invalidate s r s' h =
      let (job, s₁, _, h₁) =
        and_then-ok
          (add queue (job_name params.metadata kind)
            (job_data kind params.id params.data_fields user) s)
          (wait_step params wait invalidate queue) r s' h in
      let (u, s₂, _, h₂) =
        and_then-ok (wait queue job s₁)
          (λ _ s₂.
            and_then (invalidate params.metadata params.id s₂) (λ _ s₃. succeeded params.id s₃))
          r s' h₁ in
      finished (invalidate params.metadata params.id) params.id s₂ r s' h₂

  queued-ok :
      (queue : String) (kind : CrudOperationLogType) (params : BaseOperationParams V J S)
      (user : Option JwtPayload) (wait : Option (WaitForJob J S)) (invalidate : InvalidateCache S)
      (s : S) (r : OperationResult) (s' : S)
      → queued add queue params kind user wait (some invalidate) s ≡ (ok r, s')
      → IsInvalidated (invalidate params.metadata params.id) params.id r s'
  unfolding queued
  queued-ok queue kind params none wait invalidate s r s' h = ground (arith, h)
  queued-ok queue kind params (some user) none invalidate s r s' h = ground (arith, h)
  queued-ok queue kind params (some user) (some wait) invalidate s r s' h =
      execute_with_queue-ok queue kind params user wait invalidate s r s' h

  by_queue-ok :
      (queue : Option String) (run : BaseOperationParams V J S → S → Settled Unit × S)
      (kind : CrudOperationLogType) (params : BaseOperationParams V J S)
      (invalidate : InvalidateCache S) (s : S) (r : OperationResult) (s' : S)
      → params.invalidate_cache ≡ some invalidate
      → by_queue add queue run params kind s ≡ (ok r, s')
      → IsInvalidated (invalidate params.metadata params.id) params.id r s'
  unfolding by_queue
  by_queue-ok none run kind params invalidate s r s' e h =
      direct-ok run params invalidate s r s' e h
  by_queue-ok (some queue) run kind params invalidate s r s' e h =
      queued-ok queue kind params params.current_user params.wait_for_job_completion invalidate s r
        s'
        (subst
          (λ c.
            queued add queue params kind params.current_user params.wait_for_job_completion c s
            ≡ (ok r, s'))
          e h)

  supported-ok :
      (supported : Bool) (run : BaseOperationParams V J S → S → Settled Unit × S)
      (kind : CrudOperationLogType) (params : BaseOperationParams V J S)
      (invalidate : InvalidateCache S) (message : String) (s : S) (r : OperationResult) (s' : S)
      → params.invalidate_cache ≡ some invalidate
      → (if supported then execute_operation add run params kind s else (throws message, s))
        ≡ (ok r, s')
      → IsInvalidated (invalidate params.metadata params.id) params.id r s'
  unfolding execute_operation
  supported-ok true run kind params invalidate message s r s' e h =
      by_queue-ok (queue_to_use params.metadata.command_queue params.bypass_queue) run kind params
        invalidate s r s' e h
  supported-ok false run kind params invalidate message s r s' e h = ground (arith, h)

  execute-ok :
      (kind : CrudOperationLogType) (params : BaseOperationParams V J S)
      (invalidate : InvalidateCache S) (s : S) (r : OperationResult) (s' : S)
      → params.invalidate_cache ≡ some invalidate
      → execute add kind params s ≡ (ok r, s')
      → IsInvalidated (invalidate params.metadata params.id) params.id r s'
  unfolding execute
  execute-ok kind params invalidate s r s' e h =
      supported-ok (is_supported kind params.repository) (method kind) kind params invalidate
        (unsupported_table params.metadata.category params.metadata.name) s r s' e h

module _ {V J S : Type 0} (env : Environment V J S) where
  on_entry-ok :
      (found : Option (RepositoryEntry V S)) (kind : CrudOperationLogType) (category name : String)
      (id : Option RecordId) (fields : Option (Map V)) (user : Option JwtPayload) (bypass : Bool)
      (s : S) (r : OperationResult) (s' : S)
      → on_entry env found kind category name id fields user bypass s ≡ (ok r, s')
      → (entry : RepositoryEntry V S) × (found ≡ some entry)
        × IsInvalidated (invalidate_cache env.cache entry.metadata id) id r s'
  unfolding on_entry operation_params
  on_entry-ok none kind category name id fields user bypass s r s' h = ground (arith, h)
  on_entry-ok (some entry) kind category name id fields user bypass s r s' h = (
    entry,
    refl,
    execute-ok env.add_job kind (operation_params env entry id fields user bypass)
        (invalidate_cache env.cache) s r s' refl h,
  )

-- An operation on a table that succeeds, by the queue or not, is on a registered table, has told the
-- cache to forget the table's entries as its last step, and answers with the id that it was given.
pub table_record-IsInvalidated :
    {V J S : Type 0} (env : Environment V J S) (kind : CrudOperationLogType)
    (category name : String) (id : Option RecordId) (fields : Option (Map V))
    (user : Option JwtPayload) (bypass : Bool) (s : S) (r : OperationResult) (s' : S)
    → table_record env kind category name id fields user bypass s ≡ (ok r, s')
    → (entry : RepositoryEntry V S) × (get_repository env.repositories (key_of category name)
        ≡ some entry)
      × IsInvalidated (invalidate_cache env.cache entry.metadata id) id r s'
unfolding table_record
table_record-IsInvalidated env kind category name id fields user bypass s r s' h =
    on_entry-ok env (get_repository env.repositories (key_of category name)) kind category name id
      fields user bypass s r s' h

-- The worker of the bulk operations, which passes `bypassQueue: true`, does not write to a table that
-- has a command queue: its update adds a job to that queue, waits for it and invalidates the cache.
pub bulk_update-queued :
    {V J S : Type 0} (env : Environment V J S) (user : JwtPayload) (category name queue : String)
    (entry : RepositoryEntry V S) (id : RecordId) (fields : Map V) (s : S)
    → get_repository env.repositories (key_of category name) ≡ some entry
    → is_supported update entry.repository ≡ true
    → entry.metadata.command_queue ≡ some queue
    → str_eq queue "" ≡ false
    → (bulk_service env user).update_table_record category name id fields s
      ≡ and_then
          (env.add_job queue
            (job_name entry.metadata update)
            (write_job (some id) (some fields) user)
            s)
          (λ job s₁. and_then (env.wait_for_job queue job s₁) (λ _ s₂.
            and_then
              (invalidate_cache env.cache entry.metadata (some id) s₂)
              (λ _ s₃. succeeded (some id) s₃)))
unfolding bulk_service update_table_record table_record on_entry operation_params execute
    execute_operation by_queue queue_to_use queued execute_with_queue job_data
bulk_update-queued env user category name queue entry id fields s registered supported named
      filled =
    rw (registered, supported, named, filled) refl
