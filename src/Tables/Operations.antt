-- ===== src/Tables/Operations.antt =====
-- BaseOperations, CreateOperations, UpdateOperations and DeleteOperations, under
-- packages/backend/core-api/src/modules/admin/services/crud-operations/operations.

use package.text.Mathlib.Text.{◌==◌ as str_eq}
use express_nest_blueprint.Base.{String, Bool, true, Option, none, some, get_or, if◌then◌else◌}
use express_nest_blueprint.Base.Settled.{Settled, ok, throws, and_then}
use express_nest_blueprint.Base.Map
use express_nest_blueprint.Base.Map.{Map}
use express_nest_blueprint.Guards.{JwtPayload}
use express_nest_blueprint.Bulk.{RecordId}
use express_nest_blueprint.Tables.{CrudTableOptions, CrudRepository, join2}

-- The data of a job: a deletion has no `data`.
pub data JobData (V : Type 0) : Type 0 where
  delete_job : Option RecordId → JwtPayload → JobData V
  write_job : Option RecordId → Option (Map V) → JwtPayload → JobData V

-- `queueManager.createQueue(queueName)` and `queue.add(jobName, jobData)`, which gives a job of `J`.
abbrev pub AddJob : Type 0 → Type 0 → Type 0 → Type 0
AddJob V J S = String → String → JobData V → S → Settled J × S

-- `waitForJobCompletion`, whose value nobody reads.
abbrev pub WaitForJob : Type 0 → Type 0 → Type 0
WaitForJob J S = String → J → S → Settled Unit × S

abbrev pub InvalidateCache : Type 0 → Type 0
InvalidateCache S = CrudTableOptions → Option RecordId → S → Settled Unit × S

pub record BaseOperationParams (V J S : Type 0) : Type 0 where
  pub repository : CrudRepository V S
  pub metadata : CrudTableOptions
  pub id : Option RecordId
  pub data_fields : Option (Map V)
  pub current_user : Option JwtPayload
  pub bypass_queue : Bool
  pub wait_for_job_completion : Option (WaitForJob J S)
  pub invalidate_cache : Option (InvalidateCache S)

-- `{ success: true, id }`.
pub record OperationResult : Type 0 where
  pub success : Bool
  pub id : Option RecordId

abbrev pub succeeded : {S : Type 0} → Option RecordId → S → Settled OperationResult × S
succeeded id s = (ok (record { success = true; id = id }), s)

-- The operation of a job or of a log line.
pub data CrudOperationLogType : Type 0 where
  create update delete : CrudOperationLogType

abbrev pub log_type_name : CrudOperationLogType → String
log_type_name create = "create"
log_type_name update = "update"
log_type_name delete = "delete"

-- `metadata.operationMapping?.[jobType] || `${metadata.name}.${jobType}``.
unfoldable pub job_name : CrudTableOptions → CrudOperationLogType → String
unfolding Map.get
job_name metadata kind =
    let mapped = get_or (Map.get metadata.operation_mapping (log_type_name kind)) "" in
    if str_eq mapped "" then join2 metadata.name (join2 "." (log_type_name kind)) else mapped

unfoldable pub job_data :
    {V : Type 0} → CrudOperationLogType → Option RecordId → Option (Map V) → JwtPayload → JobData V
job_data delete id fields user = delete_job id user
job_data create id fields user = write_job id fields user
job_data update id fields user = write_job id fields user

-- `metadata.commandQueue && bypassQueue`.
unfoldable pub queue_to_use : Option String → Bool → Option String
queue_to_use (some queue) true = if str_eq queue "" then none else some queue
queue_to_use _ _ = none

module _ {V J S : Type 0} (add : AddJob V J S) where
  -- `executeWithQueue`, on a queue that the metadata names.
  unfoldable pub execute_with_queue :
      String
      → BaseOperationParams V J S
      → CrudOperationLogType
      → JwtPayload
      → WaitForJob J S
      → InvalidateCache S
      → S
      → Settled OperationResult × S
  unfolding job_name job_data
  execute_with_queue queue params kind user wait invalidate s =
      and_then
        (add queue (job_name params.metadata kind) (job_data kind params.id params.data_fields user)
          s)
        (λ job s₁. and_then (wait queue job s₁) (λ _ s₂.
          and_then (invalidate params.metadata params.id s₂) (λ _ s₃. succeeded params.id s₃)))

  abbrev requires : CrudOperationLogType → String
  requires kind = join2 "Queued operation \"" (
      join2 (log_type_name kind)
        "\" requires currentUser, waitForJobCompletion, and invalidateCache to be defined.")

  -- The queue's branch, on what it requires.
  unfoldable pub queued :
      String
      → BaseOperationParams V J S
      → CrudOperationLogType
      → Option JwtPayload
      → Option (WaitForJob J S)
      → Option (InvalidateCache S)
      → S
      → Settled OperationResult × S
  unfolding execute_with_queue
  queued queue params kind (some user) (some wait) (some invalidate) s =
      execute_with_queue queue params kind user wait invalidate s
  queued queue params kind _ _ _ s = (throws (requires kind), s)

  -- `if (invalidateCache) await invalidateCache(metadata, id)`.
  unfoldable pub invalidated :
      Option (InvalidateCache S) → BaseOperationParams V J S → S → Settled Unit × S
  invalidated none params s = (ok tt, s)
  invalidated (some invalidate) params s = invalidate params.metadata params.id s

  unfoldable pub direct :
      (BaseOperationParams V J S → S → Settled Unit × S)
      → BaseOperationParams V J S
      → S
      → Settled OperationResult × S
  unfolding invalidated
  direct method params s = and_then (method params s) (λ _ s₁.
      and_then (invalidated params.invalidate_cache params s₁) (λ _ s₂. succeeded params.id s₂))

  unfoldable pub by_queue :
      Option String
      → (BaseOperationParams V J S → S → Settled Unit × S)
      → BaseOperationParams V J S
      → CrudOperationLogType
      → S
      → Settled OperationResult × S
  unfolding queued direct
  by_queue (some queue) method params kind s =
      queued queue params kind params.current_user params.wait_for_job_completion
        params.invalidate_cache s
  by_queue none method params kind s = direct method params s

  -- `executeOperation`, which each of the three gives its method.
  unfoldable pub execute_operation :
      (BaseOperationParams V J S → S → Settled Unit × S)
      → BaseOperationParams V J S
      → CrudOperationLogType
      → S
      → Settled OperationResult × S
  unfolding by_queue queue_to_use
  execute_operation method params kind s =
      by_queue (queue_to_use params.metadata.command_queue params.bypass_queue) method params kind s
