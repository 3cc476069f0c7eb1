-- ===== src/Bulk.antt =====
-- Bulk operations on tables: sanitizeOperationData of
-- packages/backend/common/src/domain/helpers/bulk-operations.helpers.ts, AdminBulkOperationsService of
-- packages/backend/core-api/src/modules/admin/services/admin-bulk-operations.service.ts and the worker of
-- modules/admin/workers/admin-commands.worker.ts. The queue hands the worker's answer on or fails; the CRUD
-- services, with the state `S` that they work on, are a parameter. A column's value is a `V`.
pub mod Worker
mod Tests
use Prim.Native.String
use package.text.Mathlib.Text.{◌==◌ as str_eq}
use express_nest_blueprint.Base.{
  ℕ, zero, suc, String, Bool, true, false, not, Option, none, some, List, [], ◌∷◌, ◌++◌, map,
  length, all, ◌==◌, if◌then◌else◌,
}
use express_nest_blueprint.Base.Settled.{Settled, ok, throws}
use express_nest_blueprint.Base.Map
use express_nest_blueprint.Base.Map.{Map}

pub data RecordId : Type 0 where
  number : ℕ → RecordId
  text : String → RecordId

-- A request's `type`, which is one of three; the code sorts out any other text.
pub data BulkOperationType : Type 0 where
  create update delete : BulkOperationType
  unsupported : String → BulkOperationType

pub record DatabaseOperation (V : Type 0) : Type 0 where
  pub kind : BulkOperationType
  pub table : String
  pub category : String
  pub record_id : Option RecordId
  pub data_fields : Option (Map V)

abbrev pub type_name : BulkOperationType → String
type_name create = "create"
type_name update = "update"
type_name delete = "delete"
type_name (unsupported name) = name

-- The truthiness of a `recordId`.
abbrev pub is_truthy_id : Option RecordId → Bool
is_truthy_id none = false
is_truthy_id (some (number n)) = not (n == 0)
is_truthy_id (some (text s)) = not (str_eq s "")

pub sanitize_operation_data : {V : Type 0} → Map V → Map V
sanitize_operation_data fields =
    Map.delete (Map.delete (Map.delete (Map.delete fields "updated_at") "updatedAt") "created_at")
      "createdAt"

pub record OperationResult (V R : Type 0) : Type 0 where
  pub operation : DatabaseOperation V
  pub success : Bool
  pub data_returned : Option R
  pub error : Option String

pub record OperationSummary : Type 0 where
  pub total : ℕ
  pub successful : ℕ
  pub failed : ℕ

pub record BulkOperationResponse (V R : Type 0) : Type 0 where
  pub success : Bool
  pub results : List (OperationResult V R)
  pub summary : OperationSummary

-- createTableRecord, updateTableRecord and deleteTableRecord, on a category and a table.
pub record AdminCrudService (V R S : Type 0) : Type 0 where
  pub create_table_record : String → String → Option (Map V) → S → Settled R × S
  pub update_table_record : String → String → RecordId → Map V → S → Settled R × S
  pub delete_table_record : String → String → RecordId → S → Settled R × S

module _ {V R S : Type 0} (crud : AdminCrudService V R S) where
  abbrev resolve_record_id : DatabaseOperation V → Settled RecordId
  resolve_record_id op = elim op.record_id [
    | none ↦ throws (
        String.◌++◌ "Operation \"" (String.◌++◌ (type_name op.kind) "\" requires a valid recordId"))
    | some id ↦ ok id
  ]

  abbrev resolve_update_data : DatabaseOperation V → Settled (Map V)
  resolve_update_data op = elim op.data_fields [
    | none ↦ throws "Update operation requires a valid object payload"
    | some fields ↦ ok fields
  ]

  update_with : DatabaseOperation V → Settled RecordId → Settled (Map V) → S → Settled R × S
  update_with op (throws e) fields s = (throws e, s)
  update_with op (ok id) (throws e) s = (throws e, s)
  update_with op (ok id) (ok fields) s = crud.update_table_record op.category op.table id fields s

  delete_with : DatabaseOperation V → Settled RecordId → S → Settled R × S
  delete_with op (throws e) s = (throws e, s)
  delete_with op (ok id) s = crud.delete_table_record op.category op.table id s

  -- `handlers[operation.type](operation)`.
  pub handler : BulkOperationType → DatabaseOperation V → S → Settled R × S
  unfolding update_with delete_with
  handler create op s = crud.create_table_record op.category op.table op.data_fields s
  handler update op s = update_with op (resolve_record_id op) (resolve_update_data op) s
  handler delete op s = delete_with op (resolve_record_id op) s
  handler (unsupported name) op s = (throws (String.◌++◌ "Unsupported operation type: " name), s)

  abbrev pub result_of : DatabaseOperation V → Settled R → OperationResult V R
  result_of op (ok r) = record {
    operation = op;
    success = true;
    data_returned = some r;
    error = none;
  }
  result_of op (throws e) = record {
    operation = op;
    success = false;
    data_returned = none;
    error = some e;
  }

  -- The loop over the operations: its results, in order.
  pub handle_all : List (DatabaseOperation V) → S → List (OperationResult V R) × S
  unfolding handler
  handle_all [] s = ([], s)
  handle_all (op ∷ ops) s =
      let (settled, s₁) = handler op.kind op s in
      let (results, s₂) = handle_all ops s₁ in (result_of op settled ∷ results, s₂)

-- `results.filter(r => r.success === wanted).length`.
unfoldable pub count_results : {V R : Type 0} → Bool → List (OperationResult V R) → ℕ
count_results wanted [] = 0
count_results true (r ∷ rs) = let n = count_results true rs in if r.success then suc n else n
count_results false (r ∷ rs) = let n = count_results false rs in if r.success then n else suc n

module _ {V R S : Type 0} (crud : AdminCrudService V R S) where
  pub handle_bulk_execute : List (DatabaseOperation V) → S → BulkOperationResponse V R × S
  unfolding handle_all
  handle_bulk_execute ops s =
      let (results, s') = handle_all crud ops s in
      (
        record {
          success = true;
          results = results;
          summary = record {
            total = length ops;
            successful = count_results true results;
            failed = count_results false results;
          };
        },
        s',
      )

  abbrev pub sanitized : DatabaseOperation V → DatabaseOperation V
  sanitized op = record op {
    data_fields = elim op.data_fields [
      | none ↦ none
      | some fields ↦ some (sanitize_operation_data fields)
    ];
  }

  -- What the wait for the job comes to: the worker's answer, or the error of the wait, which has a limit
  -- of 60 seconds and fails with the job.
  abbrev waited_for :
      Option String → BulkOperationResponse V R → Settled (BulkOperationResponse V R)
  waited_for none response = ok response
  waited_for (some e) response = throws e

  -- `add_error` and `wait_error` are what adding the job and waiting for it throw, if they do. Without
  -- `wait` the answer comes before the work; a job that is added runs in any case.
  pub process_bulk_operations :
      Option String
      → Option String
      → List (DatabaseOperation V)
      → Bool
      → S
      → Settled (BulkOperationResponse V R) × S
  unfolding handle_bulk_execute sanitize_operation_data
  process_bulk_operations add_error wait_error [] wait s = (
    ok (record {
      success = true;
      results = [];
      summary = record { total = 0; successful = 0; failed = 0 };
    }),
    s,
  )
  process_bulk_operations (some e) wait_error (op ∷ ops) wait s = (throws e, s)
  process_bulk_operations none wait_error (op ∷ ops) wait s =
      let (response, s') = handle_bulk_execute (map sanitized (op ∷ ops)) s in
      let pending : BulkOperationResponse V R = record {
        success = true;
        results = [];
        summary = record { total = length (op ∷ ops); successful = 0; failed = 0 };
      } in
      (if wait then waited_for wait_error response else ok pending, s')

-- What is missing of an operation: `requirements[operation.type]?.filter(...)`.
unfoldable pub warnings : {V : Type 0} → DatabaseOperation V → List String
warnings op =
    let needs_id : List String =
      if is_truthy_id op.record_id
      then []
      else (String.◌++◌ "Record ID is required for " (String.◌++◌ (type_name op.kind) " operations")
          ∷ []) in
    let needs_data : List String = elim op.data_fields [
      | none ↦
          String.◌++◌ "Data is required for " (String.◌++◌ (type_name op.kind) " operations") ∷ []
      | some fields ↦ []
    ] in
    elim op.kind [
      | create ↦ needs_data
      | update ↦ needs_id ++ needs_data
      | delete ↦ needs_id
      | unsupported name ↦ []
    ]

abbrev is_empty_list : List String → Bool
is_empty_list [] = true
is_empty_list (w ∷ ws) = false

unfoldable pub is_valid_operation : {V : Type 0} → DatabaseOperation V → Bool
unfolding warnings
is_valid_operation op = is_empty_list (warnings op)

unfoldable pub validate_operations : {V : Type 0} → List (DatabaseOperation V) → Bool
unfolding is_valid_operation
validate_operations ops = all is_valid_operation ops
