-- ===== src/Bulk/Worker.antt =====
-- What the worker does with a list of operations.
use text.Mathlib.Text.{◌==◌ as str_eq}
use express_nest_blueprint.Base.{
  ◌+◌, String, ◌≡◌, refl, ap, true, false, Option, none, some, List, [], ◌∷◌, map, length, arith,
  any, All, if◌then◌else◌, length-map,
}
use express_nest_blueprint.Base.Map
use express_nest_blueprint.Base.Map.{Map, get-delete}
use express_nest_blueprint.Base.Settled.{Settled, ok, throws}
use express_nest_blueprint.Bulk.{
  RecordId, BulkOperationType, create, update, delete, unsupported, DatabaseOperation,
  OperationResult, BulkOperationResponse, AdminCrudService, handler, update_with, delete_with,
  handle_all, handle_bulk_execute, result_of, count_results, process_bulk_operations,
  sanitize_operation_data, sanitized, is_valid_operation, warnings, validate_operations,
}

module _ {V R S : Type 0} (crud : AdminCrudService V R S) where
  result_of-operation :
      (op : DatabaseOperation V) (x : Settled R) → (result_of crud op x).operation ≡ op
  result_of-operation op (ok r) = refl
  result_of-operation op (throws e) = refl

  handle_all-operations :
      (ops : List (DatabaseOperation V)) (s : S)
      → map (λ (r : OperationResult V R). r.operation) (handle_all crud ops s).0 ≡ ops
  unfolding handle_all
  handle_all-operations [] s = refl
  handle_all-operations (op ∷ ops) s =
      let h = handle_all-operations ops (handler crud op.kind op s).1 in
      let o = result_of-operation op (handler crud op.kind op s).0 in cc

  counts_add :
      (rs : List (OperationResult V R)) → count_results true rs + count_results false rs ≡ length rs
  unfolding count_results
  counts_add [] = refl
  counts_add (r ∷ rs) = ground (arith, counts_add rs)

  -- The worker's answer has one result for each operation, in their order, a failed one among them
  -- or not, and its summary adds up.
  pub bulk_accounts_for_all :
      (ops : List (DatabaseOperation V)) (s : S)
      → let response = (handle_bulk_execute crud ops s).0 in
        (map (λ (r : OperationResult V R). r.operation) response.results ≡ ops)
        × (response.summary.total ≡ length ops)
        × (response.summary.successful + response.summary.failed ≡ response.summary.total)
  unfolding handle_bulk_execute
  bulk_accounts_for_all ops s =
      let h = handle_all-operations ops s in
      let n = length-map (λ (r : OperationResult V R). r.operation) (handle_all crud ops s).0 in
      (h, refl, omega (arith, counts_add (handle_all crud ops s).0, n, ap length h))

  -- The service carries out the call that an operation makes, in any state; there is one for each of the
  -- three types.
  unfoldable pub IsServed : BulkOperationType → DatabaseOperation V → Type 0
  IsServed create op =
      (s : S)
      → (r : R) × ((crud.create_table_record op.category op.table op.data_fields s).0 ≡ ok r)
  IsServed update op =
      (id : RecordId) (fields : Map V) (s : S)
      → op.record_id ≡ some id
      → op.data_fields ≡ some fields
      → (r : R) × ((crud.update_table_record op.category op.table id fields s).0 ≡ ok r)
  IsServed delete op =
      (id : RecordId) (s : S)
      → op.record_id ≡ some id
      → (r : R) × ((crud.delete_table_record op.category op.table id s).0 ≡ ok r)
  IsServed (unsupported name) op = ⊥

  -- An operation that validates reaches its service with all it needs.
  valid_parts_succeed :
      (kind : BulkOperationType) (table category : String) (id : Option RecordId)
      (fields : Option (Map V)) (s : S)
      → let op : DatabaseOperation V = record {
        kind = kind;
        table = table;
        category = category;
        record_id = id;
        data_fields = fields;
      } in
        IsServed kind (sanitized crud op)
        → is_valid_operation op ≡ true
        → (r : R) × ((handler crud kind (sanitized crud op) s).0 ≡ ok r)
  unfolding is_valid_operation warnings handler update_with delete_with IsServed
  valid_parts_succeed create table category id fields s served h = served s
  valid_parts_succeed update table category none fields s served h = ground (arith, h)
  valid_parts_succeed update table category (some id) none s served h = ground (arith, h)
  valid_parts_succeed update table category (some id) (some f) s served h =
      served id (sanitize_operation_data f) s refl refl
  valid_parts_succeed delete table category none fields s served h = ground (arith, h)
  valid_parts_succeed delete table category (some id) fields s served h = served id s refl
  valid_parts_succeed (unsupported name) table category id fields s served h = absurd served

  -- Each operation is served as it is sent to the worker.
  abbrev pub AllServed : List (DatabaseOperation V) → Type 0
  AllServed ops = All (λ (op : DatabaseOperation V). IsServed op.kind (sanitized crud op)) ops

  valid_operations_succeed :
      (ops : List (DatabaseOperation V)) (s : S)
      → AllServed ops
      → validate_operations ops ≡ true
      → count_results false (handle_all crud (map (sanitized crud) ops) s).0 ≡ 0
  unfolding validate_operations handle_all count_results
  valid_operations_succeed [] s served h = refl
  valid_operations_succeed (op ∷ ops) s (first, others) h =
      let (r, e) =
        valid_parts_succeed op.kind op.table op.category op.record_id op.data_fields s first
          (ground (arith, h)) in
      let rest =
        valid_operations_succeed ops (handler crud op.kind (sanitized crud op) s).1 others
          (ground (arith, h)) in
      rw e (rest)

  -- Where the CRUD services carry out what these operations ask for, and the queue takes the job and ends
  -- it within the time limit, operations that validate are all done: the answer that is waited for comes,
  -- and it counts each of them as a success and no failure.
  pub validated_bulk_succeeds :
      (ops : List (DatabaseOperation V)) (s : S)
      → AllServed ops
      → validate_operations ops ≡ true
      → (response : BulkOperationResponse V R) × ((process_bulk_operations crud none none ops true
            s).0
          ≡ ok response)
        × (response.summary.failed ≡ 0)
        × (response.summary.successful ≡ length ops)
  unfolding process_bulk_operations handle_bulk_execute
  validated_bulk_succeeds [] s served h = (_, refl, refl, refl)
  validated_bulk_succeeds (op ∷ ops) s served h =
      let none_failed = valid_operations_succeed (op ∷ ops) s served h in
      let (same, counted, added) = bulk_accounts_for_all (map (sanitized crud) (op ∷ ops)) s in
      (
        _,
        refl,
        none_failed,
        unfold handle_bulk_execute in
            omega (arith, none_failed, counted, added, length-map (sanitized crud) (op ∷ ops)),
      )

-- Sanitizing takes out the four columns that the database keeps itself, and leaves the others.
pub sanitize_operation_data_lem :
    {V : Type 0} (fields : Map V) (k : String)
    → Map.get (sanitize_operation_data fields) k ≡ (
        if any (λ c. str_eq c k) ("updated_at" ∷ "updatedAt" ∷ "created_at" ∷ "createdAt" ∷ [])
        then none
        else Map.get fields k)
unfolding sanitize_operation_data
sanitize_operation_data_lem fields k =
    rw (get-delete, get-delete, get-delete, get-delete) ground arith
