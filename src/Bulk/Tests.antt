-- ===== src/Bulk/Tests.antt =====
-- Bulk operations at a service that counts its calls.
use express_nest_blueprint.Base.{
  ℕ, suc, ◌+◌, ◌≡◌, refl, true, false, Option, none, some, [], ◌∷◌, map,
}
use express_nest_blueprint.Base.Map
use express_nest_blueprint.Base.Map.{Map}
use express_nest_blueprint.Base.Settled.{Settled, ok, throws}
use express_nest_blueprint.Bulk.{
  number, update, delete, DatabaseOperation, OperationResult, BulkOperationResponse,
  OperationSummary, AdminCrudService, handle_bulk_execute, process_bulk_operations,
  validate_operations, sanitize_operation_data, count_results,
}
use express_nest_blueprint.Bulk.Worker.{bulk_accounts_for_all}

abbrev crud : AdminCrudService ℕ ℕ ℕ
crud = record {
  create_table_record = λ c t f s. (ok s, suc s);
  update_table_record = λ c t id f s. (ok s, suc s);
  delete_table_record = λ c t id s. (ok s, suc s);
}

abbrev operation : DatabaseOperation ℕ
operation = record {
  kind = update;
  table = "users";
  category = "Users";
  record_id = some (number 7);
  data_fields = some (("age", 41) ∷ ("updated_at", 5) ∷ []);
}

abbrev without_id : DatabaseOperation ℕ
without_id = record operation { kind = delete; record_id = none }

abbrev answer_of : Settled (BulkOperationResponse ℕ ℕ) → Option OperationSummary
answer_of (ok response) = some response.summary
answer_of (throws e) = none

bulk : Unit {0}
unfolding handle_bulk_execute process_bulk_operations validate_operations sanitize_operation_data
    count_results Map.get Map.delete
bulk = tt

bulk_tests :
    (answer_of (process_bulk_operations crud none none (without_id ∷ operation ∷ []) true 3).0
      ≡ some (record { total = 2; successful = 1; failed = 1 }))
    × ((process_bulk_operations crud none none (without_id ∷ operation ∷ []) true 3).1 ≡ 4)
    × (answer_of (process_bulk_operations crud none none (operation ∷ []) false 3).0
        ≡ some (record { total = 1; successful = 0; failed = 0 }))
    × (validate_operations (operation ∷ without_id ∷ []) ≡ false)
unfolding bulk
bulk_tests = (refl, refl, refl, refl)

bulk_accounts_for_all_example :
    let response = (handle_bulk_execute crud (without_id ∷ operation ∷ []) 3).0 in
    (map (λ (r : OperationResult ℕ ℕ). r.operation) response.results ≡ without_id ∷ operation ∷ [])
    × (response.summary.total ≡ 2)
    × (response.summary.successful + response.summary.failed ≡ response.summary.total)
bulk_accounts_for_all_example = bulk_accounts_for_all crud (without_id ∷ operation ∷ []) 3
