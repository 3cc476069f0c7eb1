-- ===== src/Drafts/Manager/Tests.antt =====
-- Drafts in a page, and their way to the worker.
use express_nest_blueprint.Base.{
  ℕ, String, ◌≡◌, ◌≢◌, refl, ap, true, false, Option, none, some, List, [], ◌∷◌, map, arith, All,
  ◌==◌, if◌then◌else◌,
}
use express_nest_blueprint.Base.Map
use express_nest_blueprint.Base.Map.{Map}
use express_nest_blueprint.Query.Sql.{decimal}
use express_nest_blueprint.Bulk.{
  number, create, update, DatabaseOperation, OperationResult, BulkOperationResponse,
}
use express_nest_blueprint.Drafts.{
  DatabaseDraft, DraftManager, DraftStorage, Json, generate_draft_id, convert_draft,
  create_draft_object, drafts_with_changes, or_new, id_text, has_data_changes,
}
use express_nest_blueprint.Drafts.Manager.{
  load_drafts, save_drafts, create_draft, update_draft, delete_draft, remove_drafts, delete_each,
  DatabaseDraftService, publish_drafts, successful_draft_ids,
}
use express_nest_blueprint.Drafts.Manager.Keys.{
  Action, creates, updates, deletes, reloads, run, step, fresh,
}
use express_nest_blueprint.Drafts.Manager.Storage.{IsSound, run-IsSound, run_reloads}
use express_nest_blueprint.Drafts.Manager.Publish.{operations, published, publish_drafts_lem}

abbrev json : Json ℕ (DraftStorage ℕ)
json = record { stringify = λ s. s; parse = some }

abbrev new_user : DatabaseOperation ℕ
new_user = record {
  kind = create;
  table = "users";
  category = "Users";
  record_id = none;
  data_fields = some (("age", 30) ∷ []);
}

abbrev old_user : DatabaseOperation ℕ
old_user = record {
  kind = update;
  table = "users";
  category = "Users";
  record_id = some (number 7);
  data_fields = some (("age", 41) ∷ []);
}

abbrev session : List (Action ℕ)
session =
    creates new_user none 1
    ∷ creates old_user (some (("age", 40) ∷ [])) 2
    ∷ reloads
    ∷ updates "Users:users:7" (("age", 42) ∷ []) 3
    ∷ []

abbrev empty_page : DraftManager ℕ (DraftStorage ℕ)
empty_page = record { drafts = []; stored = none }

abbrev page : DraftManager ℕ (DraftStorage ℕ)
page = run json ◌==◌ empty_page session

abbrev service : DatabaseDraftService ℕ (DraftStorage ℕ)
service = record { manager = page; loading = false; notified = 0 }

-- Every operation is done.
abbrev done : DatabaseOperation ℕ → OperationResult ℕ ℕ
done op = record { operation = op; success = true; data_returned = some 1; error = none }

abbrev server : List (DatabaseOperation ℕ) → Option (BulkOperationResponse ℕ ℕ)
server ops = some (record {
  success = true;
  results = map done ops;
  summary = record { total = 2; successful = 2; failed = 0 };
})

drafts : Unit {0}
unfolding Map.has load_drafts save_drafts create_draft update_draft delete_draft remove_drafts
    delete_each publish_drafts successful_draft_ids generate_draft_id convert_draft
    create_draft_object drafts_with_changes or_new id_text has_data_changes decimal run step Map.get
    Map.set Map.delete
drafts = tt

page_tests :
    (map (λ (e : String × DatabaseDraft ℕ). e.0) page.drafts
      ≡ "Users:users:new" ∷ "Users:users:7" ∷ [])
    × ((publish_drafts json server service 4).1.manager.drafts ≡ [])
    × ((run json ◌==◌ page
          (updates "Users:users:7" (("age", 40) ∷ []) 5 ∷ deletes "Users:users:new" 6 ∷ [])).drafts
        ≡ [])
unfolding drafts
page_tests = (refl, refl, refl)

parse_stringify : (s : DraftStorage ℕ) → json.parse (json.stringify s) ≡ some s
parse_stringify s = refl

empty-IsSound : IsSound json empty_page
empty-IsSound = record { keyed = tt; unique = tt; stored = fresh refl refl }

page-IsSound : IsSound json page
page-IsSound = run-IsSound json parse_stringify ◌==◌ session empty_page empty-IsSound

something_to_publish : operations service ≢ []
unfolding drafts
something_to_publish h = ground (arith, h)

All-done :
    (ops : List (DatabaseOperation ℕ))
    → All (λ (r : OperationResult ℕ ℕ). r.success ≡ true) (map done ops)
All-done [] = tt
All-done (op ∷ ops) = (refl, All-done ops)

sent_back :
    (ops : List (DatabaseOperation ℕ))
    → map (λ (r : OperationResult ℕ ℕ). r.operation) (map done ops) ≡ ops
sent_back [] = refl
sent_back (op ∷ ops) = ap (λ r. op ∷ r) (sent_back ops)

run_reloads_example :
    let m = run json ◌==◌ (load_drafts json none) session in load_drafts json m.stored ≡ m
run_reloads_example = run_reloads json parse_stringify ◌==◌ session

publish_drafts_lem_example :
    Map.get (publish_drafts json server service 4).1.manager.drafts "Users:users:7" ≡ (
      if published json (server (operations service)) "Users:users:7"
      then none
      else Map.get page.drafts "Users:users:7")
publish_drafts_lem_example =
    publish_drafts_lem json server service 4 "Users:users:7" something_to_publish
