-- ===== src/Users/Tests.antt =====
-- Users at concrete inputs, and witnesses. The rows are two users, and the state counts the messages.
use express_nest_blueprint.Base.{ℕ, suc, ◌≡◌, ◌⊎◌, refl, none, some, [], ◌∷◌, String, true}
use express_nest_blueprint.Base.Settled.{ok, throws}
use express_nest_blueprint.Base.Map
use express_nest_blueprint.Guards.{JwtPayload, UserRoles}
use express_nest_blueprint.Bulk.{number}
use express_nest_blueprint.Tables.{CrudTableOptions, CrudRepository, get_repository, key_of}
use express_nest_blueprint.Tables.Service.{Environment}
use express_nest_blueprint.Users.{FieldValue, flag, word, UserData, UsersTable, update}
use express_nest_blueprint.Users.Service.{update_job, delete_job}
use express_nest_blueprint.Users.Worker.{Transaction, handle_update_user, handle_delete_user}
use express_nest_blueprint.Users.Policy.{IsAllowed, update_as_lem, carried_out}
use express_nest_blueprint.Users.Futile.{IsTransaction, jobs-fail, users_repository}

-- A user is its number.
abbrev rows : UsersTable ℕ ℕ
rows = record {
  find_by_id = λ id s. (ok (some 5), s);
  find_by_email = λ email s. (ok none, s);
  create_row = λ fields s. (ok (some 6), s);
  update_row = λ id fields s. (ok (some 5), s);
  delete_row = λ id s. (ok true, s);
  produce = λ topic key s. (ok tt, suc s);
  id_of = λ u. number u;
  email_of = λ u. "ann@example.com";
}

-- One run, without retries.
abbrev once : Transaction ℕ ℕ
once f s = f s

once-IsTransaction : IsTransaction once
once-IsTransaction = record { from_a_run = λ f s s' u h. (s, s', h) }

abbrev ann : JwtPayload
ann = record { sub = 5; email = []; role = UserRoles.user }

abbrev verified : UserData
verified = ("isEmailVerified", flag true) ∷ []

update_as_lem_example :
    (IsAllowed ann (number 5) verified
      × (update rows (number 5) verified (some ann) 0 ≡ carried_out rows ann (number 5) verified 0))
    ⊎ (¬ IsAllowed ann (number 5) verified
        × ((e : String) × (update rows (number 5) verified (some ann) 0 ≡ (throws e, 0))))
update_as_lem_example = update_as_lem rows ann (number 5) verified 0

jobs-fail_example :
    ((u : ℕ)
      → ¬ (
          handle_update_user rows once "1" (update_job 5 (("firstName", word "Ann") ∷ []) 9) 0
          ≡ (ok u, 1)))
    × ¬ (handle_delete_user rows "1" (delete_job 5 9) 0 ≡ (ok tt, 1))
jobs-fail_example =
    jobs-fail rows once once-IsTransaction "1" 5 9 (("firstName", word "Ann") ∷ []) 0 1

abbrev no_operations : CrudRepository FieldValue ℕ
no_operations = record {
  create = none;
  update = none;
  delete = none;
  find_by_id = none;
  retrieve_data_with_pagination = none;
  get_column_metadata = none;
}

abbrev metadata : CrudTableOptions
metadata = record {
  category = "Database Management";
  name = "users";
  display_name = some "Users";
  command_queue = some "users-commands";
  operation_mapping = [];
  cache_config = none;
  actions = none;
}

abbrev env : Environment FieldValue ℕ ℕ
env = record {
  repositories =
      (
        "Database Management:users",
        record { repository = users_repository rows no_operations; metadata = metadata },
      )
      ∷ [];
  add_job = λ queue job fields s. (ok 7, s);
  wait_for_job = λ queue job s. (ok tt, s);
  cache = record { invalidate_tags = λ tags s. (ok tt, s); delete_key = λ key s. (ok tt, s) };
}

registered :
    get_repository env.repositories (key_of "Database Management" "users")
    ≡ some (record { repository = users_repository rows no_operations; metadata = metadata })
unfolding get_repository key_of Map.get
registered = refl
