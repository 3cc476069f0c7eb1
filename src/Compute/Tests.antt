-- ===== src/Compute/Tests.antt =====
-- Compute jobs at concrete inputs, and witnesses.
use express_nest_blueprint.Base.{ℕ, none, some, List, [], ◌∷◌, ◌++◌, ◌≡◌, refl}
use express_nest_blueprint.Base.Map
use express_nest_blueprint.Compute.{
  ComputeService, Instances, original, method_of, methods_of, JobEvent, waits, completed, failed,
  timed_out, resolved,
}
use express_nest_blueprint.Compute.Settling.{settlements, settlements-once}

abbrev service : ComputeService
service = record { handlers = []; enable_api = none }

abbrev instances : Instances
instances = ("UserQueryService", ("findAll", original "findAll") ∷ []) ∷ []

abbrev first_page : ℕ
first_page = 1

has_method : method_of instances "UserQueryService" "findAll" ≡ some (original "findAll")
unfolding method_of methods_of Map.get
has_method = refl

abbrev earlier : List (JobEvent ℕ)
earlier = waits "2" 8 ∷ failed "2" "lost" ∷ []

abbrev later : List (JobEvent ℕ)
later = timed_out "1" ∷ completed "1" 5 ∷ []

settlements-once_example :
    settlements "1" (waits "1" 7 ∷ (earlier ++ (completed "1" 42 ∷ later))) []
    ≡ (7, resolved 42) ∷ []
settlements-once_example =
    settlements-once "1" 7 earlier later (completed "1" 42) (resolved 42) [] refl refl refl refl
