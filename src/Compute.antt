-- ===== src/Compute.antt =====
-- ComputeService and ComputeExplorer: packages/backend/common/src/infrastructure/compute,
-- compute.service.ts and compute.explorer.ts. BullMQ, which gives the ids of jobs and the events, is an
-- argument. An argument list is an `A`, a value a `V`, and a waiting call is named by a number.
pub mod Settling
pub mod Again
mod Tests
use Prim.Native.String
use express_nest_blueprint.Base.{
  ℕ, String, Bool, true, false, not, Option, none, some, List, [], ◌∷◌, if◌then◌else◌,
}
use express_nest_blueprint.Base.Map
use express_nest_blueprint.Base.Map.{Map}

pub record ComputeHandler : Type 0 where
  pub service_token : String
  pub method_name : String

-- How a waiting call is settled.
pub data Outcome (V : Type 0) : Type 0 where
  resolved : V → Outcome V
  rejected : String → Outcome V

-- What happens to `pendingJobs`: a call waits for the job that it has added, the queue reports a job done
-- or failed, and the time of a call is over.
pub data JobEvent (V : Type 0) : Type 0 where
  waits : String → ℕ → JobEvent V
  completed : String → V → JobEvent V
  failed : String → String → JobEvent V
  timed_out : String → JobEvent V

abbrev pub PendingJobs : Type 0
PendingJobs = Map ℕ

module _ {V : Type 0} where
  unfoldable pub settled : Option ℕ → Outcome V → Option (ℕ × Outcome V)
  settled none o = none
  settled (some call) o = some (call, o)

  -- The call that an event settles, and the jobs that are pending after it. The timer takes the job off
  -- and rejects its own side of the race, which counts where the other has not settled.
  unfoldable pub on_event : JobEvent V → PendingJobs → Option (ℕ × Outcome V) × PendingJobs
  unfolding settled Map.get Map.set Map.delete
  on_event (waits job call) pending = (none, Map.set pending job call)
  on_event (completed job v) pending =
      (settled (Map.get pending job) (resolved v), Map.delete pending job)
  on_event (failed job reason) pending =
      (settled (Map.get pending job) (rejected reason), Map.delete pending job)
  on_event (timed_out job) pending =
      (settled (Map.get pending job) (rejected "timed out"), Map.delete pending job)

-- A method of an instance: its own, or the one that patchMethod puts there for a task.
pub data Method : Type 0 where
  original : String → Method
  patched : String → String → Method

-- The first thing that a call of a method does.
pub data FirstStep (A : Type 0) : Type 0 where
  runs : String → A → FirstStep A
  adds_job : String → A → FirstStep A
  throws_error : String → FirstStep A

pub record ComputeService : Type 0 where
  pub handlers : Map ComputeHandler
  pub enable_api : Option Bool

-- The methods of the services' instances, by token and name.
abbrev pub Instances : Type 0
Instances = Map (Map Method)

unfoldable pub register_handler : String → ComputeHandler → ComputeService → ComputeService
unfolding Map.set
register_handler task handler c = record c { handlers = Map.set c.handlers task handler }

unfoldable pub methods_of : Option (Map Method) → Map Method
methods_of none = []
methods_of (some methods) = methods

-- `instance[methodName]`.
unfoldable pub method_of : Instances → String → String → Option Method
unfolding methods_of Map.get
method_of instances token name = Map.get (methods_of (Map.get instances token)) name

unfoldable pub put_patched : Option Method → Instances → String → String → String → Instances
unfolding methods_of Map.get Map.set
put_patched none instances token name task = instances
put_patched (some method) instances token name task =
    Map.set instances token
      (Map.set (methods_of (Map.get instances token)) name (patched task name))

-- `patchMethod`, which throws on a method that is not there.
unfoldable pub patch_method : Instances → String → String → String → Instances
unfolding put_patched method_of
patch_method instances token name task =
    put_patched (method_of instances token name) instances token name task

-- `${String(token)}.${methodName}`.
unfoldable pub task_name : String → String → String
task_name token name = String.◌++◌ token (String.◌++◌ "." name)

-- What ComputeExplorer does with a method that has options.
unfoldable pub explore_method :
    String → String → ComputeService × Instances → ComputeService × Instances
unfolding register_handler patch_method task_name
explore_method token name (c, instances) = (
  register_handler (task_name token name) (record { service_token = token; method_name = name }) c,
  patch_method instances token name (task_name token name),
)

-- `moduleOptions.enableApi === false`.
abbrev pub is_disabled : Option Bool → Bool
is_disabled none = false
is_disabled (some b) = not b

module _ {A : Type 0} where
  unfoldable pub apply_method : ComputeService → Option Method → A → FirstStep A
  apply_method c none args = throws_error "method is not a function"
  apply_method c (some (original name)) args = runs name args
  apply_method c (some (patched task name)) args =
      if is_disabled c.enable_api then runs name args else adds_job task args

  unfoldable pub execute_by :
      Option ComputeHandler → ComputeService → Instances → String → A → FirstStep A
  unfolding apply_method method_of
  execute_by none c instances task args =
      throws_error (String.◌++◌ "Handler for task " (String.◌++◌ task " not found"))
  execute_by (some handler) c instances task args =
      apply_method c (method_of instances handler.service_token handler.method_name) args

  -- `executeJob`, in the worker.
  unfoldable pub execute_job : ComputeService → Instances → String → A → FirstStep A
  unfolding execute_by Map.get
  execute_job c instances task args = execute_by (Map.get c.handlers task) c instances task args
