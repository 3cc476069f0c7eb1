-- ===== src/Compute/Again.antt =====
-- What the worker does with a job: packages/backend/common/src/infrastructure/compute.
use package.text.Mathlib.TextEquality.{eq_iff}
use express_nest_blueprint.Base.{String, false, some, ◌≡◌, refl, arith}
use express_nest_blueprint.Base.Map
use express_nest_blueprint.Base.Map.{Map, get-set}
use express_nest_blueprint.Compute.{
  ComputeService, Instances, Method, patched, method_of, methods_of, explore_method, execute_job,
  adds_job, task_name, register_handler, patch_method, put_patched, apply_method, execute_by,
  is_disabled,
}

get-set_same {ℓ} :
    {V : Type ℓ} (m : Map V) (k : String) (v : V) → Map.get (Map.set m k v) k ≡ some v
get-set_same m k v = ground (arith, eq_iff k k, get-set m k k v)

-- Where a process both offers the API and works, a job of a task does not run the method: it adds another
-- job of the same task with the same arguments, since the method that the worker finds is the patched one.
pub execute_job-again :
    {A : Type 0} (c : ComputeService) (instances : Instances) (token name : String) (m : Method)
    (args : A)
    → method_of instances token name ≡ some m
    → is_disabled c.enable_api ≡ false
    → (let (c', instances') = explore_method token name (c, instances) in
        execute_job c' instances' (task_name token name) args)
      ≡ adds_job (task_name token name) args
unfolding execute_job execute_by apply_method explore_method register_handler patch_method
    put_patched method_of methods_of
execute_job-again c instances token name m args there enabled =
    let task = task_name token name in
    let new_methods = Map.set (methods_of (Map.get instances token)) name (patched task name) in
    rw
      (
        there,
        get-set_same c.handlers task (record { service_token = token; method_name = name }),
        get-set_same instances token new_methods,
        get-set_same (methods_of (Map.get instances token)) name (patched task name),
        enabled,
      )
      refl
