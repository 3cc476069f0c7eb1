-- ===== src/CircuitBreaker.antt =====
-- The circuit breaker: packages/backend/common/src/infrastructure/circuit-breaker.
-- `CircuitBreakerService` is a record of its three maps. `Date.now()` is the argument `now`, in
-- milliseconds. The async wrapper of `patchMethod` is cut at its `await` into `enter` and `settle`,
-- since other calls run while the original method does.
pub mod Service
pub mod Keys
pub mod Consistency
pub mod Counts
pub mod Calls
mod Tests
use express_nest_blueprint.Base.{
  ℕ, ◌+◌, ◌-◌, String, Bool, true, false, Option, none, some, List, [], ◌∷◌, ◌||◌, leb, ltb, get_or,
  if◌then◌else◌,
}
use express_nest_blueprint.Base.Map
use express_nest_blueprint.Base.Map.{Map}

pub data CircuitBreakerState : Type 0 where
  closed opened half_open : CircuitBreakerState

pub record CircuitBreakerService : Type 0 where
  pub states : Map CircuitBreakerState
  pub failure_counts : Map ℕ
  pub last_failure_times : Map ℕ

abbrev pub fresh : CircuitBreakerService
fresh = record { states = []; failure_counts = []; last_failure_times = [] }

abbrev pub failure_threshold : ℕ
failure_threshold = 5

abbrev pub recovery_timeout : ℕ
recovery_timeout = 10000

-- A clock that steps back makes the difference negative in the source and 0 here; neither is
-- above the timeout.
after_timeout :
    CircuitBreakerService
    → String
    → ℕ
    → CircuitBreakerState
    → CircuitBreakerState × CircuitBreakerService
after_timeout s key now opened =
    if ltb recovery_timeout (now - get_or (Map.get s.last_failure_times key) 0)
    then (half_open, record s { states = Map.set s.states key half_open })
    else (opened, s)
after_timeout s key now state = (state, s)

pub get_state : CircuitBreakerService → String → ℕ → CircuitBreakerState × CircuitBreakerService
unfolding after_timeout
get_state s key now = after_timeout s key now (get_or (Map.get s.states key) closed)

abbrev is_recovering : Option CircuitBreakerState → Bool
is_recovering (some half_open) = true
is_recovering (some opened) = true
is_recovering _ = false

pub record_success : CircuitBreakerService → String → CircuitBreakerService
record_success s key =
    if is_recovering (Map.get s.states key)
    then record s {
      states = Map.set s.states key closed;
      failure_counts = Map.set s.failure_counts key 0;
    }
    else s

pub record_failure : CircuitBreakerService → String → ℕ → CircuitBreakerService
record_failure s key now =
    let count = get_or (Map.get s.failure_counts key) 0 + 1 in
    record {
      states = if leb failure_threshold count then Map.set s.states key opened else s.states;
      failure_counts = Map.set s.failure_counts key count;
      last_failure_times = Map.set s.last_failure_times key now;
    }

-- The patched method up to the call of the original: `false` is the `ServiceUnavailableException`.
abbrev admits : CircuitBreakerState → Bool
admits opened = false
admits _ = true

pub enter : CircuitBreakerService → String → ℕ → Bool × CircuitBreakerService
enter s key now = let (state, s') = get_state s key now in (admits state, s')

-- What the original method's promise does.
pub data Outcome {ℓ} (A : Type ℓ) : Type ℓ where
  fulfilled : A → Outcome A
  rejected : Outcome A

-- The patched method after the original has settled, at the time `now`.
pub settle {ℓ} :
    {A : Type ℓ} → CircuitBreakerService → String → ℕ → Outcome A → CircuitBreakerService
settle s key now (fulfilled a) = record_success s key
settle s key now rejected = record_failure s key now

-- What a caller of the patched method gets.
pub data Reply {ℓ} (A : Type ℓ) : Type ℓ where
  unavailable : Reply A
  passed_on : Outcome A → Reply A

-- One patched call. `original` gives the time at which it settles, its outcome, and the breaker as
-- other calls have left it meanwhile.
pub invoke {ℓ} :
    {A : Type ℓ}
    → CircuitBreakerService
    → String
    → ℕ
    → (CircuitBreakerService → ℕ × Outcome A × CircuitBreakerService)
    → Reply A × CircuitBreakerService
invoke s key now original =
    let (admitted, s₁) = enter s key now in
    let (later, outcome, s₂) = original s₁ in
    if admitted then (passed_on outcome, settle s₂ key later outcome) else (unavailable, s₁)

-- What can happen to the breaker, in the order of the event loop: calls begin, and settle later.
pub data Event : Type 0 where
  begins : String → ℕ → Event
  succeeds : String → Event
  fails : String → ℕ → Event

pub step : CircuitBreakerService → Event → CircuitBreakerService
step s (begins key now) = (enter s key now).1
step s (succeeds key) = record_success s key
step s (fails key now) = record_failure s key now

pub run : CircuitBreakerService → List Event → CircuitBreakerService
run s [] = s
run s (e ∷ es) = run (step s e) es
