-- ===== src/CircuitBreaker/Service.antt =====
-- What the breaker's operations do at a key, in terms of the entries of that key.
use express_nest_blueprint.Base.{ℕ, ◌+◌, ◌≤◌, String, ◌≡◌, ◌↔◌, false, arith, get_or}
use express_nest_blueprint.Base.Map
use express_nest_blueprint.Base.Map.{map_laws, get-set}
use express_nest_blueprint.CircuitBreaker.{
  CircuitBreakerState, closed, opened, CircuitBreakerService, recovery_timeout, get_state, enter,
}

-- The state of a key, CLOSED where none is stored.
abbrev pub state_of : CircuitBreakerService → String → CircuitBreakerState
state_of s key = get_or (Map.get s.states key) closed

abbrev pub count_of : CircuitBreakerService → String → ℕ
count_of s key = get_or (Map.get s.failure_counts key) 0

abbrev pub last_of : CircuitBreakerService → String → ℕ
last_of s key = get_or (Map.get s.last_failure_times key) 0

-- A call is refused exactly when the circuit of its key is open and at most the recovery timeout
-- has passed since the last failure.
pub enter-eq-false_iff :
    (s : CircuitBreakerService) (key : String) (now : ℕ)
    → ((enter s key now).0 ≡ false)
      ↔ ((state_of s key ≡ opened) × (now ≤ last_of s key + recovery_timeout))
unfolding enter get_state
enter-eq-false_iff s key now = ground arith
