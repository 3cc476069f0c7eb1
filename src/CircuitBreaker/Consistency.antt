-- ===== src/CircuitBreaker/Consistency.antt =====
-- The invariant that ties the breaker's states to its failure counts.
use express_nest_blueprint.Base.{ℕ, ◌+◌, ◌≤◌, ◌<◌, String, ◌≡◌, ◌≢◌, List, [], ◌∷◌, arith, refl}
use text.Mathlib.TextEquality.{eq_iff}
use express_nest_blueprint.Base.Map
use express_nest_blueprint.Base.Map.{map_laws, get-set}
use express_nest_blueprint.CircuitBreaker.{
  closed, opened, half_open, CircuitBreakerService, failure_threshold, Event, begins, succeeds,
  fails, fresh, get_state, record_success, record_failure, enter, step, run,
}
use express_nest_blueprint.CircuitBreaker.Service.{state_of, count_of}

-- A circuit that is open or half open has counted at least the threshold; a closed one, less.
pub record IsConsistent (s : CircuitBreakerService) : Type 0 where
  pub tripped : (k : String) → state_of s k ≢ closed → failure_threshold ≤ count_of s k
  pub below : (k : String) → state_of s k ≡ closed → count_of s k < failure_threshold

module _ (s : CircuitBreakerService) (key : String) (h : IsConsistent s) where
  enter-IsConsistent : (now : ℕ) → IsConsistent (enter s key now).1
  unfolding enter get_state
  enter-IsConsistent now = record {
    tripped = λ k p. ground (arith, get-set s.states key k half_open, eq_iff key k, h.tripped k);
    below = λ k p. ground (arith, get-set s.states key k half_open, eq_iff key k, h.below k);
  }

  record_success-IsConsistent : IsConsistent (record_success s key)
  unfolding record_success
  record_success-IsConsistent = record {
    tripped = λ k p. ground (
      arith,
      get-set s.states key k closed,
      get-set s.failure_counts key k 0,
      eq_iff key k,
      h.tripped k,
    );
    below = λ k p. ground (
      arith,
      get-set s.states key k closed,
      get-set s.failure_counts key k 0,
      eq_iff key k,
      h.below k,
    );
  }

  record_failure-IsConsistent : (now : ℕ) → IsConsistent (record_failure s key now)
  unfolding record_failure
  record_failure-IsConsistent now = record {
    tripped = λ k p. ground (
      arith,
      get-set s.states key k opened,
      get-set s.failure_counts key k (count_of s key + 1),
      eq_iff key k,
      h.tripped k,
    );
    below = λ k p. ground (
      arith,
      get-set s.states key k opened,
      get-set s.failure_counts key k (count_of s key + 1),
      eq_iff key k,
      h.below k,
    );
  }

step-IsConsistent :
    (s : CircuitBreakerService) (e : Event) → IsConsistent s → IsConsistent (step s e)
unfolding step
step-IsConsistent s (begins key now) h = enter-IsConsistent s key h now
step-IsConsistent s (succeeds key) h = record_success-IsConsistent s key h
step-IsConsistent s (fails key now) h = record_failure-IsConsistent s key h now

-- Whatever calls begin, succeed and fail, in any order and at any times, a consistent breaker stays
-- consistent.
pub run-IsConsistent :
    (s : CircuitBreakerService) (es : List Event) → IsConsistent s → IsConsistent (run s es)
unfolding run
run-IsConsistent s [] h = h
run-IsConsistent s (e ∷ es) h = run-IsConsistent (step s e) es (step-IsConsistent s e h)

pub IsConsistent-fresh : IsConsistent fresh
unfolding Map.get
IsConsistent-fresh = record { tripped = λ k p. absurd (p refl); below = λ k p. omega arith }
