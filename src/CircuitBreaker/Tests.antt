-- ===== src/CircuitBreaker/Tests.antt =====
-- The circuit breaker at concrete inputs.
use express_nest_blueprint.Base.{ℕ, String, ◌≡◌, true, false, List, [], ◌∷◌, refl, arith, All}
use text.Mathlib.TextEquality.{eq_iff}
use express_nest_blueprint.Base.Map
use express_nest_blueprint.CircuitBreaker.{
  closed, opened, half_open, CircuitBreakerService, Event, fresh, begins, succeeds, fails,
  get_state, record_success, record_failure, enter, step, run, fulfilled, passed_on, invoke,
}
use express_nest_blueprint.CircuitBreaker.Service.{state_of, count_of, last_of}
use express_nest_blueprint.CircuitBreaker.Consistency.{
  IsConsistent, IsConsistent-fresh, run-IsConsistent,
}
use express_nest_blueprint.CircuitBreaker.Calls.{trips_at_threshold, invoke_probes, IsQuiet}
use express_nest_blueprint.CircuitBreaker.Counts.{failures}

breaker : Unit {0}
unfolding run step enter get_state record_success record_failure Map.get Map.set failures
breaker = tt

abbrev four : List Event
four =
    fails "db" 1 ∷ succeeds "db" ∷ fails "db" 2 ∷ fails "db" 3 ∷ fails "mail" 3 ∷ fails "db" 4 ∷ []

abbrev five : List Event
five = fails "db" 1 ∷ fails "db" 2 ∷ fails "db" 3 ∷ fails "db" 4 ∷ fails "db" 5 ∷ []

abbrev tripped : CircuitBreakerService
tripped = run fresh five

abbrev probing : CircuitBreakerService
probing = run fresh (
    fails "db" 1
    ∷ fails "db" 2
    ∷ fails "db" 3
    ∷ fails "db" 4
    ∷ fails "db" 5
    ∷ begins "db" 10006
    ∷ [])

breaker_tests :
    ((enter tripped "db" 10005).0 ≡ false)
    × ((enter tripped "db" 10006).0 ≡ true)
    × ((enter tripped "mail" 6).0 ≡ true)
    × (state_of probing "db" ≡ half_open)
    × (state_of (record_success tripped "db") "db" ≡ closed)
unfolding breaker
breaker_tests = (refl, refl, refl, refl, refl)

tripped_opened : state_of tripped "db" ≡ opened
unfolding breaker
tripped_opened = refl

tripped_last : last_of tripped "db" ≡ 5
unfolding breaker
tripped_last = refl

failures-four : failures "db" four ≡ 4
unfolding breaker
failures-four = refl

closed_at_first : state_of fresh "db" ≡ closed
unfolding breaker
closed_at_first = refl

none_at_first : count_of fresh "db" ≡ 0
unfolding breaker
none_at_first = refl

tripped-IsConsistent : IsConsistent tripped
tripped-IsConsistent = run-IsConsistent fresh five IsConsistent-fresh

mail_is_not_db : (x : String) → x ≡ "mail" → x ≡ "db" → ⊥
mail_is_not_db x e f = ground (arith, eq_iff x "mail", eq_iff x "db", eq_iff "mail" "db")

run-IsConsistent_example : IsConsistent (run fresh four)
run-IsConsistent_example = run-IsConsistent fresh four IsConsistent-fresh

abbrev meanwhile : List Event
meanwhile = begins "db" 6 ∷ fails "db" 7 ∷ begins "mail" 20000 ∷ []

meanwhile-IsQuiet : All (IsQuiet "db" 5) meanwhile
unfolding IsQuiet
meanwhile-IsQuiet = (
  (λ p. omega arith),
  ((λ p. omega arith), ((λ p. absurd (ground (arith, (eq_iff "mail" "db").1 p))), tt)),
)

trips_at_threshold_example :
    (enter (run (record_failure (run fresh four) "db" 5) meanwhile) "db" 10005).0 ≡ false
trips_at_threshold_example =
    trips_at_threshold fresh "db" four meanwhile 5 10005 closed_at_first
      (omega (arith, failures-four, none_at_first)) meanwhile-IsQuiet (omega arith)

invoke_probes_example :
    ((invoke {A = ℕ} tripped "db" 10006 (λ s. (10007, fulfilled 1, s))).0 ≡ passed_on (fulfilled 1))
    × (state_of (invoke {A = ℕ} tripped "db" 10006 (λ s. (10007, fulfilled 1, s))).1 "db" ≡ closed)
invoke_probes_example =
    invoke_probes tripped "db" 10006 10007 (fulfilled 1) tripped-IsConsistent tripped_opened
      (omega (arith, tripped_last))
