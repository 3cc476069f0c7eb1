-- ===== src/CircuitBreaker/Counts.antt =====
-- How a closed circuit counts its failures, until they reach the threshold.
use text.Mathlib.TextEquality.{eq_iff}
use express_nest_blueprint.Base.{
  ℕ, ◌+◌, ◌<◌, String, ◌≡◌, List, [], ◌∷◌, arith, refl, suc, if◌then◌else◌,
}
use text.Mathlib.Text.{◌==◌ as str_eq}
use express_nest_blueprint.Base.Map.{get-set}
use express_nest_blueprint.CircuitBreaker.{
  closed, opened, half_open, CircuitBreakerService, Event, failure_threshold, begins, succeeds,
  fails, get_state, record_success, record_failure, enter, step, run,
}
use express_nest_blueprint.CircuitBreaker.Service.{state_of, count_of}

-- The failures of a key among the events.
unfoldable pub failures : String → List Event → ℕ
failures k [] = 0
failures k (fails key now ∷ es) = if str_eq key k then suc (failures k es) else failures k es
failures k (_ ∷ es) = failures k es

abbrev IsClosedWith : ℕ → CircuitBreakerService → String → Type 0
IsClosedWith n s k = (state_of s k ≡ closed) × (count_of s k ≡ n)

module _ (s : CircuitBreakerService) (k : String) (n : ℕ) (h : IsClosedWith n s k) where
  begins-IsClosedWith : (key : String) (now : ℕ) → IsClosedWith n (step s (begins key now)) k
  unfolding step enter get_state
  begins-IsClosedWith key now = ground (arith, get-set s.states key k half_open, eq_iff key k)

  succeeds-IsClosedWith : (key : String) → IsClosedWith n (step s (succeeds key)) k
  unfolding step record_success
  succeeds-IsClosedWith key =
      ground (arith, get-set s.states key k closed, get-set s.failure_counts key k 0, eq_iff key k)

  fails-IsClosedWith :
      (key : String) (now : ℕ)
      → (if str_eq key k then suc n else n) < failure_threshold
      → IsClosedWith (if str_eq key k then suc n else n) (step s (fails key now)) k
  unfolding step record_failure
  fails-IsClosedWith key now b = ground (
    arith,
    get-set s.states key k opened,
    get-set s.failure_counts key k (count_of s key + 1),
    eq_iff key k,
  )

run-IsClosedWith :
    (s : CircuitBreakerService) (k : String) (n : ℕ) (es : List Event)
    → IsClosedWith n s k
    → n + failures k es < failure_threshold
    → IsClosedWith (n + failures k es) (run s es) k
unfolding run failures
run-IsClosedWith s k n [] h b = ground arith
run-IsClosedWith s k n (begins key now ∷ es) h b =
    run-IsClosedWith (step s (begins key now)) k n es (begins-IsClosedWith s k n h key now) b
run-IsClosedWith s k n (succeeds key ∷ es) h b =
    run-IsClosedWith (step s (succeeds key)) k n es (succeeds-IsClosedWith s k n h key) b
run-IsClosedWith s k n (fails key now ∷ es) h b =
    let n' = if str_eq key k then suc n else n in
    let e : n' + failures k es ≡ n + failures k (fails key now ∷ es) = ground arith in
    ground (
      arith,
      e,
      fails-IsClosedWith s k n h key now (omega (arith, e)),
      run-IsClosedWith (step s (fails key now)) k n' es,
    )

-- While a closed circuit has seen fewer failures than the threshold since it was closed, it stays
-- closed, however many successes and other keys' events lie between, and it has counted them all.
pub closed_below_threshold :
    (s : CircuitBreakerService) (k : String) (es : List Event)
    → state_of s k ≡ closed
    → count_of s k + failures k es < failure_threshold
    → (state_of (run s es) k ≡ closed) × (count_of (run s es) k ≡ count_of s k + failures k es)
closed_below_threshold s k es h b = run-IsClosedWith s k (count_of s k) es (h, refl) b
