-- ===== src/CircuitBreaker/Keys.antt =====
-- Each key has a circuit of its own.
use text.Mathlib.TextEquality.{eq_iff}
use express_nest_blueprint.Base.{ℕ, ◌+◌, String, ◌≡◌, ◌≢◌, List, [], ◌∷◌, arith, refl, All, ◌∙◌}
use express_nest_blueprint.Base.Map.{get-set}
use express_nest_blueprint.CircuitBreaker.{
  closed, opened, half_open, CircuitBreakerService, Event, begins, succeeds, fails, get_state,
  record_success, record_failure, enter, step, run,
}
use express_nest_blueprint.CircuitBreaker.Service.{state_of, count_of, last_of}

-- The key that an event is about.
abbrev pub key_of : Event → String
key_of (begins key now) = key
key_of (succeeds key) = key
key_of (fails key now) = key

-- Two breakers say the same of a key.
pub record SameAt (k : String) (s t : CircuitBreakerService) : Type 0 where
  pub state : state_of s k ≡ state_of t k
  pub count : count_of s k ≡ count_of t k
  pub last : last_of s k ≡ last_of t k

module _ (s : CircuitBreakerService) (k : String) where
  pub step-SameAt : (e : Event) → key_of e ≢ k → SameAt k (step s e) s
  unfolding step enter get_state record_success record_failure
  step-SameAt (begins key now) h = ground (arith, get-set s.states key k half_open, eq_iff key k)
  step-SameAt (succeeds key) h =
      ground (arith, get-set s.states key k closed, get-set s.failure_counts key k 0, eq_iff key k)
  step-SameAt (fails key now) h = ground (
    arith,
    get-set s.states key k opened,
    get-set s.failure_counts key k (count_of s key + 1),
    get-set s.last_failure_times key k now,
    eq_iff key k,
  )

pub run-SameAt :
    (s : CircuitBreakerService) (k : String) (es : List Event)
    → All (λ e. key_of e ≢ k) es
    → SameAt k (run s es) s
unfolding run
run-SameAt s k [] h = record { state = refl; count = refl; last = refl }
run-SameAt s k (e ∷ es) (h, hs) =
    let here = step-SameAt s k e h in
    let later = run-SameAt (step s e) k es hs in
    record {
      state = later.state ∙ here.state;
      count = later.count ∙ here.count;
      last = later.last ∙ here.last;
    }

-- Calls of other keys, whatever they do, leave the answer at a key as it was: whether a call of `k`
-- is let through at a time does not depend on them.
pub run-enter_other :
    (s : CircuitBreakerService) (k : String) (es : List Event) (now : ℕ)
    → All (λ e. key_of e ≢ k) es
    → (enter (run s es) k now).0 ≡ (enter s k now).0
unfolding enter get_state
run-enter_other s k es now h = let same = run-SameAt s k es h in ground arith
