-- ===== src/CircuitBreaker/Calls.antt =====
-- When a circuit trips, how long it stays open, and what a caller of a patched method gets.
use text.Mathlib.TextEquality.{eq_iff}
use express_nest_blueprint.Base.{
  ℕ, ◌+◌, ap, sym, ◌∙◌, ◌≤◌, ◌<◌, String, ◌≡◌, ◌≢◌, Bool, true, false, List, [], ◌∷◌, arith, refl,
  if◌then◌else◌, All, Bool-cases, inl, inr,
}
use mathlib.Core.Path.{subst}
use text.Mathlib.Text.{◌==◌ as str_eq}
use express_nest_blueprint.Base.Map
use express_nest_blueprint.Base.Map.{map_laws, get-set}
use express_nest_blueprint.CircuitBreaker.{
  CircuitBreakerState, closed, opened, half_open, CircuitBreakerService, Event, failure_threshold,
  recovery_timeout, begins, succeeds, fails, get_state, record_success, record_failure, enter, step,
  run, Outcome, fulfilled, rejected, settle, unavailable, passed_on, invoke,
}
use express_nest_blueprint.CircuitBreaker.Service.{state_of, count_of, last_of}
use express_nest_blueprint.CircuitBreaker.Consistency.{IsConsistent}
use express_nest_blueprint.CircuitBreaker.Counts.{failures, closed_below_threshold}

abbrev pub is_closed : CircuitBreakerState → Bool
is_closed closed = true
is_closed _ = false

abbrev pub is_fulfilled {ℓ} : {A : Type ℓ} → Outcome A → Bool
is_fulfilled (fulfilled a) = true
is_fulfilled rejected = false

half_open≢closed : half_open ≢ closed
half_open≢closed p = cc

record_failure_trips :
    (s : CircuitBreakerService) (k : String) (now : ℕ)
    → failure_threshold ≤ count_of s k + 1
    → (state_of (record_failure s k now) k ≡ opened) × (last_of (record_failure s k now) k ≡ now)
unfolding record_failure
record_failure_trips s k now h =
    ground (arith, get-set s.states k k opened, get-set s.last_failure_times k k now, eq_iff k k)

refused_when_open :
    (s : CircuitBreakerService) (k : String) (now : ℕ)
    → state_of s k ≡ opened
    → now ≤ last_of s k + recovery_timeout
    → enter s k now ≡ (false, s)
unfolding enter get_state
refused_when_open s k now h b = ground arith

-- What else may happen while the circuit of `k`, tripped at `now`, stays open: anything of other keys,
-- and of `k` calls up to the recovery timeout and further failures, but no success.
unfoldable pub IsQuiet : String → ℕ → Event → Type 0
IsQuiet k now (begins key t) = key ≡ k → t ≤ now + recovery_timeout
IsQuiet k now (succeeds key) = key ≢ k
IsQuiet k now (fails key t) = key ≡ k → now ≤ t

-- An open circuit that has reached the threshold, and whose last failure is not before `now`.
abbrev IsTripped : CircuitBreakerService → String → ℕ → Type 0
IsTripped s k now =
    (state_of s k ≡ opened) × (failure_threshold ≤ count_of s k) × (now ≤ last_of s k)

step-IsTripped :
    (s : CircuitBreakerService) (k : String) (now : ℕ) (e : Event)
    → IsQuiet k now e
    → IsTripped s k now
    → IsTripped (step s e) k now
unfolding IsQuiet step enter get_state record_success record_failure
step-IsTripped s k now (begins key t) q h = elim (Bool-cases (str_eq key k)) [
  | inl b ↦
      let same = (eq_iff key k).0 b in
      let refused = refused_when_open s k t h.0 (omega (arith, q same, h.2)) in
      subst (λ j. IsTripped (enter s j t).1 k now) (sym same)
        (subst (λ r. IsTripped r.1 k now) (sym refused) h)
  | inr b ↦ ground (arith, b, h, get-set s.states key k half_open)
]
step-IsTripped s k now (succeeds key) q h =
    ground
      (arith, q, h, get-set s.states key k closed, get-set s.failure_counts key k 0, eq_iff key k)
step-IsTripped s k now (fails key t) q h = ground (
  arith,
  q,
  h,
  get-set s.states key k opened,
  get-set s.failure_counts key k (count_of s key + 1),
  get-set s.last_failure_times key k t,
  eq_iff key k,
)

run-IsTripped :
    (s : CircuitBreakerService) (k : String) (now : ℕ) (es : List Event)
    → All (IsQuiet k now) es
    → IsTripped s k now
    → IsTripped (run s es) k now
unfolding run
run-IsTripped s k now [] q h = h
run-IsTripped s k now (e ∷ es) (q, qs) h =
    run-IsTripped (step s e) k now es qs (step-IsTripped s k now e q h)

record_failure_counts :
    (s : CircuitBreakerService) (k : String) (now : ℕ)
    → count_of (record_failure s k now) k ≡ count_of s k + 1
unfolding record_failure
record_failure_counts s k now =
    ground (arith, get-set s.failure_counts k k (count_of s k + 1), eq_iff k k)

-- The failure that brings a closed circuit to the threshold trips it at its time `now`: a call of the
-- key up to the recovery timeout after it is refused, also after further calls up to then and further
-- failures of the key and anything that other keys do, as long as no call of the key succeeds meanwhile.
pub trips_at_threshold :
    (s : CircuitBreakerService) (k : String) (es after : List Event) (now later : ℕ)
    → state_of s k ≡ closed
    → count_of s k + failures k es + 1 ≡ failure_threshold
    → All (IsQuiet k now) after
    → later ≤ now + recovery_timeout
    → (enter (run (record_failure (run s es) k now) after) k later).0 ≡ false
trips_at_threshold s k es after now later h e q b =
    let below = closed_below_threshold s k es h (omega arith) in
    let trips = record_failure_trips (run s es) k now (omega arith) in
    let counted = record_failure_counts (run s es) k now in
    let tripped = record_failure (run s es) k now in
    let kept =
      run-IsTripped tripped k now after q
        (trips.0, omega (arith, counted, below.1), omega (arith, trips.1)) in
    ap (λ r. r.0) (refused_when_open (run tripped after) k later kept.0 (omega (arith, kept.2)))

-- In a consistent breaker one failure of a half-open circuit opens it again at once, for a whole
-- recovery timeout.
pub half_open_failure_reopens :
    (s : CircuitBreakerService) (k : String) (now later : ℕ)
    → IsConsistent s
    → state_of s k ≡ half_open
    → later ≤ now + recovery_timeout
    → (enter (record_failure s k now) k later).0 ≡ false
half_open_failure_reopens s k now later h e b =
    let tripped = h.tripped k (λ p. half_open≢closed (sym e ∙ p)) in
    let trips = record_failure_trips s k now (omega arith) in
    ap (λ r. r.0) (refused_when_open (record_failure s k now) k later trips.0 (omega arith))

-- A success closes the circuit of its key from any state, and the calls that follow are let through;
-- unless the circuit was closed already, its failures are forgotten.
pub success_closes :
    (s : CircuitBreakerService) (k : String) (now : ℕ)
    → ((enter (record_success s k) k now).0 ≡ true)
      × (count_of (record_success s k) k ≡ (if is_closed (state_of s k) then count_of s k else 0))
unfolding enter get_state record_success
success_closes s k now =
    ground (arith, get-set s.states k k closed, get-set s.failure_counts k k 0, eq_iff k k)

-- A call to an open circuit within the recovery timeout gets the unavailable error, the original
-- method is not run (the answer is the same for every method) and the breaker is unchanged.
pub invoke_refused {ℓ} :
    {A : Type ℓ} (s : CircuitBreakerService) (k : String) (now : ℕ)
    (original : CircuitBreakerService → ℕ × Outcome A × CircuitBreakerService)
    → state_of s k ≡ opened
    → now ≤ last_of s k + recovery_timeout
    → invoke s k now original ≡ (unavailable, s)
unfolding invoke
invoke_refused s k now original h b = rw (refused_when_open s k now h b) refl

-- Once the recovery timeout is over, a call to an open circuit runs the original method from a
-- half-open circuit and hands on its outcome. If nothing else settles meanwhile, a success leaves
-- the circuit closed and a failure leaves it open.
pub invoke_probes {ℓ} :
    {A : Type ℓ} (s : CircuitBreakerService) (k : String) (now later : ℕ) (outcome : Outcome A)
    → IsConsistent s
    → state_of s k ≡ opened
    → last_of s k + recovery_timeout < now
    → ((invoke s k now (λ s'. (later, outcome, s'))).0 ≡ passed_on outcome)
      × (state_of (invoke s k now (λ s'. (later, outcome, s'))).1 k
          ≡ (if is_fulfilled outcome then closed else opened))
unfolding invoke enter get_state settle record_success record_failure
invoke_probes s k now later (fulfilled a) c h b = ground (
  arith,
  get-set s.states k k half_open,
  get-set (Map.set s.states k half_open) k k closed,
  eq_iff k k,
)
invoke_probes s k now later rejected c h b = ground (
  arith,
  get-set s.states k k half_open,
  get-set (Map.set s.states k half_open) k k opened,
  eq_iff k k,
  c.tripped k,
)
