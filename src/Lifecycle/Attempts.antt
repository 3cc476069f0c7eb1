-- ===== src/Lifecycle/Attempts.antt =====
-- How often executeWithRetry and listen try: packages/backend/common/src/domain/helpers/retry.helper.ts
-- and application/nest-application/lifecycle-hooks.ts.
use express_nest_blueprint.Base.{
  ℕ, zero, suc, ◌≤◌, ◌<◌, Bool, true, false, ◌≡◌, ◌⊎◌, inl, inr, refl, sym, ◌∙◌, ap, arith,
}
use express_nest_blueprint.Base.Settled.{Settled, ok, throws}
use express_nest_blueprint.Lifecycle.{
  RetryOptions, between, after_attempt, retry_loop, execute_with_retry, ListenOutcome, listening,
  address_in_use, listen_error, after_listen, attempt_listen, attempt_listen_with_retries,
}

unfoldable pub is_failure : {A : Type 0} → Settled A → Bool
is_failure (ok a) = false
is_failure (throws e) = true

module _ {A S : Type 0} (delay : ℕ → S → S) (options : RetryOptions S)
    (fn : S → Settled A × S) where
  -- The state in which the attempt after `k` failed ones runs, where the first has the number `n`.
  unfoldable pub state_from : ℕ → ℕ → S → S
  unfolding between
  state_from n zero s = s
  state_from n (suc k) s = state_from (suc n) k (between delay options n ((fn s).1))

  unfoldable pub attempt_state : ℕ → S → S
  unfolding state_from
  attempt_state k s = state_from 1 k s

  stops :
      (left n : ℕ) (rest : S → Settled A × S) (x : Settled A × S)
      → (is_failure x.0 ≡ false) ⊎ (left ≡ 0)
      → after_attempt delay options fn left n rest x ≡ x
  unfolding after_attempt is_failure
  stops left n rest (ok a, s) h = refl
  stops zero n rest (throws e, s) h = refl
  stops (suc left) n rest (throws e, s) h = ground (arith, h)

  goes_on :
      (left n : ℕ) (rest : S → Settled A × S) (x : Settled A × S)
      → is_failure x.0 ≡ true
      → after_attempt delay options fn (suc left) n rest x ≡ rest (between delay options n x.1)
  unfolding after_attempt is_failure
  goes_on left n rest (ok a, s) h = ground (arith, h)
  goes_on left n rest (throws e, s) h = refl

  retry_loop_lem :
      (k left n : ℕ) (s : S)
      → k ≤ left
      → ((j : ℕ) → j < k → is_failure (fn (state_from n j s)).0 ≡ true)
      → (is_failure (fn (state_from n k s)).0 ≡ false) ⊎ (k ≡ left)
      → retry_loop delay options fn (suc left) n s ≡ fn (state_from n k s)
  unfolding retry_loop state_from
  retry_loop_lem zero left n s h failed last =
      stops left n _ (fn s) (elim last [ inl e ↦ inl e | inr e ↦ inr (sym e) ])
  retry_loop_lem (suc k) zero n s h failed last = absurd (omega arith)
  retry_loop_lem (suc k) (suc left) n s h failed last =
      goes_on left n (λ s'. retry_loop delay options fn (suc left) (suc n) s') (fn s)
        (failed 0 (omega arith))
      ∙ retry_loop_lem k left (suc n) (between delay options n ((fn s).1)) (omega arith)
          (λ j lt. failed (suc j) (omega arith))
          (elim last [ inl e ↦ inl e | inr e ↦ inr (omega arith) ])

-- executeWithRetry, allowed some attempts, comes to what its last attempt comes to, which is the first
-- that does not fail or, where all fail, the one that uses the allowance up; there is no other attempt.
pub execute_with_retry_lem :
    {A S : Type 0} (delay : ℕ → S → S) (options : RetryOptions S) (fn : S → Settled A × S) (k n : ℕ)
    (s : S)
    → options.max_retries ≡ suc n
    → k ≤ n
    → ((j : ℕ) → j < k → is_failure (fn (attempt_state delay options fn j s)).0 ≡ true)
    → (is_failure (fn (attempt_state delay options fn k s)).0 ≡ false) ⊎ (k ≡ n)
    → execute_with_retry delay options fn s ≡ fn (attempt_state delay options fn k s)
unfolding execute_with_retry attempt_state
execute_with_retry_lem delay options fn k n s allowed few failed last =
    ap (λ m. retry_loop delay options fn m 1 s) allowed
    ∙ (retry_loop_lem delay options fn k n 1 s few failed last)

unfoldable pub is_in_use : {A : Type 0} → ListenOutcome A → Bool
is_in_use (listening a) = false
is_in_use (address_in_use e) = true
is_in_use (listen_error e) = false

-- What the outcome of a try comes to where there is no other.
pub outcome : {A S : Type 0} → ListenOutcome A × S → Settled A × S
outcome (listening a, s) = (ok a, s)
outcome (address_in_use e, s) = (throws e, s)
outcome (listen_error e, s) = (throws e, s)

module _ {A S : Type 0} (listen_once : S → ListenOutcome A × S) (close_and_wait : S → S) where
  -- The state in which the server listens after `k` tries.
  unfoldable pub listen_state : ℕ → S → S
  listen_state zero s = s
  listen_state (suc k) s = listen_state k (close_and_wait ((listen_once s).1))

  listen_stops :
      (left : ℕ) (rest : S → Settled A × S) (x : ListenOutcome A × S)
      → (is_in_use x.0 ≡ false) ⊎ (left ≡ 0)
      → after_listen listen_once close_and_wait left rest x ≡ outcome x
  unfolding after_listen is_in_use outcome
  listen_stops left rest (listening a, s) h = refl
  listen_stops left rest (listen_error e, s) h = refl
  listen_stops zero rest (address_in_use e, s) h = refl
  listen_stops (suc left) rest (address_in_use e, s) h = ground (arith, h)

  listen_goes_on :
      (left : ℕ) (rest : S → Settled A × S) (x : ListenOutcome A × S)
      → is_in_use x.0 ≡ true
      → after_listen listen_once close_and_wait (suc left) rest x ≡ rest (close_and_wait x.1)
  unfolding after_listen is_in_use
  listen_goes_on left rest (listening a, s) h = ground (arith, h)
  listen_goes_on left rest (listen_error e, s) h = ground (arith, h)
  listen_goes_on left rest (address_in_use e, s) h = refl

  attempt_listen-go :
      (k left : ℕ) (s : S)
      → k ≤ left
      → ((j : ℕ) → j < k → is_in_use (listen_once (listen_state j s)).0 ≡ true)
      → (is_in_use (listen_once (listen_state k s)).0 ≡ false) ⊎ (k ≡ left)
      → attempt_listen listen_once close_and_wait left s ≡ outcome (listen_once (listen_state k s))
  unfolding attempt_listen listen_state
  attempt_listen-go zero zero s h used last =
      listen_stops 0 (λ s'. (throws "", s')) (listen_once s) (inr refl)
  attempt_listen-go zero (suc left) s h used last =
      listen_stops (suc left) (λ s'. attempt_listen listen_once close_and_wait left s')
        (listen_once s) (elim last [ inl e ↦ inl e | inr e ↦ inr (sym e) ])
  attempt_listen-go (suc k) zero s h used last = absurd (omega arith)
  attempt_listen-go (suc k) (suc left) s h used last =
      listen_goes_on left (λ s'. attempt_listen listen_once close_and_wait left s') (listen_once s)
        (used 0 (omega arith))
      ∙ attempt_listen-go k left (close_and_wait ((listen_once s).1)) (omega arith)
          (λ j lt. used (suc j) (omega arith))
          (elim last [ inl e ↦ inl e | inr e ↦ inr (omega arith) ])

-- Listening is tried again while the address is in use, 31 times at most, and comes to what the last
-- try comes to.
pub attempt_listen_with_retries_lem :
    {A S : Type 0} (listen_once : S → ListenOutcome A × S) (close_and_wait : S → S) (k : ℕ) (s : S)
    → k ≤ 30
    → ((j : ℕ)
        → j < k
        → is_in_use (listen_once (listen_state listen_once close_and_wait j s)).0 ≡ true)
    → (is_in_use (listen_once (listen_state listen_once close_and_wait k s)).0 ≡ false) ⊎ (k ≡ 30)
    → attempt_listen_with_retries listen_once close_and_wait s
      ≡ outcome (listen_once (listen_state listen_once close_and_wait k s))
unfolding attempt_listen_with_retries
attempt_listen_with_retries_lem listen_once close_and_wait k s few used last =
    attempt_listen-go listen_once close_and_wait k 30 s few used last
