-- ===== src/Lifecycle.antt =====
-- RetryHelper.executeWithRetry of packages/backend/common/src/domain/helpers/retry.helper.ts,
-- LifecycleService of packages/backend/common/src/application/lifecycle/lifecycle.service.ts and
-- LifecycleHooks.listen of packages/backend/common/src/application/nest-application/lifecycle-hooks.ts.
-- What the retried function and the waiting do to the state `S` is an argument; the log is left out.
pub mod Attempts
pub mod Once
pub mod Graceful
mod Tests
use Prim.Native.String
use express_nest_blueprint.Base.{
  ℕ, zero, suc, ◌+◌, String, Bool, true, false, Option, none, some, List, [], ◌∷◌, ◌++◌,
  if◌then◌else◌,
}
use express_nest_blueprint.Base.Settled.{Settled, ok, throws}

-- `onRetry` and `delay` act on the state.
pub record RetryOptions (S : Type 0) : Type 0 where
  pub service_name : String
  pub max_retries : ℕ
  pub retry_delay : ℕ
  pub on_retry : Option (ℕ → S → S)

module _ {S : Type 0} (delay : ℕ → S → S) (options : RetryOptions S) where
  notified : Option (ℕ → S → S) → ℕ → S → S
  notified none attempt s = s
  notified (some on_retry) attempt s = on_retry attempt s

  -- Between two attempts: `if (onRetry) onRetry(attempt); await this.delay(retryDelay)`.
  unfoldable pub between : ℕ → S → S
  unfolding notified
  between attempt s = delay options.retry_delay (notified options.on_retry attempt s)

module _ {A S : Type 0} (delay : ℕ → S → S) (options : RetryOptions S)
    (fn : S → Settled A × S) where
  -- What becomes of an attempt, `rest` being the attempts after it, of which there are `left`.
  after_attempt : ℕ → ℕ → (S → Settled A × S) → Settled A × S → Settled A × S
  unfolding between
  after_attempt left attempt rest (ok a, s) = (ok a, s)
  after_attempt zero attempt rest (throws e, s) = (throws e, s)
  after_attempt (suc left) attempt rest (throws e, s) = rest (between delay options attempt s)

  -- The loop, with the attempts that are left.
  retry_loop : ℕ → ℕ → S → Settled A × S
  unfolding after_attempt
  retry_loop zero attempt s =
      (throws (String.◌++◌ "Exceeded maximum retries for " options.service_name), s)
  retry_loop (suc left) attempt s =
      after_attempt left attempt (λ s'. retry_loop left (suc attempt) s') (fn s)

  pub execute_with_retry : S → Settled A × S
  unfolding retry_loop
  execute_with_retry s = retry_loop options.max_retries 1 s

-- How `app.listen` may settle: with the server, with EADDRINUSE, or with another error.
pub data ListenOutcome (A : Type 0) : Type 0 where
  listening : A → ListenOutcome A
  address_in_use : String → ListenOutcome A
  listen_error : String → ListenOutcome A

module _ {A S : Type 0} (listen_once : S → ListenOutcome A × S) (close_and_wait : S → S) where
  -- `handleListenError`, and the callback of a server that listens; `left` is what is left of
  -- `maxRetries`.
  unfoldable pub after_listen : ℕ → (S → Settled A × S) → ListenOutcome A × S → Settled A × S
  after_listen left rest (listening a, s) = (ok a, s)
  after_listen zero rest (address_in_use e, s) = (throws e, s)
  after_listen (suc left) rest (address_in_use e, s) = rest (close_and_wait s)
  after_listen left rest (listen_error e, s) = (throws e, s)

  unfoldable pub attempt_listen : ℕ → S → Settled A × S
  unfolding after_listen
  attempt_listen zero s = after_listen 0 (λ s'. (throws "", s')) (listen_once s)
  attempt_listen (suc left) s =
      after_listen (suc left) (λ s'. attempt_listen left s') (listen_once s)

  -- `attemptListenWithRetries(app, port, host)`.
  unfoldable pub attempt_listen_with_retries : S → Settled A × S
  unfolding attempt_listen
  attempt_listen_with_retries s = attempt_listen 30 s

-- The fields of LifecycleService; `H` is a shutdown handler, `W` a server and `F` a starter.
pub record LifecycleService (H W F : Type 0) : Type 0 where
  pub shutdown_handlers : List H
  pub http_server : Option W
  pub is_shutting_down : Bool
  pub worker_starter : Option F

-- The shutdown that is begun: the handlers of the new GracefulShutdownService, and the server.
pub record Shutdown (H W : Type 0) : Type 0 where
  pub services : List H
  pub http_server : Option W

module _ {H W F : Type 0} where
  pub register_shutdown_handler : H → LifecycleService H W F → LifecycleService H W F
  register_shutdown_handler h l = record l { shutdown_handlers = l.shutdown_handlers ++ (h ∷ []) }

  pub register_worker_starter : F → LifecycleService H W F → LifecycleService H W F
  register_worker_starter f l = record l { worker_starter = some f }

  pub set_http_server : W → LifecycleService H W F → LifecycleService H W F
  set_http_server w l = record l { http_server = some w }

  -- `none` where a shutdown has begun before.
  pub execute_graceful_shutdown :
      LifecycleService H W F → Option (Shutdown H W) × LifecycleService H W F
  execute_graceful_shutdown l = if l.is_shutting_down then (none, l) else (
    some (record { services = l.shutdown_handlers; http_server = l.http_server }),
    record l { is_shutting_down = true },
  )
