-- ===== src/Lifecycle/Graceful.antt =====
-- GracefulShutdownService: packages/backend/common/src/application/services/graceful-shutdown.service.ts.
-- The process, the timers and the server are arguments on a state `S`; the log is left out.
use Prim.Native.String
use express_nest_blueprint.Base.{
  ℕ, suc, ◌≤◌, ◌<◌, ◌==◌, String, Bool, true, false, Option, none, some, List, [], ◌∷◌, ◌≡◌, ◌⊎◌,
  if◌then◌else◌, arith,
}
use express_nest_blueprint.Base.Settled.{Settled, throws}
use express_nest_blueprint.Lifecycle.{RetryOptions, execute_with_retry}
use express_nest_blueprint.Lifecycle.Attempts.{attempt_state, is_failure, execute_with_retry_lem}

pub record GracefulShutDownServiceConfig (S : Type 0) : Type 0 where
  pub name : String
  pub disconnect : S → Settled Unit × S

pub record ShutdownConfig : Type 0 where
  pub shutdown_timeout : ℕ
  pub max_retries : ℕ
  pub retry_delay : ℕ

pub record GracefulShutdownService (S : Type 0) : Type 0 where
  pub services : List (GracefulShutDownServiceConfig S)
  pub shutdown_timeout : ℕ
  pub max_retries : ℕ
  pub retry_delay : ℕ

-- What a timer does, whether a time limit of a service has passed first, the forced end of the
-- connections with the close of a server that listens, and `process.exit`.
pub record Host (S : Type 0) : Type 0 where
  pub set_timer : ℕ → S → S
  pub clear_timer : S → S
  pub delay : ℕ → S → S
  pub has_timed_out : String → ℕ → S → Bool
  pub close_connections : S → S
  pub close_server : S → S
  pub exit : ℕ → S → S

-- `value || fallback`.
number_or : ℕ → ℕ → ℕ
number_or value fallback = if value == 0 then fallback else value

module _ {S : Type 0} where
  unfoldable pub new_shutdown_service :
      List (GracefulShutDownServiceConfig S) → Option ShutdownConfig → GracefulShutdownService S
  unfolding number_or
  new_shutdown_service services none = record {
    services = services;
    shutdown_timeout = 3000;
    max_retries = 3;
    retry_delay = 1000;
  }
  new_shutdown_service services (some config) = record {
    services = services;
    shutdown_timeout = number_or config.shutdown_timeout 3000;
    max_retries = number_or config.max_retries 3;
    retry_delay = number_or config.retry_delay 1000;
  }

module _ {S : Type 0} (host : Host S) (service : GracefulShutdownService S) where
  retry_options : GracefulShutDownServiceConfig S → RetryOptions S
  retry_options config = record {
    service_name = config.name;
    max_retries = service.max_retries;
    retry_delay = service.retry_delay;
    on_retry = some (λ attempt s. s);
  }

  unfoldable pub retry_disconnect : GracefulShutDownServiceConfig S → S → Settled Unit × S
  unfolding retry_options
  retry_disconnect config s =
      execute_with_retry host.delay (retry_options config) config.disconnect s

  -- `Promise.race` with the time limit of a service.
  raced : String → Settled Unit × S → Settled Unit × S
  raced limited (result, s) =
      if host.has_timed_out limited 10000 s
      then (throws (String.◌++◌ "Timeout disconnecting " (String.◌++◌ limited " after 10000ms")), s)
      else (result, s)

  -- `Promise.all` of the races, whose errors are logged.
  unfoldable pub disconnect_services : List (GracefulShutDownServiceConfig S) → S → S
  unfolding raced retry_disconnect
  disconnect_services [] s = s
  disconnect_services (config ∷ configs) s =
      disconnect_services configs ((raced config.name (retry_disconnect config s)).1)

  -- `server?.listening`.
  close_http_server : Option Bool → S → S
  close_http_server none s = s
  close_http_server (some listening) s =
      if listening then host.close_server (host.close_connections s) else s

  unfoldable pub shut_down : Option Bool → S → S
  unfolding disconnect_services close_http_server
  shut_down server s =
      let started = host.set_timer service.shutdown_timeout s in
      let closed = close_http_server server started in
      host.exit 0 (host.clear_timer (disconnect_services service.services closed))

-- Each service is tried at least once, whatever the configuration.
new_shutdown_service-max_retries :
    {S : Type 0} (services : List (GracefulShutDownServiceConfig S))
    (config : Option ShutdownConfig)
    → 1 ≤ (new_shutdown_service services config).max_retries
unfolding new_shutdown_service number_or
new_shutdown_service-max_retries services none = omega arith
new_shutdown_service-max_retries services (some config) = ground arith

-- A disconnection that fails and is tried again comes to what its last attempt comes to.
retry_disconnect_lem :
    {S : Type 0} (host : Host S) (service : GracefulShutdownService S)
    (config : GracefulShutDownServiceConfig S) (k n : ℕ) (s : S)
    → service.max_retries ≡ suc n
    → k ≤ n
    → ((j : ℕ)
        → j < k
        → is_failure
            (config.disconnect (
              attempt_state host.delay (retry_options host service config) config.disconnect j s)).0
          ≡ true)
    → (is_failure
          (config.disconnect
            (attempt_state host.delay (retry_options host service config) config.disconnect k s)).0
        ≡ false)
      ⊎ (k ≡ n)
    → retry_disconnect host service config s
      ≡ config.disconnect
          (attempt_state host.delay (retry_options host service config) config.disconnect k s)
unfolding retry_disconnect retry_options
retry_disconnect_lem host service config k n s allowed few failed last =
    execute_with_retry_lem host.delay (retry_options host service config) config.disconnect k n s
      allowed few failed last
