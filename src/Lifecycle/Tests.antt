-- ===== src/Lifecycle/Tests.antt =====
-- Retries and shutdowns at concrete inputs, and witnesses. The state counts the attempts.
use express_nest_blueprint.Base.{
  ℕ, zero, suc, ◌<◌, ◌≡◌, inl, refl, none, [], ◌∷◌, ◌++◌, arith, true, false, String, List,
}
use express_nest_blueprint.Base.Settled.{Settled, ok, throws}
use express_nest_blueprint.Lifecycle.{
  RetryOptions, between, execute_with_retry, attempt_listen_with_retries, attempt_listen,
  after_listen, ListenOutcome, listening, address_in_use,
}
use express_nest_blueprint.Lifecycle.Attempts.{
  is_failure, attempt_state, state_from, execute_with_retry_lem,
}
use express_nest_blueprint.Lifecycle.Once.{
  LifecycleCall, registers_handler, sets_server, shuts_down, run, initial_service, handlers_of,
  server_of, run-once,
}

abbrev no_delay : ℕ → ℕ → ℕ
no_delay ms s = s

abbrev three : RetryOptions ℕ
three = record { service_name = "kafka"; max_retries = 3; retry_delay = 1000; on_retry = none }

-- Fails twice.
abbrev flaky : ℕ → Settled String × ℕ
flaky zero = (throws "down", 1)
flaky (suc zero) = (throws "down", 2)
flaky (suc (suc n)) = (ok "up", n)

fails_twice : (j : ℕ) → j < 2 → is_failure (flaky (attempt_state no_delay three flaky j 0)).0 ≡ true
unfolding is_failure attempt_state state_from between
fails_twice zero h = refl
fails_twice (suc zero) h = refl
fails_twice (suc (suc j)) h = absurd (omega arith)

then_succeeds : is_failure (flaky (attempt_state no_delay three flaky 2 0)).0 ≡ false
unfolding is_failure attempt_state state_from between
then_succeeds = refl

execute_with_retry_lem_example :
    execute_with_retry no_delay three flaky 0 ≡ flaky (attempt_state no_delay three flaky 2 0)
execute_with_retry_lem_example =
    execute_with_retry_lem no_delay three flaky 2 2 0 refl (omega arith) fails_twice
      (inl then_succeeds)

abbrev busy : ℕ → ListenOutcome ℕ × ℕ
busy zero = (address_in_use "EADDRINUSE", 1)
busy (suc n) = (listening 8080, n)

-- The second try listens.
listens : attempt_listen_with_retries busy (λ s. s) 0 ≡ (ok 8080, 0)
unfolding attempt_listen_with_retries attempt_listen after_listen
listens = refl

abbrev starting : List (LifecycleCall String ℕ ℕ)
starting = registers_handler "redis" ∷ sets_server 80 ∷ registers_handler "kafka" ∷ []

run-once_example :
    run (starting ++ (shuts_down ∷ registers_handler "late" ∷ shuts_down ∷ [])) initial_service
    ≡ record { services = handlers_of starting; http_server = server_of none starting } ∷ []
run-once_example = run-once starting (registers_handler "late" ∷ shuts_down ∷ []) refl
