-- ===== src/Postgres.antt =====
-- PostgreSQLAdapter: packages/backend/common/src/infrastructure/database/adapters/postgresql.adapter.ts.
-- The pool and the server are arguments: an `Attempt` says how they answer each call of one round of
-- transactionWithRetry and what it does to the server's state `D`, which the callback works on as well.
pub mod Atomicity
pub mod Attempts
mod Tests
use express_nest_blueprint.Base.{
  ℕ, zero, suc, ◌+◌, ◌*◌, ◌^◌, ◌≡◌, Bool, true, false, Option, none, some, List, [], ◌∷◌, ◌||◌,
  if◌then◌else◌,
}

-- The errors that the loop tells apart: those with code 40P01 or 40001, and all others.
pub data DatabaseError : Type 0 where
  deadlock_detected serialization_failure : DatabaseError
  other : ℕ → DatabaseError
  not_connected : DatabaseError
  disconnect_timeout : DatabaseError

abbrev pub is_retryable : DatabaseError → Bool
is_retryable deadlock_detected = true
is_retryable serialization_failure = true
is_retryable _ = false

pub data Result {ℓ} (A : Type ℓ) : Type ℓ where
  ok : A → Result A
  throws : DatabaseError → Result A

-- The pool is there, or null.
pub record PostgreSqlAdapter : Type 0 where
  pub pool : Bool
  pub is_disconnecting : Bool

pub is_connected : PostgreSqlAdapter → Bool
is_connected a = a.pool

-- `client` is what the first connection of the new pool does.
pub connect : PostgreSqlAdapter → Result (Unit {0}) → Result (Unit {0}) × PostgreSqlAdapter
connect a client = if a.pool then (ok tt, a) else (client, record a { pool = true })

-- `ended` is the race of the pool's end with the timeout.
pub disconnect : PostgreSqlAdapter → Result (Unit {0}) → Result (Unit {0}) × PostgreSqlAdapter
disconnect a ended =
    if a.pool
    then (if a.is_disconnecting
        then (ok tt, a)
        else (ended, record a { pool = false; is_disconnecting = false }))
    else (ok tt, a)

-- How the pool and the server answer in one attempt, by the server's state before and after: the
-- connection, and the client's BEGIN, COMMIT and ROLLBACK. `none` is success.
pub record Attempt (D : Type 0) : Type 0 where
  pub connect : D → Option DatabaseError × D
  pub begin : D → Option DatabaseError × D
  pub commit : D → Option DatabaseError × D
  pub rollback : D → Option DatabaseError × D

-- The server, the clients taken from the pool and given back, the runs of the callback and the
-- milliseconds waited.
pub record World (D : Type 0) : Type 0 where
  pub server : D
  pub acquired : ℕ
  pub released : ℕ
  pub runs : ℕ
  pub waited : ℕ

abbrev release : {D : Type 0} → World D → World D
release w = record w { released = suc w.released }

abbrev acquire : {D : Type 0} → D → World D → World D
acquire d w = record w { server = d; acquired = suc w.acquired }

module _ {D R : Type 0} (callback : D → Result R × D) where
  -- The answer to COMMIT, after the callback's result.
  commit : R → Option DatabaseError × D → World D → Result R × World D
  commit r (none, d) w = (ok r, record w { server = d })
  commit r (some e, d) w = (throws e, record w { server = d })

  -- What the callback came to.
  called : Attempt D → Result R × D → World D → Result R × World D
  unfolding commit
  called t (ok r, d) w = commit r (t.commit d) w
  called t (throws e, d) w = (throws e, record w { server = d })

  -- The answer to BEGIN.
  began : Attempt D → Option DatabaseError × D → World D → Result R × World D
  unfolding called
  began t (none, d) w = called t (callback d) (record w { runs = suc w.runs })
  began t (some e, d) w = (throws e, record w { server = d })

  -- The body of the `try` block: BEGIN, the callback, COMMIT.
  try_block : Attempt D → World D → Result R × World D
  unfolding began
  try_block t w = began t (t.begin w.server) w

  -- The answer to ROLLBACK, after the error; `retry` is the next round, which `continue` takes.
  rolled_back :
      ℕ
      → DatabaseError
      → Option DatabaseError × D
      → World D
      → (DatabaseError → World D → Result R × World D)
      → Result R × World D
  rolled_back attempt e (some failure, d) w retry =
      (throws failure, release (record w { server = d }))
  rolled_back attempt e (none, d) w retry =
      if is_retryable e
      then retry e (release (record w { server = d; waited = w.waited + 100 * 2 ^ attempt }))
      else (throws e, release (record w { server = d }))

  -- The `catch` and `finally` blocks.
  settle :
      Attempt D
      → ℕ
      → Result R × World D
      → (DatabaseError → World D → Result R × World D)
      → Result R × World D
  unfolding rolled_back
  settle t attempt (ok r, w) retry = (ok r, release w)
  settle t attempt (throws e, w) retry = rolled_back attempt e (t.rollback w.server) w retry

  -- A round, after the pool's answer.
  connected :
      Attempt D
      → ℕ
      → Option DatabaseError × D
      → World D
      → (DatabaseError → World D → Result R × World D)
      → Result R × World D
  unfolding try_block settle
  connected t attempt (some e, d) w retry = (throws e, record w { server = d })
  connected t attempt (none, d) w retry = settle t attempt (try_block t (acquire d w)) retry

  -- The loop, with the rounds left, the number of the round and the last error; `undefined` is the
  -- last error before the first round.
  attempt_loop : (ℕ → Attempt D) → ℕ → ℕ → DatabaseError → World D → Result R × World D
  unfolding connected
  attempt_loop env zero attempt last w = (throws last, w)
  attempt_loop env (suc left) attempt last w =
      connected (env attempt) attempt ((env attempt).connect w.server) w
        (attempt_loop env left (suc attempt))

  -- `undefined_error` is what `throw lastError` throws where no round was made.
  pub transaction_with_retry :
      DatabaseError → (ℕ → Attempt D) → PostgreSqlAdapter → ℕ → World D → Result R × World D
  unfolding attempt_loop
  transaction_with_retry undefined_error env a retries w =
      if a.pool then attempt_loop env retries 0 undefined_error w else (throws not_connected, w)

  pub transaction :
      DatabaseError → (ℕ → Attempt D) → PostgreSqlAdapter → World D → Result R × World D
  transaction undefined_error env a w = transaction_with_retry undefined_error env a 1 w
