-- ===== src/Health.antt =====
-- HealthService: packages/backend/common/src/infrastructure/health/health.service.ts, over the connections of
-- DatabaseService and KafkaService. Redis, the queues, the compute workers and the storage are arguments on
-- the world `W`, and so is the time of a call.
pub mod Ready
mod Tests
use express_nest_blueprint.Base.{
  String, Bool, true, false, ◌&&◌, Option, none, some, List, [], ◌∷◌, ◌++◌, if◌then◌else◌,
}
use express_nest_blueprint.Base.Settled.{Settled, ok, throws, and_then}
use express_nest_blueprint.Connections.{DatabaseService, get_connection}
use express_nest_blueprint.Kafka.{Client, State, connect}

pub data Status : Type 0 where
  up : Status
  down : Status

-- The status of a component, with what is known of it and its error.
pub record ComponentStatus (I : Type 0) : Type 0 where
  pub status : Status
  pub info : Option I
  pub failure : Option String

pub record LiveCheckResult : Type 0 where
  pub status : Status
  pub timestamp : String

pub record ReadyCheckResult (R : Type 0) : Type 0 where
  pub status : Status
  pub timestamp : String
  pub database : ComponentStatus Unit
  pub redis : ComponentStatus R
  pub kafka : ComponentStatus Unit

pub record HealthCheckResult (R Q C : Type 0) : Type 0 where
  pub status : Status
  pub timestamp : String
  pub database : ComponentStatus Unit
  pub redis : ComponentStatus R
  pub queues : ComponentStatus (List Q)
  pub compute_workers : ComponentStatus C
  pub kafka : ComponentStatus Unit
  pub storage : ComponentStatus Unit

-- `adapter.isConnected()`, `redis.ping()` with the status of the client, the queues and their health, the
-- status of the compute service, and `storage.exists('.health-check')`.
pub record Probes (D R Q C W : Type 0) : Type 0 where
  pub is_connected : D → W → Bool
  pub ping : W → Settled R × W
  pub get_all_queues : W → Settled (List String)
  pub get_queue_health : String → W → Settled Q × W
  pub get_compute_status : W → Settled C
  pub health_file_exists : W → Settled Bool × W

module _ {I : Type 0} where
  -- `try { return { status: 'up', ... } } catch { return { status: 'down', error } }`.
  unfoldable pub reported : Settled I → ComponentStatus I
  reported (ok i) = record { status = up; info = some i; failure = none }
  reported (throws e) = record { status = down; info = none; failure = some e }

  unfoldable pub is_up : ComponentStatus I → Bool
  is_up s = elim (s.status) [ up ↦ true | down ↦ false ]

abbrev pub status_of : Bool → Status
status_of healthy = if healthy then up else down

unfoldable pub check_live : String → LiveCheckResult
check_live now = record { status = up; timestamp = now }

module _ {D R Q C V W : Type 0} (probes : Probes D R Q C W) (client : Client V W) where
  connected : Settled D → W → ComponentStatus Unit
  unfolding reported
  connected (throws e) w = reported (throws e)
  connected (ok adapter) w = record {
    status = status_of (probes.is_connected adapter w);
    info = none;
    failure = none;
  }

  unfoldable pub check_database : DatabaseService D → W → ComponentStatus Unit
  unfolding connected
  check_database db w = connected (get_connection none db) w

  unfoldable pub check_redis : State V W → ComponentStatus R × State V W
  unfolding reported
  check_redis s = let x = probes.ping s.1 in (reported x.0, (s.0, x.1))

  -- The loop of `checkQueues`.
  queue_healths : List String → W → Settled (List Q) × W
  queue_healths [] w = (ok [], w)
  queue_healths (name ∷ names) w =
      and_then (probes.get_queue_health name w)
        (λ q w'. and_then (queue_healths names w') (λ qs w''. (ok (q ∷ qs), w'')))

  queues_found : Settled (List String) → W → Settled (List Q) × W
  unfolding queue_healths
  queues_found (throws e) w = (throws e, w)
  queues_found (ok names) w = queue_healths names w

  unfoldable pub check_queues : State V W → ComponentStatus (List Q) × State V W
  unfolding queues_found reported
  check_queues s =
      let x = queues_found (probes.get_all_queues s.1) s.1 in (reported x.0, (s.0, x.1))

  unfoldable pub check_compute : W → ComponentStatus C
  unfolding reported
  check_compute w = reported (probes.get_compute_status w)

  unfoldable pub check_kafka : State V W → ComponentStatus Unit × State V W
  unfolding reported
  check_kafka s = let x = connect client s in (reported x.0, x.1)

  -- `await this.storageService.exists(...)`, whose answer nobody reads.
  checked : Settled Bool → ComponentStatus Unit
  unfolding reported
  checked (ok exists_it) = reported (ok tt)
  checked (throws e) = reported (throws e)

  unfoldable pub check_storage : State V W → ComponentStatus Unit × State V W
  unfolding checked
  check_storage s = let x = probes.health_file_exists s.1 in (checked x.0, (s.0, x.1))

  unfoldable pub check_ready :
      String → DatabaseService D → State V W → Settled (ReadyCheckResult R) × State V W
  unfolding check_database check_redis check_kafka is_up
  check_ready now db s =
      let database = check_database db s.1 in
      let redis = check_redis s in
      let kafka = check_kafka redis.1 in
      if is_up database && is_up redis.0 && is_up kafka.0
      then (
        ok (record {
          status = up;
          timestamp = now;
          database = database;
          redis = redis.0;
          kafka = kafka.0;
        }),
        kafka.1,
      )
      else (throws "Service not ready: Database, Redis or Kafka is down", kafka.1)

  unfoldable pub check_health :
      String → DatabaseService D → State V W → HealthCheckResult R Q C × State V W
  unfolding check_database check_redis check_queues check_compute check_kafka check_storage is_up
  check_health now db s =
      let database = check_database db s.1 in
      let redis = check_redis s in
      let queues = check_queues redis.1 in
      let compute = check_compute queues.1.1 in
      let kafka = check_kafka queues.1 in
      let storage = check_storage kafka.1 in
      (
        record {
          status = status_of (is_up database && is_up redis.0 && is_up kafka.0 && is_up storage.0);
          timestamp = now;
          database = database;
          redis = redis.0;
          queues = queues.0;
          compute_workers = compute;
          kafka = kafka.0;
          storage = storage.0;
        },
        storage.1,
      )
