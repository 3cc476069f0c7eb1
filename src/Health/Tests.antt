-- ===== src/Health/Tests.antt =====
-- Health at concrete inputs, and a witness. The world is whether the broker and Redis answer.
use express_nest_blueprint.Base.{
  ℕ, String, Bool, true, false, none, some, [], ◌≡◌, ◌↔◌, if◌then◌else◌, refl,
}
use express_nest_blueprint.Base.Settled.{Settled, ok, throws}
use express_nest_blueprint.Connections.{DatabaseService, get_connection}
use express_nest_blueprint.Kafka.{
  Client, State, no_promise, connect, connect_once, kept, producer_connect, consumer_connect,
}
use express_nest_blueprint.Kafka.Stale.{here, next, happen}
use express_nest_blueprint.Health.{Probes, check_ready}
use express_nest_blueprint.Health.Ready.{Succeeds, check_ready-connected_once}

abbrev answer : Bool → Settled Unit × Bool
answer broker = ((if broker then ok tt else throws "no broker"), broker)

abbrev client : Client String Bool
client = record {
  connect_producer = answer;
  disconnect_producer = answer;
  send = λ payload. answer;
  connect_consumer = answer;
  disconnect_consumer = answer;
  subscribe_consumer = λ topic from_beginning. answer;
  run_consumer = λ handlers broker. broker;
  record_kafka_message = λ topic group result broker. broker;
  observe_kafka_processing = λ topic group broker. broker;
}

abbrev probes : Probes ℕ String Unit Unit Bool
probes = record {
  is_connected = λ adapter broker. true;
  ping = λ broker. (ok "ready", broker);
  get_all_queues = λ broker. ok [];
  get_queue_health = λ queue broker. (ok tt, broker);
  get_compute_status = λ broker. ok tt;
  health_file_exists = λ broker. (ok false, broker);
}

abbrev database : DatabaseService ℕ
database = record { adapters = []; default_adapter = some 1; is_closing = false; is_closed = false }

abbrev started : State String Bool
started = (
  record {
    is_worker_role = false;
    connection_promise = no_promise;
    is_producer_connected = false;
    is_consumer_connected = false;
    handlers = [];
    is_running = false;
  },
  true,
)

connects : (connect client started).0 ≡ ok tt
unfolding connect connect_once kept producer_connect consumer_connect
connects = refl

-- The broker is gone.
abbrev lost : State String Bool
lost = ((connect client started).1.0, false)

check_ready-connected_once_example : Succeeds (check_ready probes client "now" database lost).0 ↔ (
    ((adapter : ℕ) × (get_connection none database ≡ ok adapter)
      × (probes.is_connected adapter lost.1 ≡ true))
    × Succeeds (probes.ping lost.1).0)
check_ready-connected_once_example =
    check_ready-connected_once probes client "now" database started lost connects
      (next here (happen false))
