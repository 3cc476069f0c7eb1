-- ===== src/Kafka.antt =====
-- KafkaService with KafkaProducer and KafkaConsumer: packages/backend/common/src/infrastructure/kafka. The
-- client of kafkajs and the metrics act on a world `W` and are arguments; the client's texts are of no
-- interest here, so that a message's value is a `V`.
pub mod Messages
pub mod Explorer
pub mod Delivery
pub mod Reached
pub mod Stale
mod Tests
use package.text.Mathlib.Text.{◌==◌ as str_eq}
use express_nest_blueprint.Base.{
  ℕ, String, Bool, true, false, not, ◌||◌, ◌&&◌, get_or, Option, none, some, List, [], ◌∷◌, ◌++◌,
  if◌then◌else◌,
}
use express_nest_blueprint.Base.Map.{Map}
use express_nest_blueprint.Base.Settled.{Settled, ok, throws, and_then}

-- `string | RegExp`: a pattern with what `toString` and `test` give of it.
pub data Topic : Type 0 where
  name : String → Topic
  pattern : String → (String → Bool) → Topic

pub record KafkaSubscribeOptions : Type 0 where
  pub topic : Topic
  pub from_beginning : Option Bool

pub record KafkaMessagePayload (V : Type 0) : Type 0 where
  pub topic : String
  pub partition : Option ℕ
  pub value : Option V
  pub key : Option String
  pub headers : Option (Map String)
  pub timestamp : Option String

pub record Handler (V W : Type 0) : Type 0 where
  pub topic : Topic
  pub handler : KafkaMessagePayload V → W → Settled Unit × W

pub data MessageResult : Type 0 where
  success : MessageResult
  error : MessageResult

-- The producer and the consumer of kafkajs, and MetricsService.
pub record Client (V W : Type 0) : Type 0 where
  pub connect_producer : W → Settled Unit × W
  pub disconnect_producer : W → Settled Unit × W
  pub send : KafkaMessagePayload V → W → Settled Unit × W
  pub connect_consumer : W → Settled Unit × W
  pub disconnect_consumer : W → Settled Unit × W
  pub subscribe_consumer : Topic → Bool → W → Settled Unit × W
  -- `consumer.run`, which goes on in the background.
  pub run_consumer : List (Handler V W) → W → W
  pub record_kafka_message : String → String → MessageResult → W → W
  pub observe_kafka_processing : String → String → W → W

-- `connectionPromise`, between two calls: one that is pending is shared by the calls that wait for it.
pub data ConnectionPromise : Type 0 where
  no_promise : ConnectionPromise
  fulfilled : ConnectionPromise

pub record KafkaService (V W : Type 0) : Type 0 where
  pub is_worker_role : Bool
  pub connection_promise : ConnectionPromise
  pub is_producer_connected : Bool
  pub is_consumer_connected : Bool
  pub handlers : List (Handler V W)
  pub is_running : Bool

abbrev pub State : Type 0 → Type 0 → Type 0
State V W = KafkaService V W × W

module _ {V W : Type 0} where
  -- A call on the world alone.
  abbrev pub on_world : (W → Settled Unit × W) → State V W → Settled Unit × State V W
  on_world call (k, w) = let x = call w in (x.0, (k, x.1))

  -- An assignment to fields.
  abbrev pub assign : (KafkaService V W → KafkaService V W) → State V W → Settled Unit × State V W
  assign f (k, w) = (ok tt, (f k, w))

module _ {V W : Type 0} (client : Client V W) where
  unfoldable pub producer_connect : State V W → Settled Unit × State V W
  producer_connect s =
      if s.0.is_producer_connected
      then (ok tt, s)
      else and_then (on_world client.connect_producer s)
          (λ _ s'. assign (λ k. record k { is_producer_connected = true }) s')

  unfoldable pub producer_disconnect : State V W → Settled Unit × State V W
  producer_disconnect s =
      and_then
        (if s.0.is_producer_connected then on_world client.disconnect_producer s else (ok tt, s))
        (λ _ s'. assign (λ k. record k { is_producer_connected = false }) s')

  -- What comes of `send`, with its metric.
  unfoldable pub sent : String → Settled Unit × State V W → Settled Unit × State V W
  sent topic (ok u, (k, w)) = (ok u, (k, client.record_kafka_message topic "producer" success w))
  sent topic (throws e, (k, w)) =
      (throws e, (k, client.record_kafka_message topic "producer" error w))

  unfoldable pub produce : KafkaMessagePayload V → State V W → Settled Unit × State V W
  unfolding producer_connect sent
  produce payload s =
      and_then (producer_connect s) (λ _ s'. sent payload.topic (on_world (client.send payload) s'))

  unfoldable pub consumer_connect : State V W → Settled Unit × State V W
  consumer_connect s =
      if not s.0.is_consumer_connected && s.0.is_worker_role
      then and_then (on_world client.connect_consumer s)
          (λ _ s'. assign (λ k. record k { is_consumer_connected = true }) s')
      else (ok tt, s)

  unfoldable pub consumer_disconnect : State V W → Settled Unit × State V W
  consumer_disconnect s =
      and_then
        (if s.0.is_consumer_connected && s.0.is_worker_role
          then on_world client.disconnect_consumer s
          else (ok tt, s))
        (λ _ s'. assign (λ k. record k { is_consumer_connected = false; is_running = false }) s')

  -- The subscription of the connected consumer.
  unfoldable pub subscribed_to :
      KafkaSubscribeOptions
      → (KafkaMessagePayload V → W → Settled Unit × W)
      → State V W
      → Settled Unit × State V W
  subscribed_to options handler s =
      and_then
        (on_world (client.subscribe_consumer options.topic (get_or options.from_beginning false)) s)
        (λ _ s'.
          assign
            (λ k. record k {
              handlers = k.handlers ++ record { topic = options.topic; handler = handler } ∷ [];
            })
            s')

  unfoldable pub subscribe :
      KafkaSubscribeOptions
      → (KafkaMessagePayload V → W → Settled Unit × W)
      → State V W
      → Settled Unit × State V W
  unfolding consumer_connect subscribed_to
  subscribe options handler s =
      if not s.0.is_worker_role
      then (ok tt, s)
      else and_then (if not s.0.is_consumer_connected then consumer_connect s else (ok tt, s))
          (λ _ s'. subscribed_to options handler s')

  -- The promise is kept once both are connected, and given up after an error.
  unfoldable pub kept : Settled Unit × State V W → Settled Unit × State V W
  kept (ok u, (k, w)) = (ok u, (record k { connection_promise = fulfilled }, w))
  kept (throws e, s) = (throws e, s)

  unfoldable pub connect_once : ConnectionPromise → State V W → Settled Unit × State V W
  unfolding kept producer_connect consumer_connect
  connect_once fulfilled s = (ok tt, s)
  connect_once no_promise s = kept (and_then (producer_connect s) (λ _ s'. consumer_connect s'))

  unfoldable pub connect : State V W → Settled Unit × State V W
  unfolding connect_once
  connect s = connect_once s.0.connection_promise s

  unfoldable pub disconnect : State V W → Settled Unit × State V W
  unfolding producer_disconnect consumer_disconnect
  disconnect s = and_then (producer_disconnect s) (λ _ s'. consumer_disconnect s')

  unfoldable pub running : State V W → Settled Unit × State V W
  running (k, w) = (ok tt, (record k { is_running = true }, client.run_consumer k.handlers w))

  unfoldable pub start : State V W → Settled Unit × State V W
  unfolding connect running
  start s =
      if not s.0.is_worker_role || s.0.is_running
      then (ok tt, s)
      else and_then (if not s.0.is_consumer_connected then connect s else (ok tt, s))
          (λ _ s'. running s')

  -- `.catch(() => this.kafkaConsumer.setRunning(false))`.
  unfoldable pub run_failed : State V W → Settled Unit × State V W
  run_failed s = assign (λ k. record k { is_running = false }) s
