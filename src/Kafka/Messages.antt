-- ===== src/Kafka/Messages.antt =====
-- KafkaMessageProcessor: packages/backend/common/src/infrastructure/kafka/kafka-message-handler.ts.
-- JSON and the bytes of a message are arguments.
use package.text.Mathlib.Text.{◌==◌ as str_eq}
use express_nest_blueprint.Base.{
  ℕ, String, Bool, false, ◌&&◌, Option, none, some, List, [], ◌∷◌, filter, get_or, if◌then◌else◌,
}
use express_nest_blueprint.Base.Settled.{Settled, ok}
use express_nest_blueprint.Base.Map.{Map}
use express_nest_blueprint.Base.Text.{codes, starts_with}
use express_nest_blueprint.Kafka.{
  Topic, name, pattern, KafkaMessagePayload, Handler, Client, success,
}

-- `EachMessagePayload`, with the text of `message.value`.
pub record EachMessagePayload : Type 0 where
  pub topic : String
  pub partition : ℕ
  pub value : Option String
  pub key : Option String
  pub headers : Option (Map String)
  pub timestamp : String

unfoldable pub topic_matches : String → Bool → Topic → Bool
topic_matches topic is_internal_topic (name n) = str_eq n topic
topic_matches topic is_internal_topic (pattern source test) =
    if is_internal_topic && str_eq source "/.*/" then false else test topic

unfoldable pub is_internal : String → Bool
is_internal topic = starts_with (codes topic) (codes "__")

-- `try { await h.handler(payload) } catch { log }`.
unfoldable pub caught : {W : Type 0} → Settled Unit × W → W
caught x = x.1

module _ {V W : Type 0} where
  unfoldable pub find_matching_handlers : String → List (Handler V W) → Bool → List (Handler V W)
  unfolding topic_matches
  find_matching_handlers topic handlers is_internal_topic =
      filter (λ h. topic_matches topic is_internal_topic h.topic) handlers

  unfoldable pub call_each : List (Handler V W) → KafkaMessagePayload V → W → W
  unfolding caught
  call_each [] payload w = w
  call_each (h ∷ handlers) payload w = call_each handlers payload (caught (h.handler payload w))

-- `JSON.parse(value)`, or the text where it is no JSON.
parse_value : {V : Type 0} → (String → Option V) → (String → V) → Option String → Option V
parse_value parse text none = none
parse_value parse text (some value) = some (get_or (parse value) (text value))

module _ {V : Type 0} (parse : String → Option V) (text : String → V) where
  unfoldable pub parse_message : EachMessagePayload → KafkaMessagePayload V
  unfolding parse_value
  parse_message payload = record {
    topic = payload.topic;
    partition = some payload.partition;
    value = parse_value parse text payload.value;
    key = payload.key;
    headers = payload.headers;
    timestamp = some payload.timestamp;
  }

module _ {V W : Type 0} (client : Client V W) (group_id : String) where
  unfoldable pub execute_handlers :
      List (Handler V W) → KafkaMessagePayload V → String → W → Settled Unit × W
  unfolding call_each
  execute_handlers handlers payload topic w =
      let called = call_each handlers payload w in
      let recorded = client.record_kafka_message topic group_id success called in
      (ok tt, client.observe_kafka_processing topic group_id recorded)

  unfoldable pub executed :
      List (Handler V W) → KafkaMessagePayload V → String → W → Settled Unit × W
  unfolding execute_handlers
  executed [] payload topic w = (ok tt, w)
  executed (h ∷ handlers) payload topic w = execute_handlers (h ∷ handlers) payload topic w

  unfoldable pub process_message :
      (String → Option V)
      → (String → V)
      → EachMessagePayload
      → List (Handler V W)
      → W
      → Settled Unit × W
  unfolding executed find_matching_handlers parse_message is_internal
  process_message parse text payload handlers w =
      executed (find_matching_handlers payload.topic handlers (is_internal payload.topic))
        (parse_message parse text payload) payload.topic w
