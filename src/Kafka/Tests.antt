-- ===== src/Kafka/Tests.antt =====
-- Kafka at concrete inputs, and witnesses. The world is what has happened, the last first.
use express_nest_blueprint.Base.{String, true, false, Option, none, some, List, [], ◌∷◌, ◌≡◌, refl}
use express_nest_blueprint.Base.Text.{starts_with}
use express_nest_blueprint.Base.Settled.{ok, throws}
use express_nest_blueprint.Kafka.{
  name, pattern, Client, KafkaService, State, no_promise, connect, connect_once, kept,
  producer_connect, consumer_connect,
}
use express_nest_blueprint.Kafka.Messages.{
  EachMessagePayload, parse_message, topic_matches, is_internal,
}
use express_nest_blueprint.Kafka.Explorer.{OnMessage, KafkaExplorer}
use express_nest_blueprint.Kafka.Reached.{methods_of, methods_in, is_for, delivered, after_method}

abbrev Log : Type 0
Log = List String

abbrev client : Client String Log
client = record {
  connect_producer = λ w. (ok tt, "producer connects" ∷ w);
  disconnect_producer = λ w. (ok tt, "producer leaves" ∷ w);
  send = λ payload w. (ok tt, "sent" ∷ w);
  connect_consumer = λ w. (ok tt, "consumer connects" ∷ w);
  disconnect_consumer = λ w. (ok tt, "consumer leaves" ∷ w);
  subscribe_consumer = λ topic from_beginning w. (ok tt, "subscribed" ∷ w);
  run_consumer = λ handlers w. "running" ∷ w;
  record_kafka_message = λ topic group result w. "counted" ∷ w;
  observe_kafka_processing = λ topic group w. "observed" ∷ w;
}

abbrev worker : KafkaService String Log
worker = record {
  is_worker_role = true;
  connection_promise = no_promise;
  is_producer_connected = false;
  is_consumer_connected = false;
  handlers = [];
  is_running = false;
}

abbrev first : State String Log
first = (worker, [])

abbrev failing : OnMessage String Log
failing = record {
  options = record { topic = name "users"; from_beginning = none };
  method = some (λ payload w. (throws "no", "failed" ∷ w));
}

abbrev generic : OnMessage String Log
generic = record {
  options = record { topic = pattern "/.*/" (λ t. true); from_beginning = none };
  method = some (λ payload w. (ok tt, "seen" ∷ w));
}

abbrev explorer : KafkaExplorer String Log
explorer = record {
  is_explored = false;
  registry =
      record { container_error = none; handlers = some (failing ∷ []) }
      ∷ record { container_error = none; handlers = some (generic ∷ []) }
      ∷ [];
}

abbrev message : EachMessagePayload
message = record {
  topic = "users";
  partition = 0;
  value = some "{}";
  key = none;
  headers = none;
  timestamp = "0";
}

abbrev parse : String → Option String
parse text = some text

abbrev same : String → String
same text = text

explored :
    (delivered (methods_of explorer.registry) "users" (parse_message parse same message) [])
    ≡ "seen" ∷ "failed" ∷ []
unfolding delivered methods_of methods_in is_for is_internal topic_matches after_method starts_with
explored = refl

connects : (connect client first).0 ≡ ok tt
unfolding connect connect_once kept producer_connect consumer_connect
connects = refl
