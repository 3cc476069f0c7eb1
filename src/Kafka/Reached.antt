-- ===== src/Kafka/Reached.antt =====
-- What a message does once the subscribers are explored:
-- packages/backend/common/src/infrastructure/kafka/kafka-explorer.ts and kafka-message-handler.ts.
use package.text.Mathlib.Text.{◌==◌ as str_eq}
use express_nest_blueprint.Base.{
  String, Bool, not, ◌&&◌, Option, none, some, List, [], ◌∷◌, ◌++◌, ◌≡◌, if◌then◌else◌,
}
use express_nest_blueprint.Base.Settled.{Settled}
use express_nest_blueprint.Kafka.{Topic, name, pattern, KafkaMessagePayload, Handler}
use express_nest_blueprint.Kafka.Messages.{is_internal}
use express_nest_blueprint.Kafka.Explorer.{OnMessage, SubscriberClass, guarded}

-- A subscription hears its own topic, or each that its pattern takes, but the pattern of all topics
-- none of Kafka's own.
unfoldable pub hears : String → Topic → Bool
hears topic (name own) = str_eq own topic
hears topic (pattern source test) = test topic && not (is_internal topic && str_eq source "/.*/")

module _ {V W : Type 0} where
  abbrev to_handler : OnMessage V W → Handler V W
  to_handler m = record { topic = m.options.topic; handler = guarded m.method }

  unfoldable pub methods_in : Option (List (OnMessage V W)) → List (OnMessage V W)
  methods_in none = []
  methods_in (some ms) = ms

  -- The methods that subscribe, in the order of their classes.
  unfoldable pub methods_of : List (SubscriberClass V W) → List (OnMessage V W)
  unfolding methods_in
  methods_of [] = []
  methods_of (c ∷ classes) = methods_in c.handlers ++ methods_of classes

  -- The container gives an instance of the class.
  abbrev pub IsResolved : SubscriberClass V W → Type 0
  IsResolved c = c.container_error ≡ none

  -- The world after a method, whether it fails or not.
  unfoldable pub after_method :
      Option (KafkaMessagePayload V → W → Settled Unit × W) → KafkaMessagePayload V → W → W
  after_method none payload w = w
  after_method (some f) payload w = (f payload w).1

  unfoldable pub is_for : String → OnMessage V W → Bool
  unfolding hears
  is_for topic m = hears topic m.options.topic

  -- The world after each of the methods that a message is for.
  unfoldable pub delivered : List (OnMessage V W) → String → KafkaMessagePayload V → W → W
  unfolding after_method is_for
  delivered [] topic payload w = w
  delivered (m ∷ ms) topic payload w =
      delivered ms topic payload (if is_for topic m then after_method m.method payload w else w)
