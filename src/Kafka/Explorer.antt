-- ===== src/Kafka/Explorer.antt =====
-- KafkaExplorer: packages/backend/common/src/infrastructure/kafka/kafka-explorer.ts. The instances that the
-- container resolves for the classes of the registry are arguments, by their methods.
use express_nest_blueprint.Base.{
  String, Bool, true, Option, none, some, List, [], ◌∷◌, if◌then◌else◌,
}
use express_nest_blueprint.Base.Settled.{Settled, ok, throws, and_then}
use express_nest_blueprint.Kafka.{
  KafkaSubscribeOptions, KafkaMessagePayload, Client, State, subscribe, start,
}
use express_nest_blueprint.Kafka.Messages.{caught}

-- An entry of the metadata of `@OnMessage`, with the method of the instance, if it is a function.
pub record OnMessage (V W : Type 0) : Type 0 where
  pub options : KafkaSubscribeOptions
  pub method : Option (KafkaMessagePayload V → W → Settled Unit × W)

-- A class of `KAFKA_SUBSCRIBER_REGISTRY`, by its metadata and by what the container's `has`, `register`
-- and `resolve` throw for it, if one of them does.
pub record SubscriberClass (V W : Type 0) : Type 0 where
  pub container_error : Option String
  pub handlers : Option (List (OnMessage V W))

pub record KafkaExplorer (V W : Type 0) : Type 0 where
  pub is_explored : Bool
  pub registry : List (SubscriberClass V W)

module _ {V W : Type 0} where
  -- The function that is subscribed: an error of the method is logged.
  unfoldable pub guarded :
      Option (KafkaMessagePayload V → W → Settled Unit × W)
      → KafkaMessagePayload V
      → W
      → Settled Unit × W
  unfolding caught
  guarded none payload w = (ok tt, w)
  guarded (some method) payload w = (ok tt, caught (method payload w))

  -- What follows an explorer's step: the explorer beside the state.
  abbrev beside :
      KafkaExplorer V W → Settled Unit × State V W → Settled Unit × (KafkaExplorer V W × State V W)
  beside explorer x = (x.0, (explorer, x.1))

module _ {V W : Type 0} (client : Client V W) where
  unfoldable pub subscribe_each : List (OnMessage V W) → State V W → Settled Unit × State V W
  unfolding guarded
  subscribe_each [] s = (ok tt, s)
  subscribe_each (h ∷ handlers) s =
      and_then (subscribe client h.options (guarded h.method) s)
        (λ _ s'. subscribe_each handlers s')

  unfoldable pub subscribe_found :
      Option (List (OnMessage V W)) → State V W → Settled Unit × State V W
  unfolding subscribe_each
  subscribe_found none s = (ok tt, s)
  subscribe_found (some handlers) s = subscribe_each handlers s

  unfoldable pub subscribe_resolved :
      Option String → Option (List (OnMessage V W)) → State V W → Settled Unit × State V W
  unfolding subscribe_found
  subscribe_resolved (some e) handlers s = (throws e, s)
  subscribe_resolved none handlers s = subscribe_found handlers s

  unfoldable pub subscribe_classes :
      List (SubscriberClass V W) → State V W → Settled Unit × State V W
  unfolding subscribe_resolved
  subscribe_classes [] s = (ok tt, s)
  subscribe_classes (c ∷ classes) s =
      and_then (subscribe_resolved c.container_error c.handlers s)
        (λ _ s'. subscribe_classes classes s')

  unfoldable pub explore :
      KafkaExplorer V W → State V W → Settled Unit × (KafkaExplorer V W × State V W)
  unfolding subscribe_classes
  explore explorer s =
      if explorer.is_explored
      then (ok tt, (explorer, s))
      else and_then
          (beside (record explorer { is_explored = true })
            (and_then (subscribe_classes explorer.registry s) (λ _ s'. start client s')))
          (λ _ (s' : KafkaExplorer V W × State V W).
            (ok tt, (record (s'.0) { registry = [] }, s'.1)))
