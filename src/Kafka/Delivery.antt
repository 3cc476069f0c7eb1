-- ===== src/Kafka/Delivery.antt =====
-- That a message reaches the methods that subscribed to its topic:
-- packages/backend/common/src/infrastructure/kafka/kafka-explorer.ts, kafka-consumer.ts and
-- kafka-message-handler.ts.
use mathlib.Core.Path.{subst}
use express_nest_blueprint.Base.{
  Bool, true, not, ◌&&◌, ◌||◌, List, [], ◌∷◌, ◌++◌, ◌≡◌, if◌then◌else◌, if_cases, refl, ap, arith,
}
use express_nest_blueprint.Base.Settled.{Settled, ok, throws, and_then}
use express_nest_blueprint.Kafka.{
  Topic, ConnectionPromise, no_promise, fulfilled, KafkaSubscribeOptions, KafkaMessagePayload,
  Handler, Client, State, on_world, consumer_connect, producer_connect, subscribe, subscribed_to,
  connect, connect_once, kept, start, running,
}

-- A client whose broker takes every connection and subscription.
pub record Accepts {V W : Type 0} (client : Client V W) : Type 0 where
  pub producers : (w : W) → (client.connect_producer w).0 ≡ ok tt
  pub consumers : (w : W) → (client.connect_consumer w).0 ≡ ok tt
  pub subscribed : (t : Topic) (b : Bool) (w : W) → (client.subscribe_consumer t b w).0 ≡ ok tt

-- A call of a worker that succeeds, and leaves these handlers.
abbrev pub Leaves : {V W : Type 0} → List (Handler V W) → Settled Unit × State V W → Type 0
Leaves handlers x = (x.0 ≡ ok tt) × (x.1.0.is_worker_role ≡ true) × (x.1.0.handlers ≡ handlers)

module _ {V W : Type 0} where
  -- One call after another.
  pub then-Leaves :
      (hs gs : List (Handler V W)) (x : Settled Unit × State V W)
      (f : Unit {0} → State V W → Settled Unit × State V W)
      → Leaves hs x
      → (x.1.0.is_worker_role ≡ true → x.1.0.handlers ≡ hs → Leaves gs (f tt x.1))
      → Leaves gs (and_then x f)
  then-Leaves hs gs (ok u, s) f h g = g h.1 h.2
  then-Leaves hs gs (throws e, s) f h g = absurd (ground (arith, h.0))

module _ {V W : Type 0} (client : Client V W) (accepts : Accepts client) where
  consumer_connect-Leaves :
      (s : State V W) → s.0.is_worker_role ≡ true → Leaves s.0.handlers (consumer_connect client s)
  unfolding consumer_connect
  consumer_connect-Leaves s worker =
      if_cases (Leaves s.0.handlers) (not s.0.is_consumer_connected && s.0.is_worker_role) _ _
        (λ _.
          then-Leaves s.0.handlers s.0.handlers (on_world client.connect_consumer s) _
            (accepts.consumers s.1, worker, refl) (λ w e. (refl, w, e)))
        (λ _. (refl, worker, refl))

  pub subscribe-Leaves :
      (o : KafkaSubscribeOptions) (h : KafkaMessagePayload V → W → Settled Unit × W) (s : State V W)
      → s.0.is_worker_role ≡ true
      → Leaves
          (s.0.handlers ++ record { topic = o.topic; handler = h } ∷ [])
          (subscribe client o h s)
  unfolding subscribe subscribed_to
  subscribe-Leaves o h s worker =
      let hs = s.0.handlers ++ record { topic = o.topic; handler = h } ∷ [] in
      if_cases (Leaves hs) (not s.0.is_worker_role) _ _ (λ e. absurd (ground (arith, e, worker)))
        (λ _.
          then-Leaves s.0.handlers hs
            (if not s.0.is_consumer_connected then consumer_connect client s else (ok tt, s)) _
            (if_cases (Leaves s.0.handlers) (not s.0.is_consumer_connected) _ _
              (λ _. consumer_connect-Leaves s worker) (λ _. (refl, worker, refl)))
            (λ w e.
              then-Leaves s.0.handlers hs _ _ (accepts.subscribed _ _ _, w, e)
                (λ w' e'.
                  (refl, w', ap (λ l. l ++ record { topic = o.topic; handler = h } ∷ []) e'))))

  producer_connect-Leaves :
      (s : State V W) → s.0.is_worker_role ≡ true → Leaves s.0.handlers (producer_connect client s)
  unfolding producer_connect
  producer_connect-Leaves s worker =
      if_cases (Leaves s.0.handlers) s.0.is_producer_connected _ _ (λ _. (refl, worker, refl))
        (λ _.
          then-Leaves s.0.handlers s.0.handlers (on_world client.connect_producer s) _
            (accepts.producers s.1, worker, refl) (λ w e. (refl, w, e)))

  kept-Leaves :
      (hs : List (Handler V W)) (x : Settled Unit × State V W)
      → Leaves hs x
      → Leaves hs (kept client x)
  unfolding kept
  kept-Leaves hs (ok u, s) h = h
  kept-Leaves hs (throws e, s) h = h

  connect_once-Leaves :
      (p : ConnectionPromise) (s : State V W)
      → s.0.is_worker_role ≡ true
      → Leaves s.0.handlers (connect_once client p s)
  unfolding connect_once
  connect_once-Leaves fulfilled s worker = (refl, worker, refl)
  connect_once-Leaves no_promise s worker = kept-Leaves s.0.handlers _ (
      then-Leaves s.0.handlers s.0.handlers (producer_connect client s) _
        (producer_connect-Leaves s worker)
        (λ w e.
          subst (λ hs. Leaves hs (consumer_connect client ((producer_connect client s).1))) e
            (consumer_connect-Leaves ((producer_connect client s).1) w)))

  pub start-Leaves :
      (s : State V W) → s.0.is_worker_role ≡ true → Leaves s.0.handlers (start client s)
  unfolding start connect running
  start-Leaves s worker =
      if_cases (Leaves s.0.handlers) (not s.0.is_worker_role || s.0.is_running) _ _
        (λ _. (refl, worker, refl))
        (λ _.
          then-Leaves s.0.handlers s.0.handlers
            (if not s.0.is_consumer_connected then connect client s else (ok tt, s)) _
            (if_cases (Leaves s.0.handlers) (not s.0.is_consumer_connected) _ _
              (λ _. connect_once-Leaves s.0.connection_promise s worker)
              (λ _. (refl, worker, refl)))
            (λ w e. (refl, w, e)))
