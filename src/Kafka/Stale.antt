-- ===== src/Kafka/Stale.antt =====
-- What the shared promise of `connect` does to later calls:
-- packages/backend/common/src/infrastructure/kafka/kafka.service.ts.
use mathlib.Core.Path.{subst}
use express_nest_blueprint.Base.{
  String, Bool, false, not, ◌&&◌, ◌||◌, ◌≡◌, if◌then◌else◌, if_cases, get_or, refl, sym, ap, arith,
}
use express_nest_blueprint.Base.Settled.{Settled, ok, throws, and_then}
use express_nest_blueprint.Kafka.{
  ConnectionPromise, no_promise, fulfilled, KafkaSubscribeOptions, KafkaMessagePayload, Client,
  State, on_world, producer_connect, producer_disconnect, consumer_connect, consumer_disconnect,
  produce, sent, subscribe, subscribed_to, connect, connect_once, kept, disconnect, start, running,
  run_failed,
}

abbrev IsFulfilled : {V W : Type 0} → State V W → Type 0
IsFulfilled s = s.0.connection_promise ≡ fulfilled

module _ {V W : Type 0} where
  then-IsFulfilled :
      (x : Settled Unit × State V W) (f : Unit {0} → State V W → Settled Unit × State V W)
      → IsFulfilled x.1
      → ((s : State V W) → IsFulfilled s → IsFulfilled (f tt s).1)
      → IsFulfilled (and_then x f).1
  then-IsFulfilled (ok u, s) f h g = g s h
  then-IsFulfilled (throws e, s) f h g = h

  either-IsFulfilled :
      (b : Bool) (x y : Settled Unit × State V W)
      → IsFulfilled x.1
      → IsFulfilled y.1
      → IsFulfilled (if b then x else y).1
  either-IsFulfilled b x y h g = if_cases (λ z. IsFulfilled (z.1)) b x y (λ _. h) (λ _. g)

module _ {V W : Type 0} (client : Client V W) where
  producer_connect-IsFulfilled :
      (s : State V W) → IsFulfilled s → IsFulfilled (producer_connect client s).1
  unfolding producer_connect
  producer_connect-IsFulfilled s h =
      either-IsFulfilled s.0.is_producer_connected _ _ h
        (then-IsFulfilled (on_world client.connect_producer s) _ h (λ s' h'. h'))

  consumer_connect-IsFulfilled :
      (s : State V W) → IsFulfilled s → IsFulfilled (consumer_connect client s).1
  unfolding consumer_connect
  consumer_connect-IsFulfilled s h =
      either-IsFulfilled (not s.0.is_consumer_connected && s.0.is_worker_role) _ _
        (then-IsFulfilled (on_world client.connect_consumer s) _ h (λ s' h'. h')) h

  producer_disconnect-IsFulfilled :
      (s : State V W) → IsFulfilled s → IsFulfilled (producer_disconnect client s).1
  unfolding producer_disconnect
  producer_disconnect-IsFulfilled s h =
      then-IsFulfilled
        (if s.0.is_producer_connected then on_world client.disconnect_producer s else (ok tt, s)) _
        (either-IsFulfilled s.0.is_producer_connected _ _ h h) (λ s' h'. h')

  consumer_disconnect-IsFulfilled :
      (s : State V W) → IsFulfilled s → IsFulfilled (consumer_disconnect client s).1
  unfolding consumer_disconnect
  consumer_disconnect-IsFulfilled s h =
      then-IsFulfilled
        (if s.0.is_consumer_connected && s.0.is_worker_role
          then on_world client.disconnect_consumer s
          else (ok tt, s))
        _ (either-IsFulfilled (s.0.is_consumer_connected && s.0.is_worker_role) _ _ h h)
        (λ s' h'. h')

  disconnect-IsFulfilled : (s : State V W) → IsFulfilled s → IsFulfilled (disconnect client s).1
  unfolding disconnect
  disconnect-IsFulfilled s h =
      then-IsFulfilled (producer_disconnect client s) (λ _ s'. consumer_disconnect client s')
        (producer_disconnect-IsFulfilled s h) consumer_disconnect-IsFulfilled

  sent-IsFulfilled :
      (topic : String) (x : Settled Unit × State V W)
      → IsFulfilled x.1
      → IsFulfilled (sent client topic x).1
  unfolding sent
  sent-IsFulfilled topic (ok u, s) h = h
  sent-IsFulfilled topic (throws e, s) h = h

  produce-IsFulfilled :
      (payload : KafkaMessagePayload V) (s : State V W)
      → IsFulfilled s
      → IsFulfilled (produce client payload s).1
  unfolding produce
  produce-IsFulfilled payload s h =
      then-IsFulfilled (producer_connect client s) _ (producer_connect-IsFulfilled s h)
        (λ s' h'. sent-IsFulfilled payload.topic (on_world (client.send payload) s') h')

  subscribed_to-IsFulfilled :
      (o : KafkaSubscribeOptions) (f : KafkaMessagePayload V → W → Settled Unit × W) (s : State V W)
      → IsFulfilled s
      → IsFulfilled (subscribed_to client o f s).1
  unfolding subscribed_to
  subscribed_to-IsFulfilled o f s h =
      then-IsFulfilled
        (on_world (client.subscribe_consumer o.topic (get_or o.from_beginning false)) s) _ h
        (λ s' h'. h')

  subscribe-IsFulfilled :
      (o : KafkaSubscribeOptions) (f : KafkaMessagePayload V → W → Settled Unit × W) (s : State V W)
      → IsFulfilled s
      → IsFulfilled (subscribe client o f s).1
  unfolding subscribe
  subscribe-IsFulfilled o f s h = either-IsFulfilled (not s.0.is_worker_role) _ _ h (
      then-IsFulfilled
        (if not s.0.is_consumer_connected then consumer_connect client s else (ok tt, s)) _
        (either-IsFulfilled (not s.0.is_consumer_connected) _ _ (consumer_connect-IsFulfilled s h)
          h)
        (subscribed_to-IsFulfilled o f))

  connect_lem : (s : State V W) → IsFulfilled s → connect client s ≡ (ok tt, s)
  unfolding connect connect_once
  connect_lem s h = ap (λ p. connect_once client p s) h

  start-IsFulfilled : (s : State V W) → IsFulfilled s → IsFulfilled (start client s).1
  unfolding start running
  start-IsFulfilled s h = either-IsFulfilled (not s.0.is_worker_role || s.0.is_running) _ _ h (
      then-IsFulfilled (if not s.0.is_consumer_connected then connect client s else (ok tt, s)) _
        (either-IsFulfilled (not s.0.is_consumer_connected) _ _
          (subst (λ x. IsFulfilled (x.1)) (sym (connect_lem s h)) h) h)
        (λ s' h'. h'))

  -- A call of the service, a consumer that fails, or anything that happens in the world.
  pub data Step (s : State V W) : State V W → Type 0 where
    call_connect : Step s ((connect client s).1)
    call_disconnect : Step s ((disconnect client s).1)
    call_produce : (payload : KafkaMessagePayload V) → Step s ((produce client payload s).1)
    call_subscribe :
        (o : KafkaSubscribeOptions) (f : KafkaMessagePayload V → W → Settled Unit × W)
        → Step s ((subscribe client o f s).1)
    call_start : Step s ((start client s).1)
    fail_run : Step s ((run_failed client s).1)
    happen : (w : W) → Step s (s.0, w)

  pub data Reach (s : State V W) : State V W → Type 0 where
    here : Reach s s
    next : {t u : State V W} → Reach s t → Step t u → Reach s u

  Step-IsFulfilled : {s t : State V W} → Step s t → IsFulfilled s → IsFulfilled t
  unfolding run_failed
  Step-IsFulfilled {s = s} call_connect h = subst (λ x. IsFulfilled (x.1)) (sym (connect_lem s h)) h
  Step-IsFulfilled call_disconnect h = disconnect-IsFulfilled _ h
  Step-IsFulfilled (call_produce payload) h = produce-IsFulfilled payload _ h
  Step-IsFulfilled (call_subscribe o f) h = subscribe-IsFulfilled o f _ h
  Step-IsFulfilled call_start h = start-IsFulfilled _ h
  Step-IsFulfilled fail_run h = h
  Step-IsFulfilled (happen w) h = h

  Reach-IsFulfilled : {s t : State V W} → Reach s t → IsFulfilled s → IsFulfilled t
  Reach-IsFulfilled here h = h
  Reach-IsFulfilled (next r st) h = Step-IsFulfilled st (Reach-IsFulfilled r h)

  kept-IsFulfilled :
      (x : Settled Unit × State V W) → (kept client x).0 ≡ ok tt → IsFulfilled (kept client x).1
  unfolding kept
  kept-IsFulfilled (ok u, s) h = refl
  kept-IsFulfilled (throws e, s) h = absurd (ground (arith, h))

  connect_once-IsFulfilled :
      (p : ConnectionPromise) (s : State V W)
      → s.0.connection_promise ≡ p
      → (connect_once client p s).0 ≡ ok tt
      → IsFulfilled (connect_once client p s).1
  unfolding connect_once
  connect_once-IsFulfilled fulfilled s e h = e
  connect_once-IsFulfilled no_promise s e h = kept-IsFulfilled _ h

-- Once `connect` has succeeded, it succeeds at once for ever and asks the broker nothing: whatever calls
-- of the service came in between, its disconnect among them, and whatever became of the broker.
pub connect-again :
    {V W : Type 0} (client : Client V W) (s s' : State V W)
    → (connect client s).0 ≡ ok tt
    → Reach client ((connect client s).1) s'
    → connect client s' ≡ (ok tt, s')
unfolding connect
connect-again client s s' first run = connect_lem client s' (
    Reach-IsFulfilled client run
      (connect_once-IsFulfilled client s.0.connection_promise s refl first))
