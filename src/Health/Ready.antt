-- ===== src/Health/Ready.antt =====
-- That readiness stops looking at Kafka: packages/backend/common/src/infrastructure/health/
-- health.service.ts over kafka.service.ts.
use express_nest_blueprint.Base.{
  String, Bool, true, false, ◌&&◌, none, ◌≡◌, ◌↔◌, if◌then◌else◌, refl, sym, ap, ◌∙◌, arith,
}
use express_nest_blueprint.Base.Settled.{Settled, ok, throws}
use express_nest_blueprint.Connections.{DatabaseService, get_connection}
use express_nest_blueprint.Kafka.{Client, State, connect}
use express_nest_blueprint.Kafka.Stale.{Reach, next, happen, connect-again}
use express_nest_blueprint.Health.{
  up, Probes, reported, is_up, status_of, connected, check_database, check_redis, check_kafka,
  check_ready,
}

-- A call has a value.
abbrev pub Succeeds : {A : Type 0} → Settled A → Type 0
Succeeds {A = A} x = (a : A) × (x ≡ ok a)

reported-up : {I : Type 0} (x : Settled I) → (is_up (reported x) ≡ true) ↔ Succeeds x
unfolding is_up reported
reported-up (ok i) = ((λ h. (i, refl)), (λ h. refl))
reported-up (throws e) = ((λ h. absurd (ground (arith, h))), (λ h. absurd (ground (arith, h.1))))

and-both : (a b c : Bool) → c ≡ true → (a && b && c ≡ true) ↔ ((a ≡ true) × (b ≡ true))
and-both true b c h = ground (arith, h)
and-both false b c h = ground (arith, h)

is_up-status_of :
    (b : Bool) → is_up {I = Unit} (record { status = status_of b; info = none; failure = none }) ≡ b
unfolding is_up
is_up-status_of true = refl
is_up-status_of false = refl

ready-Succeeds :
    {A S : Type 0} (b : Bool) (a : A) (e : String) (s : S) (x : Settled A × S)
    → x ≡ (if b then (ok a, s) else (throws e, s))
    → Succeeds x.0 ↔ (b ≡ true)
ready-Succeeds true a e s x h = ((λ g. refl), (λ g. (a, ap (λ y. y.0) h)))
ready-Succeeds false a e s x h =
    ((λ g. absurd (ground (arith, sym (ap (λ y. y.0) h) ∙ g.1))), (λ g. absurd (ground (arith, g))))

module _ {D R Q C V W : Type 0} (probes : Probes D R Q C W) (client : Client V W) where
  connected-up :
      (x : Settled D) (w : W)
      → (is_up (connected probes client x w) ≡ true)
        ↔ ((adapter : D) × (x ≡ ok adapter) × (probes.is_connected adapter w ≡ true))
  unfolding connected reported is_up
  connected-up (throws e) w =
      ((λ h. absurd (ground (arith, h))), (λ h. absurd (ground (arith, h.1))))
  connected-up (ok d) w = (
    (λ h. (d, refl, sym (is_up-status_of (probes.is_connected d w)) ∙ h)),
    (λ h.
        let same : d ≡ h.0 = ground (arith, h.1) in
        is_up-status_of (probes.is_connected d w) ∙ (ap (λ x. probes.is_connected x w) same ∙ h.2)),
  )

  -- The readiness of a service whose Kafka answers.
  check_ready_lem :
      (now : String) (db : DatabaseService D) (s : State V W)
      → (connect client ((check_redis probes client s).1)).0 ≡ ok tt
      → Succeeds (check_ready probes client now db s).0 ↔ (
          ((adapter : D) × (get_connection none db ≡ ok adapter)
            × (probes.is_connected adapter s.1 ≡ true))
          × Succeeds (probes.ping s.1).0)
  unfolding check_ready check_redis check_database check_kafka
  check_ready_lem now db s k =
      let database = check_database probes client db s.1 in
      let redis = check_redis probes client s in
      let kafka = check_kafka probes client redis.1 in
      let ready =
        ready-Succeeds (is_up database && is_up redis.0 && is_up kafka.0)
          (record {
            status = up;
            timestamp = now;
            database = database;
            redis = redis.0;
            kafka = kafka.0;
          })
          "Service not ready: Database, Redis or Kafka is down" kafka.1
          (check_ready probes client now db s) refl in
      let both =
        and-both (is_up database) (is_up redis.0) (is_up kafka.0) ((reported-up _).1 (tt, k)) in
      let d = connected-up (get_connection none db) s.1 in
      let r = reported-up ((probes.ping s.1).0) in
      (
        (λ h. let b = both.0 (ready.0 h) in (d.0 b.0, r.0 b.1)),
        (λ h. ready.1 (both.1 (d.1 h.0, r.1 h.1))),
      )

-- Once Kafka has connected, the service is ready exactly where its default database connection is
-- there and connected and Redis answers, whatever has become of Kafka since, its disconnection among it.
pub check_ready-connected_once :
    {D R Q C V W : Type 0} (probes : Probes D R Q C W) (client : Client V W) (now : String)
    (db : DatabaseService D) (s s' : State V W)
    → (connect client s).0 ≡ ok tt
    → Reach client ((connect client s).1) s'
    → Succeeds (check_ready probes client now db s').0 ↔ (
        ((adapter : D) × (get_connection none db ≡ ok adapter)
          × (probes.is_connected adapter s'.1 ≡ true))
        × Succeeds (probes.ping s'.1).0)
unfolding check_redis
check_ready-connected_once probes client now db s s' first run =
    check_ready_lem probes client now db s' (
      ap (λ x. x.0)
        (connect-again client s ((check_redis probes client s').1) first
          (next run (happen ((probes.ping s'.1).1)))))
