-- ===== src/Lifecycle/Once.antt =====
-- That LifecycleService shuts down once: packages/backend/common/src/application/lifecycle/
-- lifecycle.service.ts.
use mathlib.Core.List.{append-nil, append_assoc}
use express_nest_blueprint.Base.{
  any, Bool, true, false, Option, none, some, List, [], ◌∷◌, ◌++◌, ◌≡◌, refl, arith,
}
use express_nest_blueprint.Lifecycle.{
  LifecycleService, Shutdown, register_shutdown_handler, register_worker_starter, set_http_server,
  execute_graceful_shutdown,
}

-- The calls of the service, in the order in which they are made.
pub data LifecycleCall (H W F : Type 0) : Type 0 where
  registers_handler : H → LifecycleCall H W F
  registers_starter : F → LifecycleCall H W F
  sets_server : W → LifecycleCall H W F
  shuts_down : LifecycleCall H W F

abbrev pub initial_service : {H W F : Type 0} → LifecycleService H W F
initial_service = record {
  shutdown_handlers = [];
  http_server = none;
  is_shutting_down = false;
  worker_starter = none;
}

module _ {H W F : Type 0} where
  -- The shutdowns that the calls begin.
  pub run : List (LifecycleCall H W F) → LifecycleService H W F → List (Shutdown H W)
  unfolding execute_graceful_shutdown register_shutdown_handler register_worker_starter
      set_http_server
  run [] l = []
  run (registers_handler h ∷ calls) l = run calls (register_shutdown_handler h l)
  run (registers_starter f ∷ calls) l = run calls (register_worker_starter f l)
  run (sets_server w ∷ calls) l = run calls (set_http_server w l)
  run (shuts_down ∷ calls) l =
      let rest = run calls ((execute_graceful_shutdown l).1) in
      elim ((execute_graceful_shutdown l).0) [ none ↦ rest | some shutdown ↦ shutdown ∷ rest ]

  abbrev pub is_shutdown : LifecycleCall H W F → Bool
  is_shutdown shuts_down = true
  is_shutdown _ = false

  -- The handlers that calls register, and the last server that they set.
  pub handlers_of : List (LifecycleCall H W F) → List H
  handlers_of [] = []
  handlers_of (registers_handler h ∷ calls) = h ∷ handlers_of calls
  handlers_of (registers_starter f ∷ calls) = handlers_of calls
  handlers_of (sets_server w ∷ calls) = handlers_of calls
  handlers_of (shuts_down ∷ calls) = handlers_of calls

  pub server_of : Option W → List (LifecycleCall H W F) → Option W
  server_of server [] = server
  server_of server (registers_handler h ∷ calls) = server_of server calls
  server_of server (registers_starter f ∷ calls) = server_of server calls
  server_of server (sets_server w ∷ calls) = server_of (some w) calls
  server_of server (shuts_down ∷ calls) = server_of server calls

  abbrev service : List H → Option W → Bool → Option F → LifecycleService H W F
  service handlers server down starter = record {
    shutdown_handlers = handlers;
    http_server = server;
    is_shutting_down = down;
    worker_starter = starter;
  }

  run-done :
      (calls : List (LifecycleCall H W F)) (hs : List H) (w : Option W) (f : Option F)
      → run calls (service hs w true f) ≡ []
  unfolding run execute_graceful_shutdown register_shutdown_handler register_worker_starter
      set_http_server
  run-done [] hs w f = refl
  run-done (registers_handler h ∷ calls) hs w f = run-done calls (hs ++ (h ∷ [])) w f
  run-done (registers_starter g ∷ calls) hs w f = run-done calls hs w (some g)
  run-done (sets_server v ∷ calls) hs w f = run-done calls hs (some v) f
  run-done (shuts_down ∷ calls) hs w f = run-done calls hs w f

  run-first :
      (before after : List (LifecycleCall H W F)) (hs : List H) (w : Option W) (f : Option F)
      → any is_shutdown before ≡ false
      → run (before ++ (shuts_down ∷ after)) (service hs w false f)
        ≡ record { services = hs ++ handlers_of before; http_server = server_of w before } ∷ []
  unfolding run execute_graceful_shutdown register_shutdown_handler register_worker_starter
      set_http_server handlers_of server_of
  run-first [] after hs w f h = rw (run-done after hs w f, append-nil hs) refl
  run-first (registers_handler x ∷ before) after hs w f h =
      let e : (hs ++ (x ∷ [])) ++ handlers_of before ≡ hs ++ (x ∷ handlers_of before) =
        append_assoc hs (x ∷ []) (handlers_of before) in
      rw⁻¹ e (run-first before after (hs ++ (x ∷ [])) w f h)
  run-first (registers_starter g ∷ before) after hs w f h = run-first before after hs w (some g) h
  run-first (sets_server v ∷ before) after hs w f h = run-first before after hs (some v) f h
  run-first (shuts_down ∷ before) after hs w f h = ground (arith, h)

-- Whatever is called after it, also a second time, the first executeGracefulShutdown is the only one that
-- shuts anything down: the handlers that were registered before it, in their order, and the last server.
pub run-once :
    {H W F : Type 0} (before after : List (LifecycleCall H W F))
    → any is_shutdown before ≡ false
    → run (before ++ (shuts_down ∷ after)) initial_service
      ≡ record { services = handlers_of before; http_server = server_of none before } ∷ []
run-once before after h = run-first before after [] none none h
