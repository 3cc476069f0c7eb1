-- ===== src/Connections/Tests.antt =====
-- The connections of a DatabaseService at concrete inputs, and witnesses. An adapter is a number.
use express_nest_blueprint.Base.{ℕ, String, true, false, none, some, List, [], ◌∷◌, ◌≡◌, refl}
use express_nest_blueprint.Base.Settled.{ok, throws}
use express_nest_blueprint.Connections.{
  DatabaseService, Adapters, close_all_connections, disconnect_all, closed, first_error,
}

abbrev four : ℕ
four = 4

abbrev classes : Adapters ℕ ℕ (List String)
classes = record {
  open_adapter = λ config. some (λ w. (ok config, "connected" ∷ w));
  disconnect = λ adapter w. (ok tt, "disconnected" ∷ w);
}

abbrev refusing : Adapters ℕ ℕ (List String)
refusing = record { open_adapter = λ config. none; disconnect = λ adapter w. (throws "busy", w) }

abbrev service : DatabaseService ℕ
service = record {
  adapters = ("default", 1) ∷ ("default_read", 2) ∷ [];
  default_adapter = some 1;
  is_closing = false;
  is_closed = false;
}

abbrev emptied : DatabaseService ℕ
emptied = record { adapters = []; default_adapter = none; is_closing = false; is_closed = true }

closes :
    close_all_connections classes service []
    ≡ (ok tt, (emptied, "disconnected" ∷ "disconnected" ∷ []))
unfolding close_all_connections disconnect_all closed first_error
closes = refl
