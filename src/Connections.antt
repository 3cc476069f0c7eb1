-- ===== src/Connections.antt =====
-- DatabaseService: packages/backend/common/src/infrastructure/database/database.service.ts. An adapter is a
-- `D`; what it does to the world `W` is an argument.
pub mod Named
mod Tests
use Prim.Native.String
use package.text.Mathlib.Text.{◌==◌ as str_eq}
use express_nest_blueprint.Base.{
  String, Bool, true, false, not, ◌&&◌, ◌||◌, Option, none, some, is_some, List, [], ◌∷◌, map,
  if◌then◌else◌, get_or,
}
use express_nest_blueprint.Base.Settled.{Settled, ok, throws, and_then}
use express_nest_blueprint.Base.Map
use express_nest_blueprint.Base.Map.{Map}

pub record DatabaseService (D : Type 0) : Type 0 where
  pub adapters : Map D
  pub default_adapter : Option D
  pub is_closing : Bool
  pub is_closed : Bool

-- The classes of `DATABASE_ADAPTER_MAP` by type, an object of one with its connection, and `disconnect`.
pub record Adapters (Config D W : Type 0) : Type 0 where
  pub open_adapter : Config → Option (W → Settled D × W)
  pub disconnect : D → W → Settled Unit × W

abbrev pub read_key : String → String
read_key connection = String.◌++◌ connection "_read"

module _ {D : Type 0} where
  not_found : String → Settled D
  not_found connection =
      throws (String.◌++◌ "Database connection '" (String.◌++◌ connection "' not found"))

  found_or_missing : String → Option D → Settled D
  unfolding not_found
  found_or_missing connection none = not_found connection
  found_or_missing connection (some adapter) = ok adapter

  -- A name that is `undefined` or empty is no name.
  by_default : DatabaseService D → Settled D
  unfolding found_or_missing
  by_default s = found_or_missing "default" s.default_adapter

  unfoldable pub get_connection : Option String → DatabaseService D → Settled D
  unfolding by_default found_or_missing
  get_connection none s = by_default s
  get_connection (some connection) s =
      if str_eq connection ""
      then by_default s
      else found_or_missing connection (Map.get s.adapters connection)

  replica_or : Settled D → Option D → Settled D
  replica_or fallback none = fallback
  replica_or fallback (some adapter) = ok adapter

  unfoldable pub get_read_connection : String → DatabaseService D → Settled D
  unfolding replica_or
  get_read_connection connection s =
      replica_or (get_connection (some connection) s) (Map.get s.adapters (read_key connection))

  unfoldable pub get_write_connection : String → DatabaseService D → Settled D
  get_write_connection connection s = get_connection (some connection) s

  -- `if (!isReadOnly && !this.defaultAdapter) this.defaultAdapter = adapter`.
  unfoldable pub default_after : Bool → D → Option D → Option D
  default_after is_read_only adapter (some first) = some first
  default_after is_read_only adapter none = if is_read_only then none else some adapter

  unfoldable pub put_adapter : String → Bool → D → DatabaseService D → DatabaseService D
  unfolding default_after
  put_adapter connection is_read_only adapter s = record s {
    adapters =
        Map.set s.adapters (if is_read_only then read_key connection else connection) adapter;
    default_adapter = default_after is_read_only adapter s.default_adapter;
  }

module _ {Config D W : Type 0} (classes : Adapters Config D W) where
  opened :
      String
      → Bool
      → DatabaseService D
      → Option (W → Settled D × W)
      → W
      → Settled Unit × (DatabaseService D × W)
  unfolding put_adapter
  opened connection is_read_only s none w = (ok tt, (s, w))
  opened connection is_read_only s (some open_it) w = after (open_it w)
    where
      after : Settled D × W → Settled Unit × (DatabaseService D × W)
      after (throws e, w') = (throws e, (s, w'))
      after (ok adapter, w') = (ok tt, (put_adapter connection is_read_only adapter s, w'))

  unfoldable pub add_connection :
      String → Config → Bool → DatabaseService D → W → Settled Unit × (DatabaseService D × W)
  unfolding opened
  add_connection connection config is_read_only s w =
      opened connection is_read_only s (classes.open_adapter config) w

  first_error : Settled Unit → Settled Unit → Settled Unit
  first_error (throws e) rest = throws e
  first_error (ok u) rest = rest

  -- `Promise.all` of the disconnections: each is started, whatever comes of the others.
  unfoldable pub disconnect_all : Map D → W → Settled Unit × W
  unfolding first_error
  disconnect_all [] w = (ok tt, w)
  disconnect_all ((k, adapter) ∷ adapters) w =
      let one = classes.disconnect adapter w in
      let rest = disconnect_all adapters one.1 in (first_error one.0 rest.0, rest.1)

  -- What follows the disconnections, with `finally`.
  closed : DatabaseService D → Settled Unit × W → Settled Unit × (DatabaseService D × W)
  closed s (throws e, w) = (throws e, (record s { is_closing = false }, w))
  closed s (ok u, w) = (
    ok tt,
    (record { adapters = []; default_adapter = none; is_closing = false; is_closed = true }, w),
  )

  unfoldable pub close_all_connections :
      DatabaseService D → W → Settled Unit × (DatabaseService D × W)
  unfolding disconnect_all closed
  close_all_connections s w =
      if s.is_closing || s.is_closed
      then (ok tt, (s, w))
      else closed (record s { is_closing = true }) (disconnect_all s.adapters w)
