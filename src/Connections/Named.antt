-- ===== src/Connections/Named.antt =====
-- What the connections of a DatabaseService are after they are added and closed:
-- packages/backend/common/src/infrastructure/database/database.service.ts.
use Prim.Native.String
use mathlib.Core.Path.{subst}
use package.text.Mathlib.Text.{◌==◌ as str_eq}
use package.text.Mathlib.TextEquality.{eq_iff}
use express_nest_blueprint.Base.{
  String, true, false, ◌||◌, Bool-cases, Option, none, some, [], ◌≡◌, inl, inr, if_false, refl, sym,
  ap, ◌∙◌, arith,
}
use express_nest_blueprint.Base.Settled.{Settled, ok, throws}
use express_nest_blueprint.Base.Map
use express_nest_blueprint.Base.Map.{Map, get-set, get-empty}
use express_nest_blueprint.Connections.{
  DatabaseService, Adapters, get_connection, add_connection, put_adapter, opened,
  close_all_connections, disconnect_all, closed, by_default, found_or_missing, not_found,
}

module _ {D : Type 0} (s : DatabaseService D) (connection other : String) (adapter : D)
    (named : str_eq connection "" ≡ false) where
  get_connection-put :
      get_connection (some connection) (put_adapter connection false adapter s) ≡ ok adapter
  unfolding get_connection put_adapter found_or_missing
  get_connection-put = rw named (
      rw (get-set s.adapters connection connection adapter)
        (rw ((eq_iff connection connection).1 refl) refl))

  get_connection-put_other :
      str_eq other "" ≡ false
      → str_eq connection other ≡ false
      → get_connection (some other) (put_adapter connection false adapter s)
        ≡ get_connection (some other) s
  unfolding get_connection put_adapter found_or_missing
  get_connection-put_other o n = rw o (rw (get-set s.adapters connection other adapter) (rw n refl))

-- A connection that is added for writing under a name is the one that has the name afterwards, and the
-- connections of other names are as before; no name is empty, and the type of the database is known.
pub add_connection-get_connection :
    {Config D W : Type 0} (classes : Adapters Config D W) (connection other : String)
    (config : Config) (open_it : W → Settled D × W) (s : DatabaseService D) (w w' : W) (adapter : D)
    → classes.open_adapter config ≡ some open_it
    → open_it w ≡ (ok adapter, w')
    → str_eq connection "" ≡ false
    → str_eq other "" ≡ false
    → str_eq connection other ≡ false
    → (s' : DatabaseService D) × (add_connection classes connection config false s w
        ≡ (ok tt, (s', w')))
      × (get_connection (some connection) s' ≡ ok adapter)
      × (get_connection (some other) s' ≡ get_connection (some other) s)
unfolding add_connection opened
add_connection-get_connection classes connection other config open_it s w w' adapter known opens
      named o n =
    (
      put_adapter connection false adapter s,
      rw known (rw opens refl),
      get_connection-put s connection other adapter named,
      get_connection-put_other s connection other adapter named o n,
    )

-- Nothing is found in a service without connections.
missing :
    {D : Type 0} (o : Option String)
    → (e : String) × (get_connection {D = D} o
          (record { adapters = []; default_adapter = none; is_closing = false; is_closed = true })
        ≡ throws e)
unfolding get_connection by_default found_or_missing not_found Map.get
missing none = ("Database connection 'default' not found", refl)
missing (some connection) = elim (Bool-cases (str_eq connection "")) [
  | inl b ↦ ("Database connection 'default' not found", rw b refl)
  | inr b ↦ (String.◌++◌ "Database connection '" (String.◌++◌ connection "' not found"), rw b refl)
]

module _ {Config D W : Type 0} (classes : Adapters Config D W) (s : DatabaseService D) where
  -- The service and the world after the disconnections.
  open_lem :
      (w : W)
      → s.is_closing ≡ false
      → s.is_closed ≡ false
      → close_all_connections classes s w
        ≡ closed classes (record s { is_closing = true }) (disconnect_all classes s.adapters w)
  unfolding close_all_connections
  open_lem w closing done =
      if_false (s.is_closing || s.is_closed) _ _ (ground (arith, closing, done))

  closed-ok :
      (x : Settled Unit × W)
      → (closed classes (record s { is_closing = true }) x).0 ≡ ok tt
      → (closed classes (record s { is_closing = true }) x).1.0
        ≡ record { adapters = []; default_adapter = none; is_closing = false; is_closed = true }
  unfolding closed
  closed-ok (ok u, w) h = refl
  closed-ok (throws e, w) h = absurd (ground (arith, h))

  closed-throws :
      (x : Settled Unit × W) (e : String)
      → s.is_closing ≡ false
      → (closed classes (record s { is_closing = true }) x).0 ≡ throws e
      → (closed classes (record s { is_closing = true }) x).1.0 ≡ s
  unfolding closed
  closed-throws (ok u, w) e closing h = absurd (ground (arith, h))
  closed-throws (throws f, w) e closing h = ap (λ b. record s { is_closing = b }) (sym closing)

-- After closeAllConnections has succeeded in a service that was neither closing nor closed, no connection
-- is found under any name, and a second close does nothing.
pub close_all_connections-get_connection :
    {Config D W : Type 0} (classes : Adapters Config D W) (s s' : DatabaseService D) (w w' : W)
    (o : Option String)
    → s.is_closing ≡ false
    → s.is_closed ≡ false
    → close_all_connections classes s w ≡ (ok tt, (s', w'))
    → ((e : String) × (get_connection o s' ≡ throws e))
      × (close_all_connections classes s' w' ≡ (ok tt, (s', w')))
unfolding close_all_connections
close_all_connections-get_connection classes s s' w w' o closing done h =
    let e = open_lem classes s w closing done in
    let emptied =
      sym (ap (λ x. x.1.0) (sym e ∙ h))
      ∙ closed-ok classes s (disconnect_all classes s.adapters w) (ap (λ x. x.0) (sym e ∙ h)) in
    (
      subst (λ x. (f : String) × (get_connection o x ≡ throws f)) (sym emptied) (missing o),
      subst (λ x. close_all_connections classes x w' ≡ (ok tt, (x, w'))) (sym emptied) refl,
    )

-- After closeAllConnections has failed, the service is as it was, so that it can be closed again.
pub close_all_connections-again :
    {Config D W : Type 0} (classes : Adapters Config D W) (s : DatabaseService D) (w : W)
    (e : String)
    → s.is_closing ≡ false
    → s.is_closed ≡ false
    → (close_all_connections classes s w).0 ≡ throws e
    → (close_all_connections classes s w).1.0 ≡ s
close_all_connections-again classes s w e closing done h =
    let o = open_lem classes s w closing done in
    ap (λ x. x.1.0) o
    ∙ closed-throws classes s (disconnect_all classes s.adapters w) e closing
        (sym (ap (λ x. x.0) o) ∙ h)
