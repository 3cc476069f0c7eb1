-- ===== src/Postgres/Attempts.antt =====
-- How often a transaction is tried, and that every client goes back to the pool.
use express_nest_blueprint.Base.{
  ℕ, zero, suc, ◌+◌, ◌*◌, ◌^◌, ◌≤◌, ◌≡◌, refl, arith, Option, none, some, inl, inr, Bool-cases,
}
use express_nest_blueprint.Postgres.{
  DatabaseError, is_retryable, Result, ok, throws, PostgreSqlAdapter, Attempt, World, commit,
  called, began, try_block, rolled_back, settle, connected, acquire, release, attempt_loop,
  transaction_with_retry,
}

module _ {D R : Type 0} (callback : D → Result R × D) (env : ℕ → Attempt D) where
  -- `v` has given back all the clients that it has taken since `w`, after `n` runs at most.
  record Balanced (n : ℕ) (w v : World D) : Type 0 where
    clients : v.released + w.acquired ≡ w.released + v.acquired
    runs : v.runs ≤ w.runs + n

  -- A try block takes and gives back nothing, and runs the callback once at most.
  record Tried (w v : World D) : Type 0 where
    acquired : v.acquired ≡ w.acquired
    released : v.released ≡ w.released
    runs : v.runs ≤ w.runs + 1

  commit-Tried :
      (r : R) (x : Option DatabaseError × D) (w : World D)
      → Tried w (commit callback r x (record w { runs = suc w.runs })).1
  unfolding commit
  commit-Tried r (none, d) w = record { acquired = refl; released = refl; runs = omega arith }
  commit-Tried r (some e, d) w = record { acquired = refl; released = refl; runs = omega arith }

  called-Tried :
      (t : Attempt D) (x : Result R × D) (w : World D)
      → Tried w (called callback t x (record w { runs = suc w.runs })).1
  unfolding called
  called-Tried t (throws e, d) w = record { acquired = refl; released = refl; runs = omega arith }
  called-Tried t (ok r, d) w = commit-Tried r (t.commit d) w

  began-Tried :
      (t : Attempt D) (x : Option DatabaseError × D) (w : World D)
      → Tried w (began callback t x w).1
  unfolding began
  began-Tried t (none, d) w = called-Tried t (callback d) w
  began-Tried t (some e, d) w = record { acquired = refl; released = refl; runs = omega arith }

  rolled_back-Balanced :
      (left i : ℕ) (d : D) (w v : World D) (e : DatabaseError) (x : Option DatabaseError × D)
      (retry : DatabaseError → World D → Result R × World D)
      → Tried (acquire d w) v
      → ((e : DatabaseError) (v : World D) → Balanced left v (retry e v).1)
      → Balanced (suc left) w (rolled_back callback i e x v retry).1
  unfolding rolled_back
  rolled_back-Balanced left i d w v e (some f, d') retry t k = record {
    clients = omega (arith, t.acquired, t.released);
    runs = omega (arith, t.runs);
  }
  rolled_back-Balanced left i d w v e (none, d') retry t k = elim (Bool-cases (is_retryable e)) [
    | inl b ↦
        let next = k e (release (record v { server = d'; waited = v.waited + 100 * 2 ^ i })) in
        rw (b, rolled_back)
          (record {
            clients = omega (arith, t.acquired, t.released, next.clients);
            runs = omega (arith, t.runs, next.runs);
          })
    | inr b ↦
        rw (b, rolled_back)
          (record { clients = omega (arith, t.acquired, t.released); runs = omega (arith, t.runs) })
  ]

  settle-Balanced :
      (left i : ℕ) (d : D) (w : World D) (x : Result R × World D)
      (retry : DatabaseError → World D → Result R × World D)
      → Tried (acquire d w) x.1
      → ((e : DatabaseError) (v : World D) → Balanced left v (retry e v).1)
      → Balanced (suc left) w (settle callback (env i) i x retry).1
  unfolding settle
  settle-Balanced left i d w (ok r, v) retry t k = record {
    clients = omega (arith, t.acquired, t.released);
    runs = omega (arith, t.runs);
  }
  settle-Balanced left i d w (throws e, v) retry t k =
      rolled_back-Balanced left i d w v e ((env i).rollback v.server) retry t k

  connected-Balanced :
      (left i : ℕ) (x : Option DatabaseError × D) (w : World D)
      (retry : DatabaseError → World D → Result R × World D)
      → ((e : DatabaseError) (v : World D) → Balanced left v (retry e v).1)
      → Balanced (suc left) w (connected callback (env i) i x w retry).1
  unfolding connected try_block
  connected-Balanced left i (some e, d) w retry k = record {
    clients = omega arith;
    runs = omega arith;
  }
  connected-Balanced left i (none, d) w retry k =
      settle-Balanced left i d w (try_block callback (env i) (acquire d w)) retry
        (began-Tried (env i) ((env i).begin d) (acquire d w)) k

  loop-Balanced :
      (left i : ℕ) (last : DatabaseError) (w : World D)
      → Balanced left w (attempt_loop callback env left i last w).1
  unfolding attempt_loop
  loop-Balanced zero i last w = record { clients = omega arith; runs = omega arith }
  loop-Balanced (suc left) i last w =
      connected-Balanced left i ((env i).connect w.server) w
        (attempt_loop callback env left (suc i)) (loop-Balanced left (suc i))

  -- On every path, errors included, a transaction gives back each client that it takes from the pool,
  -- and runs its callback at most once for each of its retries.
  pub transaction_balanced :
      (undefined_error : DatabaseError) (a : PostgreSqlAdapter) (retries : ℕ) (w : World D)
      → let v = (transaction_with_retry callback undefined_error env a retries w).1 in
        (v.released + w.acquired ≡ w.released + v.acquired) × (v.runs ≤ w.runs + retries)
  unfolding transaction_with_retry
  transaction_balanced undefined_error a retries w =
      let b = loop-Balanced retries 0 undefined_error w in ground (arith, b.clients, b.runs)
