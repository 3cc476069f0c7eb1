-- ===== src/Postgres/Atomicity.antt =====
-- What a transaction leaves behind, at a server that keeps what PostgreSQL documents.
use express_nest_blueprint.Base.{
  ℕ, zero, suc, ◌≡◌, ◌⊎◌, refl, Bool, true, false, Option, none, some, inl, inr, Bool-cases,
}
use express_nest_blueprint.Postgres.{
  DatabaseError, is_retryable, Result, ok, throws, PostgreSqlAdapter, Attempt, World, commit,
  called, began, try_block, rolled_back, settle, connected, acquire, attempt_loop,
  transaction_with_retry,
}

-- What is documented of the server: `contents` is what is committed, `is_open` whether the client has a
-- transaction open, and `Others` relates contents that differ only by the commits of other sessions.
-- Other sessions may commit at any moment. Nothing is said of a callback without an open transaction, of
-- a BEGIN or a ROLLBACK that fails beyond what others commit, or of what a COMMIT publishes.
pub record IsServer {D R C : Type 0} (callback : D → Result R × D) (env : ℕ → Attempt D)
    (contents : D → C) (is_open : D → Bool) (Others : C → C → Type 0) : Type 0 where
  pub others_refl : (c : C) → Others c c
  pub others_trans : (a b c : C) → Others a b → Others b c → Others a c
  pub connect_moves :
      (i : ℕ) (d d' : D) (x : Option DatabaseError)
      → (env i).connect d ≡ (x, d')
      → Others (contents d) (contents d') × (is_open d ≡ false → is_open d' ≡ false)
  pub begin_moves :
      (i : ℕ) (d d' : D) (x : Option DatabaseError)
      → (env i).begin d ≡ (x, d')
      → Others (contents d) (contents d') × (x ≡ none → is_open d' ≡ true)
  pub callback_moves :
      (d d' : D) (x : Result R)
      → is_open d ≡ true
      → callback d ≡ (x, d')
      → Others (contents d) (contents d')
  -- A COMMIT that commits is not answered by an error.
  pub commit_fails :
      (i : ℕ) (d d' : D) (e : DatabaseError)
      → (env i).commit d ≡ (some e, d')
      → Others (contents d) (contents d')
  pub rollback_moves :
      (i : ℕ) (d d' : D) (x : Option DatabaseError)
      → (env i).rollback d ≡ (x, d')
      → Others (contents d) (contents d') × (x ≡ none → is_open d' ≡ false)

module _ {D R C : Type 0} (callback : D → Result R × D) (env : ℕ → Attempt D) (contents : D → C)
    (is_open : D → Bool) (Others : C → C → Type 0) (start : C) where
  -- The callback ran once and to its end in an open transaction, from contents that only other sessions
  -- had changed since the start, and `d` is what a successful COMMIT of that made.
  pub record IsCommitted (r : R) (d : D) : Type 0 where
    found : D
    worked : D
    attempt : ℕ
    opened : is_open found ≡ true
    only_others : Others start (contents found)
    ran : callback found ≡ (ok r, worked)
    committed : (env attempt).commit worked ≡ (none, d)

  -- `d` is what a failed ROLLBACK made.
  pub record IsStuck (d : D) : Type 0 where
    failing : D
    attempt : ℕ
    failure : DatabaseError
    failed : (env attempt).rollback failing ≡ (some failure, d)

  -- A result is one committed run of the callback, or only other sessions have changed the contents, and
  -- the client has no transaction open unless its ROLLBACK failed.
  abbrev pub IsAtomic : Result R × World D → Type 0
  IsAtomic (ok r, w) = IsCommitted r w.server
  IsAtomic (throws e, w) =
      Others start (contents w.server) × ((is_open w.server ≡ false) ⊎ IsStuck w.server)

  -- The same of the `try` block, which may leave a transaction open where it throws.
  abbrev IsTried : Result R × World D → Type 0
  IsTried (ok r, w) = IsCommitted r w.server
  IsTried (throws e, w) = Others start (contents w.server)

  module _ (laws : IsServer callback env contents is_open Others) where
    moved :
        (d d' : D)
        → Others start (contents d)
        → Others (contents d) (contents d')
        → Others start (contents d')
    moved d d' m n = laws.others_trans start (contents d) (contents d') m n

    commit-IsTried :
        (i : ℕ) (found worked : D) (r : R) (x : Option DatabaseError × D) (w : World D)
        → is_open found ≡ true
        → Others start (contents found)
        → callback found ≡ (ok r, worked)
        → (env i).commit worked ≡ x
        → IsTried (commit callback r x w)
    unfolding commit
    commit-IsTried i found worked r (none, d) w o m h q = record {
      found = found;
      worked = worked;
      attempt = i;
      opened = o;
      only_others = m;
      ran = h;
      committed = q;
    }
    commit-IsTried i found worked r (some e, d) w o m h q =
        moved worked d (moved found worked m (laws.callback_moves found worked (ok r) o h))
          (laws.commit_fails i worked d e q)

    called-IsTried :
        (i : ℕ) (found : D) (x : Result R × D) (w : World D)
        → is_open found ≡ true
        → Others start (contents found)
        → callback found ≡ x
        → IsTried (called callback (env i) x w)
    unfolding called
    called-IsTried i found (ok r, d) w o m h =
        commit-IsTried i found d r ((env i).commit d) w o m h refl
    called-IsTried i found (throws e, d) w o m h =
        moved found d m (laws.callback_moves found d (throws e) o h)

    began-IsTried :
        (i : ℕ) (d : D) (x : Option DatabaseError × D) (w : World D)
        → Others start (contents d)
        → (env i).begin d ≡ x
        → IsTried (began callback (env i) x w)
    unfolding began
    began-IsTried i d (none, d') w m q =
        let (n, o) = laws.begin_moves i d d' none q in
        called-IsTried i d' (callback d') (record w { runs = suc w.runs }) (o refl) (moved d d' m n)
          refl
    began-IsTried i d (some e, d') w m q = moved d d' m (laws.begin_moves i d d' (some e) q).0

    -- What the next round has to do: from contents that only others have changed, with nothing open.
    abbrev Retries : (DatabaseError → World D → Result R × World D) → Type 0
    Retries retry =
        (e : DatabaseError) (w : World D)
        → Others start (contents w.server)
        → is_open w.server ≡ false
        → IsAtomic (retry e w)

    rolled_back-IsAtomic :
        (i : ℕ) (d : D) (e : DatabaseError) (x : Option DatabaseError × D) (w : World D)
        (retry : DatabaseError → World D → Result R × World D)
        → Others start (contents d)
        → (env i).rollback d ≡ x
        → Retries retry
        → IsAtomic (rolled_back callback i e x w retry)
    unfolding rolled_back
    rolled_back-IsAtomic i d e (some f, d') w retry m q k = (
      moved d d' m (laws.rollback_moves i d d' (some f) q).0,
      inr (record { failing = d; attempt = i; failure = f; failed = q }),
    )
    rolled_back-IsAtomic i d e (none, d') w retry m q k =
        let (n, closed) = laws.rollback_moves i d d' none q in
        elim (Bool-cases (is_retryable e)) [
          | inl b ↦ rw (b, rolled_back) (k e _ (moved d d' m n) (closed refl))
          | inr b ↦ rw (b, rolled_back) (moved d d' m n, inl (closed refl))
        ]

    settle-IsAtomic :
        (i : ℕ) (x : Result R × World D) (retry : DatabaseError → World D → Result R × World D)
        → IsTried x
        → Retries retry
        → IsAtomic (settle callback (env i) i x retry)
    unfolding settle
    settle-IsAtomic i (ok r, w) retry t k = t
    settle-IsAtomic i (throws e, w) retry t k =
        rolled_back-IsAtomic i w.server e ((env i).rollback w.server) w retry t refl k

    connected-IsAtomic :
        (i : ℕ) (d : D) (x : Option DatabaseError × D) (w : World D)
        (retry : DatabaseError → World D → Result R × World D)
        → Others start (contents d)
        → is_open d ≡ false
        → (env i).connect d ≡ x
        → Retries retry
        → IsAtomic (connected callback (env i) i x w retry)
    unfolding connected try_block
    connected-IsAtomic i d (some e, d') w retry m o q k =
        let (n, closed) = laws.connect_moves i d d' (some e) q in (moved d d' m n, inl (closed o))
    connected-IsAtomic i d (none, d') w retry m o q k =
        let (n, closed) = laws.connect_moves i d d' none q in
        settle-IsAtomic i (try_block callback (env i) (acquire d' w)) retry
          (began-IsTried i d' ((env i).begin d') (acquire d' w) (moved d d' m n) refl) k

    loop-IsAtomic :
        (left i : ℕ) (last : DatabaseError) (w : World D)
        → Others start (contents w.server)
        → is_open w.server ≡ false
        → IsAtomic (attempt_loop callback env left i last w)
    unfolding attempt_loop
    loop-IsAtomic zero i last w m o = (m, inl o)
    loop-IsAtomic (suc left) i last w m o =
        connected-IsAtomic i w.server ((env i).connect w.server) w
          (attempt_loop callback env left (suc i)) m o refl
          (λ e v n c. loop-IsAtomic left (suc i) e v n c)

-- At a server that keeps what IsServer says, so that a COMMIT that is answered by an error has not
-- committed, and for a client that starts without a transaction: if transactionWithRetry throws, only
-- other sessions have changed the contents, and no transaction is left open unless a ROLLBACK failed; if
-- it succeeds, a COMMIT made the server's state of one run of the callback, to its end and in an open
-- transaction, from contents that only other sessions had changed.
pub transaction-IsAtomic :
    {D R C : Type 0} (callback : D → Result R × D) (env : ℕ → Attempt D) (contents : D → C)
    (is_open : D → Bool) (Others : C → C → Type 0) (undefined_error : DatabaseError)
    (a : PostgreSqlAdapter) (retries : ℕ) (w : World D)
    → IsServer callback env contents is_open Others
    → is_open w.server ≡ false
    → IsAtomic callback env contents is_open Others
        (contents w.server)
        (transaction_with_retry callback undefined_error env a retries w)
unfolding transaction_with_retry
transaction-IsAtomic callback env contents is_open Others undefined_error a retries w laws o =
    let nothing = laws.others_refl (contents w.server) in
    elim (Bool-cases a.pool) [
      | inl p ↦
          rw (p, transaction_with_retry)
            (loop-IsAtomic callback env contents is_open Others (contents w.server) laws retries 0
              undefined_error w nothing o)
      | inr p ↦ rw (p, transaction_with_retry) (nothing, inl o)
    ]
