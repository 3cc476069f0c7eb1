-- ===== src/Postgres/Tests.antt =====
-- Transactions at concrete servers.
use express_nest_blueprint.Base.{
  ℕ, zero, suc, ◌+◌, ◌≤◌, ◌≡◌, refl, arith, Bool, true, false, Option, none, some, is_some,
}
use express_nest_blueprint.Postgres.{
  DatabaseError, deadlock_detected, other, Result, ok, throws, PostgreSqlAdapter, Attempt, World,
  transaction_with_retry, connect, is_connected,
}
use express_nest_blueprint.Postgres.Atomicity.{IsServer, IsAtomic, transaction-IsAtomic}
use express_nest_blueprint.Postgres.Attempts.{transaction_balanced}

-- The committed amount, and the client's working copy where it has a transaction open.
abbrev Bank : Type 0
Bank = ℕ × Option ℕ

-- Adds 5, to the working copy if there is one.
abbrev deposit : Bank → Result ℕ × Bank
deposit (c, none) = (ok c, (c + 5, none))
deposit (c, some t) = (ok t, (c, some (t + 5)))

abbrev opened : Bank → Option DatabaseError × Bank
opened (c, none) = (none, (c, some c))
opened (c, some t) = (none, (c, some t))

abbrev published : Bank → Option DatabaseError × Bank
published (c, none) = (none, (c, none))
published (c, some t) = (none, (t, none))

-- Another session adds 1 before each attempt, and the first COMMIT meets a deadlock.
abbrev contended : ℕ → Attempt Bank
contended zero = record {
  connect = λ d. (none, (d.0 + 1, d.1));
  begin = opened;
  commit = λ d. (some deadlock_detected, d);
  rollback = λ d. (none, (d.0, none));
}
contended (suc i) = record {
  connect = λ d. (none, (d.0 + 1, d.1));
  begin = opened;
  commit = published;
  rollback = λ d. (none, (d.0, none));
}

abbrev amount : Bank → ℕ
amount d = d.0

abbrev is_open : Bank → Bool
is_open d = is_some d.1

abbrev Grows : ℕ → ℕ → Type 0
Grows a b = a ≤ b

contended-connects :
    (i : ℕ) (d d' : Bank) (x : Option DatabaseError)
    → (contended i).connect d ≡ (x, d')
    → (amount d ≤ amount d') × (is_open d ≡ false → is_open d' ≡ false)
contended-connects zero (c, t) (c', t') x q = ground (arith, q)
contended-connects (suc i) (c, t) (c', t') x q = ground (arith, q)

opened-opens :
    (d d' : Bank) (x : Option DatabaseError)
    → opened d ≡ (x, d')
    → (amount d ≤ amount d') × (x ≡ none → is_open d' ≡ true)
opened-opens (c, none) (c', t') x q = ground (arith, q)
opened-opens (c, some t) (c', t') x q = ground (arith, q)

contended-begins :
    (i : ℕ) (d d' : Bank) (x : Option DatabaseError)
    → (contended i).begin d ≡ (x, d')
    → (amount d ≤ amount d') × (x ≡ none → is_open d' ≡ true)
contended-begins zero d d' x q = opened-opens d d' x q
contended-begins (suc i) d d' x q = opened-opens d d' x q

deposit-moves :
    (d d' : Bank) (x : Result ℕ) → is_open d ≡ true → deposit d ≡ (x, d') → amount d ≤ amount d'
deposit-moves (c, none) (c', t') x o q = ground (arith, o)
deposit-moves (c, some t) (c', t') x o q = ground (arith, q)

contended-commits :
    (i : ℕ) (d d' : Bank) (e : DatabaseError)
    → (contended i).commit d ≡ (some e, d')
    → amount d ≤ amount d'
contended-commits zero (c, t) (c', t') e q = ground (arith, q)
contended-commits (suc i) (c, none) (c', t') e q = ground (arith, q)
contended-commits (suc i) (c, some t) (c', t') e q = ground (arith, q)

contended-rolls_back :
    (i : ℕ) (d d' : Bank) (x : Option DatabaseError)
    → (contended i).rollback d ≡ (x, d')
    → (amount d ≤ amount d') × (x ≡ none → is_open d' ≡ false)
contended-rolls_back zero (c, t) (c', t') x q = ground (arith, q)
contended-rolls_back (suc i) (c, t) (c', t') x q = ground (arith, q)

contended-IsServer : IsServer deposit contended amount is_open Grows
contended-IsServer = record {
  others_refl = λ c. omega arith;
  others_trans = λ a b c h k. omega arith;
  connect_moves = contended-connects;
  begin_moves = contended-begins;
  callback_moves = deposit-moves;
  commit_fails = contended-commits;
  rollback_moves = contended-rolls_back;
}

abbrev pooled : PostgreSqlAdapter
pooled = record { pool = true; is_disconnecting = false }

abbrev start : World Bank
start = record { server = (10, none); acquired = 0; released = 0; runs = 0; waited = 0 }

transaction_tests :
    (transaction_with_retry deposit (other 0) contended pooled 3 start
      ≡ (ok 12, record { server = (17, none); acquired = 2; released = 2; runs = 2; waited = 100 }))
    × (transaction_with_retry deposit (other 0) contended pooled 1 start ≡ (
      throws deadlock_detected,
      record { server = (11, none); acquired = 1; released = 1; runs = 1; waited = 100 },
    ))
unfolding transaction_with_retry
transaction_tests = (refl, refl)

transaction-IsAtomic_example :
    IsAtomic deposit contended amount is_open Grows 10
      (transaction_with_retry deposit (other 0) contended pooled 3 start)
transaction-IsAtomic_example =
    transaction-IsAtomic deposit contended amount is_open Grows (other 0) pooled 3 start
      contended-IsServer refl

transaction_balanced_example :
    ((transaction_with_retry deposit (other 0) contended pooled 3 start).1.released + 0
      ≡ 0 + (transaction_with_retry deposit (other 0) contended pooled 3 start).1.acquired)
    × ((transaction_with_retry deposit (other 0) contended pooled 3 start).1.runs ≤ 0 + 3)
transaction_balanced_example = transaction_balanced deposit contended (other 0) pooled 3 start

abbrev unpooled : PostgreSqlAdapter
unpooled = record { pool = false; is_disconnecting = false }

connection_tests :
    ((connect unpooled (throws (other 1))).0 ≡ throws (other 1))
    × (is_connected (connect unpooled (throws (other 1))).1 ≡ true)
unfolding connect is_connected
connection_tests = (refl, refl)
