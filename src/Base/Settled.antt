-- ===== src/Base/Settled.antt =====
-- What an awaited call comes to, and steps of an async function one after the other.
use Prim.Native.String.{String}
use mathlib.Core.Path.{◌≡◌, refl, ap}
use native.Mathlib.Omega.{arith}

-- A promise that has settled, with the message of its error.
pub data Settled (A : Type 0) : Type 0 where
  ok : A → Settled A
  throws : String → Settled A

-- `const x = await call; rest`: an error ends the function.
abbrev pub and_then : {A B S : Type 0} → Settled A × S → (A → S → Settled B × S) → Settled B × S
and_then (ok x, s) rest = rest x s
and_then (throws e, s) rest = (throws e, s)

-- The values that a call may have, all of them its success.
abbrev pub returns : {A S : Type 0} → A → S → Settled A × S
returns x s = (ok x, s)

pub and_then_assoc :
    {A B C S : Type 0} (x : Settled A × S) (f : A → S → Settled B × S) (g : B → S → Settled C × S)
    → and_then (and_then x f) g ≡ and_then x (λ a s. and_then (f a s) g)
and_then_assoc (ok a, s) f g = refl
and_then_assoc (throws e, s) f g = refl

-- A function that has returned went through each of its steps.
pub and_then-ok :
    {A B S : Type 0} (x : Settled A × S) (f : A → S → Settled B × S) (b : B) (s' : S)
    → and_then x f ≡ (ok b, s')
    → (a : A) × (s : S) × (x ≡ (ok a, s)) × (f a s ≡ (ok b, s'))
and_then-ok (ok a, s) f b s' h = (a, s, refl, h)
and_then-ok (throws e, s) f b s' h = ground (arith, h)

-- A call that succeeds goes on with its value.
pub and_then_returned :
    {A B S : Type 0} (x : Settled A × S) (f : A → S → Settled B × S) (a : A)
    → x.0 ≡ ok a
    → and_then x f ≡ f a x.1
and_then_returned (ok b, s) f a h = ap (λ c. f c s) (ground (arith, h))
and_then_returned (throws e, s) f a h = absurd (ground (arith, h))
