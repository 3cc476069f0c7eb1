-- ===== src/Container/Singletons.antt =====
-- What a resolution leaves as it was, and that it is remembered.
use text.Mathlib.TextEquality.{eq_iff}
use express_nest_blueprint.Base.{
  ℕ, zero, suc, String, ◌≡◌, refl, ◌∙◌, Option, none, some, List, [], ◌∷◌, arith, Option-cases, inl,
  inr,
}
use express_nest_blueprint.Base.Map
use express_nest_blueprint.Base.Map.{get-set}
use express_nest_blueprint.Container.{
  Provider, Runtime, Container, Result, ok, throws, Resolve, resolve_deps, cons_dep, after_dep,
  finish, resolve_entry, resolve, deps_of, create,
}

module _ {O : Type 0} where
  -- `d` has the services of `c`, and every singleton of `c`.
  pub record Extends (c d : Container O) : Type 0 where
    pub services : d.services ≡ c.services
    pub keeps :
        (k : String) (o : O) → Map.get c.singletons k ≡ some o → Map.get d.singletons k ≡ some o

  pub Extends-refl : (c : Container O) → Extends c c
  Extends-refl c = record { services = refl; keeps = λ k o h. h }

  pub Extends-trans : {c d e : Container O} → Extends c d → Extends d e → Extends c e
  Extends-trans x y = record {
    services = y.services ∙ x.services;
    keeps = λ k o h. y.keeps k o (x.keeps k o h);
  }

module _ {O : Type 0} (r : Runtime O) where
  cons_dep-state :
      (o : Option O) (x : Result (List (Option O)) × Container O) → (cons_dep r o x).1 ≡ x.1
  unfolding cons_dep
  cons_dep-state o (ok os, c) = refl
  cons_dep-state o (throws e, c) = refl

  module _ (step : Resolve r) (ext : (t : String) (c : Container O) → Extends c (step t c).1) where
    after_dep-Extends :
        (c : Container O) (x : Result O × Container O)
        (rest : Container O → Result (List (Option O)) × Container O)
        → Extends c x.1
        → ((d : Container O) → Extends d (rest d).1)
        → Extends c (after_dep r x rest).1
    unfolding after_dep
    after_dep-Extends c (ok o, d) rest h k =
        rw (cons_dep-state (some o) (rest d)) (Extends-trans h (k d))
    after_dep-Extends c (throws e, d) rest h k = h

    resolve_deps-Extends :
        (deps : List (Option String)) (c : Container O) → Extends c (resolve_deps r step deps c).1
    unfolding resolve_deps
    resolve_deps-Extends [] c = Extends-refl c
    resolve_deps-Extends (none ∷ deps) c =
        rw (cons_dep-state none (resolve_deps r step deps c)) (resolve_deps-Extends deps c)
    resolve_deps-Extends (some t ∷ deps) c =
        after_dep-Extends c (step t c) (resolve_deps r step deps) (ext t c)
          (resolve_deps-Extends deps)

  finish-Extends :
      (t : String) (p : Provider O) (c : Container O) (x : Result (List (Option O)) × Container O)
      → Map.get c.singletons t ≡ none
      → Extends c x.1
      → Extends c (finish r t p x).1
  unfolding finish
  finish-Extends t p c (throws e, d) n h = h
  finish-Extends t p c (ok os, d) n h = record {
    services = h.services;
    keeps = λ k o q.
        ground (arith, get-set d.singletons t k (create r p os), eq_iff t k, h.keeps k o q);
  }

  entry-Extends :
      (step : Resolve r) (t : String) (o : Option (Provider O)) (c : Container O)
      → ((u : String) (d : Container O) → Extends d (step u d).1)
      → Map.get c.singletons t ≡ none
      → Extends c (resolve_entry r step t o c).1
  unfolding resolve_entry
  entry-Extends step t none c ext n = Extends-refl c
  entry-Extends step t (some p) c ext n =
      finish-Extends t p c (resolve_deps r step (deps_of r p) c) n
        (resolve_deps-Extends step ext (deps_of r p) c)

  -- Whatever a resolution does, also one that fails half way, the registered services stay and every
  -- singleton made before is still the one under its token.
  pub resolve-Extends : (fuel : ℕ) (t : String) (c : Container O) → Extends c (resolve r fuel t c).1
  unfolding resolve
  resolve-Extends zero t c = Extends-refl c
  resolve-Extends (suc fuel) t c = elim (Option-cases (Map.get c.singletons t)) [
    | inl n ↦
        rw (n, resolve)
          (entry-Extends (resolve r fuel) t (Map.get c.services t) c (resolve-Extends fuel) n)
    | inr (o, h) ↦ rw (h, resolve) (Extends-refl c)
  ]

  finish-remembers :
      (t : String) (p : Provider O) (x : Result (List (Option O)) × Container O) (o : O)
      → (finish r t p x).0 ≡ ok o
      → Map.get (finish r t p x).1.singletons t ≡ some o
  unfolding finish
  finish-remembers t p (throws e, d) o h = cc
  finish-remembers t p (ok os, d) o h =
      ground (arith, get-set d.singletons t t (create r p os), eq_iff t t)

  entry-remembers :
      (step : Resolve r) (t : String) (q : Option (Provider O)) (c : Container O) (o : O)
      → (resolve_entry r step t q c).0 ≡ ok o
      → Map.get (resolve_entry r step t q c).1.singletons t ≡ some o
  unfolding resolve_entry
  entry-remembers step t none c o h = cc
  entry-remembers step t (some p) c o h =
      finish-remembers t p (resolve_deps r step (deps_of r p) c) o h

  resolve-remembers :
      (fuel : ℕ) (t : String) (c : Container O) (o : O)
      → (resolve r fuel t c).0 ≡ ok o
      → Map.get (resolve r fuel t c).1.singletons t ≡ some o
  unfolding resolve
  resolve-remembers zero t c o h = cc
  resolve-remembers (suc fuel) t c o h = elim (Option-cases (Map.get c.singletons t)) [
    | inl n ↦
        rw (n, resolve)
          (entry-remembers (resolve r fuel) t (Map.get c.services t) c o (rw (n, resolve) at h))
    | inr (v, e) ↦ rw (e, resolve) (let q = rw (e, resolve) at h in ground arith)
  ]

  -- A token that has been resolved gives the same instance ever after, whatever else is resolved in
  -- between, and making it again changes nothing.
  pub resolve_same :
      (fuel again between : ℕ) (t u : String) (c : Container O) (o : O)
      → (resolve r fuel t c).0 ≡ ok o
      → let d = (resolve r between u (resolve r fuel t c).1).1 in
        resolve r (suc again) t d ≡ (ok o, d)
  unfolding resolve
  resolve_same fuel again between t u c o h =
      let kept =
        (resolve-Extends between u (resolve r fuel t c).1).keeps t o
          (resolve-remembers fuel t c o h) in
      rw (kept, resolve) refl
