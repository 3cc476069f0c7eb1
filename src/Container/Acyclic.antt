-- ===== src/Container/Acyclic.antt =====
-- Dependencies without a cycle: every resolution succeeds, and makes each instance once.
use text.Mathlib.Text.{◌==◌ as str_eq}
use text.Mathlib.TextEquality.{eq_iff}
use express_nest_blueprint.Base.{
  ℕ, zero, suc, ◌+◌, ◌≤◌, ◌<◌, String, ◌≡◌, ◌≢◌, refl, ◌∙◌, ap, Option, none, some, List, [], ◌∷◌,
  ◌++◌, arith, Option-cases, inl, inr, All, if◌then◌else◌, is_some,
}
use express_nest_blueprint.Base.Map
use express_nest_blueprint.Base.Map.{Map, get-set}
use express_nest_blueprint.Container.{
  Provider, Runtime, Container, Result, ok, throws, Resolve, resolve_deps, cons_dep, after_dep,
  finish, resolve, deps_of, create,
}

-- How often a token stands in a log.
unfoldable pub count : String → List String → ℕ
count k [] = 0
count k (t ∷ ts) = if str_eq t k then suc (count k ts) else count k ts

count-append :
    (k : String) (xs : List String) (t : String)
    → count k (xs ++ t ∷ []) ≡ count k xs + (if str_eq t k then 1 else 0)
unfolding count
count-append k [] t = ground arith
count-append k (x ∷ xs) t = ground (arith, count-append k xs t)

module _ {O : Type 0} (r : Runtime O) (rank : String → ℕ) (services : Map (Provider O)) where
  abbrev pub IsRegistered : String → Type 0
  IsRegistered t = Map.get services t ≢ none

  -- A dependency that can be met: none at all, or a registered token of a lower rank.
  abbrev pub IsBelow : ℕ → Option String → Type 0
  IsBelow n none = Unit
  IsBelow n (some t) = (rank t < n) × IsRegistered t

  -- Every dependency of a registered token is registered and of a lower rank, so there is no cycle.
  pub record IsAcyclic : Type 0 where
    pub below :
        (t : String) (p : Provider O)
        → Map.get services t ≡ some p
        → All (IsBelow (rank t)) (deps_of r p)

  -- Each token has been made once at most, and only if its singleton is there.
  abbrev pub MadeOnce : Container O → Type 0
  MadeOnce c = (k : String) → count k c.log ≤ (if is_some (Map.get c.singletons k) then 1 else 0)

  -- What a resolution at a rank does to the container: nothing at `n` or above.
  record Sound (n : ℕ) (c d : Container O) : Type 0 where
    above : (k : String) → n ≤ rank k → Map.get d.singletons k ≡ Map.get c.singletons k
    once : MadeOnce c → MadeOnce d
    same : d.services ≡ c.services

  Sound-refl : (n : ℕ) (c : Container O) → Sound n c c
  Sound-refl n c = record { above = λ k h. refl; once = λ h. h; same = refl }

  Sound-trans : (n : ℕ) {c d e : Container O} → Sound n c d → Sound n d e → Sound n c e
  Sound-trans n x y = record {
    above = λ k h. y.above k h ∙ x.above k h;
    once = λ h. y.once (x.once h);
    same = y.same ∙ x.same;
  }

  -- A result that is there, with a sound state.
  abbrev Good {ℓ} : {A : Type ℓ} → ℕ → Container O → Result A × Container O → Type ℓ
  Good n c x = (a : _) × (x.0 ≡ ok a) × Sound n c x.1

  cons_dep-Good :
      (n : ℕ) (c : Container O) (o : Option O) (x : Result (List (Option O)) × Container O)
      → Good n c x
      → Good n c (cons_dep r o x)
  unfolding cons_dep
  cons_dep-Good n c o (ok os, d) (_, h, s) = (o ∷ os, refl, s)
  cons_dep-Good n c o (throws e, d) (_, h, s) = cc

  after_dep-Good :
      (n : ℕ) (c : Container O) (x : Result O × Container O)
      (rest : Container O → Result (List (Option O)) × Container O)
      → Good n c x
      → ((d : Container O) → Sound n c d → Good n d (rest d))
      → Good n c (after_dep r x rest)
  unfolding after_dep
  after_dep-Good n c (throws e, d) rest (_, h, s) k = cc
  after_dep-Good n c (ok o, d) rest (_, h, s) k =
      let (os, e, t) = k d s in cons_dep-Good n c (some o) (rest d) (os, e, Sound-trans n s t)

  module _ (step : Resolve r) (n : ℕ)
      (good : (t : String) (c : Container O)
        → rank t < n
        → IsRegistered t
        → c.services ≡ services
        → Good n c (step t c)) where
    resolve_deps-Good :
        (deps : List (Option String)) (c : Container O)
        → All (IsBelow n) deps
        → c.services ≡ services
        → Good n c (resolve_deps r step deps c)
    unfolding resolve_deps
    resolve_deps-Good [] c h e = ([], refl, Sound-refl n c)
    resolve_deps-Good (none ∷ deps) c (_, h) e =
        cons_dep-Good n c none (resolve_deps r step deps c) (resolve_deps-Good deps c h e)
    resolve_deps-Good (some t ∷ deps) c ((low, reg), h) e =
        after_dep-Good n c (step t c) (resolve_deps r step deps) (good t c low reg e)
          (λ d s. resolve_deps-Good deps d h (s.same ∙ e))

  finish-Good :
      (t : String) (p : Provider O) (c : Container O) (x : Result (List (Option O)) × Container O)
      (m : ℕ)
      → rank t < m
      → Map.get c.singletons t ≡ none
      → Good (rank t) c x
      → Good m c (finish r t p x)
  unfolding finish
  finish-Good t p c (throws e, d) m low absent (_, h, s) = cc
  finish-Good t p c (ok os, d) m low absent (_, h, s) = (
    create r p os,
    refl,
    record {
      above = λ k q. ground (
        arith,
        get-set d.singletons t k (create r p os),
        eq_iff t k,
        s.above k (omega (arith, q, low)),
        λ (e : t ≡ k). ap rank e,
      );
      once = λ q k. ground (
        arith,
        get-set d.singletons t k (create r p os),
        eq_iff t k,
        count-append k d.log t,
        s.once q k,
        s.above t (omega arith),
        λ (e : t ≡ k). ap (λ j. count j d.log) e,
      );
      same = s.same;
    },
  )

  module _ (acyclic : IsAcyclic) where
    resolve-Good :
        (fuel m : ℕ) (t : String) (c : Container O)
        → rank t < fuel
        → rank t < m
        → IsRegistered t
        → c.services ≡ services
        → Good m c (resolve r fuel t c)
    unfolding resolve
    resolve-Good zero m t c h low reg e = absurd (omega arith)
    resolve-Good (suc fuel) m t c h low reg e = elim (Option-cases (Map.get c.singletons t)) [
      | inr (o, found) ↦ rw (found, resolve) (o, refl, Sound-refl m c)
      | inl absent ↦ elim (Option-cases (Map.get services t)) [
        | inl missing ↦ absurd (reg missing)
        | inr (p, q) ↦
            let deps =
              resolve_deps-Good (resolve r fuel) (rank t)
                (λ u d b g s. resolve-Good fuel (rank t) u d (omega arith) b g s) (deps_of r p) c
                (acyclic.below t p q) e in
            let q' : Map.get c.services t ≡ some p =
              ap (λ (m : Map (Provider O)). Map.get m t) e ∙ q in
            rw (absent, q', resolve)
              (finish-Good t p c (resolve_deps r (resolve r fuel) (deps_of r p) c) m low absent
                deps)
      ]
    ]

    -- Where the dependencies have no cycle and are all registered, resolving a registered token gives
    -- an instance as soon as the fuel is above its rank, and keeps that no token is made twice.
    pub resolve_acyclic :
        (fuel : ℕ) (t : String) (c : Container O)
        → rank t < fuel
        → IsRegistered t
        → c.services ≡ services
        → MadeOnce c
        → (o : O) × ((resolve r fuel t c).0 ≡ ok o) × MadeOnce (resolve r fuel t c).1
    resolve_acyclic fuel t c h reg e once =
        let (o, made, s) = resolve-Good fuel fuel t c h h reg e in (o, made, s.once once)
