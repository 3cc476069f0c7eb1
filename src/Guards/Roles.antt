-- ===== src/Guards/Roles.antt =====
-- What a handler behind @Roles or @RequireAuth may count on.
use mathlib.Core.List.{Memᴰ}
use mathlib.Core.Path.{subst}
use mathlib.Core.Bool.{not}
use express_nest_blueprint.Base.{
  ℕ, ◌≡◌, ◌≢◌, refl, true, false, ◌||◌, Option, none, some, List, [], ◌∷◌, any, All, arith,
  if◌then◌else◌, Bool-cases, Option-cases, inl, inr, get_or,
}
use express_nest_blueprint.Guards.{
  UserRoles, global_admin, admin, user, moderator, same_role, JwtPayload, Request, Metadata,
  Decorator, public, roles, decorated, require_auth, forbidden, Verdict, next, next_error, throws,
  extract_token_from_header, requires_auth, skips_auth, with_token, auth_guard, roles_guard, Result,
  passed, rejected, run_guards, after,
}

pub same_role_sound : (a b : UserRoles) → same_role a b ≡ true → a ≡ b
same_role_sound global_admin b h = ground arith
same_role_sound admin b h = ground arith
same_role_sound user b h = ground arith
same_role_sound moderator b h = ground arith

pub same_role_refl : (a : UserRoles) → same_role a a ≡ true
same_role_refl global_admin = refl
same_role_refl admin = refl
same_role_refl user = refl
same_role_refl moderator = refl

mem_of_any : (r : UserRoles) (rs : List UserRoles) → any (same_role r) rs ≡ true → Memᴰ r rs
mem_of_any r [] h = cc
mem_of_any r (q ∷ rs) h = elim (Bool-cases (same_role r q)) [
  | inl e ↦ Memᴰ.head (same_role_sound r q e)
  | inr e ↦ Memᴰ.tail (mem_of_any r rs (rw e at h))
]

any_of_mem : (r : UserRoles) (rs : List UserRoles) → Memᴰ r rs → any (same_role r) rs ≡ true
any_of_mem r [] m = elim m [ ]
any_of_mem r (q ∷ rs) (Memᴰ.head e) = ground (arith, same_role_refl r)
any_of_mem r (q ∷ rs) (Memᴰ.tail m) = ground (arith, any_of_mem r rs m)

no_public : (ds : List Decorator) → All (λ d. d ≢ public) ds → (decorated ds).is_public ≡ none
unfolding decorated
no_public [] h = refl
no_public (require_auth ∷ ds) (_, h) = no_public ds h
no_public (roles rs ∷ ds) (_, h) = no_public ds h
no_public (public ∷ ds) (h, _) = absurd (h refl)

module _ (verify : List ℕ → Option JwtPayload) where
  -- A user that AuthGuard has put there comes from a token of the request.
  pub record Authenticated (req : Request) (u : JwtPayload) : Type 0 where
    pub token : List ℕ
    pub extracted : extract_token_from_header req ≡ some token
    pub accepted : verify token ≡ some u

  -- What AuthGuard has done when it calls `next()`.
  data AuthPassed (req req' : Request) : Type 0 where
    unchanged : req' ≡ req → AuthPassed req req'
    signed_in :
        (u : JwtPayload)
        → Authenticated req u
        → req' ≡ record req { user = some u }
        → AuthPassed req req'

  with_token_sound :
      (req req' : Request) (t : Option (List ℕ))
      → extract_token_from_header req ≡ t
      → with_token verify req t ≡ next req'
      → (u : JwtPayload) × Authenticated req u × (req' ≡ record req { user = some u })
  unfolding with_token
  with_token_sound req req' none e h = cc
  with_token_sound req req' (some []) e h = cc
  with_token_sound req req' (some (c ∷ t)) e h = elim (Option-cases (verify (c ∷ t))) [
    | inl failed ↦ absurd (ground (arith, failed))
    | inr (v, accepted) ↦
        (v, record { token = c ∷ t; extracted = e; accepted = accepted }, ground (arith, accepted))
  ]

  auth_guard_sound :
      (method controller : Metadata) (req req' : Request)
      → auth_guard verify method controller req ≡ next req'
      → AuthPassed req req'
  unfolding auth_guard
  auth_guard_sound method controller req req' h =
      elim (Bool-cases (get_or method.is_public false)) [
        | inl p ↦ unchanged (ground (arith, p))
        | inr p ↦ elim (Bool-cases (skips_auth req || not (requires_auth method controller))) [
          | inl s ↦ unchanged (ground (arith, p, s))
          | inr s ↦
              let (u, a, e) =
                with_token_sound req req' (extract_token_from_header req) refl
                  (ground (arith, p, s)) in
              signed_in u a e
        ]
      ]

  roles_guard_sound :
      (method controller : Metadata) (req req' : Request) (r : UserRoles) (rs : List UserRoles)
      (o : Option JwtPayload)
      → req.user ≡ o
      → method.is_public ≡ none
      → method.roles ≡ some (r ∷ rs)
      → roles_guard method controller req ≡ next req'
      → (u : JwtPayload) × (req.user ≡ some u) × Memᴰ u.role (r ∷ rs)
  unfolding roles_guard
  roles_guard_sound method controller req req' r rs none e p q h = absurd (ground arith)
  roles_guard_sound method controller req req' r rs (some u) e p q h =
      (u, e, mem_of_any u.role (r ∷ rs) (ground arith))

  after_passed :
      (v : Verdict) (k : Request → Result) (req' : Request)
      → after v k ≡ passed req'
      → (req : Request) × (v ≡ next req) × (k req ≡ passed req')
  unfolding after
  after_passed (next req) k req' h = (req, refl, h)
  after_passed (next_error e) k req' h = cc
  after_passed (throws e) k req' h = cc

  -- A request that no middleware has signed in gets past the guards of a method under @Roles of at
  -- least one role, and not @Public, only with a token that JwtService has verified, for a user with
  -- one of these roles; whatever the class and the other guards are.
  pub roles_enforced :
      (r : UserRoles) (rs : List UserRoles) (ds : List Decorator) (controller : Metadata)
      (class_guards method_guards : List (Request → Verdict)) (req req' : Request)
      → All (λ d. d ≢ public) ds
      → req.user ≡ none
      → run_guards verify
          (decorated (roles (r ∷ rs) ∷ ds))
          controller
          class_guards
          method_guards
          req
        ≡ passed req'
      → (u : JwtPayload) × Authenticated req u × Memᴰ u.role (r ∷ rs)
  unfolding run_guards decorated
  roles_enforced r rs ds controller class_guards method_guards req req' h n e =
      let (req₁, first, e₁) = after_passed _ _ req' e in
      let (req₂, second, _) = after_passed _ _ req' e₁ in
      let (u, signed, member) =
        roles_guard_sound _ controller req₁ req₂ r rs req₁.user refl (no_public ds h) refl second in
      elim (auth_guard_sound _ controller req req₁ first) [
        | unchanged same ↦ absurd (ground arith)
        | signed_in v a same ↦ (u, subst (Authenticated req) (ground arith) a, member)
      ]

  -- A token that JwtService verifies for a user decides the case under @Roles alone: the handler gets
  -- the request with that user if the user's role is listed, and otherwise the answer is forbidden.
  -- The path must not have "/auth/" in it.
  pub roles_decide :
      (r : UserRoles) (rs : List UserRoles) (ds : List Decorator) (controller : Metadata)
      (req : Request) (c : ℕ) (token : List ℕ) (u : JwtPayload)
      → All (λ d. d ≢ public) ds
      → skips_auth req ≡ false
      → extract_token_from_header req ≡ some (c ∷ token)
      → verify (c ∷ token) ≡ some u
      → run_guards verify (decorated (roles (r ∷ rs) ∷ ds)) controller [] [] req ≡ (
          if any (same_role u.role) (r ∷ rs)
          then passed (record req { user = some u })
          else rejected forbidden)
  unfolding run_guards auth_guard roles_guard decorated
  roles_decide r rs ds controller req c token u h s e v = ground (arith, no_public ds h)

  -- Under @RequireAuth, and not @Public, AuthGuard lets a request whose path has no "/auth/" in it on
  -- only with a verified token, whose user it puts into the request.
  pub require_auth_enforced :
      (ds : List Decorator) (controller : Metadata) (req req' : Request)
      → All (λ d. d ≢ public) ds
      → skips_auth req ≡ false
      → auth_guard verify (decorated (require_auth ∷ ds)) controller req ≡ next req'
      → (u : JwtPayload) × Authenticated req u × (req' ≡ record req { user = some u })
  unfolding auth_guard decorated
  require_auth_enforced ds controller req req' h s e =
      with_token_sound req req' (extract_token_from_header req) refl
        (ground (arith, no_public ds h))
