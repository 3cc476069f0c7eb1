-- ===== src/Auth/Login.antt =====
-- Who can log in, and what the token is good for.
use mathlib.Core.Path.{subst}
use express_nest_blueprint.Base.{
  ℕ, ◌≡◌, ◌≢◌, refl, sym, ap, ◌∙◌, true, false, Option, none, some, List, [], ◌∷◌, ◌++◌, any, All,
  arith, if◌then◌else◌, ◌==◌,
}
use express_nest_blueprint.Base.Text.{codes}
use express_nest_blueprint.Guards.{
  UserRoles, same_role, JwtPayload, Request, Metadata, Decorator, roles, public, decorated,
  run_guards, passed, rejected, forbidden, skips_auth,
}
use express_nest_blueprint.Guards.Roles.{roles_decide}
use express_nest_blueprint.Guards.Bearer.{bearer-extracted}
use express_nest_blueprint.Auth.{
  AuthResponseUser, LoginDto, AuthResponseDto, Result, ok, Services, is_empty, is_allowed,
  payload_of, generate_auth_response, login_user, login,
}

module _ {S : Type 0} (services : Services S) where
  -- The user may log in with this password.
  pub record MayLogIn (dto : LoginDto) (wanted : Option (List UserRoles)) (s : S)
      (u : AuthResponseUser) : Type 0 where
    pub found : services.find_by_email_with_auth dto.email s ≡ some u
    pub has_hash : is_empty u.password_hash ≡ false
    pub password : services.compare dto.password u.password_hash ≡ true
    pub active : u.is_active ≡ true
    pub verified : u.is_email_verified ≡ true
    pub allowed : is_allowed wanted u.role ≡ true

  login_user-accepts :
      (dto : LoginDto) (wanted : Option (List UserRoles)) (s : S) (o : Option AuthResponseUser)
      (r : AuthResponseDto)
      → services.find_by_email_with_auth dto.email s ≡ o
      → (login_user services dto wanted o s).0 ≡ ok r
      → (u : AuthResponseUser) × MayLogIn dto wanted s u × (r ≡ generate_auth_response services u)
  unfolding login_user
  login_user-accepts dto wanted s none r f h = ground (arith, h)
  login_user-accepts dto wanted s (some u) r f h = (
    u,
    record {
      found = f;
      has_hash = ground (arith, h);
      password = ground (arith, h);
      active = ground (arith, h);
      verified = ground (arith, h);
      allowed = ground (arith, h);
    },
    ground (arith, h),
  )

  -- A login succeeds only for an active, verified user with one of the allowed roles, with the password
  -- of that user's hash; the response is that user's.
  pub login_sound :
      (dto : LoginDto) (wanted : Option (List UserRoles)) (s : S) (r : AuthResponseDto)
      → (login services dto wanted s).0 ≡ ok r
      → (u : AuthResponseUser) × MayLogIn dto wanted s u × (r ≡ generate_auth_response services u)
  unfolding login
  login_sound dto wanted s r h = login_user-accepts dto wanted s _ r refl h

  -- Each user who may log in does, and only this writes: the time of the user's last login.
  pub login_complete :
      (dto : LoginDto) (wanted : Option (List UserRoles)) (s : S) (u : AuthResponseUser)
      → MayLogIn dto wanted s u
      → login services dto wanted s
        ≡ (ok (generate_auth_response services u), services.update_last_login u.id s)
  unfolding login login_user
  login_complete dto wanted s u m =
      rw m.found (rw (m.has_hash, m.password, m.active, m.verified, m.allowed) refl)

  -- The token of a login, sent as a bearer token to a method under @Roles of at least one role, decides by
  -- the role of the user who logged in: the handler runs for that user where the role is listed, and the
  -- answer is forbidden otherwise. JwtService must verify what it signs, the token must have no space in
  -- it and not be empty, the method not be @Public and the path not have "/auth/" in it.
  pub login_then_roles :
      (verify : List ℕ → Option JwtPayload) (dto : LoginDto) (wanted : Option (List UserRoles))
      (s : S) (response : AuthResponseDto) (u : AuthResponseUser) (r : UserRoles)
      (rs : List UserRoles) (ds : List Decorator) (controller : Metadata) (req : Request) (c : ℕ)
      (token : List ℕ)
      → ((p : JwtPayload) → verify (services.sign p) ≡ some p)
      → All (λ d. d ≢ public) ds
      → skips_auth req ≡ false
      → MayLogIn dto wanted s u
      → (login services dto wanted s).0 ≡ ok response
      → response.access_token ≡ c ∷ token
      → All (λ c. c == b' ' ≡ false) (c ∷ token)
      → req.authorization ≡ some (codes "Bearer " ++ response.access_token)
      → run_guards verify (decorated (roles (r ∷ rs) ∷ ds)) controller [] [] req ≡ (
          if any (same_role u.role) (r ∷ rs)
          then passed (record req { user = some (payload_of services u) })
          else rejected forbidden)
  unfolding generate_auth_response
  login_then_roles verify dto wanted s response u r rs ds controller req c token law h skips may
        logged t spaceless sent =
      let same : response ≡ generate_auth_response services u = ground (
        arith,
        logged,
        ap (λ (x : Result AuthResponseDto × S). x.0) (login_complete dto wanted s u may),
      ) in
      let signed : services.sign (payload_of services u) ≡ c ∷ token =
        sym (ap (λ (x : AuthResponseDto). x.access_token) same) ∙ t in
      let header : req.authorization ≡ some (codes "Bearer " ++ c ∷ token) = rw t at sent in
      roles_decide verify r rs ds controller req c token (payload_of services u) h skips
        (bearer-extracted req c token spaceless header)
        (subst (λ t. verify t ≡ some (payload_of services u)) signed (law (payload_of services u)))
