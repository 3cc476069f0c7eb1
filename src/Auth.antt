-- ===== src/Auth.antt =====
-- AuthService: packages/backend/core-api/src/modules/auth/auth.service.ts. The repository of users, with
-- its state `S`, bcrypt and JwtService are parameters; a text is its list of code points.
pub mod Login
mod Tests
use express_nest_blueprint.Base.{
  ℕ, Bool, true, false, not, ◌&&◌, ◌||◌, Option, none, some, List, [], ◌∷◌, any, if◌then◌else◌,
}
use express_nest_blueprint.Guards.{UserRoles, same_role, JwtPayload}

pub record AuthResponseUser : Type 0 where
  pub id : ℕ
  pub email : List ℕ
  pub password_hash : List ℕ
  pub first_name : List ℕ
  pub last_name : List ℕ
  pub role : UserRoles
  pub is_active : Bool
  pub is_email_verified : Bool

pub record LoginDto : Type 0 where
  pub email : List ℕ
  pub password : List ℕ

pub record RegisterDto : Type 0 where
  pub email : List ℕ
  pub password : List ℕ
  pub first_name : List ℕ
  pub last_name : List ℕ

-- `user` of the response.
pub record UserView : Type 0 where
  pub id : ℕ
  pub email : List ℕ
  pub first_name : List ℕ
  pub last_name : List ℕ
  pub role : UserRoles
  pub is_active : Bool

pub record AuthResponseDto : Type 0 where
  pub access_token : List ℕ
  pub expires_in : ℕ
  pub user : UserView

pub data AuthException : Type 0 where
  invalid_credentials deactivated access_denied registration_disabled : AuthException
  rejected_by_repository : AuthException

pub data Result {ℓ} (A : Type ℓ) : Type ℓ where
  ok : A → Result A
  throws : AuthException → Result A

-- AuthRepository, bcrypt and JwtService.
pub record Services (S : Type 0) : Type 0 where
  pub find_by_email_with_auth : List ℕ → S → Option AuthResponseUser
  pub update_last_login : ℕ → S → S
  pub create_with_auth : RegisterDto → List ℕ → S → Result AuthResponseUser × S
  pub is_registration_allowed : Option (S → Bool)
  pub hash : List ℕ → List ℕ
  pub compare : List ℕ → List ℕ → Bool
  pub sign : JwtPayload → List ℕ
  pub expires_in_seconds : ℕ

abbrev is_empty : List ℕ → Bool
is_empty [] = true
is_empty (c ∷ cs) = false

-- `!options?.allowedRoles || options.allowedRoles.includes(user.role)`.
abbrev pub is_allowed : Option (List UserRoles) → UserRoles → Bool
is_allowed none role = true
is_allowed (some roles) role = any (same_role role) roles

module _ {S : Type 0} (services : Services S) where
  abbrev pub payload_of : AuthResponseUser → JwtPayload
  payload_of u = record { sub = u.id; email = u.email; role = u.role }

  pub generate_auth_response : AuthResponseUser → AuthResponseDto
  generate_auth_response u = record {
    access_token = services.sign (payload_of u);
    expires_in = services.expires_in_seconds;
    user = record {
      id = u.id;
      email = u.email;
      first_name = u.first_name;
      last_name = u.last_name;
      role = u.role;
      is_active = u.is_active;
    };
  }

  -- After the user is found.
  login_user :
      LoginDto → Option (List UserRoles) → Option AuthResponseUser → S → Result AuthResponseDto × S
  unfolding generate_auth_response
  login_user dto roles none s = (throws invalid_credentials, s)
  login_user dto roles (some u) s =
      if is_empty u.password_hash
      then (throws invalid_credentials, s)
      else if not (services.compare dto.password u.password_hash)
      then (throws invalid_credentials, s)
      else if not u.is_active || not u.is_email_verified
      then (throws deactivated, s)
      else if not (is_allowed roles u.role)
      then (throws access_denied, s)
      else (ok (generate_auth_response u), services.update_last_login u.id s)

  pub login : LoginDto → Option (List UserRoles) → S → Result AuthResponseDto × S
  unfolding login_user
  login dto roles s = login_user dto roles (services.find_by_email_with_auth dto.email s) s

  created : Result AuthResponseUser × S → Result AuthResponseDto × S
  unfolding generate_auth_response
  created (ok u, s) = (ok (generate_auth_response u), s)
  created (throws e, s) = (throws e, s)

  abbrev registration_open : Option (S → Bool) → S → Bool
  registration_open none s = true
  registration_open (some allowed) s = allowed s

  pub register : RegisterDto → S → Result AuthResponseDto × S
  unfolding created
  register dto s =
      if registration_open services.is_registration_allowed s
      then created (services.create_with_auth dto (services.hash dto.password) s)
      else (throws registration_disabled, s)
