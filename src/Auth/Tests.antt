-- ===== src/Auth/Tests.antt =====
-- Logging in with a toy signature: the fields of the payload, one after the other.
use express_nest_blueprint.Base.{
  ℕ, suc, ◌≡◌, refl, true, false, Option, none, some, List, [], ◌∷◌, ◌++◌, any, if◌then◌else◌, ◌==◌,
}
use express_nest_blueprint.Base.Text.{codes, text_eq, includes}
use express_nest_blueprint.Guards.{
  UserRoles, global_admin, admin, user, moderator, same_role, JwtPayload, Request, roles, decorated,
  run_guards, passed, rejected, forbidden, skips_auth,
}
use express_nest_blueprint.Auth.{
  AuthResponseUser, LoginDto, ok, throws, access_denied, invalid_credentials, Services, payload_of,
  generate_auth_response, login, register,
}
use express_nest_blueprint.Auth.Login.{MayLogIn, login_then_roles}

abbrev role_number : UserRoles → ℕ
role_number global_admin = 0
role_number admin = 1
role_number user = 2
role_number moderator = 3

abbrev numbered_role : ℕ → UserRoles
numbered_role n =
    if n == 0 then global_admin else if n == 1 then admin else if n == 2 then user else moderator

abbrev verify : List ℕ → Option JwtPayload
verify (sub ∷ role ∷ email) = some (record { sub = sub; email = email; role = numbered_role role })
verify _ = none

abbrev ann : AuthResponseUser
ann = record {
  id = 7;
  email = codes "ann@a.io";
  password_hash = codes "hash";
  first_name = codes "Ann";
  last_name = codes "A";
  role = admin;
  is_active = true;
  is_email_verified = true;
}

abbrev services : Services ℕ
services = record {
  find_by_email_with_auth = λ email s. if text_eq email (codes "ann@a.io") then some ann else none;
  update_last_login = λ id s. suc s;
  create_with_auth = λ dto hash s. (ok ann, s);
  is_registration_allowed = some (λ s. false);
  hash = λ password. codes "hash";
  compare = λ password hash. text_eq password (codes "secret");
  sign = λ p. p.sub ∷ role_number p.role ∷ p.email;
  expires_in_seconds = 3600;
}

abbrev attempt : LoginDto
attempt = record { email = codes "ann@a.io"; password = codes "secret" }

auth : Unit {0}
unfolding login register generate_auth_response text_eq
auth = tt

login_tests :
    (login services attempt (some (admin ∷ [])) 3 ≡ (ok (generate_auth_response services ann), 4))
    × (login services attempt (some (moderator ∷ [])) 3 ≡ (throws access_denied, 3))
    × (login services (record attempt { password = codes "guess" }) none 3
        ≡ (throws invalid_credentials, 3))
unfolding auth
login_tests = (refl, refl, refl)

logged_in :
    (login services attempt (some (admin ∷ [])) 3).0 ≡ ok (generate_auth_response services ann)
unfolding auth
logged_in = refl

ann_may : MayLogIn services attempt (some (admin ∷ [])) 3 ann
unfolding auth
ann_may = record {
  found = refl;
  has_hash = refl;
  password = refl;
  active = refl;
  verified = refl;
  allowed = refl;
}

verify_sign : (p : JwtPayload) → verify (services.sign p) ≡ some p
verify_sign p = law p.role
  where
    law : (r : UserRoles) → verify (p.sub ∷ role_number r ∷ p.email) ≡ some (record p { role = r })
    law global_admin = refl
    law admin = refl
    law user = refl
    law moderator = refl

abbrev request : Request
request = record {
  path = codes "/api/v1/users";
  url = codes "/api/v1/users";
  authorization = some (codes "Bearer " ++ 7 ∷ 1 ∷ codes "ann@a.io");
  query_token = none;
  health_key = none;
  user = none;
}

no_skip : skips_auth request ≡ false
unfolding skips_auth includes
no_skip = refl

token_of_ann : (generate_auth_response services ann).access_token ≡ 7 ∷ 1 ∷ codes "ann@a.io"
unfolding auth
token_of_ann = refl

sent_by_ann :
    request.authorization
    ≡ some (codes "Bearer " ++ (generate_auth_response services ann).access_token)
unfolding auth
sent_by_ann = refl

login_then_roles_example :
    run_guards verify
      (decorated (roles (admin ∷ []) ∷ []))
      (record { is_public = none; require_auth = none; roles = none })
      []
      []
      request
    ≡ (if any (same_role admin) (admin ∷ [])
        then passed (record request { user = some (payload_of services ann) })
        else rejected forbidden)
login_then_roles_example =
    login_then_roles services verify attempt (some (admin ∷ [])) 3
      (generate_auth_response services ann) ann admin [] []
      (record { is_public = none; require_auth = none; roles = none }) request 7
      (1 ∷ codes "ann@a.io") verify_sign tt no_skip ann_may logged_in token_of_ann
      (refl, (refl, (refl, (refl, (refl, (refl, (refl, (refl, (refl, (refl, tt)))))))))) sent_by_ann
