-- ===== src/Guards/Tests.antt =====
-- Guards at concrete requests.
use mathlib.Core.List.{Memᴰ}
use express_nest_blueprint.Base.{ℕ, ◌≡◌, refl, false, Option, none, some, List, [], ◌∷◌}
use express_nest_blueprint.Base.Text.{codes, includes, starts_with, split, text_eq, drop}
use express_nest_blueprint.Guards.{
  admin, moderator, JwtPayload, Request, Metadata, roles, require_auth, public, decorated,
  forbidden, unauthorized, next, auth_guard, header_auth_guard, extract_token_from_header,
  skips_auth, passed, rejected, run_guards, roles_guard,
}
use express_nest_blueprint.Guards.Roles.{Authenticated, roles_enforced}

guards : Unit {0}
unfolding run_guards auth_guard roles_guard header_auth_guard extract_token_from_header skips_auth
    decorated includes starts_with split text_eq drop
guards = tt

abbrev ann : JwtPayload
ann = record { sub = 1; email = codes "ann@example.com"; role = admin }

-- Accepts one token.
abbrev verify : List ℕ → Option JwtPayload
verify (c ∷ []) = some ann
verify _ = none

abbrev asks : Option (List ℕ) → Request
asks header = record {
  path = codes "/api/v1/users";
  url = codes "/api/v1/users";
  authorization = header;
  query_token = none;
  health_key = none;
  user = none;
}

abbrev signed : Request
signed = asks (some (codes "Bearer x"))

abbrev bare : Metadata
bare = record { is_public = none; require_auth = none; roles = none }

guards_tests :
    (run_guards verify (decorated (roles (admin ∷ []) ∷ [])) bare [] [] signed
      ≡ passed (record signed { user = some ann }))
    × (run_guards verify (decorated (roles (moderator ∷ []) ∷ [])) bare [] [] signed
        ≡ rejected forbidden)
    × (run_guards verify (decorated (roles (admin ∷ []) ∷ [])) bare [] [] (asks none)
        ≡ rejected unauthorized)
    × (run_guards verify (decorated (require_auth ∷ [])) bare [] [] (asks (some (codes "Basic x")))
        ≡ rejected unauthorized)
    × (run_guards verify (decorated (public ∷ require_auth ∷ [])) bare [] [] (asks none)
        ≡ passed (asks none))
unfolding guards
guards_tests = (refl, refl, refl, refl, refl)

roles_enforced_example : (u : JwtPayload) × Authenticated verify signed u × Memᴰ u.role (admin ∷ [])
roles_enforced_example =
    roles_enforced verify admin [] [] bare [] [] signed (record signed { user = some ann }) tt refl
      guards_tests.0

token_found : extract_token_from_header signed ≡ some (codes "x")
unfolding guards
token_found = refl

checked_path : skips_auth signed ≡ false
unfolding guards
checked_path = refl

auth_passes :
    auth_guard verify (decorated (require_auth ∷ [])) bare signed
    ≡ next (record signed { user = some ann })
unfolding guards
auth_passes = refl
