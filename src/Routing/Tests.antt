-- ===== src/Routing/Tests.antt =====
-- Exclusions of an API.
use express_nest_blueprint.Base.{ℕ, ◌≡◌, refl, true, false, none, some, List, [], ◌∷◌}
use express_nest_blueprint.Base.Text.{codes, split, starts_with, text_eq}
use express_nest_blueprint.Routing.{
  star_prefix, match_path, get, post, ExcludeRoute, Request, should_exclude, next, handled,
  instance_of, function_of, wrap_middleware_with_exclusions,
}

abbrev routes : List ExcludeRoute
routes =
    record { path = codes "/users/:id"; method = some get }
    ∷ record { path = codes "/auth/*"; method = none }
    ∷ []

abbrev request : List ℕ → Request
request path = record { path = path; method = get }

routing_tests :
    (match_path (codes "/users/7") (codes "/users/:id") ≡ true)
    × (match_path (codes "/users/7/posts") (codes "/users/:id") ≡ false)
    × (match_path (codes "/auth/login") (codes "/auth/*") ≡ true)
    × (should_exclude routes (record { path = codes "/users/7"; method = post }) ≡ false)
    × (wrap_middleware_with_exclusions {A = ℕ}
          (instance_of (λ req. 5))
          routes
          (request (codes "/users/7"))
        ≡ next)
    × (wrap_middleware_with_exclusions {A = ℕ}
          (instance_of (λ req. 5))
          routes
          (request (codes "/posts"))
        ≡ handled 5)
    × (wrap_middleware_with_exclusions {A = ℕ}
          (function_of (λ req. 5))
          routes
          (request (codes "/posts"))
        ≡ next)
unfolding match_path should_exclude wrap_middleware_with_exclusions split starts_with text_eq
routing_tests = (refl, refl, refl, refl, refl, refl, refl)

starless : star_prefix (codes "/users/:id") ≡ none
unfolding star_prefix
starless = refl
