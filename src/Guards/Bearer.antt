-- ===== src/Guards/Bearer.antt =====
-- Reading a bearer token from the header.
use express_nest_blueprint.Base.{ℕ, ◌≡◌, refl, false, Option, some, List, [], ◌∷◌, ◌++◌, All, ◌==◌}
use express_nest_blueprint.Base.Text.{codes, split, text_eq}
use express_nest_blueprint.Guards.{Request, split_header, bearer_token, extract_token_from_header}

-- A token without spaces is one part.
split_token : (token : List ℕ) → All (λ c. c == b' ' ≡ false) token → split b' ' token ≡ token ∷ []
unfolding split
split_token [] a = refl
split_token (c ∷ token) (a, others) = rw (split_token token others) (rw a refl)

split-bearer :
    (token : List ℕ)
    → All (λ c. c == b' ' ≡ false) token
    → split b' ' (codes "Bearer " ++ token) ≡ codes "Bearer" ∷ token ∷ []
unfolding split
split-bearer token a = rw (split_token token a) refl

header_parts :
    (header : Option (List ℕ)) (token : List ℕ)
    → All (λ c. c == b' ' ≡ false) token
    → header ≡ some (codes "Bearer " ++ token)
    → split_header header ≡ codes "Bearer" ∷ token ∷ []
unfolding split_header
header_parts header token a h = rw h (split-bearer token a)

pub bearer-extracted :
    (req : Request) (c : ℕ) (token : List ℕ)
    → All (λ c. c == b' ' ≡ false) (c ∷ token)
    → req.authorization ≡ some (codes "Bearer " ++ c ∷ token)
    → extract_token_from_header req ≡ some (c ∷ token)
unfolding extract_token_from_header bearer_token text_eq
bearer-extracted req c token a h =
    rw (header_parts req.authorization (c ∷ token) a h, extract_token_from_header) refl
