-- ===== src/Guards/Health.antt =====
-- When HeaderAuthGuard lets a request through.
use express_nest_blueprint.Base.{
  ℕ, ◌≡◌, ◌⊎◌, ◌↔◌, true, Option, none, some, List, [], ◌∷◌, ◌++◌, arith, ap, ◌∙◌, get_or, inl, inr,
  Bool-cases,
}
use express_nest_blueprint.Base.Text.{
  codes, starts_with, drop, text_eq_iff, starts_with_split, starts_with-append, drop-append,
}
use express_nest_blueprint.Guards.{
  Request, Metadata, next, bearer_of, is_key, check_key, header_auth_guard,
}

bearer_of_sound :
    (o : Option (List ℕ)) (key : List ℕ)
    → bearer_of o ≡ some key
    → o ≡ some (codes "Bearer " ++ key)
unfolding bearer_of
bearer_of_sound none key h = cc
bearer_of_sound (some header) key h = elim (Bool-cases (starts_with header (codes "Bearer "))) [
  | inl e ↦
      let d : drop 7 header ≡ key = ground (arith, e) in
      ap some (starts_with_split header (codes "Bearer ") e ∙ ap (λ k. codes "Bearer " ++ k) d)
  | inr e ↦ absurd (ground (arith, e))
]

bearer_of_complete : (key : List ℕ) → bearer_of (some (codes "Bearer " ++ key)) ≡ some key
unfolding bearer_of
bearer_of_complete key =
    rw (starts_with-append (codes "Bearer ") key) (ap some (drop-append (codes "Bearer ") key))

is_key_iff : (secret : List ℕ) (o : Option (List ℕ)) → (is_key secret o ≡ true) ↔ (o ≡ some secret)
is_key_iff secret none = ground arith
is_key_iff secret (some key) = ground (arith, text_eq_iff key secret)

check_key_iff :
    (req : Request) (c : ℕ) (s : List ℕ)
    → (check_key req (some (c ∷ s)) ≡ next req) ↔ (
        (is_key (c ∷ s) req.health_key ≡ true)
        ⊎ (is_key (c ∷ s) (bearer_of req.authorization) ≡ true))
unfolding check_key
check_key_iff req c s = ground arith

-- A request to a method that is not public gets past the health guard exactly when no secret is set,
-- or it shows the secret as its health key or as its bearer token.
pub header_auth_guard_iff :
    (secret : Option (List ℕ)) (method : Metadata) (req : Request)
    → method.is_public ≡ none
    → (header_auth_guard secret method req ≡ next req) ↔ (
        (get_or secret [] ≡ [])
        ⊎ (req.health_key ≡ secret)
        ⊎ (req.authorization ≡ some (codes "Bearer " ++ get_or secret [])))
unfolding header_auth_guard
header_auth_guard_iff none method req p = ground arith
header_auth_guard_iff (some []) method req p = ground arith
header_auth_guard_iff (some (c ∷ s)) method req p =
    let (open_by, opens) = check_key_iff req c s in
    (
      λ h. elim (open_by (ground arith)) [
        | inl k ↦ inr (inl ((is_key_iff (c ∷ s) req.health_key).0 k))
        | inr k ↦ inr (
            inr (
              bearer_of_sound req.authorization (c ∷ s)
                ((is_key_iff (c ∷ s) (bearer_of req.authorization)).0 k)))
      ],
      λ h. elim h [
        | inl e ↦ absurd (ground arith)
        | inr (inl k) ↦ ground (arith, opens (inl ((is_key_iff (c ∷ s) req.health_key).1 k)))
        | inr (inr k) ↦ ground (
          arith,
          opens (
              inr (
                (is_key_iff (c ∷ s) (bearer_of req.authorization)).1
                  (ap bearer_of k ∙ bearer_of_complete (c ∷ s)))),
        )
      ],
    )
