-- ===== src/Routing/Paths.antt =====
-- Which requests a path to exclude stands for.
use mathlib.Core.Path.{subst}
use express_nest_blueprint.Base.{
  ℕ, suc, ◌≡◌, ◌↔◌, refl, sym, true, false, none, some, List, [], ◌∷◌, ◌++◌, arith, length,
  Bool-cases, inl, inr,
}
use express_nest_blueprint.Base.Text.{
  codes, starts_with, split, text_eq, text_eq_iff, drop, starts_with_split, starts_with-append,
}
use express_nest_blueprint.Routing.{
  star_prefix, same_segment, every_segment, match_segments, match_pattern, match_path,
}

-- Segment by segment: a parameter stands for any part, any other segment for itself.
pub data Matches : List (List ℕ) → List (List ℕ) → Type 0 where
  finished : Matches [] []
  parameter :
      {segment part : List ℕ} {segments parts : List (List ℕ)}
      → starts_with segment (codes ":") ≡ true
      → Matches segments parts
      → Matches (segment ∷ segments) (part ∷ parts)
  literal :
      {segment : List ℕ} {segments parts : List (List ℕ)}
      → Matches segments parts
      → Matches (segment ∷ segments) (segment ∷ parts)

Matches-refl : (segments : List (List ℕ)) → Matches segments segments
Matches-refl [] = finished
Matches-refl (s ∷ segments) = literal (Matches-refl segments)

every_segment-suc :
    (segments parts : List (List ℕ)) (part : List ℕ) (i : ℕ)
    → every_segment segments (part ∷ parts) (suc i) ≡ every_segment segments parts i
unfolding every_segment
every_segment-suc [] parts part i = refl
every_segment-suc (s ∷ segments) parts part i =
    rw (every_segment-suc segments parts part (suc i)) refl

match_segments-Matches :
    (segments parts : List (List ℕ)) → match_segments segments parts ≡ true → Matches segments parts
unfolding match_segments every_segment same_segment
match_segments-Matches [] [] h = finished
match_segments-Matches [] (p ∷ parts) h = ground (arith, h)
match_segments-Matches (s ∷ segments) [] h = ground (arith, h)
match_segments-Matches (s ∷ segments) (p ∷ parts) h =
    let shift = every_segment-suc segments parts p 0 in
    let rest : match_segments segments parts ≡ true = ground (arith, h, shift) in
    elim (Bool-cases (starts_with s (codes ":"))) [
      | inl param ↦ parameter param (match_segments-Matches segments parts rest)
      | inr fixed ↦
          let same : s ≡ p = (text_eq_iff s p).0 (ground (arith, h, fixed)) in
          subst (λ q. Matches (s ∷ segments) (q ∷ parts)) same
            (literal (match_segments-Matches segments parts rest))
    ]

Matches-match_segments :
    {segments parts : List (List ℕ)} → Matches segments parts → match_segments segments parts ≡ true
unfolding match_segments every_segment same_segment
Matches-match_segments finished = refl
Matches-match_segments (parameter {segment} {part} {segments} {parts} param m) =
    ground (arith, param, Matches-match_segments m, every_segment-suc segments parts part 0)
Matches-match_segments (literal {segment} {segments} {parts} m) = ground (
  arith,
  Matches-match_segments m,
  every_segment-suc segments parts segment 0,
  (text_eq_iff segment segment).1 refl,
)

star_prefix-star : (route : List ℕ) → star_prefix route ≡ none → text_eq route (codes "*") ≡ false
unfolding star_prefix text_eq
star_prefix-star [] h = refl
star_prefix-star (c ∷ []) h = ground (arith, h)
star_prefix-star (c ∷ d ∷ s) h = ground arith

-- Unless it ends with a star, a path to exclude stands for the requests that match it segment by
-- segment.
pub match_path_iff :
    (request route : List ℕ)
    → star_prefix route ≡ none
    → (match_path request route ≡ true) ↔ Matches (split b'/' route) (split b'/' request)
unfolding match_path match_pattern
match_path_iff request route h =
    let unstarred = star_prefix-star route h in
    elim (Bool-cases (text_eq request route)) [
      | inl e ↦
          let same : request ≡ route = (text_eq_iff request route).0 e in
          (
            λ _.
                subst (λ r. Matches (split b'/' route) (split b'/' r)) (sym same)
                  (Matches-refl (split b'/' route)),
            λ _. rw (e, match_path) refl,
          )
      | inr e ↦ (
        λ m.
            match_segments-Matches (split b'/' route) (split b'/' request)
              (ground (arith, m, e, unstarred, h)),
        λ m. ground (arith, Matches-match_segments m, e, unstarred, h),
      )
    ]

star_prefix-append : (prefix : List ℕ) → star_prefix (prefix ++ codes "*") ≡ some prefix
unfolding star_prefix
star_prefix-append [] = refl
star_prefix-append (c ∷ prefix) = rw (star_prefix-append prefix) refl

star_alone : (prefix : List ℕ) → text_eq (prefix ++ codes "*") (codes "*") ≡ true → prefix ≡ []
unfolding text_eq
star_alone [] h = refl
star_alone (c ∷ []) h = ground (arith, h)
star_alone (c ∷ d ∷ prefix) h = ground (arith, h)

-- A path that ends with a star stands for the requests that start with what is before the star.
pub match_path_star_iff :
    (request prefix : List ℕ)
    → (match_path request (prefix ++ codes "*") ≡ true)
      ↔ ((rest : List ℕ) × (request ≡ prefix ++ rest))
unfolding match_path match_pattern
match_path_star_iff request prefix =
    let pattern = star_prefix-append prefix in
    (
      λ m. elim (Bool-cases (text_eq request (prefix ++ codes "*"))) [
        | inl e ↦ (codes "*", (text_eq_iff request (prefix ++ codes "*")).0 e)
        | inr e ↦ elim (Bool-cases (text_eq (prefix ++ codes "*") (codes "*"))) [
          | inl star ↦
              (request, subst (λ p. request ≡ p ++ request) (sym (star_alone prefix star)) refl)
          | inr other ↦ (
            drop (length prefix) request,
            starts_with_split request prefix (ground (arith, m, e, other, pattern)),
          )
        ]
      ],
      λ (rest, q).
          let starts : starts_with request prefix ≡ true =
            subst (λ r. starts_with r prefix ≡ true) (sym q) (starts_with-append prefix rest) in
          ground (arith, starts, pattern),
    )
