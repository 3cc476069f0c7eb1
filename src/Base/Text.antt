-- ===== src/Base/Text.antt =====
-- JavaScript's string methods, over the characters of a native text.
use Prim.Native.Nat.{ℕ, zero, suc, ◌+◌}
use Prim.Native.Char.{code}
use Prim.Native.String.{String}
use mathlib.Core.Path.{◌≡◌, refl}
use mathlib.Core.Logic.{◌↔◌}
use mathlib.Core.Bool.{Bool, true, false, ◌&&◌, ◌||◌}
use mathlib.Core.List.{List, [], ◌∷◌, ◌++◌, map}
use express_nest_blueprint.Base.Lists.{length}
use express_nest_blueprint.Base.Tests.{◌==◌, leb, if◌then◌else◌}
use native.Mathlib.Omega.{arith}

-- The code points of a text, the form in which the model walks through it.
abbrev pub codes : String → List ℕ
codes String.[] = []
codes (String.◌∷◌ c s) = code c ∷ codes s

unfoldable pub starts_with : List ℕ → List ℕ → Bool
starts_with s [] = true
starts_with [] (p ∷ ps) = false
starts_with (c ∷ s) (p ∷ ps) = c == p && starts_with s ps

unfoldable pub includes : List ℕ → List ℕ → Bool
unfolding starts_with
includes [] p = starts_with [] p
includes (c ∷ s) p = starts_with (c ∷ s) p || includes s p

unfoldable pub to_lower_case : List ℕ → List ℕ
to_lower_case = map (λ c. if leb b'A' c && leb c b'Z' then c + 32 else c)

pub starts_with-append : (p s : List ℕ) → starts_with (p ++ s) p ≡ true
unfolding starts_with
starts_with-append [] s = refl
starts_with-append (c ∷ p) s = ground (arith, starts_with-append p s)

-- A text includes each of its parts.
pub includes-append : (a p b : List ℕ) → includes (a ++ (p ++ b)) p ≡ true
unfolding includes
includes-append [] [] [] = refl
includes-append [] [] (c ∷ b) = refl
includes-append [] (c ∷ p) b = ground (arith, starts_with-append p b)
includes-append (c ∷ a) p b = ground (arith, includes-append a p b)

unfoldable pub text_eq : List ℕ → List ℕ → Bool
text_eq [] [] = true
text_eq (c ∷ s) (d ∷ t) = c == d && text_eq s t
text_eq _ _ = false

pub text_eq_iff : (s t : List ℕ) → (text_eq s t ≡ true) ↔ (s ≡ t)
unfolding text_eq
text_eq_iff [] [] = ground arith
text_eq_iff [] (d ∷ t) = ground arith
text_eq_iff (c ∷ s) [] = ground arith
text_eq_iff (c ∷ s) (d ∷ t) = ground (arith, text_eq_iff s t)

-- `text.substring(n)`.
unfoldable pub drop : ℕ → List ℕ → List ℕ
drop zero s = s
drop (suc n) [] = []
drop (suc n) (c ∷ s) = drop n s

-- The first part of a split, before the others.
abbrev push_first : ℕ → List (List ℕ) → List (List ℕ)
push_first c [] = (c ∷ []) ∷ []
push_first c (part ∷ parts) = (c ∷ part) ∷ parts

-- `text.split(separator)` at one character.
unfoldable pub split : ℕ → List ℕ → List (List ℕ)
split separator [] = [] ∷ []
split separator (c ∷ s) =
    let parts = split separator s in if c == separator then [] ∷ parts else push_first c parts

-- A text that starts with `p` is `p` and the rest.
pub starts_with_split : (s p : List ℕ) → starts_with s p ≡ true → s ≡ p ++ drop (length p) s
unfolding starts_with drop
starts_with_split s [] h = refl
starts_with_split [] (c ∷ p) h = cc
starts_with_split (d ∷ s) (c ∷ p) h = ground (arith, starts_with_split s p)

pub drop-append : (p s : List ℕ) → drop (length p) (p ++ s) ≡ s
unfolding drop
drop-append [] s = refl
drop-append (c ∷ p) s = drop-append p s

-- The white space that `trim` takes off.
is_space : ℕ → Bool
is_space c =
    (leb 9 c && leb c 13)
    || c == 32
    || c == 160
    || c == 5760
    || (leb 8192 c && leb c 8202)
    || c == 8232
    || c == 8233
    || c == 8239
    || c == 8287
    || c == 12288
    || c == 65279

trim_start : List ℕ → List ℕ
trim_start [] = []
trim_start (c ∷ s) = let rest = trim_start s in if is_space c then rest else c ∷ s

trim_end : List ℕ → List ℕ
trim_end [] = []
trim_end (c ∷ s) = elim (trim_end s) [ [] ↦ if is_space c then [] else c ∷ [] | d ∷ t ↦ c ∷ d ∷ t ]

unfoldable pub trim : List ℕ → List ℕ
unfolding is_space trim_start trim_end
trim s = trim_end (trim_start s)
