-- ===== src/Query/Sql.antt =====
-- SQL text with numbered placeholders.
use Prim.Native.String
use express_nest_blueprint.Base.{
  ℕ, zero, suc, ◌/◌, ◌%◌, String, List, [], ◌∷◌, ◌++◌, ◌==◌, if◌then◌else◌,
}

-- `hole k` is `$k`.
pub data Piece : Type 0 where
  raw : String → Piece
  hole : ℕ → Piece

abbrev pub Query : Type 0
Query = List Piece

digit : ℕ → String
digit zero = "0"
digit (suc zero) = "1"
digit (suc (suc zero)) = "2"
digit (suc (suc (suc zero))) = "3"
digit (suc (suc (suc (suc zero)))) = "4"
digit (suc (suc (suc (suc (suc zero))))) = "5"
digit (suc (suc (suc (suc (suc (suc zero)))))) = "6"
digit (suc (suc (suc (suc (suc (suc (suc zero))))))) = "7"
digit (suc (suc (suc (suc (suc (suc (suc (suc zero)))))))) = "8"
digit _ = "9"

decimal_from : ℕ → ℕ → String
decimal_from zero n = ""
decimal_from (suc fuel) n =
    let front = decimal_from fuel (n / 10) in
    if n / 10 == 0 then digit (n % 10) else String.◌++◌ front (digit (n % 10))

-- The decimal text of a number, as JavaScript writes it; `n` rounds are enough for `n`.
unfoldable pub decimal : ℕ → String
unfolding decimal_from digit
decimal n = decimal_from (suc n) n

unfoldable pub render : Query → String
unfolding decimal
render [] = ""
render (raw s ∷ ps) = String.◌++◌ s (render ps)
render (hole k ∷ ps) = String.◌++◌ "$" (String.◌++◌ (decimal k) (render ps))

-- `pieces.join(separator)`.
module _ {ℓ} {A : Type ℓ} where
  unfoldable pub intercalate : A → List (List A) → List A
  intercalate sep [] = []
  intercalate sep (q ∷ []) = q
  intercalate sep (q ∷ qs) = q ++ sep ∷ intercalate sep qs

abbrev pub join : String → List Query → Query
join separator = intercalate (raw separator)
