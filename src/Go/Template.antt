-- ===== src/Go/Template.antt =====
-- The part of text/template that the agent's templates use. It does not escape what it prints.
use teleskop.Common.{ℕ, ◌+◌, List, [], ◌∷◌, ◌++◌, ltb, if◌then◌else◌}
use teleskop.Go.Text.{Text}

-- A piece of a template over parameters P: text between the actions; {{.Field}}; a conditional
-- {{if gt .Field 0}}...{{end}} with its body; {{range $i, $x := .Field}}...{{end}} with its body.
pub data Piece (P : Type 0) : Type 0 where
  words : Text → Piece P
  field : (P → Text) → Piece P
  if_positive : (P → ℕ) → (P → Text) → Piece P
  each : (P → List Text) → (ℕ → Text → Text) → Piece P

unfoldable pub range_from : (ℕ → Text → Text) → ℕ → List Text → Text
range_from body i [] = []
range_from body i (x ∷ xs) = body i x ++ range_from body (i + 1) xs

module _ {P : Type 0} where
  unfoldable pub piece_text : P → Piece P → Text
  unfolding range_from
  piece_text params (words s) = s
  piece_text params (field f) = f params
  piece_text params (if_positive n body) = if ltb 0 (n params) then body params else []
  piece_text params (each f body) = range_from body 0 (f params)

  -- Execute into an empty buffer.
  unfoldable pub execute : List (Piece P) → P → Text
  unfolding piece_text
  execute [] params = []
  execute (piece ∷ pieces) params = piece_text params piece ++ execute pieces params
