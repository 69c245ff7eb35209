-- ===== src/Prelude/Pieces.antt =====
-- The pieces of a text that is being split, first one first.
use Prim.Native.String.{String, ◌++◌ as append}
use mathlib.Core.List.{List, [], ◌∷◌}

abbrev pub no_pieces : List String
no_pieces = "" ∷ []

abbrev pub add_piece : List String → List String
add_piece pieces = "" ∷ pieces

abbrev pub add_text : String → List String → List String
add_text t [] = t ∷ []
add_text t (piece ∷ pieces) = append t piece ∷ pieces
