-- ===== src/DeleteVector/Tests.antt =====
-- The deletions of rows 3 and 5, as the program's own test has them.
use risinglight.Prelude.{◌≡◌, refl, Bool, true, false, List, [], ◌∷◌, arith}
use risinglight.DeleteVector.{new, apply_to, apply_loop}
use risinglight.DeleteVector.Laws.{apply_to-without}

abbrev three_rows : List Bool
three_rows = true ∷ true ∷ true ∷ []

from_row_three : apply_to (new 0 0 (5 ∷ 3 ∷ [])) three_rows 3 ≡ false ∷ true ∷ false ∷ []
unfolding apply_to apply_loop new
from_row_three = refl

from_row_four : apply_to (new 0 0 (3 ∷ 5 ∷ 3 ∷ [])) three_rows 4 ≡ true ∷ false ∷ true ∷ []
unfolding apply_to apply_loop new
from_row_four = refl

apply_to-without_example : apply_to (new 0 0 (5 ∷ 3 ∷ [])) three_rows 1 ≡ true ∷ true ∷ false ∷ []
apply_to-without_example = apply_to-without 0 0 (5 ∷ 3 ∷ []) three_rows 1 (omega arith)
