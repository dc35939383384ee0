-- ===== src/Text/Windows/Examples.antt =====
-- The claims about windows at concrete inputs.
use doktok_ng.Prelude.{List, [], ◌∷◌, String, arith, length}
use doktok_ng.Text.Windows.{all_spans}
use doktok_ng.Text.Windows.Cover.{Covers, all_spans-Covers}

-- A statement whose third line is longer than a window.
abbrev statement : List String
statement = "01 rent" ∷ "02 fee" ∷ "03 transfer to savings" ∷ "04 tax" ∷ "05 gas" ∷ []

all_spans-Covers_example : Covers (length statement) 0 (all_spans 14 1 statement)
all_spans-Covers_example = all_spans-Covers 14 1 statement (omega arith)
