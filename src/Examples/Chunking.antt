-- ===== src/Examples/Chunking.antt =====
-- A short text in windows of four characters.
use guru_alt.Common.{ℕ, ◌≡◌, refl, Bool, some, List, [], ◌∷◌, arith, ◌==◌, ◌||◌}
use guru_alt.Chunks.{spans, windows, cut, rfind, next_start}
use guru_alt.Plan.Step.Horizon.{take}
use guru_alt.Chunks.Cover.{Covered, spans-Covered}

-- "ab cd\nef"
abbrev words : List ℕ
words = 97 ∷ 98 ∷ 32 ∷ 99 ∷ 100 ∷ 10 ∷ 101 ∷ 102 ∷ []

abbrev is_space : ℕ → Bool
is_space c = c == 32 || c == 10

spans-words : spans words 4 1 ≡ some ((0, 4) ∷ (3, 7) ∷ (6, 8) ∷ [])
unfolding spans cut rfind next_start
spans-words = refl

-- "ab", a blank line, "cd"
abbrev paragraphs : List ℕ
paragraphs = 97 ∷ 98 ∷ 10 ∷ 10 ∷ 99 ∷ 100 ∷ []

-- The start of a window is not that of its piece when a line break in front is cut off: "cd" stands
-- at 4.
windows-paragraphs :
    windows is_space paragraphs 3 0 ≡ some ((0, 97 ∷ 98 ∷ []) ∷ (3, 99 ∷ 100 ∷ []) ∷ [])
unfolding windows spans cut rfind next_start take
windows-paragraphs = refl

spans-Covered_example : Covered words 4 0 (spans words 4 1)
spans-Covered_example = spans-Covered words 4 1 (omega arith)
