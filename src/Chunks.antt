-- ===== src/Chunks.antt =====
-- The windows of the chunker, `_cut`, `_next_start` and `_windows` of app/rag/chunking.py. A text
-- is the list of its characters' codes, and `str.isspace` is an argument.
pub mod Cover
use guru_alt.Common.{
  least, ℕ, zero, suc, ◌+◌, ◌-◌, ◌/◌, Bool, true, false, not, ◌&&◌, ◌||◌, Option, none, some, List,
  [], ◌∷◌, length, map, keep, ◌==◌, leb, ltb, if◌then◌else◌, ◌>>=◌,
}
use guru_alt.Plan.Step.Horizon.{take}

abbrev pub drop : ℕ → List ℕ → List ℕ
drop zero xs = xs
drop (suc n) [] = []
drop (suc n) (x ∷ xs) = drop n xs

abbrev pub starts_with : List ℕ → List ℕ → Bool
starts_with [] text = true
starts_with (b ∷ sub) [] = false
starts_with (b ∷ sub) (c ∷ text) = b == c && starts_with sub text

-- The last of the `count` places from `start` on at which `sub` stands.
abbrev pub rfind_in : List ℕ → List ℕ → ℕ → ℕ → Option ℕ
rfind_in text sub start zero = none
rfind_in text sub start (suc count) =
    let rest = rfind_in text sub start count in
    if starts_with sub (drop (start + count) text) then some (start + count) else rest

-- `text.rfind(sub, start, end)`
unfoldable pub rfind : List ℕ → List ℕ → ℕ → ℕ → Option ℕ
rfind text sub start end = rfind_in text sub start (suc end - (start + length sub))

abbrev pub newline : List ℕ
newline = 10 ∷ []

abbrev pub boundaries : List (List ℕ)
boundaries = (10 ∷ 10 ∷ []) ∷ newline ∷ (32 ∷ []) ∷ []

abbrev pub cut_found : ℕ → List ℕ → ℕ → Option ℕ → ℕ
cut_found floor boundary rest none = rest
cut_found floor boundary rest (some found) =
    if ltb floor found then found + length boundary else rest

abbrev pub cut_at : List ℕ → ℕ → ℕ → List (List ℕ) → ℕ
cut_at text start end [] = end
cut_at text start end (boundary ∷ rest) =
    cut_found (start + (end - start) / 2) boundary (cut_at text start end rest)
      (rfind text boundary start end)

unfoldable pub cut : List ℕ → ℕ → ℕ → ℕ
cut text start end = cut_at text start end boundaries

abbrev pub most : ℕ → ℕ → ℕ
most a b = if leb a b then b else a

abbrev pub after_line : ℕ → Option ℕ → ℕ
after_line plain none = plain
after_line plain (some line_start) = line_start + 1

-- Where Python has a negative bound, the other one is larger.
unfoldable pub next_start : List ℕ → ℕ → ℕ → ℕ → ℕ
next_start text start end overlap =
    let plain = most (end - overlap) (start + 1) in
    after_line plain (rfind text newline (most (start + 1) (plain - overlap)) plain)

abbrev pub window_end : List ℕ → ℕ → ℕ → ℕ
window_end text size start =
    let end = least (start + size) (length text) in
    if ltb end (length text) then cut text start end else end

-- The windows from `start` on, each by its start and its end, in at most `fuel` rounds.
abbrev pub spans_from : List ℕ → ℕ → ℕ → ℕ → ℕ → Option (List (ℕ × ℕ))
spans_from text size overlap zero start = none
spans_from text size overlap (suc fuel) start =
    let end = window_end text size start in
    let rest = spans_from text size overlap fuel (next_start text start end overlap) in
    if leb (length text) end
    then some ((start, end) ∷ [])
    else rest >>= λ later. some ((start, end) ∷ later)

unfoldable pub spans : List ℕ → ℕ → ℕ → Option (List (ℕ × ℕ))
spans text size overlap =
    if length text == 0 then some [] else spans_from text size overlap (length text) 0

-- `xs.lstrip(...)` and `xs.rstrip(...)` for the characters that `p` holds of.
abbrev pub lstrip : (ℕ → Bool) → List ℕ → List ℕ
lstrip p [] = []
lstrip p (x ∷ xs) = if p x then lstrip p xs else x ∷ xs

abbrev pub rstrip_onto : (ℕ → Bool) → ℕ → List ℕ → List ℕ
rstrip_onto p x [] = if p x then [] else x ∷ []
rstrip_onto p x (y ∷ ys) = x ∷ y ∷ ys

abbrev pub rstrip : (ℕ → Bool) → List ℕ → List ℕ
rstrip p [] = []
rstrip p (x ∷ xs) = rstrip_onto p x (rstrip p xs)

abbrev pub piece : (ℕ → Bool) → List ℕ → ℕ × ℕ → ℕ × List ℕ
piece is_space text (start, end) = (
  start,
  rstrip is_space
      (rstrip (λ c. c == 10) (lstrip (λ c. c == 10) (take (end - start) (drop start text)))),
)

abbrev pub is_blank : ℕ × List ℕ → Bool
is_blank (start, []) = true
is_blank (start, c ∷ text) = false

unfoldable pub windows : (ℕ → Bool) → List ℕ → ℕ → ℕ → Option (List (ℕ × List ℕ))
windows is_space text size overlap = spans text size overlap >>= λ found.
    some (keep (λ w. not (is_blank w)) (map (piece is_space text) found))
