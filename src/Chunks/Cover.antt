-- ===== src/Chunks/Cover.antt =====
-- The windows end, and no character of the text is between them.
use guru_alt.Common.{
  least, ℕ, zero, suc, ◌+◌, ◌-◌, ◌/◌, ◌≤◌, ◌<◌, ◌≡◌, inl, inr, refl, Bool, true, ◌&&◌, Option, none,
  some, List, [], ◌∷◌, length, any, all, arith, ◌==◌, leb, ltb, Bool-cases,
}
use guru_alt.Chunks.{
  drop, starts_with, rfind_in, rfind, newline, boundaries, cut_found, cut_at, cut, most, after_line,
  next_start, window_end, spans_from, spans,
}

-- A place that a search finds lies among those that it looks at.
abbrev Within : ℕ → ℕ → Option ℕ → Type 0
Within low high none = Unit
Within low high (some i) = (low ≤ i) × (i < high)

widen : (low high high' : ℕ) (o : Option ℕ) → high ≤ high' → Within low high o → Within low high' o
widen low high high' none more h = tt
widen low high high' (some i) more h = (h.0, omega (arith, h.1, more))

rfind_in-Within :
    (text sub : List ℕ) (start count : ℕ)
    → Within start (start + count) (rfind_in text sub start count)
rfind_in-Within text sub start zero = tt
rfind_in-Within text sub start (suc count) =
    elim (Bool-cases (starts_with sub (drop (start + count) text))) [
      | inl hit ↦ rw hit (omega arith, omega arith)
      | inr miss ↦ rw miss (
          widen start (start + count) _ (rfind_in text sub start count) (omega arith)
            (rfind_in-Within text sub start count))
    ]

-- A match ends at `end` at the latest.
abbrev Fits : ℕ → ℕ → ℕ → Option ℕ → Type 0
Fits low size end none = Unit
Fits low size end (some i) = (low ≤ i) × (i + size ≤ end)

fit :
    (low size end : ℕ) (o : Option ℕ)
    → Within low (low + (suc end - (low + size))) o
    → Fits low size end o
fit low size end none h = tt
fit low size end (some i) h = (h.0, omega (arith, h.0, h.1))

rfind-Fits :
    (text sub : List ℕ) (start end : ℕ) → Fits start (length sub) end (rfind text sub start end)
unfolding rfind
rfind-Fits text sub start end =
    fit start (length sub) end _ (rfind_in-Within text sub start (suc end - (start + length sub)))

cut_found-bounds :
    (floor low end rest : ℕ) (boundary : List ℕ) (o : Option ℕ)
    → Fits low (length boundary) end o
    → low ≤ floor
    → low < rest
    → rest ≤ end
    → (low < cut_found floor boundary rest o) × (cut_found floor boundary rest o ≤ end)
cut_found-bounds floor low end rest boundary none h f a b = (a, b)
cut_found-bounds floor low end rest boundary (some found) h f a b =
    ground (arith, h.0, h.1, a, b, f)

cut_at-bounds :
    (text : List ℕ) (start end : ℕ) (bs : List (List ℕ))
    → start < end
    → (start < cut_at text start end bs) × (cut_at text start end bs ≤ end)
cut_at-bounds text start end [] h = (h, omega arith)
cut_at-bounds text start end (boundary ∷ rest) h =
    let (a, b) = cut_at-bounds text start end rest h in
    cut_found-bounds (start + (end - start) / 2) start end (cut_at text start end rest) boundary
      (rfind text boundary start end) (rfind-Fits text boundary start end) (omega arith) a b

after_line-bounds :
    (start plain : ℕ) (o : Option ℕ) (low : ℕ)
    → Fits low 1 plain o
    → start < low
    → start < plain
    → (start < after_line plain o) × (after_line plain o ≤ plain)
after_line-bounds start plain none low h a b = (b, omega arith)
after_line-bounds start plain (some line_start) low h a b =
    (omega (arith, h.0, a), omega (arith, h.1))

-- The next window begins behind the start of this one, and at its end at the latest.
next_start-bounds :
    (text : List ℕ) (start end overlap : ℕ)
    → start < end
    → (start < next_start text start end overlap) × (next_start text start end overlap ≤ end)
unfolding next_start
next_start-bounds text start end overlap h =
    let plain = most (end - overlap) (start + 1) in
    let low = most (start + 1) (plain - overlap) in
    let ahead : start < plain = ground (arith, h) in
    let within : plain ≤ end = ground (arith, h) in
    let above : start < low = ground (arith, h) in
    let (a, b) =
      after_line-bounds start plain (rfind text newline low plain) low
        (rfind-Fits text newline low plain) above ahead in
    (a, omega (arith, b, within))

window_end-bounds :
    (text : List ℕ) (size start : ℕ)
    → 1 ≤ size
    → start < length text
    → (start < window_end text size start)
      × (window_end text size start ≤ start + size)
      × (window_end text size start ≤ length text)
unfolding cut
window_end-bounds text size start some_ h =
    let end = least (start + size) (length text) in
    let ahead : start < end = ground (arith, some_, h) in
    let small : end ≤ start + size = ground arith in
    let inside : end ≤ length text = ground arith in
    let (a, b) = cut_at-bounds text start end boundaries ahead in
    elim (Bool-cases (ltb end (length text))) [
      | inl before ↦ rw before (a, omega (arith, b, small), omega (arith, b, inside))
      | inr last ↦ rw last (ahead, small, inside)
    ]

abbrev pub holds : ℕ → ℕ × ℕ → Bool
holds p (start, end) = leb start p && ltb p end

abbrev pub is_sized : ℕ → ℕ × ℕ → Bool
is_sized size (start, end) = ltb start end && leb end (start + size)

-- The windows are there, cover the text from `start` on, and have at most the size.
pub record Covered (text : List ℕ) (size start : ℕ) (found : Option (List (ℕ × ℕ))) : Type 0 where
  pub ws : List (ℕ × ℕ)
  pub ends : found ≡ some ws
  pub covers : (p : ℕ) → start ≤ p → p < length text → any (holds p) ws ≡ true
  pub sized : all (is_sized size) ws ≡ true

spans_from-Covered :
    (text : List ℕ) (size overlap fuel start : ℕ)
    → 1 ≤ size
    → start < length text
    → length text ≤ start + fuel
    → Covered text size start (spans_from text size overlap fuel start)
spans_from-Covered text size overlap zero start some_ h enough = absurd (omega arith)
spans_from-Covered text size overlap (suc fuel) start some_ h enough =
    let end = window_end text size start in
    let (ahead, small, inside) = window_end-bounds text size start some_ h in
    let (later, no_gap) = next_start-bounds text start end overlap ahead in
    let next = next_start text start end overlap in
    elim (Bool-cases (leb (length text) end)) [
      | inl last ↦ record {
        ws = (start, end) ∷ [];
        ends = rw last refl;
        covers = λ p a b. ground (arith, a, b, last);
        sized = ground (arith, ahead, small);
      }
      | inr more ↦
          let rest =
            spans_from-Covered text size overlap fuel next some_ (ground (arith, more, no_gap))
              (omega (arith, later, enough)) in
          record {
            ws = (start, end) ∷ rest.ws;
            ends = rw (more, rest.ends) refl;
            covers = λ p a b. elim (Bool-cases (ltb p end)) [
              | inl here ↦ ground (arith, a, here)
              | inr beyond ↦ ground (arith, rest.covers p (ground (arith, beyond, no_gap)) b)
            ];
            sized = ground (arith, ahead, small, rest.sized);
          }
    ]

-- The windows of every text are found, whatever its boundaries and the overlap are: each character
-- is in a window, and each window has at least one character and at most `size`, which is at least
-- 1.
pub spans-Covered :
    (text : List ℕ) (size overlap : ℕ) → 1 ≤ size → Covered text size 0 (spans text size overlap)
unfolding spans
spans-Covered text size overlap some_ = elim (Bool-cases (length text == 0)) [
  | inl empty ↦ rw empty (record {
    ws = [];
    ends = refl;
    covers = λ p a b. absurd (ground (arith, b, empty));
    sized = refl;
  })
  | inr full ↦ rw full (
      spans_from-Covered text size overlap (length text) 0 some_ (ground (arith, full))
        (omega arith))
]
