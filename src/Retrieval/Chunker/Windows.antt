-- ===== src/Retrieval/Chunker/Windows.antt =====
-- The windows of an oversized unit lose no word.
use semiconductor_intel.Prelude.{
  ℕ, zero, suc, ◌+◌, ◌-◌, ◌≤◌, ◌<◌, ◌≡◌, refl, ap, ◌&&◌, List, [], ◌∷◌, arith, length, take, drop,
  ltb, ◌⊎◌, inl, inr, Bool-cases, length-drop,
}
use semiconductor_intel.Retrieval.Chunker.{
  Text, take_words, step_back, windows, reversed, reverse_onto,
}

-- The characters of the words, each with a space.
abbrev pub cost : List Text → ℕ
cost [] = 0
cost (w ∷ ws) = length w + 1 + cost ws

-- The windows are slices of the words, each of them as long as the target allows or of one word; each
-- starts after the one before, no later than its end, and the last one ends with the last word.
abbrev pub Tiles : List Text → List (List Text) → Type 0
Tiles words [] = words ≡ []
Tiles words (p ∷ ps) =
    (take (length p) words ≡ p)
    × ((cost p ≤ 3200) ⊎ (length p ≡ 1))
    × ((step : ℕ) × (1 ≤ step) × (step ≤ length p) × Tiles (drop step words) ps)

take_words-take :
    (used : ℕ) (ws : List Text) → take (length (take_words used ws)) ws ≡ take_words used ws
unfolding take_words
take_words-take used [] = refl
take_words-take used (w ∷ ws) = elim (Bool-cases (ltb 0 used && ltb 3200 (used + length w + 1))) [
  | inl full ↦ rw (full, take_words) refl
  | inr fits ↦ rw (fits, take_words) (rw (take_words-take (used + length w + 1) ws) refl)
]

take_words-cost :
    (used : ℕ) (ws : List Text) → 1 ≤ used → used ≤ 3200 → used + cost (take_words used ws) ≤ 3200
unfolding take_words
take_words-cost used [] h k = omega arith
take_words-cost used (w ∷ ws) h k =
    elim (Bool-cases (ltb 0 used && ltb 3200 (used + length w + 1))) [
      | inl full ↦ rw (full, take_words) (omega (arith, k))
      | inr fits ↦
          let small : used + length w + 1 ≤ 3200 = ground (arith, fits) in
          rw (fits, take_words)
            (omega (arith, take_words-cost (used + length w + 1) ws (omega arith) small))
    ]

take_words-full : (used : ℕ) (ws : List Text) → 3200 < used → take_words used ws ≡ []
unfolding take_words
take_words-full used [] h = refl
take_words-full used (w ∷ ws) h = ground arith

take_words-first :
    (w : Text) (ws : List Text)
    → (1 ≤ length (take_words 0 (w ∷ ws)))
      × ((cost (take_words 0 (w ∷ ws)) ≤ 3200) ⊎ (length (take_words 0 (w ∷ ws)) ≡ 1))
unfolding take_words
take_words-first w ws = elim (Bool-cases (ltb 3200 (length w + 1))) [
  | inl big ↦
      let alone : take_words (0 + length w + 1) ws ≡ [] =
        take_words-full (0 + length w + 1) ws (ground arith) in
      (omega arith, inr (ap (λ (l : List Text). suc (length l)) alone))
  | inr small ↦ (
    omega arith,
    inl (omega (arith, take_words-cost (0 + length w + 1) ws (omega arith) (ground arith))),
  )
]

step_back-bound : (b : ℕ) (ws : List Text) → 1 ≤ length ws → suc (step_back b ws) ≤ length ws
unfolding step_back
step_back-bound b [] h = omega (arith, h)
step_back-bound b (w ∷ []) h = omega arith
step_back-bound b (w ∷ v ∷ ws) h = ground (arith, step_back-bound (b + length w + 1) (v ∷ ws))

length-reverse_onto :
    {A : Type 0} (xs ys : List A) → length (reverse_onto xs ys) ≡ length xs + length ys
length-reverse_onto [] ys = omega arith
length-reverse_onto (x ∷ xs) ys = omega (arith, length-reverse_onto xs (x ∷ ys))

windows-Tiles_from : (n : ℕ) (words : List Text) → length words ≤ n → Tiles words (windows n words)
unfolding windows
windows-Tiles_from zero [] h = refl
windows-Tiles_from zero (w ∷ ws) h = absurd (omega (arith, h))
windows-Tiles_from (suc n) [] h = refl
windows-Tiles_from (suc n) (w ∷ ws) h =
    let piece = take_words 0 (w ∷ ws) in
    let (some_word, size) = take_words-first w ws in
    let back =
      step_back-bound 0 (reversed piece) (omega (arith, length-reverse_onto piece [], some_word)) in
    let step = length piece - step_back 0 (reversed piece) in
    let moves : 1 ≤ step = omega (arith, back, length-reverse_onto piece []) in
    (
      take_words-take 0 (w ∷ ws),
      size,
      (
        step,
        moves,
        omega arith,
        windows-Tiles_from n (drop step (w ∷ ws))
            (omega (arith, length-drop step (w ∷ ws), moves, h)),
      ),
    )

-- With as many rounds as there are words, the loop ends by itself: the windows are slices of the
-- words of at most 3200 characters (a space counted for each word) or of one word, each starts
-- after the one before and no later than where that one ends, and the last one reaches the last
-- word.
pub windows-Tiles : (words : List Text) → Tiles words (windows (length words) words)
windows-Tiles words = windows-Tiles_from (length words) words (omega arith)
