-- ===== src/Keyboard/Line.antt =====
-- The bounds of the line editor and of the words of a command line in src/drivers/keyboard.c.
use tomato_os.Base.{
  ℕ, zero, suc, ◌+◌, ◌%◌, ◌≤◌, ◌<◌, ◌≡◌, refl, sym, ap, ◌∙◌, ◌≢◌, inl, inr, false, Option, none,
  some, List, [], ◌∷◌, arith, dec_lt, ℕ_discrete, leb, ◌==◌, ==_true, ne→==, Bool-cases, length,
}
use tomato_os.Base.Bytes.{Bytes}
use tomato_os.Strings.{poke}
use mathlib.Core.Bool.{true≢false}
use tomato_os.Keyboard.{
  Shell, line_size, skip_spaces, word_end, split_words, line_input, character, typed,
  plain_scancode, handle_scancode,
}

-- There is always room for the 0 that ends the line.
abbrev pub Fits : Shell → Type 0
Fits s = s.line_len < line_size

line_input-Fits : (s : Shell) (ch : ℕ) → Fits s → Fits (line_input s ch).1
unfolding line_input
line_input-Fits s ch fits = ground arith

typed-Fits : (ch : Option ℕ) (s : Shell) → Fits s → Fits (typed ch s).1
unfolding typed
typed-Fits none s fits = fits
typed-Fits (some ch) s fits = line_input-Fits s ch fits

plain_scancode-Fits : (s : Shell) (raw : ℕ) → Fits s → Fits (plain_scancode s raw).1
unfolding plain_scancode
plain_scancode-Fits s raw fits =
    ground (arith, typed-Fits (character s (leb 0x80 raw) (raw % 0x80)) s fits)

-- When the line is shorter than its array of 100 bytes, it still is after any scan code, so that
-- there is always room for the 0 that ends it.
pub handle_scancode-Fits : (s : Shell) (raw : ℕ) → Fits s → Fits (handle_scancode s raw).1
unfolding handle_scancode
handle_scancode-Fits s raw fits = ground (arith, plain_scancode-Fits s raw fits)

-- The line ends at `n`, and no byte before is 0 from `i` on.
space_before : (line : Bytes) (s n : ℕ) → s ≤ n → line n ≡ 0 → line s ≡ 32 → s < n
space_before line s n le e space = elim (dec_lt s n) [
  | yes lt ↦ lt
  | no ge ↦ let same : s ≡ n = omega arith in absurd (omega (arith, ap line same))
]

poke_other : (line : Bytes) (s n : ℕ) → s < n → line n ≡ 0 → poke line s 0 n ≡ 0
poke_other line s n lt e = rw (ne→== s n (omega arith)) e

skip_spaces-bounds :
    (fuel : ℕ) (line : Bytes) (s n : ℕ)
    → s ≤ n
    → line n ≡ 0
    → n < s + fuel
    → let (line', s') = skip_spaces fuel line s in
      (s ≤ s') × (s' ≤ n) × (line' s' ≢ 32) × ((j : ℕ) → s' ≤ j → line' j ≡ line j)
unfolding skip_spaces
skip_spaces-bounds zero line s n le e lt = absurd (omega arith)
skip_spaces-bounds (suc fuel) line s n le e lt = elim (ℕ_discrete (line s) 32) [
  | yes space ↦
      let before : s < n = space_before line s n le e space in
      let (a, b, c, d) =
        skip_spaces-bounds fuel (poke line s 0) (s + 1) n (omega arith)
          (poke_other line s n before e) (omega arith) in
      rw (==_true (line s) 32 space)
        (omega (arith, a), b, c, λ j past. d j past ∙ rw (ne→== s j (omega (arith, a))))
  | no word ↦ rw (ne→== (line s) 32 word) (omega arith, le, word, λ j past. refl)
]

word_end-bounds :
    (fuel : ℕ) (line : Bytes) (s n : ℕ)
    → s ≤ n
    → line n ≡ 0
    → n < s + fuel
    → (s ≤ word_end fuel line s) × (word_end fuel line s ≤ n)
unfolding word_end
word_end-bounds zero line s n le e lt = absurd (omega arith)
word_end-bounds (suc fuel) line s n le e lt = ground (arith, word_end-bounds fuel line (s + 1) n)

start_before : (line : Bytes) (s n : ℕ) → s ≤ n → line n ≡ 0 → (line s == 0) ≡ false → s < n
start_before line s n le e word = elim (dec_lt s n) [
  | yes lt ↦ lt
  | no ge ↦
      let same : s ≡ n = omega arith in
      absurd (true≢false (sym (==_true (line s) 0 (ap line same ∙ e)) ∙ word))
]

-- The places that `argv` points to.
abbrev pub Starts : (words : List ℕ) (n : ℕ) → Type 0
Starts [] n = Unit
Starts (s ∷ words) n = (s < n) × Starts words n

-- From any place in a line that ends within its array, `run_line` finds no more words than `argv`
-- still has room for, and each starts before the end of the line.
pub split_words-Starts :
    (m : ℕ) (line : Bytes) (s n : ℕ)
    → s ≤ n
    → line n ≡ 0
    → n < line_size
    → (length (split_words m line s).0 ≤ m) × Starts (split_words m line s).0 n
unfolding split_words
split_words-Starts zero line s n le e lt = (omega arith, tt)
split_words-Starts (suc m) line s n le e lt = elim (Bool-cases (line s == 0)) [
  | inl over ↦ rw over (omega arith, tt)
  | inr more ↦
      let (line', s') = skip_spaces line_size line s in
      let (a, b, c, d) = skip_spaces-bounds line_size line s n le e (omega arith) in
      let e' : line' n ≡ 0 = d n b ∙ e in
      elim (Bool-cases (line' s' == 0)) [
        | inl over ↦ rw (more, over) (omega arith, tt)
        | inr word ↦
            let before : s' < n = start_before line' s' n b e' word in
            let (p, q) = word_end-bounds line_size line' s' n b e' (omega arith) in
            let (few, starts) =
              split_words-Starts m line' (word_end line_size line' s') n q e' lt in
            rw (more, word) (omega (arith, few), (before, starts))
      ]
]
