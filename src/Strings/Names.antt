-- ===== src/Strings/Names.antt =====
-- Strings that end: `strlen` and `strcmp` of src/string/.
use tomato_os.Base.{ℕ, zero, suc, ◌+◌, ◌≤◌, ◌<◌, ◌≡◌, ◌≢◌, ◌↔◌, Bool, true, arith, dec_lt, ◌==◌}
use tomato_os.Base.Bytes.{Bytes}
use tomato_os.Strings.{strlen, strcmp}
use mathlib.Core.Path.{subst}

-- The string ends at byte `n`.
pub record Ends (s : Bytes) (n : ℕ) : Type 0 where
  pub at_end : s n ≡ 0
  pub before : (i : ℕ) → i < n → s i ≢ 0

strlen_from :
    (fuel : ℕ) (s : Bytes) (n i : ℕ) → Ends s n → i ≤ n → n < i + fuel → strlen fuel s i ≡ n
unfolding strlen
strlen_from zero s n i e le lt = omega arith
strlen_from (suc fuel) s n i e le lt =
    ground (arith, e.at_end, e.before i, strlen_from fuel s n (i + 1) e)

-- `strlen` finds the end of a string that ends within the fuel.
pub strlen-Ends : (fuel : ℕ) (s : Bytes) (n : ℕ) → Ends s n → n < fuel → strlen fuel s 0 ≡ n
strlen-Ends fuel s n e lt = strlen_from fuel s n 0 e (omega arith) (omega arith)

-- Whether `strcmp` gives 0.
abbrev pub same_name : (fuel : ℕ) (a b : Bytes) → Bool
same_name fuel a b = let (x, y) = strcmp fuel a b 0 in x == y

strcmp_agree :
    (fuel : ℕ) (a b : Bytes) (n i : ℕ)
    → Ends b n
    → ((j : ℕ) → j ≤ n → a j ≡ b j)
    → i ≤ n
    → n < i + fuel
    → let (x, y) = strcmp fuel a b i in x ≡ y
unfolding strcmp
strcmp_agree zero a b n i e same le lt = omega arith
strcmp_agree (suc fuel) a b n i e same le lt =
    ground (arith, e.at_end, e.before i, same i, strcmp_agree fuel a b n (i + 1) e same)

strcmp_differ :
    (fuel : ℕ) (a b : Bytes) (n i j : ℕ)
    → Ends b n
    → i ≤ n
    → n < i + fuel
    → (let (x, y) = strcmp fuel a b i in x ≡ y)
    → i ≤ j
    → j ≤ n
    → a j ≡ b j
unfolding strcmp
strcmp_differ zero a b n i j e le lt h le' le'' = omega arith
strcmp_differ (suc fuel) a b n i j e le lt h le' le'' = elim (dec_lt i j) [
  | yes past ↦ ground (arith, e.at_end, e.before i, strcmp_differ fuel a b n (i + 1) j e)
  | no here ↦
      let at : i ≡ j = omega arith in
      subst (λ k. a k ≡ b k) at (ground (arith, e.at_end, e.before i))
]

-- For a string `b` that ends within the fuel, `strcmp` gives 0 exactly when `a` has the same bytes
-- up to the end.
pub strcmp_iff_same :
    (fuel : ℕ) (a b : Bytes) (n : ℕ)
    → Ends b n
    → n < fuel
    → (same_name fuel a b ≡ true) ↔ ((j : ℕ) → j ≤ n → a j ≡ b j)
strcmp_iff_same fuel a b n e lt = (
  (λ h j le.
      strcmp_differ fuel a b n 0 j e (omega arith) (omega arith) (ground arith) (omega arith) le),
  λ same. ground (arith, strcmp_agree fuel a b n 0 e same),
)
