-- ===== src/Printf/Decimal.antt =====
-- `%d` of src/stdio/printf.c.
use tomato_os.Base.{
  lt→leb, le→leb, ℕ, suc, ◌+◌, ◌-◌, ◌^◌, ◌≤◌, ◌<◌, ◌≡◌, refl, sym, ap, ◌∙◌, ◌≢◌, inl, arith, dec_lt,
  ℕ_discrete, ==_true, ne→==,
}
use mathlib.Core.Path.{subst}
use tomato_os.Base.Bytes.{Bytes}
use tomato_os.Printf.Swap.{Turned, swap_loop-Turned}
use tomato_os.Printf.{put, push_digits, swap_loop, print_digits, print_int}
use tomato_os.Printf.Digits.{value, AreDigits, Pushed, push_digits-Pushed, value-backwards}

-- The `n` bytes from `i` on are digits that spell `num`, and no more than it takes.
pub record Spells (buf : Bytes) (i n num : ℕ) : Type 0 where
  pub spelled : value buf i n ≡ num
  pub digits : AreDigits buf i n
  pub some_digit : 0 < n
  pub short : (k : ℕ) → 0 < k → num < 10 ^ k → n ≤ k

Turned-Spells :
    {buf b b' : Bytes} (i num : ℕ) {i' : ℕ}
    → 0 < num
    → (p : Pushed buf i num b i') → Turned b i (i' - 1) b'
    → Spells b' i p.count num
Turned-Spells {buf} {b} {b'} i num left p t =
    let some_digit = p.some_digit left in
    let at = λ (j : ℕ) (lt : j < p.count).
      t.inner (i + j) (omega arith) (omega (arith, p.end))
      ∙ ap b (flipped i j p.count left lt p.end) in
    record {
      spelled = value-backwards b b' i i p.count at ∙ p.spelled;
      digits = λ j le lt.
          subst (λ x. (b'0' ≤ x) × (x ≤ b'9')) (sym (t.inner j le (omega (arith, p.end))))
            (p.digits _ (omega (arith, p.end)) (omega (arith, p.end)));
      some_digit = some_digit;
      short = λ k pos lt. p.short k lt;
    }
  where
    flipped :
        (i j count : ℕ) {i' : ℕ}
        → 0 < num
        → j < count
        → i' ≡ i + count
        → i + (i' - 1) - (i + j) ≡ i + (count - 1 - j)
    flipped i j count left lt end = omega arith

-- What `%d` writes of a word that is read as an `int`: for a number that is not negative its digits,
-- for a negative one a sign and the digits of its magnitude, and for the least one the sign alone.
pub data Decimal (num : ℕ) : Bytes × ℕ → Type 0 where
  positive : {buf : Bytes} {i : ℕ} → num < 2 ^ 31 → Spells buf 0 i num → Decimal num (buf, i)
  negative :
      {buf : Bytes} {i : ℕ} (n : ℕ)
      → 2 ^ 31 < num
      → buf 0 ≡ b'-'
      → i ≡ suc n
      → Spells buf 1 n (2 ^ 32 - num)
      → Decimal num (buf, i)
  least : {buf : Bytes} {i : ℕ} → num ≡ 2 ^ 31 → buf 0 ≡ b'-' → i ≡ 1 → Decimal num (buf, i)

print_positive :
    (buf : Bytes) (num : ℕ) → 0 < num → let (b, i) = print_digits buf 0 num in Spells b 0 i num
unfolding print_digits
print_positive buf num left =
    let p = push_digits-Pushed num buf 0 num (omega arith) in
    let (b, i) = push_digits num buf 0 num in
    let first : b 0 ≢ b'-' =
      λ e. omega (arith, p.digits 0 (omega arith) (omega (arith, p.some_digit left)), e) in
    let t = swap_loop-Turned i b 0 (i - 1) (omega arith) in
    let all : p.count ≡ i = omega (arith, p.end) in
    rw (ne→== (b 0) b'-' first)
      (subst (λ n. Spells (swap_loop i b 0 (i - 1)) 0 n num) all (Turned-Spells 0 num left p t))

print_negative :
    (buf : Bytes) (num : ℕ)
    → 0 < num
    → buf 0 ≡ b'-'
    → let (b, i) = print_digits buf 1 num in (n : ℕ) × (i ≡ suc n) × (b 0 ≡ b'-') × Spells b 1 n num
unfolding print_digits
print_negative buf num left sign =
    let p = push_digits-Pushed num buf 1 num (omega arith) in
    let (b, i) = push_digits num buf 1 num in
    let still : b 0 ≡ b'-' = p.before 0 (omega arith) ∙ sign in
    let t = swap_loop-Turned i b 1 (i - 1) (omega arith) in
    rw (==_true (b 0) b'-' still) (
      p.count,
      omega (arith, p.end),
      t.outer 0 (inl (omega arith)) ∙ still,
      Turned-Spells 1 num left p t,
    )

print_zero : let (b, i) = print_digits (put (λ j. 0) 0 b'0') 1 0 in Spells b 0 i 0
unfolding print_digits push_digits swap_loop
print_zero = record {
  spelled = refl;
  digits = λ j le lt.
      let zeroth : j ≡ 0 = omega arith in
      subst (λ x. (b'0' ≤ x) × (x ≤ b'9')) (ap (put (λ k. 0) 0 b'0') (sym zeroth)) (omega arith);
  some_digit = omega arith;
  short = λ k pos lt. pos;
}

print_least : let (b, i) = print_digits (put (λ j. 0) 0 b'-') 1 0 in (b 0 ≡ b'-') × (i ≡ 1)
unfolding print_digits push_digits swap_loop
print_least = (refl, refl)

-- Of a word of 32 bits, read as an `int`, `%d` writes the decimal digits, as few as it takes, if it is
-- not negative, and otherwise a minus sign and those of its magnitude; of the least `int` it writes
-- the minus sign alone.
pub print_int-Decimal : (num : ℕ) → num < 2 ^ 32 → Decimal num (print_int (λ j. 0) num)
unfolding print_int
print_int-Decimal num word = elim (dec_lt num (2 ^ 31)) [
  | yes low ↦ rw (lt→leb (2 ^ 31) num low) (elim (ℕ_discrete num 0) [
    | yes null ↦ rw (==_true num 0 null) (
        positive low (
          subst (λ k. let (b, i) = print_digits (put (λ j. 0) 0 b'0') 1 0 in Spells b 0 i k)
            (sym null) print_zero))
    | no other ↦ rw (ne→== num 0 other) (positive low (print_positive (λ j. 0) num (omega arith)))
  ])
  | no high ↦ rw (le→leb (2 ^ 31) num (omega arith)) (elim (ℕ_discrete num (2 ^ 31)) [
    | yes at ↦ rw (==_true num (2 ^ 31) at) (least at print_least.0 print_least.1)
    | no above ↦
        let (n, end, sign, spells) =
          print_negative (put (λ j. 0) 0 b'-') (2 ^ 32 - num) (omega arith) refl in
        rw (ne→== num (2 ^ 31) above) (negative n (omega arith) sign end spells)
  ])
]
