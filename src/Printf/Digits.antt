-- ===== src/Printf/Digits.antt =====
-- The digits that src/stdio/printf.c and src/stdio/klog.c put into a buffer, as numbers.
use tomato_os.Base.{
  ℕ, zero, suc, ◌+◌, ◌-◌, ◌*◌, ◌/◌, ◌%◌, ◌^◌, ◌≤◌, ◌<◌, ◌≡◌, refl, sym, ap, ◌∙◌, arith, dec_lt,
  ℕ_discrete, if◌then◌else◌, lt→ltb, le→ltb, ==_refl, ne→==,
}
use mathlib.Core.Path.{subst}
use native.Mathlib.Numerals.{unary_clauses}
use tomato_os.Base.Bytes.{Bytes}
use tomato_os.Printf.{put, push_digits}

-- The number that `n` digits from `i` on spell, the last one the units.
abbrev pub value : Bytes → (i n : ℕ) → ℕ
value buf i zero = 0
value buf i (suc n) = value buf i n * 10 + (buf (i + n) - b'0')

-- The same with the first digit the units.
abbrev pub backwards : Bytes → (i n : ℕ) → ℕ
backwards buf i zero = 0
backwards buf i (suc n) = backwards buf (i + 1) n * 10 + (buf i - b'0')

abbrev pub AreDigits : Bytes → (i n : ℕ) → Type 0
AreDigits buf i n = (j : ℕ) → i ≤ j → j < i + n → (b'0' ≤ buf j) × (buf j ≤ b'9')

-- What the loop leaves behind: `n` digits from `i` on, and what stood before them.
pub record Pushed (buf : Bytes) (i num : ℕ) (buf' : Bytes) (i' : ℕ) : Type 0 where
  pub count : ℕ
  pub end : i' ≡ i + count
  pub spelled : backwards buf' i count ≡ num
  pub digits : AreDigits buf' i count
  pub before : (j : ℕ) → j < i → buf' j ≡ buf j
  pub some_digit : 0 < num → 0 < count
  pub short : (k : ℕ) → num < 10 ^ k → count ≤ k

one_more :
    (num count k : ℕ)
    → 0 < num
    → num < 10 ^ k
    → ((j : ℕ) → num / 10 < 10 ^ j → count ≤ j)
    → suc count ≤ k
one_more num count zero left lt short = absurd (omega arith)
one_more num count (suc k) left lt short =
    let less : num < 10 ^ k * 10 = simp unary_clauses at lt in
    omega (arith, short k (omega (arith, less)))

pub push_digits-Pushed :
    (fuel : ℕ) (buf : Bytes) (i num : ℕ)
    → num ≤ fuel
    → let (buf', i') = push_digits fuel buf i num in Pushed buf i num buf' i'
unfolding push_digits
push_digits-Pushed zero buf i num le = record {
  count = 0;
  end = omega arith;
  spelled = omega arith;
  digits = λ j a b. absurd (omega arith);
  before = λ j lt. refl;
  some_digit = λ lt. absurd (omega arith);
  short = λ k lt. omega arith;
}
push_digits-Pushed (suc fuel) buf i num le = elim (dec_lt 0 num) [
  | no none_left ↦ rw (le→ltb 0 num (omega arith)) (record {
    count = 0;
    end = omega arith;
    spelled = omega arith;
    digits = λ j a b. absurd (omega arith);
    before = λ j lt. refl;
    some_digit = λ lt. absurd (omega arith);
    short = λ k lt. omega arith;
  })
  | yes left ↦
      let b = put buf i (b'0' + num % 10) in
      let p = push_digits-Pushed fuel b (i + 1) (num / 10) (omega arith) in
      let buf' = (push_digits fuel b (i + 1) (num / 10)).0 in
      let here : buf' i ≡ b'0' + num % 10 =
        p.before i (omega arith) ∙ ap (λ x. if x then b'0' + num % 10 else buf i) (==_refl i) in
      rw (lt→ltb 0 num left) (record {
        count = suc p.count;
        end = omega (arith, p.end);
        spelled = omega (arith, p.spelled, here);
        digits = λ j le' lt. elim (ℕ_discrete j i) [
          | yes first ↦
              subst (λ k. (b'0' ≤ buf' k) × (buf' k ≤ b'9')) (sym first) (omega (arith, here))
          | no other ↦ p.digits j (omega arith) (omega arith)
        ];
        before = λ j lt.
            p.before j (omega arith)
            ∙ ap (λ x. if x then b'0' + num % 10 else buf j) (ne→== j i (omega arith));
        some_digit = λ lt. omega arith;
        short = λ k lt. one_more num p.count k left lt p.short;
      })
]

-- Digits that are turned round spell the same number the other way.
pub value-backwards :
    (buf buf' : Bytes) (i k n : ℕ)
    → ((j : ℕ) → j < n → buf' (i + j) ≡ buf (k + (n - 1 - j)))
    → value buf' i n ≡ backwards buf k n
value-backwards buf buf' i k zero h = refl
value-backwards buf buf' i k (suc n) h =
    let rest =
      value-backwards buf buf' i (k + 1) n (λ j lt. h j (omega arith) ∙ ap buf (omega arith)) in
    let last : buf' (i + n) ≡ buf k = h n (omega arith) ∙ ap buf (omega arith) in
    omega (arith, rest, last)
