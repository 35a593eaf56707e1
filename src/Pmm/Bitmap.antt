-- ===== src/Pmm/Bitmap.antt =====
-- The macros BITMAP_SET, BITMAP_CLEAR and BITMAP_TEST of src/include/pmm.h, with their laws.
use mathlib.Core.Bool.{false, and-eq-true_iff}
use mathlib.Core.Path.{subst₃}
use tomato_os.Base.{
  arith, ltb→lt, ℕ, ◌+◌, ◌-◌, ◌*◌, ◌/◌, ◌%◌, ◌^◌, ◌<◌, ◌≡◌, refl, Bool, true, ◌&&◌, ◌||◌, not,
  arith, bit_and, bit_or, ◌==◌, ltb, if◌then◌else◌, all_below, all_below_sound,
}

-- Memory from a pointer on: the byte at each offset.
abbrev pub Bytes : Type 0
Bytes = ℕ → ℕ

abbrev pub update : Bytes → ℕ → ℕ → Bytes
update m a v b = if a == b then v else m b

abbrev pub IsBytes : Bytes → Type 0
IsBytes m = (b : ℕ) → m b < 256

-- `1 << bit % 8`
abbrev mask : ℕ → ℕ
mask bit = 2 ^ (bit % 8)

unfoldable pub bitmap_set : Bytes → ℕ → Bytes
bitmap_set m bit = update m (bit / 8) (bit_or (m (bit / 8)) (mask bit))

-- The complement is taken on `int`, and the store keeps its low 8 bits.
unfoldable pub bitmap_clear : Bytes → ℕ → Bytes
bitmap_clear m bit = update m (bit / 8) (bit_and (m (bit / 8)) (255 - mask bit))

unfoldable pub bitmap_test : Bytes → ℕ → Bool
bitmap_test m bit = not (bit_and (m (bit / 8)) (mask bit) == 0)

-- The laws of one byte, by evaluation over every byte `x` and every two bits `i` and `j`.
abbrev bit_of : ℕ → ℕ → Bool
bit_of x i = not (bit_and x (2 ^ i) == 0)

same : Bool → Bool → Bool
same a b = if a then b else not b

eq_of_same : (a b : Bool) → same a b ≡ true → a ≡ b
unfolding same
eq_of_same a b h = ground arith

byte_laws : ℕ → ℕ → ℕ → Bool
unfolding same
byte_laws x i j =
    let up = bit_or x (2 ^ i) in
    let down = bit_and x (255 - 2 ^ i) in
    ltb up 256
    && (ltb down 256
        && (same (bit_of up j) (i == j || bit_of x j)
            && same (bit_of down j) (not (i == j) && bit_of x j)))

-- `x`, `i` and `j` are the digits of one number below 256 * 8 * 8.
byte_table : all_below (256 * 64) (λ n. byte_laws (n / 64) (n / 8 % 8) (n % 8)) ≡ true
unfolding all_below byte_laws
byte_table = refl

module _ (x i j : ℕ) (hx : x < 256) (hi : i < 8) (hj : j < 8) where
  abbrev n : ℕ
  n = x * 64 + i * 8 + j

  byte_laws-true : byte_laws x i j ≡ true
  byte_laws-true =
      let found = all_below_sound (256 * 64) _ n byte_table (omega arith) in
      let ex : n / 64 ≡ x = omega arith in
      let ei : n / 8 % 8 ≡ i = omega arith in
      let ej : n % 8 ≡ j = omega arith in subst₃ (λ a b c. byte_laws a b c ≡ true) ex ei ej found

  byte_laws_lem :
      (bit_or x (2 ^ i) < 256)
      × (bit_and x (255 - 2 ^ i) < 256)
      × (bit_of (bit_or x (2 ^ i)) j ≡ (i == j || bit_of x j))
      × (bit_of (bit_and x (255 - 2 ^ i)) j ≡ (not (i == j) && bit_of x j))
  unfolding byte_laws
  byte_laws_lem =
      let (up, rest) = (and-eq-true_iff _ _).0 byte_laws-true in
      let (down, rest') = (and-eq-true_iff _ _).0 rest in
      let (sets, clears) = (and-eq-true_iff _ _).0 rest' in
      (ltb→lt _ _ up, ltb→lt _ _ down, eq_of_same _ _ sets, eq_of_same _ _ clears)

zero_table : all_below 8 (λ j. not (bit_of 0 j)) ≡ true
unfolding all_below
zero_table = refl

-- No bit of a byte that holds 0 is set.
pub bitmap_test-zero : (m : Bytes) (j : ℕ) → m (j / 8) ≡ 0 → bitmap_test m j ≡ false
unfolding bitmap_test
bitmap_test-zero m j e =
    rw e (ground (arith, all_below_sound 8 (λ j. not (bit_of 0 j)) (j % 8) zero_table))

pub bitmap_test-cong :
    (m m' : Bytes) (j : ℕ) → m (j / 8) ≡ m' (j / 8) → bitmap_test m j ≡ bitmap_test m' j
unfolding bitmap_test
bitmap_test-cong m m' j e = rw e

-- BITMAP_SET turns one bit on, and BITMAP_CLEAR turns it off; no other bit changes.
module _ (m : Bytes) (i j : ℕ) (h : IsBytes m) where
  pub bitmap_test-set : bitmap_test (bitmap_set m i) j ≡ (i == j || bitmap_test m j)
  unfolding bitmap_test bitmap_set
  bitmap_test-set = ground (arith, byte_laws_lem (m (j / 8)) (i % 8) (j % 8) (h (j / 8)))

  pub bitmap_test-clear : bitmap_test (bitmap_clear m i) j ≡ (not (i == j) && bitmap_test m j)
  unfolding bitmap_test bitmap_clear
  bitmap_test-clear = ground (arith, byte_laws_lem (m (j / 8)) (i % 8) (j % 8) (h (j / 8)))

  pub bitmap_set-lt : bitmap_set m i j < 256
  unfolding bitmap_set
  bitmap_set-lt = ground (arith, h j, byte_laws_lem (m (i / 8)) (i % 8) 0 (h (i / 8)))

  pub bitmap_clear-lt : bitmap_clear m i j < 256
  unfolding bitmap_clear
  bitmap_clear-lt = ground (arith, h j, byte_laws_lem (m (i / 8)) (i % 8) 0 (h (i / 8)))
