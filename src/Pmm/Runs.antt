-- ===== src/Pmm/Runs.antt =====
-- The two bit loops of src/mem/pmm.c: what they leave in the bitmap.
use tomato_os.Base.{ℕ, zero, suc, ◌+◌, ◌≡◌, Bool, ◌&&◌, ◌||◌, not, arith, leb, ltb}
use tomato_os.Pmm.Bitmap.{
  Bytes, IsBytes, bitmap_set, bitmap_clear, bitmap_test, bitmap_test-set, bitmap_test-clear,
  bitmap_set-lt, bitmap_clear-lt,
}
use tomato_os.Pmm.Loops.{set_run, clear_run}

-- `j` is one of the `n` pages from `i` on.
abbrev pub within : (i n j : ℕ) → Bool
within i n j = leb i j && ltb j (i + n)

module _ (j : ℕ) where
  pub bitmap_test-set_run :
      (m : Bytes) (i n : ℕ)
      → IsBytes m
      → bitmap_test (set_run m i n) j ≡ (within i n j || bitmap_test m j)
  unfolding set_run
  bitmap_test-set_run m i zero h = ground arith
  bitmap_test-set_run m i (suc n) h = ground (
    arith,
    bitmap_test-set_run (bitmap_set m i) (i + 1) n (λ b. bitmap_set-lt m i b h),
    bitmap_test-set m i j h,
  )

  pub bitmap_test-clear_run :
      (m : Bytes) (i n : ℕ)
      → IsBytes m
      → bitmap_test (clear_run m i n) j ≡ (not (within i n j) && bitmap_test m j)
  unfolding clear_run
  bitmap_test-clear_run m i zero h = ground arith
  bitmap_test-clear_run m i (suc n) h = ground (
    arith,
    bitmap_test-clear_run (bitmap_clear m i) (i + 1) n (λ b. bitmap_clear-lt m i b h),
    bitmap_test-clear m i j h,
  )

pub set_run-IsBytes : (m : Bytes) (i n : ℕ) → IsBytes m → IsBytes (set_run m i n)
unfolding set_run
set_run-IsBytes m i zero h = h
set_run-IsBytes m i (suc n) h =
    set_run-IsBytes (bitmap_set m i) (i + 1) n (λ b. bitmap_set-lt m i b h)

pub clear_run-IsBytes : (m : Bytes) (i n : ℕ) → IsBytes m → IsBytes (clear_run m i n)
unfolding clear_run
clear_run-IsBytes m i zero h = h
clear_run-IsBytes m i (suc n) h =
    clear_run-IsBytes (bitmap_clear m i) (i + 1) n (λ b. bitmap_clear-lt m i b h)
