-- ===== src/Pmm/Loops.antt =====
-- The loops of `pmm_alloc_page` and `pmm_free` of src/mem/pmm.c over the bitmap.
use tomato_os.Base.{ℕ, zero, suc, ◌+◌, Option, none, some, ltb, ◌==◌, if◌then◌else◌}
use tomato_os.Pmm.Bitmap.{Bytes, bitmap_set, bitmap_clear, bitmap_test}

-- The inner loop of `pmm_alloc_page`: `j` runs over at most `n` pages while they are free.
unfoldable pub scan_run : Bytes → (total : ℕ) → (n j : ℕ) → ℕ
scan_run m total zero j = j
scan_run m total (suc n) j =
    let rest = scan_run m total n (j + 1) in
    if ltb j total then (if bitmap_test m j then j else rest) else j

-- The outer loop, from page `i` on. It has `total_pages` rounds as fuel.
unfoldable pub find_run : ℕ → Bytes → (total need i : ℕ) → Option ℕ
find_run zero m total need i = none
find_run (suc f) m total need i =
    let j = scan_run m total need i in
    let past_used = find_run f m total need (i + 1) in
    let past_run = find_run f m total need (j + 1) in
    if ltb i total
    then if bitmap_test m i then past_used else if j == i + need then some i else past_run
    else none

-- `for (k = i; k < i + n; k++) BITMAP_SET(bitmap, k)`
unfoldable pub set_run : Bytes → (i n : ℕ) → Bytes
set_run m i zero = m
set_run m i (suc n) = set_run (bitmap_set m i) (i + 1) n

-- `for (k = i; k < i + n; k++) BITMAP_CLEAR(bitmap, k)`
unfoldable pub clear_run : Bytes → (i n : ℕ) → Bytes
clear_run m i zero = m
clear_run m i (suc n) = clear_run (bitmap_clear m i) (i + 1) n
