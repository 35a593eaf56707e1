-- ===== src/Pmm/Tests.antt =====
-- Runs of src/mem/pmm.c at small regions, and the theorems at them.
use tomato_os.Base.{
  ℕ, ◌+◌, ◌*◌, ◌≤◌, ◌≡◌, ◌⊎◌, refl, some, List, [], ◌∷◌, ◌&&◌, ◌||◌, not, ltb, ◌==◌, if◌then◌else◌,
  arith,
}
use tomato_os.Pmm.{
  MemmapEntry, Pmm, block_size, largest_usable, init_pmm, pmm_alloc_page, pmm_free, start_in,
  clear_bytes,
}
use tomato_os.Pmm.Bitmap.{Bytes, bitmap_test, bitmap_set}
use tomato_os.Pmm.Loops.{scan_run, find_run, set_run}
use tomato_os.Pmm.Runs.{within}
use tomato_os.Pmm.Alloc.{
  IsValid, NoneFits, Allocated, pmm_alloc_page-Outcome, pmm_alloc_page-disjoint,
  bitmap_test-pmm_free, pmm_free-pmm_alloc_page,
}
use tomato_os.Pmm.Init.{bitmap_test-init_pmm}
use tomato_os.Pmm.Reach.{here, next, alloc, HandsOut, Reach-HandsOut}

-- Pages 0, 2 and 3 of 16 are in use.
abbrev bits : Bytes
bits b = if b == 0 then 13 else 0

abbrev small : Pmm
small = record {
  physical_base = 0x10_0000;
  physical_size = 0x1_0000;
  bitmap = bits;
  total_pages = 16;
  bitmap_size = 2;
  usable_base = 0x10_1000;
}

small-IsValid : IsValid small
small-IsValid = record { bytes = λ b. ground arith; no_wrap = omega arith }

alloc_one : (pmm_alloc_page small 4096).0 ≡ 0x10_1000
unfolding pmm_alloc_page find_run scan_run bitmap_test
alloc_one = refl

alloc_two : (pmm_alloc_page small 4097).0 ≡ 0x10_4000
unfolding pmm_alloc_page find_run scan_run bitmap_test
alloc_two = refl

alloc_too_many : (pmm_alloc_page small 0x1_0000).0 ≡ 0
unfolding pmm_alloc_page find_run scan_run bitmap_test
alloc_too_many = refl

pmm_alloc_page-Outcome_example :
    let (addr, t) = pmm_alloc_page small 8192 in
    ((addr ≡ 0) × (t ≡ small) × NoneFits small 2) ⊎ ((p : ℕ) × Allocated small 2 p addr t)
pmm_alloc_page-Outcome_example = pmm_alloc_page-Outcome small 8192 small-IsValid

pmm_alloc_page-disjoint_example :
    let (x, t) = pmm_alloc_page small 8192 in
    let (y, u) = pmm_alloc_page t 4096 in (x + 2 * block_size ≤ y) ⊎ (y + 1 * block_size ≤ x)
unfolding pmm_alloc_page find_run scan_run set_run bitmap_test bitmap_set
pmm_alloc_page-disjoint_example =
    pmm_alloc_page-disjoint small 8192 4096 small-IsValid (omega arith) (omega arith)

bitmap_test-pmm_free_example :
    bitmap_test (pmm_free small 0x10_2000 2).bitmap 3 ≡ (not (within 2 2 3) && bitmap_test bits 3)
bitmap_test-pmm_free_example = bitmap_test-pmm_free small 0x10_2000 2 3 small-IsValid

pmm_free-pmm_alloc_page_example :
    let (addr, t) = pmm_alloc_page small 8192 in
    bitmap_test (pmm_free t addr 2).bitmap 4 ≡ bitmap_test bits 4
unfolding pmm_alloc_page find_run scan_run bitmap_test
pmm_free-pmm_alloc_page_example = pmm_free-pmm_alloc_page small 8192 small-IsValid (omega arith) 4

-- A map with a reserved entry and two usable ones, and memory that is all ones at boot.
abbrev entries : List MemmapEntry
entries =
    record { base = 0; length = 0x100_0000; kind = 1 }
    ∷ record { base = 0x1000; length = 0x9000; kind = 0 }
    ∷ record { base = 0x10_0000; length = 0x40_0000; kind = 0 }
    ∷ []

abbrev ones : Bytes
ones b = 255

abbrev started : Pmm
started = record {
  physical_base = 0x10_0000;
  physical_size = 0x40_0000;
  bitmap = set_run (λ b. if ltb b 8 then 0 else 255) 0 1;
  total_pages = 1024;
  bitmap_size = 128;
  usable_base = 0x10_1000;
}

init_started : init_pmm entries ones ≡ some started
unfolding init_pmm largest_usable start_in clear_bytes
init_started = refl

-- Only the first 64 of the 1024 pages are available: the other bits are left from before.
bitmap_test-init_pmm_example :
    bitmap_test started.bitmap 100 ≡ (ltb 100 1 || (not (ltb 100 64) && bitmap_test ones 100))
bitmap_test-init_pmm_example = bitmap_test-init_pmm entries ones init_started (λ b. omega arith) 100

Reach-HandsOut_example : HandsOut started 4096 (pmm_alloc_page started 8192).1
Reach-HandsOut_example =
    Reach-HandsOut entries ones 4096 init_started (λ b. omega arith) (omega arith)
      (next here (alloc started 8192))
