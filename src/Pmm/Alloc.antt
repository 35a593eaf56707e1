-- ===== src/Pmm/Alloc.antt =====
-- What `pmm_alloc_page` and `pmm_free` of src/mem/pmm.c do to the bitmap, on every branch.
use tomato_os.Base.{
  ℕ, ◌+◌, ◌*◌, ◌/◌, ◌^◌, ◌≤◌, ◌<◌, ◌≡◌, ◌≢◌, ◌⊎◌, inl, inr, refl, Option, none, some, arith, ◌&&◌,
  ◌||◌, not, ◌==◌, dec_lt,
}
use tomato_os.Base.Word.{add64, sub64}
use tomato_os.Pmm.{Pmm, block_size, pages_needed, hand_out, pmm_alloc_page, pmm_free}
use tomato_os.Pmm.Bitmap.{IsBytes, bitmap_test}
use tomato_os.Pmm.Runs.{within, bitmap_test-set_run, bitmap_test-clear_run, set_run-IsBytes}
use tomato_os.Pmm.Search.{FreeRun, Found, nothing, first, find_run-Found}

-- The region lies below 2^64, so no page address wraps.
pub record IsValid (s : Pmm) : Type 0 where
  pub bytes : IsBytes s.bitmap
  pub no_wrap : s.physical_base + s.total_pages * block_size ≤ 2 ^ 64

abbrev pub Fits : Pmm → (need p : ℕ) → Type 0
Fits s need p = FreeRun s.bitmap s.total_pages need p

abbrev pub page_address : Pmm → ℕ → ℕ
page_address s p = add64 s.physical_base (p * block_size)

-- The run that starts at page `p` is handed out: it was free, it is the first that fits, and the
-- bits of its pages are now set, and no others.
pub record Allocated (s : Pmm) (need p addr : ℕ) (s' : Pmm) : Type 0 where
  pub fits : Fits s need p
  pub least : (q : ℕ) → q < p → ¬ Fits s need q
  pub address : addr ≡ page_address s p
  pub marked : (j : ℕ) → bitmap_test s'.bitmap j ≡ (within p need j || bitmap_test s.bitmap j)
  pub same_base : s'.physical_base ≡ s.physical_base
  pub same_total : s'.total_pages ≡ s.total_pages

abbrev pub NoneFits : Pmm → ℕ → Type 0
NoneFits s need = (q : ℕ) → ¬ Fits s need q

module _ (s : Pmm) (size : ℕ) where
  abbrev Outcome : ℕ × Pmm → Type 0
  Outcome (addr, s') =
      ((addr ≡ 0) × (s' ≡ s) × NoneFits s (pages_needed size))
      ⊎ ((p : ℕ) × Allocated s (pages_needed size) p addr s')

  hand_out-Outcome :
      {r : Option ℕ}
      → IsValid s
      → Found s.bitmap s.total_pages (pages_needed size) 0 r
      → Outcome (hand_out s size r)
  hand_out-Outcome v (nothing none_fits) = inl (refl, refl, λ q. none_fits q (omega arith))
  hand_out-Outcome v (first p a run least) = inr (
    p,
    record {
      fits = run;
      least = λ q. least q (omega arith);
      address = refl;
      marked = λ j. bitmap_test-set_run j s.bitmap p (pages_needed size) v.bytes;
      same_base = refl;
      same_total = refl;
    },
  )

  hand_out-IsValid : (r : Option ℕ) → IsValid s → IsValid (hand_out s size r).1
  hand_out-IsValid none v = v
  hand_out-IsValid (some p) v = record {
    bytes = set_run-IsBytes s.bitmap p (pages_needed size) v.bytes;
    no_wrap = v.no_wrap;
  }

  -- Provided that the region lies below 2^64, `pmm_alloc_page` either hands out the first run of
  -- free pages that is long enough, marking exactly its pages, or returns 0 and changes nothing,
  -- and then no run of free pages is long enough.
  pub pmm_alloc_page-Outcome :
      IsValid s
      → let (addr, s') = pmm_alloc_page s size in
        ((addr ≡ 0) × (s' ≡ s) × NoneFits s (pages_needed size))
        ⊎ ((p : ℕ) × Allocated s (pages_needed size) p addr s')
  unfolding pmm_alloc_page
  pmm_alloc_page-Outcome v =
      hand_out-Outcome v
        (find_run-Found s.bitmap s.total_pages (pages_needed size) s.total_pages 0 (omega arith))

  -- `pmm_alloc_page` keeps the bitmap a string of bytes and the region below 2^64.
  pub pmm_alloc_page-IsValid : IsValid s → IsValid (pmm_alloc_page s size).1
  unfolding pmm_alloc_page
  pmm_alloc_page-IsValid v = hand_out-IsValid _ v

  -- A request of 0 bytes, or one so near 2^64 that the rounding up wraps, marks no page, although
  -- an address is handed out if any page is free: the bitmap reads as before at every page.
  pub pmm_alloc_page-unmarked :
      IsValid s
      → pages_needed size ≡ 0
      → (j : ℕ) → bitmap_test (pmm_alloc_page s size).1.bitmap j ≡ bitmap_test s.bitmap j
  pmm_alloc_page-unmarked v e j = elim (pmm_alloc_page-Outcome v) [
    | inl (_, same, _) ↦ rw same
    | inr (p, a) ↦ ground (arith, a.marked j)
  ]

-- A page handed out after another lies before or behind its whole run.
Allocated-apart :
    {s t u : Pmm} (need need' p q : ℕ) {x y : ℕ}
    → Allocated s need p x t
    → Allocated t need' q y u
    → (p + need ≤ q) ⊎ (q + need' ≤ p)
Allocated-apart {s} need need' p q a b = elim (dec_lt q p) [
  | no behind ↦ inl (ground (arith, a.marked q))
  | yes before ↦ elim (dec_lt p (q + need')) [
    | no clear ↦ inr (omega arith)
    | yes across ↦ elim (dec_lt 0 need) [
      | yes some_pages ↦ absurd (ground (arith, a.marked p, b.fits.all_free p))
      | no empty ↦ absurd (
          a.least q before (record {
            inside = ground arith;
            starts_free = ground (arith, a.marked q);
            all_free = λ k h h'. absurd (omega arith);
          }))
    ]
  ]
]

-- Two runs handed out one after the other share no page.
pub pmm_alloc_page-disjoint :
    (s : Pmm) (size size' : ℕ)
    → IsValid s
    → let (x, t) = pmm_alloc_page s size in
      let (y, u) = pmm_alloc_page t size' in
      x ≢ 0
      → y ≢ 0
      → (x + pages_needed size * block_size ≤ y) ⊎ (y + pages_needed size' * block_size ≤ x)
pmm_alloc_page-disjoint s size size' v px py = elim (pmm_alloc_page-Outcome s size v) [
  | inl (zero_x, _, _) ↦ absurd (px zero_x)
  | inr (p, a) ↦
      elim (pmm_alloc_page-Outcome (pmm_alloc_page s size).1 size'
        (pmm_alloc_page-IsValid s size v)) [
          | inl (zero_y, _, _) ↦ absurd (py zero_y)
          | inr (q, b) ↦ ground (arith, Allocated-apart _ _ p q a b)
        ]
]

module _ (s : Pmm) (addr pages : ℕ) where
  -- `pmm_free` clears the bits of the pages from the address on, and no others; the address 0 is
  -- ignored.
  pub bitmap_test-pmm_free :
      (j : ℕ)
      → IsValid s
      → bitmap_test (pmm_free s addr pages).bitmap j ≡ (
          not (not (addr == 0) && within (sub64 addr s.physical_base / block_size) pages j)
          && bitmap_test s.bitmap j)
  unfolding pmm_free
  bitmap_test-pmm_free j v = ground (
    arith,
    bitmap_test-clear_run j s.bitmap (sub64 addr s.physical_base / block_size) pages v.bytes,
  )

-- Freeing what was just handed out gives back the bitmap as it was, page by page.
pub pmm_free-pmm_alloc_page :
    (s : Pmm) (size : ℕ)
    → IsValid s
    → let (addr, s') = pmm_alloc_page s size in
      addr ≢ 0
      → (j : ℕ)
      → bitmap_test (pmm_free s' addr (pages_needed size)).bitmap j ≡ bitmap_test s.bitmap j
pmm_free-pmm_alloc_page s size v given j = elim (pmm_alloc_page-Outcome s size v) [
  | inl (zero_addr, _, _) ↦ absurd (given zero_addr)
  | inr (p, a) ↦ restored p a
]
  where
    restored :
        (p : ℕ)
        → Allocated s (pages_needed size) p (pmm_alloc_page s size).0 (pmm_alloc_page s size).1
        → bitmap_test
            (pmm_free
              (pmm_alloc_page s size).1
              (pmm_alloc_page s size).0
              (pages_needed size)).bitmap
            j
          ≡ bitmap_test s.bitmap j
    restored p a =
        let at : sub64 (pmm_alloc_page s size).0 (pmm_alloc_page s size).1.physical_base
              / block_size
            ≡ p =
          omega (arith, a.fits.inside) in
        ground (
          arith,
          bitmap_test-pmm_free (pmm_alloc_page s size).1 (pmm_alloc_page s size).0
              (pages_needed size) j (pmm_alloc_page-IsValid s size v),
          a.marked j,
          a.fits.all_free j,
        )
