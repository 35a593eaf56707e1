-- ===== src/Pmm/Reach.antt =====
-- Any sequence of calls of `pmm_alloc_page` and `pmm_free` after `init_PMM` of src/mem/pmm.c.
use mathlib.Core.Path.{subst}
use tomato_os.Base.{
  ℕ, ◌+◌, ◌-◌, ◌*◌, ◌/◌, ◌^◌, ◌≤◌, ◌<◌, ◌≡◌, ◌⊎◌, inl, inr, refl, true, Option, none, some, List,
  arith,
}
use tomato_os.Base.Word.{sub64}
use tomato_os.Pmm.{
  MemmapEntry, Pmm, block_size, bitmap_pages, pages_needed, pmm_alloc_page, pmm_free, start_in,
  init_pmm, hand_out,
}
use tomato_os.Pmm.Bitmap.{Bytes, IsBytes, bitmap_test}
use tomato_os.Pmm.Runs.{clear_run-IsBytes}
use tomato_os.Pmm.Alloc.{
  IsValid, Allocated, pmm_alloc_page-Outcome, pmm_alloc_page-IsValid, bitmap_test-pmm_free,
}
use tomato_os.Pmm.Init.{started_in, bitmap_test-start_in, start_in-IsBytes}

-- One call. A caller frees only memory behind the bitmap, as all that it was handed is.
pub data Step : Pmm → Pmm → Type 0 where
  alloc : (s : Pmm) (size : ℕ) → Step s (pmm_alloc_page s size).1
  free :
      (s : Pmm) (addr pages : ℕ)
      → s.usable_base ≤ addr
      → addr < 2 ^ 64
      → Step s (pmm_free s addr pages)

pub data Reach (s : Pmm) : Pmm → Type 0 where
  here : Reach s s
  next : {t u : Pmm} → Reach s t → Step t u → Reach s u

-- The pages of the bitmap are marked, and the usable memory starts behind them.
record Reserved (s : Pmm) : Type 0 where
  valid : IsValid s
  marked : (j : ℕ) → j < bitmap_pages s.bitmap_size → bitmap_test s.bitmap j ≡ true
  behind : s.usable_base ≡ s.physical_base + bitmap_pages s.bitmap_size * block_size

-- The fields that no call changes.
abbrev pub SameRegion : Pmm → Pmm → Type 0
SameRegion s t =
    (t.physical_base ≡ s.physical_base)
    × (t.total_pages ≡ s.total_pages)
    × (t.bitmap_size ≡ s.bitmap_size)
    × (t.usable_base ≡ s.usable_base)

hand_out-SameRegion : (s : Pmm) (size : ℕ) (r : Option ℕ) → SameRegion s (hand_out s size r).1
hand_out-SameRegion s size none = ground arith
hand_out-SameRegion s size (some p) = ground arith

pub pmm_alloc_page-SameRegion : (s : Pmm) (size : ℕ) → SameRegion s (pmm_alloc_page s size).1
unfolding pmm_alloc_page
pmm_alloc_page-SameRegion s size = hand_out-SameRegion s size _

pub pmm_free-SameRegion : (s : Pmm) (addr pages : ℕ) → SameRegion s (pmm_free s addr pages)
unfolding pmm_free
pmm_free-SameRegion s addr pages = ground arith

pub pmm_free-IsBytes :
    (s : Pmm) (addr pages : ℕ) → IsBytes s.bitmap → IsBytes (pmm_free s addr pages).bitmap
unfolding pmm_free
pmm_free-IsBytes s addr pages h b =
    ground
      (arith, h b, clear_run-IsBytes s.bitmap (sub64 addr s.physical_base / block_size) pages h b)

alloc-Reserved : (s : Pmm) (size : ℕ) → Reserved s → Reserved (pmm_alloc_page s size).1
alloc-Reserved s size r = record {
  valid = pmm_alloc_page-IsValid s size r.valid;
  marked = λ j h.
      let was : bitmap_test s.bitmap j ≡ true =
        r.marked j (omega (arith, pmm_alloc_page-SameRegion s size)) in
      elim (pmm_alloc_page-Outcome s size r.valid) [
        | inl (_, same, _) ↦ ground arith
        | inr (p, a) ↦ ground (arith, a.marked j)
      ];
  behind = ground (arith, r.behind, pmm_alloc_page-SameRegion s size);
}

free-Reserved :
    (s : Pmm) (addr pages : ℕ)
    → s.usable_base ≤ addr
    → addr < 2 ^ 64
    → Reserved s
    → Reserved (pmm_free s addr pages)
free-Reserved s addr pages le lt r = record {
  valid = record {
    bytes = pmm_free-IsBytes s addr pages r.valid.bytes;
    no_wrap = ground (arith, r.valid.no_wrap, pmm_free-SameRegion s addr pages);
  };
  marked = λ j h. ground (
    arith,
    pmm_free-SameRegion s addr pages,
    r.marked j,
    r.behind,
    bitmap_test-pmm_free s addr pages j r.valid,
  );
  behind = ground (arith, r.behind, pmm_free-SameRegion s addr pages);
}

Step-Reserved : {s t : Pmm} → Step s t → Reserved s → Reserved t
Step-Reserved (alloc s size) r = alloc-Reserved s size r
Step-Reserved (free s addr pages le lt) r = free-Reserved s addr pages le lt r

Reach-Reserved : {s t : Pmm} → Reserved s → Reach s t → Reserved t
Reach-Reserved r here = r
Reach-Reserved r (next reach step) = Step-Reserved step (Reach-Reserved r reach)

start_in-Reserved :
    (e : MemmapEntry) (memory : Bytes)
    → IsBytes memory
    → e.base + e.length < 2 ^ 64
    → Reserved (start_in e memory)
unfolding start_in
start_in-Reserved e memory h fits = record {
  valid = record { bytes = start_in-IsBytes e memory h; no_wrap = omega arith };
  marked = λ j lt. ground (arith, bitmap_test-start_in e memory h j);
  behind = omega arith;
}

start_in-total :
    (e : MemmapEntry) (memory : Bytes)
    → ((start_in e memory).total_pages ≡ (start_in e memory).physical_size / block_size)
      × ((start_in e memory).physical_base ≡ e.base)
      × ((start_in e memory).physical_size ≡ e.length)
unfolding start_in
start_in-total e memory = (refl, refl, refl)

Step-SameRegion : {s t : Pmm} → Step s t → SameRegion s t
Step-SameRegion (alloc s size) = pmm_alloc_page-SameRegion s size
Step-SameRegion (free s addr pages le lt) = pmm_free-SameRegion s addr pages

Reach-SameRegion : {s t : Pmm} → Reach s t → SameRegion s t
Reach-SameRegion here = ground arith
Reach-SameRegion (next reach step) = ground (arith, Reach-SameRegion reach, Step-SameRegion step)

-- A run of free pages that starts behind the bitmap ends within the region.
fits_inside :
    (t : Pmm) (need p : ℕ) {addr : ℕ} {u : Pmm}
    → Reserved t
    → Allocated t need p addr u
    → (t.usable_base ≤ addr)
      × (addr + need * block_size ≤ t.physical_base + t.total_pages * block_size)
fits_inside t need p r a =
    let behind_bitmap : bitmap_pages t.bitmap_size ≤ p = ground (arith, r.marked p) in
    let last : p + need ≤ t.total_pages = ground (arith, a.fits.all_free (p + need - 1)) in
    omega (arith, r.valid.no_wrap, r.behind, a.address)

-- What `pmm_alloc_page` hands out, if anything: whole pages of the region, behind its bitmap.
abbrev pub HandsOut : Pmm → ℕ → Pmm → Type 0
HandsOut s size t =
    let addr = (pmm_alloc_page t size).0 in
    (addr ≡ 0)
    ⊎ ((s.usable_base ≤ addr)
        × (addr + pages_needed size * block_size ≤ s.physical_base + s.physical_size))

-- Once `init_PMM` has started the allocator over memory below 2^64, then after any calls of
-- `pmm_alloc_page` and `pmm_free`, frees only of memory behind the bitmap, a request either fails
-- or gets memory of the region that lies wholly behind the bitmap: the bitmap is never handed out.
pub Reach-HandsOut :
    (entries : List MemmapEntry) (memory : Bytes) {s t : Pmm} (size : ℕ)
    → init_pmm entries memory ≡ some s
    → IsBytes memory
    → s.physical_base + s.physical_size < 2 ^ 64
    → Reach s t
    → HandsOut s size t
Reach-HandsOut entries memory {s} {t} size started h fits reach =
    let (e, _, eq) = started_in entries memory started in
    let r0 : Reserved s =
      subst Reserved eq (start_in-Reserved e memory h (ground (arith, start_in-total e memory))) in
    let r : Reserved t = Reach-Reserved r0 reach in
    elim (pmm_alloc_page-Outcome t size r.valid) [
      | inl (zero_addr, _, _) ↦ inl zero_addr
      | inr (p, a) ↦ inr (
          ground (
            arith,
            fits_inside t (pages_needed size) p r a,
            Reach-SameRegion reach,
            start_in-total e memory,
          ))
    ]
