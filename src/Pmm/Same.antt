-- ===== src/Pmm/Same.antt =====
-- What a caller that gives back all pages it took from src/mem/pmm.c leaves behind.
use tomato_os.Base.{
  ℕ_discrete, sym, ==_true, ℕ, ◌/◌, ◌<◌, ◌≡◌, refl, sym, ap, ◌∙◌, ◌≢◌, inl, inr, ◌&&◌, not, arith,
  ◌==◌,
}
use tomato_os.Base.Word.{sub64}
use tomato_os.Pmm.{Pmm, block_size, pages_needed, pmm_alloc_page, pmm_free}
use tomato_os.Pmm.Bitmap.{bitmap_test}
use tomato_os.Pmm.Runs.{within}
use tomato_os.Pmm.Alloc.{
  IsValid, pmm_free-pmm_alloc_page, pmm_alloc_page-Outcome, pmm_alloc_page-IsValid,
  bitmap_test-pmm_free,
}
use tomato_os.Pmm.Reach.{pmm_alloc_page-SameRegion, pmm_free-SameRegion, pmm_free-IsBytes}
use mathlib.Core.Path.{subst}

-- The same pages of the same region are in use.
pub record SamePages (p q : Pmm) : Type 0 where
  pub bits : (j : ℕ) → bitmap_test q.bitmap j ≡ bitmap_test p.bitmap j
  pub base : q.physical_base ≡ p.physical_base
  pub valid : IsValid q

pub same_pages : (p : Pmm) → IsValid p → SamePages p p
same_pages p v = record { bits = λ j. refl; base = refl; valid = v }

-- Above address 0, the result 0 always means that nothing was handed out.
pub alloc_failed :
    (s : Pmm) (size : ℕ)
    → IsValid s
    → 0 < s.physical_base
    → (pmm_alloc_page s size).0 ≡ 0
    → (pmm_alloc_page s size).1 ≡ s
alloc_failed s size v above e = elim (pmm_alloc_page-Outcome s size v) [
  | inl (_, same, _) ↦ same
  | inr (p, a) ↦ ground (arith, a.address, a.fits.inside)
]

pub pmm_free-IsValid : (s : Pmm) (addr pages : ℕ) → IsValid s → IsValid (pmm_free s addr pages)
pmm_free-IsValid s addr pages v = record {
  bytes = pmm_free-IsBytes s addr pages v.bytes;
  no_wrap = ground (arith, v.no_wrap, pmm_free-SameRegion s addr pages);
}

-- Pages that are handed out and given back after a while in which no others changed.
pub pmm_free-SamePages :
    (s t : Pmm) (size : ℕ)
    → IsValid s
    → (pmm_alloc_page s size).0 ≢ 0
    → SamePages (pmm_alloc_page s size).1 t
    → SamePages s (pmm_free t (pmm_alloc_page s size).0 (pages_needed size))
pmm_free-SamePages s t size v got same =
    let (addr, s') = pmm_alloc_page s size in
    let n = pages_needed size in
    record {
      bits = λ j.
          let after = bitmap_test-pmm_free t addr n j same.valid in
          let after' = bitmap_test-pmm_free s' addr n j (pmm_alloc_page-IsValid s size v) in
          after
          ∙ ap
              (λ b.
                not (not (addr == 0) && within (sub64 addr b / block_size) n j)
                && bitmap_test t.bitmap j)
              same.base
          ∙ ap
              (λ b.
                not (not (addr == 0) && within (sub64 addr s'.physical_base / block_size) n j) && b)
              (same.bits j)
          ∙ sym after'
          ∙ pmm_free-pmm_alloc_page s size v got j;
      base =
          ground (arith, same.base, pmm_free-SameRegion t addr n, pmm_alloc_page-SameRegion s size);
      valid = pmm_free-IsValid t addr n same.valid;
    }

pmm_free-zero : (s : Pmm) (addr pages : ℕ) → addr ≡ 0 → pmm_free s addr pages ≡ s
unfolding pmm_free
pmm_free-zero s addr pages null = rw (==_true addr 0 null)

-- Taking a page and giving it back at once changes no page, whether there was one or not.
pub page_back :
    (p : Pmm)
    → IsValid p
    → 0 < p.physical_base
    → let (phys, q) = pmm_alloc_page p 4096 in SamePages p (pmm_free q phys 1)
page_back p v above = elim (ℕ_discrete (pmm_alloc_page p 4096).0 0) [
  | yes full ↦
      subst (SamePages p)
        (sym (pmm_free-zero (pmm_alloc_page p 4096).1 _ 1 full ∙ alloc_failed p 4096 v above full))
        (same_pages p v)
  | no got ↦
      pmm_free-SamePages p (pmm_alloc_page p 4096).1 4096 v got
        (same_pages _ (pmm_alloc_page-IsValid p 4096 v))
]
