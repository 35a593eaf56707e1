-- ===== src/Paging/Grow.antt =====
-- How `allocateEntry` of src/mem/paging.c takes a page from the allocator, and what that does to the
-- tables.
use tomato_os.Base.{
  ℕ, ◌<◌, ◌≡◌, refl, ap, ◌∙◌, ◌≢◌, ◌⊎◌, inl, inr, true, false, arith, ℕ_discrete, Bool-cases,
}
use tomato_os.Pmm.{Pmm, pmm_alloc_page}
use tomato_os.Pmm.Bitmap.{bitmap_test}
use tomato_os.Pmm.Alloc.{page_address, pmm_alloc_page-Outcome, pmm_alloc_page-IsValid}
use tomato_os.Pmm.Reach.{pmm_alloc_page-SameRegion}
use tomato_os.Paging.{Paging, phys_to_virt, allocate_entry, ensure}
use tomato_os.Paging.Tree.{IsRegion, IsTree}

-- Pages are taken, and none is given back.
pub record More (p q : Pmm) : Type 0 where
  pub region : IsRegion q
  pub base : q.physical_base ≡ p.physical_base
  pub total : q.total_pages ≡ p.total_pages
  pub keeps : (j : ℕ) → bitmap_test p.bitmap j ≡ true → bitmap_test q.bitmap j ≡ true

pub More-refl : (p : Pmm) → IsRegion p → More p p
More-refl p r = record { region = r; base = refl; total = refl; keeps = λ j h. h }

pub More-trans : {p q r : Pmm} → More p q → More q r → More p r
More-trans a b = record {
  region = b.region;
  base = b.base ∙ a.base;
  total = b.total ∙ a.total;
  keeps = λ j h. b.keeps j (a.keeps j h);
}

-- No page of the region is free.
abbrev pub IsFull : Pmm → Type 0
IsFull p = (j : ℕ) → j < p.total_pages → bitmap_test p.bitmap j ≡ true

pub More-IsFull : {p q : Pmm} → More p q → IsFull p → IsFull q
More-IsFull a full j lt = a.keeps j (full j (omega (arith, a.total)))

-- One page that was free is handed out.
pub record Fresh (p : Pmm) (n addr : ℕ) (q : Pmm) : Type 0 where
  pub inside : n < p.total_pages
  pub was_free : bitmap_test p.bitmap n ≡ false
  pub now_taken : bitmap_test q.bitmap n ≡ true
  pub address : addr ≡ page_address p n
  pub not_null : addr ≢ 0

abbrev pub one : Pmm → ℕ × Pmm
one p = pmm_alloc_page p 1

pub page_cases :
    (p : Pmm)
    → IsRegion p
    → (((one p).0 ≡ 0) × IsFull p) ⊎ ((n : ℕ) × Fresh p n (one p).0 (one p).1)
page_cases p r = elim (pmm_alloc_page-Outcome p 1 r.valid) [
  | inl (null, _, none_fits) ↦ inl (
    null,
    λ j lt. elim (Bool-cases (bitmap_test p.bitmap j)) [
      | inl taken ↦ taken
      | inr free ↦ absurd (
          none_fits j (record {
            inside = lt;
            starts_free = free;
            all_free = λ k h h'.
                let same : k ≡ j = omega arith in
                (omega arith, ap (bitmap_test p.bitmap) same ∙ free);
          }))
    ],
  )
  | inr (n, a) ↦ inr (
    n,
    record {
      inside = a.fits.inside;
      was_free = a.fits.starts_free;
      now_taken = ground (arith, a.marked n);
      address = a.address;
      not_null = omega (arith, a.address, a.fits.inside, r.above, r.low);
    },
  )
]

pub one-More : (p : Pmm) → IsRegion p → More p (one p).1
one-More p r =
    let same = pmm_alloc_page-SameRegion p 1 in
    let valid = pmm_alloc_page-IsValid p 1 r.valid in
    record {
      region = record {
        valid = valid;
        above = omega (arith, r.above, same.0);
        aligned = omega (arith, r.aligned, same.0);
        low = omega (arith, r.low, same.0, same.1);
      };
      base = same.0;
      total = same.1;
      keeps = λ j h. elim (pmm_alloc_page-Outcome p 1 r.valid) [
        | inl (_, s, _) ↦ rw s h
        | inr (n, a) ↦ ground (arith, a.marked j)
      ];
    }

-- The allocator is the only part of the state that a failure changes.
pub ensure-More : (m : Paging) (t i : ℕ) → IsRegion m.pmm → More m.pmm (ensure m t i).pmm
unfolding ensure allocate_entry
ensure-More m t i r = ground (arith, More-refl m.pmm r, one-More m.pmm r)

-- What is a table cannot be handed out.
pub Fresh-level :
    (m : Paging) (tree : IsTree m) (n addr : ℕ) {q : Pmm}
    → Fresh m.pmm n addr q
    → tree.level (phys_to_virt m addr) ≡ 0
Fresh-level m tree n addr f = elim (ℕ_discrete (tree.level (phys_to_virt m addr)) 0) [
  | yes e ↦ e
  | no other ↦
      let (p, lt, taken, at) = tree.taken (phys_to_virt m addr) other in
      let same : p ≡ n = omega (arith, at, f.address, f.inside, tree.region.low) in
      absurd (ground (arith, f.was_free, ap (bitmap_test m.pmm.bitmap) same))
]
