-- ===== src/Paging/Kernel.antt =====
-- `map_kernel`, `map_all_mem` and `initPML4` of src/mem/paging.c, from the empty tables on.
use tomato_os.Base.{
  ℕ, ◌+◌, ◌-◌, ◌*◌, ◌%◌, ◌^◌, ◌≤◌, ◌<◌, ◌≡◌, refl, sym, ap, ◌∙◌, ◌≢◌, ◌⊎◌, inl, inr, false, List,
  arith,
}
use tomato_os.Base.Word.{sub64}
use tomato_os.Pmm.{MemmapEntry, Pmm}
use tomato_os.Paging.{
  PageEntry, Paging, Tables, bit, frame, set_page_table_entry, get_physical_address, map_page,
}
use tomato_os.Paging.Boot.{
  KernelImage, virt_to_phys, pages_of, map_kernel, map_entries, map_all_mem, new_root, init_pml4,
}
use tomato_os.Paging.Tree.{IsRegion, IsTree}
use tomato_os.Paging.Grow.{More, More-trans, More-IsFull, IsFull, page_cases, one, one-More}
use tomato_os.Paging.Translate.{distance, map_page-Mapped, map_from-More}
use tomato_os.Paging.Start.{
  HasRoom, Whole, Covered, new_root-IsTree, map_entries-Direct, map_entries-More,
}

-- The image is two runs of whole pages at the end of the address space, loaded in one piece.
pub record IsLoaded (k : KernelImage) : Type 0 where
  pub aligned :
      (k.physical_base % 4096 ≡ 0)
      × (k.virtual_base % 4096 ≡ 0)
      × (k.start % 4096 ≡ 0)
      × (k.writeallowed_start % 4096 ≡ 0)
  pub ordered :
      (k.virtual_base ≤ k.start) × (k.start ≤ k.writeallowed_start) × (k.writeallowed_start ≤ k.end)
  pub short : k.end < k.start + 2 ^ 47
  pub inside : k.end + 4096 ≤ 2 ^ 64
  pub loaded : k.physical_base + (k.end - k.virtual_base) + 4096 ≤ 2 ^ 52

new_root-fields :
    (p : Pmm) (hhdm : ℕ) (memory : Tables)
    → ((new_root p hhdm memory).pmm ≡ (one p).1) × ((new_root p hhdm memory).hhdm ≡ hhdm)
unfolding new_root
new_root-fields p hhdm memory = (refl, refl)

module _ (m : Paging) (k : KernelImage) where
  abbrev offset : ℕ
  offset = sub64 k.virtual_base k.physical_base

  abbrev readonly : Paging
  readonly =
      map_page m k.start (sub64 k.start offset) 1 (pages_of (sub64 k.writeallowed_start k.start))

  map_kernel-More : IsRegion m.pmm → More m.pmm (map_kernel m k).pmm
  unfolding map_kernel
  map_kernel-More r =
      let a =
        map_from-More m k.start (sub64 k.start offset) 1 0
          (pages_of (sub64 k.writeallowed_start k.start)) r in
      More-trans a (
        map_from-More readonly k.writeallowed_start (sub64 k.writeallowed_start offset) 3 0
          (pages_of (sub64 k.end k.writeallowed_start)) a.region)

  record Image (m' : Paging) : Type 0 where
    tree : IsTree m'
    image :
        (va : ℕ)
        → k.start ≤ va
        → va < k.end
        → get_physical_address m' va ≡ k.physical_base + (va - k.virtual_base)
    rest :
        (va : ℕ)
        → k.end + 4096 - k.start ≤ distance k.start va
        → get_physical_address m' va ≡ get_physical_address m va

  map_kernel-Image :
      IsTree m
      → IsLoaded k
      → k.physical_base + (k.end - k.virtual_base) + 4096 ≤ 2 ^ 40
      → IsFull (map_kernel m k).pmm ⊎ Image (map_kernel m k)
  unfolding map_kernel
  map_kernel-Image tree l low =
      let (physical, virtual, start, writable) = l.aligned in
      let (above, order, order') = l.ordered in
      let phys : sub64 k.start offset ≡ k.physical_base + (k.start - k.virtual_base) =
        omega (arith, l.loaded, l.inside) in
      let phys' : sub64 k.writeallowed_start offset
          ≡ k.physical_base + (k.writeallowed_start - k.virtual_base) =
        omega (arith, l.loaded, l.inside) in
      let size : pages_of (sub64 k.writeallowed_start k.start) * 4096
          ≡ k.writeallowed_start - k.start =
        omega (arith, l.inside, l.short) in
      let size' : (k.end - k.writeallowed_start
            ≤ pages_of (sub64 k.end k.writeallowed_start) * 4096)
          × (pages_of (sub64 k.end k.writeallowed_start) * 4096
              < k.end - k.writeallowed_start + 4096) =
        omega (arith, l.inside, l.short) in
      let more =
        map_from-More m k.start (sub64 k.start offset) 1 0
          (pages_of (sub64 k.writeallowed_start k.start)) tree.region in
      elim (map_page-Mapped m k.start (sub64 k.start offset) 1
        (pages_of (sub64 k.writeallowed_start k.start)) tree (omega arith)) [
          | inl full ↦ inl (
              More-IsFull
                (map_from-More readonly k.writeallowed_start (sub64 k.writeallowed_start offset) 3 0
                  (pages_of (sub64 k.end k.writeallowed_start)) more.region)
                full)
          | inr a ↦
              elim (map_page-Mapped readonly k.writeallowed_start
                (sub64 k.writeallowed_start offset) 3 (pages_of (sub64 k.end k.writeallowed_start))
                a.tree (omega arith)) [
                  | inl full ↦ inl full
                  | inr b ↦ inr (record {
                    tree = b.tree;
                    image = λ va le lt. ground (arith, a.leads va, b.leads va);
                    rest = λ va far. ground (arith, a.leads va, b.leads va);
                  })
                ]
        ]

-- The state behind `initPML4`.
pub record Started (hhdm : ℕ) (entries : List MemmapEntry) (k : KernelImage) (m : Paging)
    : Type 0 where
  pub tree : IsTree m
  pub image :
      (va : ℕ)
      → k.start ≤ va
      → va < k.end
      → get_physical_address m va ≡ k.physical_base + (va - k.virtual_base)
  pub direct :
      (pa : ℕ)
      → pa < 2 ^ 40
      → Covered pa entries
      → k.end + 4096 - k.start ≤ distance k.start (hhdm + pa)
      → get_physical_address m (hhdm + pa) ≡ pa

-- Let the region of the allocator start at a page above 0, the entries of the memory map that are
-- mapped be whole pages in the first 2^40 bytes, `hhdm` leave room for these, and the image of the
-- kernel be loaded in one piece, within the first 2^40 bytes as well. Then no page is free behind `initPML4`, or the tables form a tree of
-- pages in use, each address of the image leads to the place that it is loaded at, and each address
-- of an entry leads from `hhdm` on to itself, but for those within the pages of the image.
pub init_pml4-Started :
    (p : Pmm) (hhdm : ℕ) (memory : Tables) (entries : List MemmapEntry) (k : KernelImage)
    → IsRegion p
    → HasRoom hhdm
    → Whole entries
    → IsLoaded k
    → k.physical_base + (k.end - k.virtual_base) + 4096 ≤ 2 ^ 40
    → let m = init_pml4 p hhdm memory entries k in IsFull m.pmm ⊎ Started hhdm entries k m
unfolding init_pml4 map_all_mem
init_pml4-Started p hhdm memory entries k region room whole l low =
    let m0 = new_root p hhdm memory in
    let m1 = map_entries m0 entries in
    let (root_pmm, root_hhdm) = new_root-fields p hhdm memory in
    let more0 : More p m0.pmm = rw root_pmm (one-More p region) in
    let more1 = map_entries-More m0 entries more0.region in
    let more2 = map_kernel-More m1 k more1.region in
    elim (page_cases p region) [
      | inl (_, full) ↦ inl (More-IsFull (More-trans more0 (More-trans more1 more2)) full)
      | inr (n, f) ↦
          elim (map_entries-Direct m0 entries (new_root-IsTree p hhdm memory n region f)
            (rw root_hhdm room) whole) [
              | inl full ↦ inl (More-IsFull more2 full)
              | inr d ↦ elim (map_kernel-Image m1 k d.tree l low) [
                | inl full ↦ inl full
                | inr i ↦ inr (record {
                  tree = i.tree;
                  image = i.image;
                  direct = λ pa lt c far.
                      i.rest (hhdm + pa) far
                      ∙ ap (λ h. get_physical_address m1 (h + pa)) (sym root_hhdm)
                      ∙ d.covered pa lt c;
                })
              ]
            ]
    ]

-- Where `kernel.hhdm` lies at or below the image, `virt_to_phys` gives for no address of the image the
-- place that it is loaded at, unless the image is loaded just where `kernel.hhdm` has it.
pub virt_to_phys-image :
    (m : Paging) (k : KernelImage) (va : ℕ)
    → IsLoaded k
    → m.hhdm ≤ k.virtual_base
    → m.hhdm + k.physical_base ≢ k.virtual_base
    → k.start ≤ va
    → va < k.end
    → virt_to_phys m k va ≢ k.physical_base + (va - k.virtual_base)
unfolding virt_to_phys
virt_to_phys-image m k va l below elsewhere le lt same =
    ground (arith, l.inside, l.ordered, l.loaded)

-- The address that is taken from an entry is that of the page of `phys`, modulo 2^40, and the bits for
-- global and for no execution are never set, whatever the flags.
pub set_page_table_entry-bits :
    (e : PageEntry) (flags phys available : ℕ)
    → let e' = set_page_table_entry e flags phys available in
      (frame e' ≡ phys % 2 ^ 40 - phys % 4096)
      × (e'.present ≡ bit flags 1)
      × (e'.writable ≡ bit flags 2)
      × (e'.global ≡ false)
      × (e'.no_execute ≡ false)
unfolding set_page_table_entry
set_page_table_entry-bits e flags phys available = ground arith
