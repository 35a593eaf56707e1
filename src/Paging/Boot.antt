-- ===== src/Paging/Boot.antt =====
-- The tables that src/mem/paging.c starts with, and the way back to physical addresses.
use tomato_os.Base.{ℕ, ◌/◌, bit_or, ◌||◌, List, [], ◌∷◌, leb, ◌==◌, if◌then◌else◌, length}
use tomato_os.Base.Word.{add64, sub64}
use tomato_os.Pmm.{MemmapEntry, Pmm, pmm_alloc_page}
use tomato_os.Paging.{Paging, Tables, clear_table, map_page, get_physical_address}

-- KERNEL_PFLAG_PRESENT, KERNEL_PFLAG_WRITE
abbrev pub kernel_pflag_present : ℕ
kernel_pflag_present = 1

abbrev pub kernel_pflag_write : ℕ
kernel_pflag_write = 2

-- LIMINE_MEMMAP_RESERVED, LIMINE_MEMMAP_BAD_MEMORY
abbrev pub memmap_reserved : ℕ
memmap_reserved = 1

abbrev pub memmap_bad : ℕ
memmap_bad = 4

-- `kernel.kernel_addr` and the symbols of the linker script.
pub record KernelImage : Type 0 where
  pub physical_base : ℕ
  pub virtual_base : ℕ
  pub start : ℕ
  pub writeallowed_start : ℕ
  pub end : ℕ

-- `(length + PAGE_SIZE - 1) / PAGE_SIZE`
abbrev pub pages_of : ℕ → ℕ
pages_of length = sub64 (add64 length 4096) 1 / 4096

unfoldable pub map_kernel : Paging → KernelImage → Paging
map_kernel m k =
    let offset = sub64 k.virtual_base k.physical_base in
    let readonly_pages = pages_of (sub64 k.writeallowed_start k.start) in
    let writable_pages = pages_of (sub64 k.end k.writeallowed_start) in
    let m1 = map_page m k.start (sub64 k.start offset) kernel_pflag_present readonly_pages in
    map_page m1 k.writeallowed_start (sub64 k.writeallowed_start offset)
      (bit_or kernel_pflag_present kernel_pflag_write) writable_pages

-- The loop of `map_all_mem`.
unfoldable pub map_entries : Paging → List MemmapEntry → Paging
map_entries m [] = m
map_entries m (e ∷ es) =
    let skip = e.kind == memmap_reserved || e.kind == memmap_bad in
    let mapped =
      map_page m (add64 e.base m.hhdm) e.base (bit_or kernel_pflag_present kernel_pflag_write)
        (pages_of e.length) in
    map_entries (if skip then m else mapped) es

unfoldable pub map_all_mem : Paging → List MemmapEntry → KernelImage → Paging
map_all_mem m entries k = map_kernel (map_entries m entries) k

-- `initPML4` up to its call of `map_all_mem`: the root is one page, cleared.
unfoldable pub new_root : Pmm → (hhdm : ℕ) (memory : Tables) → Paging
new_root pmm hhdm memory =
    let (phys, pmm') = pmm_alloc_page pmm 1 in
    let root = add64 phys hhdm in
    record { pmm = pmm'; tables = clear_table memory root; pml4 = root; hhdm = hhdm }

unfoldable pub init_pml4 :
    Pmm → (hhdm : ℕ) (memory : Tables) → List MemmapEntry → KernelImage → Paging
init_pml4 pmm hhdm memory entries k = map_all_mem (new_root pmm hhdm memory) entries k

-- The address below `kernel.hhdm` is that of the kernel image, or one that the tables lead from.
unfoldable pub virt_to_phys : Paging → KernelImage → ℕ → ℕ
virt_to_phys m k addr =
    if leb m.hhdm addr
    then sub64 addr m.hhdm
    else (if leb k.virtual_base addr
        then sub64 addr (sub64 k.virtual_base k.physical_base)
        else get_physical_address m addr)
