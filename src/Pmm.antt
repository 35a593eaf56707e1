-- ===== src/Pmm.antt =====
-- The physical page allocator of src/mem/pmm.c: a bitmap over the largest usable memory region.
-- The bitmap is the memory from `bitmap` on, a byte at each offset; an access past `bitmap_size`
-- reads or writes the memory behind it, as it does in the program.
pub mod Bitmap
pub mod Loops
pub mod Runs
pub mod Search
pub mod Alloc
pub mod Init
pub mod Reach
pub mod Same
mod Tests
use tomato_os.Base.{
  ℕ, zero, suc, ◌+◌, ◌-◌, ◌*◌, ◌/◌, ◌%◌, ◌^◌, Bool, true, false, Option, none, some, List, [], ◌∷◌,
  ltb, ◌==◌, if◌then◌else◌,
}
use tomato_os.Base.Word.{add64, sub64, wrap64}
use Bitmap.{Bytes}
use Loops.{find_run, set_run, clear_run}

-- BLOCK_SIZE
abbrev pub block_size : ℕ
block_size = 4096

-- `struct limine_memmap_entry`, which the boot loader fills.
pub record MemmapEntry : Type 0 where
  pub base : ℕ
  pub length : ℕ
  pub kind : ℕ

-- LIMINE_MEMMAP_USABLE
abbrev pub memmap_usable : ℕ
memmap_usable = 0

-- The file's globals. `physical_base` and `physical_size` are the fields of `physical`.
pub record Pmm : Type 0 where
  pub physical_base : ℕ
  pub physical_size : ℕ
  pub bitmap : Bytes
  pub total_pages : ℕ
  pub bitmap_size : ℕ
  pub usable_base : ℕ

abbrev pub pages_needed : ℕ → ℕ
pages_needed size = add64 size (block_size - 1) / block_size

-- What follows the search: mark the run that starts at page `i`, or report that memory is out.
abbrev pub hand_out : Pmm → (size : ℕ) → Option ℕ → ℕ × Pmm
hand_out s size none = (0, s)
hand_out s size (some i) = (
  add64 s.physical_base (i * block_size),
  record s { bitmap = set_run s.bitmap i (pages_needed size) },
)

-- `size` counts bytes. The result 0 means that no run of free pages is long enough.
unfoldable pub pmm_alloc_page : Pmm → (size : ℕ) → ℕ × Pmm
pmm_alloc_page s size =
    hand_out s size (find_run s.total_pages s.bitmap s.total_pages (pages_needed size) 0)

pub pmm_free : Pmm → (addr pages : ℕ) → Pmm
pmm_free s addr pages =
    if addr == 0
    then s
    else record s { bitmap = clear_run s.bitmap (sub64 addr s.physical_base / block_size) pages }

-- The loop of `init_PMM` that picks the largest usable entry, the first one on a tie.
pub largest_usable : Option MemmapEntry → List MemmapEntry → Option MemmapEntry
largest_usable best [] = best
largest_usable best (e ∷ es) =
    largest_usable
      (if e.kind == memmap_usable
        then elim best [ none ↦ some e | some b ↦ if ltb b.length e.length then some e else some b ]
        else best)
      es

-- `memset(bitmap, 0, sizeof(bitmap_size))`: `bitmap_size` is a `uint64_t`, so 8 bytes are cleared.
pub clear_bytes : ℕ → Bytes → Bytes
clear_bytes n m b = if ltb b n then 0 else m b

abbrev pub bitmap_pages : ℕ → ℕ
bitmap_pages size = (size + block_size - 1) / block_size

-- The state of the allocator over the region of `e`, which holds `memory` at boot.
pub start_in : MemmapEntry → (memory : Bytes) → Pmm
start_in e memory =
    let total = e.length / block_size in
    let size = (total + 7) / 8 in
    record {
      physical_base = e.base;
      physical_size = e.length;
      bitmap = set_run (clear_bytes 8 memory) 0 (bitmap_pages size);
      total_pages = total;
      bitmap_size = size;
      usable_base = add64 e.base (bitmap_pages size * block_size);
    }

-- With no usable entry the program reads through a null pointer: `none`.
pub init_pmm : List MemmapEntry → (memory : Bytes) → Option Pmm
init_pmm entries memory = elim (largest_usable none entries) [
  | none ↦ none
  | some e ↦ some (start_in e memory)
]
