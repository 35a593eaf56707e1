-- ===== src/Paging/Tests.antt =====
-- Runs of src/mem/paging.c over a small region, and the theorems at them.
use tomato_os.Base.{
  ℕ, ◌+◌, ◌*◌, ◌≡◌, refl, ◌≢◌, ◌⊎◌, true, false, List, [], ◌∷◌, arith, ◌==◌, if◌then◌else◌,
}
use tomato_os.Pmm.{MemmapEntry, Pmm, pmm_alloc_page}
use tomato_os.Pmm.Bitmap.{Bytes, bitmap_test, bitmap_set}
use tomato_os.Pmm.Loops.{scan_run, find_run, set_run}
use tomato_os.Paging.{
  Paging, Tables, zero_entry, frame, get_physical_address, map_page, map_from, map_one, ensure,
  allocate_entry, set_page_table_entry,
}
use tomato_os.Paging.Boot.{KernelImage, new_root, init_pml4, virt_to_phys}
use tomato_os.Paging.Tree.{IsRegion, IsTree}
use tomato_os.Paging.Grow.{Fresh, IsFull, one}
use tomato_os.Paging.Translate.{Mapped, map_page-Mapped}
use tomato_os.Paging.Start.{new_root-IsTree}
use tomato_os.Paging.Kernel.{
  IsLoaded, Started, init_pml4-Started, virt_to_phys-image, set_page_table_entry-bits,
}

-- Page 0 of 16 is in use.
abbrev bits : Bytes
bits b = if b == 0 then 1 else 0

abbrev small : Pmm
small = record {
  physical_base = 0x10_0000;
  physical_size = 0x1_0000;
  bitmap = bits;
  total_pages = 16;
  bitmap_size = 2;
  usable_base = 0x10_1000;
}

abbrev hhdm : ℕ
hhdm = 0xffff_8000_0000_0000

abbrev blank : Tables
blank t i = zero_entry

small-IsRegion : IsRegion small
small-IsRegion = record {
  valid = record { bytes = λ b. ground arith; no_wrap = omega arith };
  above = omega arith;
  aligned = refl;
  low = omega arith;
}

abbrev empty_root : Paging
empty_root = new_root small hhdm blank

-- The first free page becomes the root.
root_page : (pmm_alloc_page small 1).0 ≡ 0x10_1000
unfolding pmm_alloc_page find_run scan_run bitmap_test
root_page = refl

root-Fresh : Fresh small 1 (one small).0 (one small).1
unfolding pmm_alloc_page find_run scan_run set_run bitmap_test bitmap_set
root-Fresh = record {
  inside = omega arith;
  was_free = refl;
  now_taken = refl;
  address = refl;
  not_null = omega arith;
}

root-IsTree : IsTree empty_root
root-IsTree = new_root-IsTree small hhdm blank 1 small-IsRegion root-Fresh

-- Two pages of registers, not cached.
map_page-Mapped_example :
    let m = map_page empty_root 0xffff_8000_fee0_0000 0xfee0_0000 19 2 in
    IsFull m.pmm ⊎ Mapped empty_root 0xffff_8000_fee0_0000 0xfee0_0000 19 (2 * 4096) m
map_page-Mapped_example =
    map_page-Mapped empty_root 0xffff_8000_fee0_0000 0xfee0_0000 19 2 root-IsTree (omega arith)

abbrev registers : ℕ
registers = 0xffff_8000_fee0_0000

mapped_one :
    get_physical_address (map_page empty_root registers 0xfee0_0000 19 1) (registers + 0x30)
    ≡ 0xfee0_0030
unfolding map_from map_one ensure allocate_entry set_page_table_entry get_physical_address new_root
    pmm_alloc_page find_run scan_run set_run bitmap_test bitmap_set
mapped_one = refl

abbrev entries : List MemmapEntry
entries =
    record { base = 0; length = 0x9000; kind = 1 }
    ∷ record { base = 0x10_0000; length = 0x1_0000; kind = 0 }
    ∷ []

abbrev image : KernelImage
image = record {
  physical_base = 0x20_0000;
  virtual_base = 0xffff_ffff_8000_0000;
  start = 0xffff_ffff_8000_0000;
  writeallowed_start = 0xffff_ffff_8000_2000;
  end = 0xffff_ffff_8000_3800;
}

image-IsLoaded : IsLoaded image
image-IsLoaded = record {
  aligned = omega arith;
  ordered = omega arith;
  short = omega arith;
  inside = omega arith;
  loaded = omega arith;
}

init_pml4-Started_example :
    let m = init_pml4 small hhdm blank entries image in IsFull m.pmm ⊎ Started hhdm entries image m
init_pml4-Started_example =
    init_pml4-Started small hhdm blank entries image small-IsRegion (omega arith) (ground arith)
      image-IsLoaded (omega arith)

virt_to_phys-image_example :
    virt_to_phys empty_root image 0xffff_ffff_8000_1000 ≢ 0x20_0000 + 0x1000
unfolding new_root
virt_to_phys-image_example =
    virt_to_phys-image empty_root image 0xffff_ffff_8000_1000 image-IsLoaded (omega arith)
      (omega arith) (omega arith) (omega arith)

set_page_table_entry-bits_example :
    let e = set_page_table_entry zero_entry 0x302 0x5678 0 in
    (frame e ≡ 0x5000)
    × (e.present ≡ false)
    × (e.writable ≡ true)
    × (e.global ≡ false)
    × (e.no_execute ≡ false)
set_page_table_entry-bits_example = set_page_table_entry-bits zero_entry 0x302 0x5678 0
