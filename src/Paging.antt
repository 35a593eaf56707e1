-- ===== src/Paging.antt =====
-- The page tables of src/mem/paging.c: entries, the walk of an address, and the loop that maps pages.
-- A table is named by its virtual address, the sum of its page and `kernel.hhdm`, which is a multiple
-- of the page size. The flush of the TLB, CR3 and the log are left out.
pub mod Tree
pub mod Walk
pub mod Grow
pub mod Attach
pub mod Ensure
pub mod Boot
pub mod Leaf
pub mod Descend
pub mod Translate
pub mod Start
pub mod Kernel
mod Tests
use tomato_os.Base.{
  ℕ, zero, suc, ◌+◌, ◌-◌, ◌*◌, ◌/◌, ◌%◌, ◌^◌, ◌≤◌, ◌<◌, bit_and, bit_or, bit_xor, ◌≡◌, refl, sym,
  ap, ◌∙◌, fun_ext, ◌≢◌, ◌↔◌, ◌⊎◌, inl, inr, Bool, true, false, ◌&&◌, ◌||◌, not, Option, none, some,
  List, [], ◌∷◌, ◌++◌, arith, dec_lt, dec_le, ℕ_discrete, ltb, leb, ◌==◌, if◌then◌else◌, ltb→lt,
  lt→ltb, ltb→le, le→ltb, ==_iff, ==_refl, ==_true, ne→==, Bool-cases, Option-cases, all_below,
  all_below_sound, length, get_elem?, set, length-append, length-set,
}
use tomato_os.Base.Word.{add64, sub64, mul64}
use tomato_os.Pmm.{MemmapEntry, Pmm, pmm_alloc_page}

-- One bit of a word, as `flags & mask ? 1 : 0` with a mask of one bit.
abbrev pub bit : (flags mask : ℕ) → Bool
bit flags mask = flags / mask % 2 == 1

pub record PageEntry : Type 0 where
  pub present : Bool
  pub writable : Bool
  pub user_accessible : Bool
  pub write_through_caching : Bool
  pub disable_cache : Bool
  pub accessed : Bool
  pub dirty : Bool
  pub null : Bool
  pub global : Bool
  pub avl1 : ℕ
  pub physical_address : ℕ
  pub avl2 : ℕ
  pub no_execute : Bool

-- An entry whose 8 bytes are 0.
abbrev pub zero_entry : PageEntry
zero_entry = record {
  present = false;
  writable = false;
  user_accessible = false;
  write_through_caching = false;
  disable_cache = false;
  accessed = false;
  dirty = false;
  null = false;
  global = false;
  avl1 = 0;
  physical_address = 0;
  avl2 = 0;
  no_execute = false;
}

-- `flags` is a `uint8_t` and `available` a `uint16_t`.
pub set_page_table_entry : PageEntry → (flags phys available : ℕ) → PageEntry
set_page_table_entry e flags phys available =
    let f = flags % 256 in
    let a = available % 2 ^ 16 in
    record {
      present = bit f 1;
      writable = bit f 2;
      user_accessible = bit f 4;
      write_through_caching = bit f 8;
      disable_cache = bit f 16;
      accessed = false;
      dirty = false;
      null = e.null;
      global = bit f 256;
      avl1 = bit_and a 0x3;
      physical_address = phys / 2 ^ 12 % 2 ^ 40;
      avl2 = a / 2 ^ 3 % 2 ^ 11;
      no_execute = bit f 512;
    }

-- The entry of each table at each index.
abbrev pub Tables : Type 0
Tables = ℕ → ℕ → PageEntry

-- The allocator, the memory that page tables are in, the root, and `kernel.hhdm`.
pub record Paging : Type 0 where
  pub pmm : Pmm
  pub tables : Tables
  pub pml4 : ℕ
  pub hhdm : ℕ

abbrev pub phys_to_virt : Paging → ℕ → ℕ
phys_to_virt m phys = add64 phys m.hhdm

-- `physical_address << 12`, which is computed in the 40 bits of the field: gcc gives a bit-field that is
-- wider than `int` a type of its own width.
abbrev pub frame : PageEntry → ℕ
frame e = e.physical_address * 2 ^ 12 % 2 ^ 40

abbrev pub next_table : Paging → PageEntry → ℕ
next_table m e = phys_to_virt m (frame e)

-- `virt >> shift & 0x1FF`
abbrev pub index : (virt shift : ℕ) → ℕ
index virt shift = virt / 2 ^ shift % 512

-- `memset(pt, 0, 4096)`, and the store of one entry.
abbrev pub clear_table : Tables → ℕ → Tables
clear_table ts t x j = if x == t then zero_entry else ts x j

abbrev pub set_entry : Tables → (t i : ℕ) → PageEntry → Tables
set_entry ts t i e x j = if x == t && j == i then e else ts x j

-- The result 0 is the null pointer.
unfoldable pub get_physical_address : Paging → ℕ → ℕ
get_physical_address m virt =
    let e4 = m.tables m.pml4 (index virt 39) in
    let e3 = m.tables (next_table m e4) (index virt 30) in
    let e2 = m.tables (next_table m e3) (index virt 21) in
    let e1 = m.tables (next_table m e2) (index virt 12) in
    if not e4.present
    then 0
    else (if not e3.present
        then 0
        else (if not e2.present
            then 0
            else (if not e1.present then 0 else add64 (frame e1) (virt % 4096))))

-- PTE_PRESENT, PTE_WRITABLE
abbrev pub pte_present : ℕ
pte_present = 1

abbrev pub pte_writable : ℕ
pte_writable = 2

-- The result 0 means that there was no page.
pub allocate_entry : Paging → (table i flags : ℕ) → ℕ × Paging
allocate_entry m table i flags =
    let (phys, pmm') = pmm_alloc_page m.pmm 1 in
    if phys == 0
    then (0, record m { pmm = pmm' })
    else (let cleared = clear_table m.tables (phys_to_virt m phys) in
        let flags' = bit_or (bit_or flags pte_present) pte_writable in
        (
          phys,
          record m {
            pmm = pmm';
            tables =
                set_entry cleared table i (set_page_table_entry (cleared table i) flags' phys 0);
          },
        ))

-- `map_page` asks for a table where there is none, and does not look at the result.
pub ensure : Paging → (table i : ℕ) → Paging
ensure m table i =
    if not (m.tables table i).present then (allocate_entry m table i pte_writable).1 else m

-- One round of `map_page`.
pub map_one : Paging → (virt phys flags : ℕ) → Paging
map_one m virt phys flags =
    let m1 = ensure m m.pml4 (index virt 39) in
    let pdp = next_table m1 (m1.tables m1.pml4 (index virt 39)) in
    let m2 = ensure m1 pdp (index virt 30) in
    let pd = next_table m2 (m2.tables pdp (index virt 30)) in
    let m3 = ensure m2 pd (index virt 21) in
    let pt = next_table m3 (m3.tables pd (index virt 21)) in
    record m3 {
      tables =
          set_entry m3.tables pt (index virt 12)
            (set_page_table_entry (m3.tables pt (index virt 12)) flags phys 0);
    }

-- The rounds from `i` on.
pub map_from : Paging → (virt phys flags i n : ℕ) → Paging
map_from m virt phys flags i zero = m
map_from m virt phys flags i (suc n) =
    map_from (map_one m (add64 virt (mul64 i 4096)) (add64 phys (mul64 i 4096)) flags) virt phys
      flags (i + 1) n

abbrev pub map_page : Paging → (virt phys flags num_pages : ℕ) → Paging
map_page m virt phys flags num_pages = map_from m virt phys flags 0 num_pages
