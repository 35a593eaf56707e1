-- ===== src/Ext2/Tests.antt =====
-- A small image in memory, mounted by the code of src/fs/ext2/, and the theorems at it.
use tomato_os.Base.{
  Bool, ◌/◌, ◌-◌, ℕ, ◌+◌, ◌-◌, ◌*◌, ◌/◌, ◌≤◌, ◌<◌, ◌^◌, ◌≡◌, refl, true, false, none, some, List,
  [], ◌∷◌, arith, ◌==◌, if◌then◌else◌,
}
use tomato_os.Base.Bytes.{Bytes, splice}
use tomato_os.Disk.{Disk}
use tomato_os.Pmm.{Pmm}
use tomato_os.Pmm.Alloc.{IsValid}
use tomato_os.Kmem.{heap_size}
use tomato_os.Ext2.{Fs, sb, Superblock, superblock_at}
use tomato_os.Ext2.Super.{validate_sb, compute_layout, read_superblock, write_superblock}
use tomato_os.Ext2.Super.Valid.{Valid, validate_sb-Valid}
use tomato_os.Ext2.Super.Layout.{Laid, compute_layout-Laid}
use tomato_os.Ext2.Inode.{Inode, bmap, get_group_desc, inode_place}
use tomato_os.Ext2.Inode.Bmap.{Mapped, bmap-Mapped}
use tomato_os.Ext2.Inode.Read.{Returns, bmap-Returns, read_inode_in_table}
use tomato_os.Ext2.Groups.{Memory}
use tomato_os.Ext2.Mount.{Mounts, fresh, init}
use tomato_os.Ext2.Mount.Pages.{groups_found, Mounted, init-Mounted}
use tomato_os.Ext2.Io.{read_blocks, write_blocks}
use tomato_os.Ext2.Io.Written.{Keeps, read_blocks-write_blocks}

-- A drive of sectors of 512 bytes.
abbrev ram : Disk Bytes
ram = record {
  lba_size = 512;
  disk_size = 128;
  read = λ s b lba n. (true, splice b 0 s (lba * 512) (n * 512), s);
  write = λ s b lba n. (true, splice s (lba * 512) b 0 (n * 512));
}

abbrev at : List (ℕ × ℕ) → Bytes
at [] i = 0
at ((k, v) ∷ rest) i = if k == i then v else at rest i

-- 32 inodes and 64 blocks of 1024 bytes in one group; the root directory is inode 2.
abbrev image : Bytes
image = at (
    (1024, 32)
    ∷ (1028, 64)
    ∷ (1044, 1)
    ∷ (1057, 0x20)
    ∷ (1064, 32)
    ∷ (1080, 0x53)
    ∷ (1081, 0xEF)
    ∷ (2048, 3)
    ∷ (2052, 4)
    ∷ (2056, 5)
    ∷ (5248, 0xED)
    ∷ (5249, 0x41)
    ∷ (5253, 4)
    ∷ (5274, 2)
    ∷ (5288, 9)
    ∷ [])

abbrev pages : Pmm
pages = record {
  physical_base = 0x10_0000;
  physical_size = 0x1_0000;
  bitmap = λ b. if b == 0 then 1 else 0;
  total_pages = 16;
  bitmap_size = 2;
  usable_base = 0x10_1000;
}

pages-IsValid : IsValid pages
pages-IsValid = record { bytes = λ b. ground arith; no_wrap = omega arith }

abbrev memory : Memory
memory = record {
  pmm = pages;
  kmem = record {
    brk = 0x1000;
    endp = 0x1000 + heap_size;
    base = 0;
    block = λ a. record { free = false; size = 0; next = 0; prev = 0; ptr = 0 };
    byte = λ a. 0;
  };
  physical = λ a. 0;
}

abbrev nothing_mounted : Mounts Bytes
nothing_mounted = record { partitions = []; partition_count = 0; root_fs = none }

-- The superblock as it is read from the image.
abbrev read_in : Fs Bytes
read_in = record (fresh image 0) { sb_bytes = λ i. image (1024 + i) }

image_valid : validate_sb 512 (sb read_in) ≡ true
unfolding validate_sb superblock_at fresh tomato_os.Ext2.Super.inode_geometry
    tomato_os.Ext2.Super.counts_ok tomato_os.Ext2.Super.tables_fit
image_valid = refl

abbrev laid_out : Fs Bytes
laid_out = compute_layout ram read_in

validate_sb-Valid_example : Valid 512 (sb read_in)
unfolding superblock_at
validate_sb-Valid_example =
    validate_sb-Valid 512 (sb read_in) (omega arith) (omega arith) image_valid

laid_out-Laid : Laid 512 laid_out
laid_out-Laid = compute_layout-Laid ram read_in (omega arith) image_valid

compute_layout-Laid_example : Laid 512 (compute_layout ram read_in)
compute_layout-Laid_example = compute_layout-Laid ram read_in (omega arith) image_valid

abbrev root : Inode
root = record {
  i_mode = 0x41ED;
  i_size = 1024;
  i_links_count = 2;
  i_block = λ i. if i == 0 then 9 else 0;
}

bmap-Mapped_example : Mapped ram laid_out root 300 (bmap ram laid_out root 300)
bmap-Mapped_example = bmap-Mapped ram laid_out root 300

bmap-Returns_example : Returns ram laid_out (bmap ram laid_out root 300)
unfolding compute_layout superblock_at fresh
bmap-Returns_example = bmap-Returns ram laid_out root 300 (refl, omega arith)

read_inode_in_table_example :
    let group = (2 - 1) / (sb laid_out).s_inodes_per_group in
    (get_group_desc laid_out group ≡ some (32 * group))
    × ((inode_place laid_out 2 5).1 + laid_out.inode_size ≤ laid_out.block_size)
unfolding compute_layout superblock_at fresh
read_inode_in_table_example =
    read_inode_in_table 512 laid_out 2 5 laid_out-Laid (omega arith) (omega arith)

few_groups : groups_found ram memory image 0 < 2 ^ 27
unfolding compute_layout read_superblock superblock_at fresh tomato_os.Disk.bytes_to_blocks
    tomato_os.Pmm.pmm_alloc_page
few_groups = omega arith

init-Mounted_example : Mounted ram nothing_mounted memory (init ram nothing_mounted memory image 0)
init-Mounted_example =
    init-Mounted ram nothing_mounted memory image 0 (omega arith) (omega arith) few_groups
      pages-IsValid (omega arith)

-- The drive keeps what is written.
ram-Keeps : Keeps ram
ram-Keeps = record { read_back = λ s buf b lba n i ok ok' lt. ground arith }

read_blocks-write_blocks_example :
    (ok ok' : Bool) × (b' : Bytes) × (fs' fs'' : Fs Bytes) × (write_blocks ram laid_out 20 (λ i. 7)
      ≡ some (ok, fs'))
    × (read_blocks ram fs' 20 (λ i. 0) ≡ some (ok', b', fs''))
    × (ok ≡ true → ok' ≡ true → (i : ℕ) → i < laid_out.block_size → b' i ≡ 7)
unfolding compute_layout superblock_at fresh
read_blocks-write_blocks_example =
    read_blocks-write_blocks ram laid_out 20 (λ i. 7) (λ i. 0) ram-Keeps refl (omega arith)
      (omega arith) (omega arith)
