-- ===== src/Ext2/Mount.antt =====
-- Mounting a partition: `ext2_fill_super` of src/fs/ext2/super.c and `ext2_init` of
-- src/fs/ext2/ext2.c.
pub mod Fill
pub mod Pages
use tomato_os.Base.{
  ℕ, zero, suc, ◌+◌, ◌-◌, Bool, true, false, ◌&&◌, ◌||◌, not, Option, none, some, List, [], ◌∷◌,
  ltb, leb, ◌==◌, bit_and, if◌then◌else◌,
}
use tomato_os.Base.Bytes.{Bytes}
use tomato_os.Disk.{Disk}
use tomato_os.Pmm.{Pmm, pmm_alloc_page, pmm_free}
use tomato_os.Ext2.{Fs, sb}
use tomato_os.Ext2.Super.{read_superblock, validate_sb, compute_layout}
use tomato_os.Ext2.Inode.{Inode, read_inode, bmap}
use tomato_os.Ext2.Groups.{Memory, read_group_descs, free_group_descs}

-- EXT2_ROOT_INO
abbrev pub root_ino : ℕ
root_ino = 2

-- Whether the inode is a directory that is not empty and is linked.
unfoldable pub root_ok : Inode → Bool
root_ok root =
    bit_and root.i_mode 0xF000 == 0x4000 && not (root.i_size == 0) && not (root.i_links_count == 0)

module _ {S : Type 0} (disk : Disk S) where
  -- The loop of `ext2_check_root`, which maps blocks `b` to `b + n - 1` of the root for the log.
  unfoldable pub map_blocks : Fs S → Inode → (b n : ℕ) → Option (Fs S)
  map_blocks fs root b zero = some fs
  map_blocks fs root b (suc n) = elim (bmap disk fs root b) [
    | none ↦ none
    | some (_, fs') ↦ map_blocks fs' root (b + 1) n
  ]

  unfoldable pub check_root : Fs S → Option (Bool × Fs S)
  check_root fs = elim (read_inode disk fs root_ino) [
    | none ↦ none
    | some (none, fs') ↦ some (false, fs')
    | some (some root, fs') ↦ elim (root_ok root) [
      | false ↦ some (false, fs')
      | true ↦ elim (map_blocks fs' root 0 3) [ none ↦ none | some fs'' ↦ some (true, fs'') ]
    ]
  ]

  -- `ext2_fill_super`, without the warnings of `ext2_setup_super`.
  unfoldable pub fill_super : Memory → Fs S → Option (Bool × Memory × Fs S)
  fill_super mem fs =
      let (loaded, fs1) = read_superblock disk fs in
      if not loaded
      then some (false, mem, fs1)
      else if not (validate_sb disk.lba_size (sb fs1))
      then some (false, mem, fs1)
      else elim (read_group_descs disk mem (compute_layout disk fs1)) [
        | none ↦ none
        | some (false, mem', fs2) ↦ some (false, mem', fs2)
        | some (true, mem', fs2) ↦ elim (check_root fs2) [
          | none ↦ none
          | some (true, fs3) ↦ some (true, mem', fs3)
          | some (false, fs3) ↦
              let (mem'', fs4) = free_group_descs mem' fs3 in some (false, mem'', fs4)
        ]
      ]

-- The partition after `memset(fs, 0, sizeof(*fs))`, and the two assignments behind it.
unfoldable pub fresh : {S : Type 0} (drive : S) (lba_start : ℕ) → Fs S
fresh drive lba_start = record {
  drive = drive;
  sb_bytes = λ i. 0;
  lba_start = lba_start;
  block_size = 0;
  sectors_per_block = 0;
  group_count = 0;
  inode_size = 0;
  first_ino = 0;
  inodes_per_block = 0;
  itb_per_group = 0;
  desc_per_block = 0;
  gdb_count = 0;
  groups = 0;
  descs = λ i. 0;
  read_only = false;
  sb_dirty = false;
  locked = false;
  io_buf = λ i. 0;
}

-- What `ext2_init` changes of `kernel`: `ext2_partitions` up to `ext2_partition_count`, the last
-- mounted first, and `root_fs`.
pub record Mounts (S : Type 0) : Type 0 where
  pub partitions : List (Fs S)
  pub partition_count : ℕ
  pub root_fs : Option (Fs S)

-- The number of entries of `ext2_partitions`.
abbrev pub max_partitions : ℕ
max_partitions = 8

unfoldable pub add_partition : {S : Type 0} → Mounts S → Fs S → Mounts S
add_partition mounts fs = record {
  partitions = fs ∷ mounts.partitions;
  partition_count = mounts.partition_count + 1;
  root_fs = elim mounts.root_fs [ none ↦ some fs | some root ↦ some root ];
}

module _ {S : Type 0} (disk : Disk S) where
  -- The end of `ext2_init`, with the page of the buffer at `phys`.
  unfoldable pub mount_at :
      Mounts S → Memory → (fs : Fs S) (phys : ℕ) → Option (Bool × Mounts S × Memory × Fs S)
  mount_at mounts mem fs phys =
      elim (fill_super disk mem (record fs { io_buf = λ i. mem.physical (phys + i) })) [
        | none ↦ none
        | some (true, mem', fs') ↦ some (true, add_partition mounts fs', mem', fs')
        | some (false, mem', fs') ↦
            some (false, mounts, record mem' { pmm = pmm_free mem'.pmm phys 1 }, fs')
      ]

  -- `ext2_init`
  unfoldable pub init :
      Mounts S → Memory → (drive : S) (lba_start : ℕ) → Option (Bool × Mounts S × Memory × Fs S)
  init mounts mem drive lba_start =
      let fs = fresh drive lba_start in
      let (phys, pmm') = pmm_alloc_page mem.pmm 4096 in
      let mem' = record mem { pmm = pmm' } in
      if leb max_partitions mounts.partition_count
      then some (false, mounts, mem, fs)
      else if phys == 0
      then some (false, mounts, mem', fs)
      else mount_at mounts mem' fs phys
