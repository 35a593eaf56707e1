-- ===== src/Ext2/Super.antt =====
-- The superblock of src/fs/ext2/super.c: reading, validation, the layout derived, writing back. The
-- fields are 32-bit words, so that the sums and products which the code takes in 64 bits are exact.
pub mod Valid
pub mod Layout
use tomato_os.Base.{
  ℕ, ◌+◌, ◌-◌, ◌*◌, ◌/◌, ◌%◌, ◌^◌, Bool, true, false, ◌&&◌, ◌||◌, not, Option, none, some, ltb, leb,
  ◌==◌, bit_and, if◌then◌else◌,
}
use tomato_os.Base.Bytes.{Bytes, splice}
use tomato_os.Base.Word.{wrap32, add32, sub32, mul32, add64}
use tomato_os.Disk.{Disk, BytesToBlockRes, bytes_to_blocks}
use tomato_os.Ext2.{
  Superblock, superblock_at, superblock_size, Fs, sb, ext2_magic, dynamic_rev, good_old_rev,
  good_old_inode_size, good_old_first_ino, supported_incompat, supported_ro_compat,
}
use tomato_os.Ext2.Io.{spinlock_aquire, spinlock_release}

-- `1024u << sb->s_log_block_size`, where the shift is at most 2.
abbrev pub block_size_of : Superblock → ℕ
block_size_of s = 1024 * 2 ^ s.s_log_block_size

-- `x & ~mask` on `uint32_t`
abbrev pub without : (x mask : ℕ) → ℕ
without x mask = bit_and x (2 ^ 32 - 1 - mask)

-- The inode size and the first inode that `ext2_validate_sb` works with.
abbrev pub inode_size_of : Superblock → ℕ
inode_size_of s = if leb dynamic_rev s.revision then s.inode_size else good_old_inode_size

abbrev pub first_ino_of : Superblock → ℕ
first_ino_of s = if leb dynamic_rev s.revision then s.s_first_ino else good_old_first_ino

-- "Inode geometry"
unfoldable pub inode_geometry : Superblock → (bs : ℕ) → Bool
inode_geometry s bs =
    not (leb dynamic_rev s.revision)
    || (not (
          ltb s.inode_size good_old_inode_size
          || ltb bs s.inode_size
          || not (bit_and s.inode_size (sub32 s.inode_size 1) == 0))
        && not (ltb s.s_first_ino good_old_first_ino))

-- `groups`
abbrev pub groups_of : Superblock → ℕ
groups_of s =
    (s.s_blocks_count - s.s_first_data_block + s.s_blocks_per_group - 1) / s.s_blocks_per_group

-- The block and inode counts.
unfoldable pub counts_ok : Superblock → (bs : ℕ) → Bool
counts_ok s bs =
    let groups = groups_of s in
    not (s.s_blocks_count == 0)
    && not (leb s.s_blocks_count s.s_first_data_block)
    && not (s.s_blocks_per_group == 0 || ltb (8 * bs) s.s_blocks_per_group)
    && not (s.s_inodes_per_group == 0 || ltb (8 * bs) s.s_inodes_per_group)
    && not (s.s_inodes_count == 0 || ltb (groups * s.s_inodes_per_group) s.s_inodes_count)
    && not (ltb s.s_inodes_count (first_ino_of s))

-- The inode table and the group descriptors, of 32 bytes each.
unfoldable pub tables_fit : Superblock → (bs : ℕ) → Bool
tables_fit s bs =
    let itb = (s.s_inodes_per_group * inode_size_of s + bs - 1) / bs in
    let gdt_blocks = (groups_of s * 32 + bs - 1) / bs in
    not (leb s.s_blocks_per_group itb)
    && not (ltb s.s_blocks_count (s.s_first_data_block + 1 + gdt_blocks))

-- `ext2_validate_sb`
unfoldable pub validate_sb : (lba_size : ℕ) → Superblock → Bool
validate_sb lba_size s =
    let bs = block_size_of s in
    let lba = wrap32 lba_size in
    not (ltb 2 s.s_log_block_size)
    && not (lba == 0 || ltb bs lba || not (bs % lba == 0))
    && not (ltb dynamic_rev s.revision)
    && without s.s_feature_incompat supported_incompat == 0
    && inode_geometry s bs
    && counts_ok s bs
    && tables_fit s bs

module _ {S : Type 0} (disk : Disk S) where
  -- `ext2_compute_layout`
  unfoldable pub compute_layout : Fs S → Fs S
  compute_layout fs =
      let s = sb fs in
      let bs = block_size_of s in
      let data_blocks = sub32 s.s_blocks_count s.s_first_data_block in
      let count = wrap32 ((data_blocks + s.s_blocks_per_group - 1) / s.s_blocks_per_group) in
      let size = if s.revision == good_old_rev then good_old_inode_size else s.inode_size in
      let per_block = bs / size in
      let descs = bs / 32 in
      record fs {
        block_size = bs;
        sectors_per_block = wrap32 (bs / disk.lba_size);
        group_count = count;
        inode_size = size;
        first_ino = if s.revision == good_old_rev then good_old_first_ino else s.s_first_ino;
        read_only = not (without s.s_feature_ro_compat supported_ro_compat == 0);
        inodes_per_block = per_block;
        itb_per_group = sub32 (add32 s.s_inodes_per_group per_block) 1 / per_block;
        desc_per_block = descs;
        gdb_count = sub32 (add32 count descs) 1 / descs;
      }

  -- `ext2_read_superblock`
  unfoldable pub read_superblock : Fs S → Bool × Fs S
  read_superblock fs =
      let r = bytes_to_blocks 1024 1024 disk.lba_size in
      let (ok, b, s) = disk.read fs.drive fs.io_buf (add64 fs.lba_start r.lba) r.size_in_blocks in
      let fs' = record fs { drive = s; io_buf = b } in
      let loaded = record fs' { sb_bytes = splice fs.sb_bytes 0 b r.offset superblock_size } in
      if ok then ((sb loaded).s_magic == ext2_magic, loaded) else (false, fs')

  -- `ext2_write_superblock`
  unfoldable pub write_superblock : Fs S → Option (Bool × Fs S)
  write_superblock fs =
      let r = bytes_to_blocks 1024 1024 disk.lba_size in
      let lba = add64 fs.lba_start r.lba in
      let (read_ok, b, s) = disk.read fs.drive fs.io_buf lba r.size_in_blocks in
      let b' = splice b r.offset fs.sb_bytes 0 superblock_size in
      let (write_ok, s') = disk.write s b' lba r.size_in_blocks in
      let written = record fs { drive = s'; io_buf = b' } in
      let after =
        if read_ok
        then (if write_ok then record written { sb_dirty = false } else written)
        else record fs { drive = s; io_buf = b } in
      if fs.read_only then some (false, fs) else elim (spinlock_aquire fs) [
        | none ↦ none
        | some _ ↦ some (read_ok && write_ok, spinlock_release after)
      ]
