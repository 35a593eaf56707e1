-- ===== src/Ext2.antt =====
-- The ext2 file system of src/fs/ext2/ and src/include/ext2.h, as far as the kernel reads it: the
-- state of a mounted partition. Each child models a file of the directory or a part of it.
pub mod Io
pub mod Super
pub mod Inode
pub mod Groups
pub mod Mount
mod Tests
use tomato_os.Base.{ℕ, ◌+◌, Bool, Option, none, some}
use tomato_os.Base.Bytes.{Bytes, le16, le32}
use tomato_os.Disk.{Disk}

-- `struct ext2_superblock`, the fields that the code reads.
pub record Superblock : Type 0 where
  pub s_inodes_count : ℕ
  pub s_blocks_count : ℕ
  pub s_first_data_block : ℕ
  pub s_log_block_size : ℕ
  pub s_blocks_per_group : ℕ
  pub s_inodes_per_group : ℕ
  pub s_magic : ℕ
  pub s_state : ℕ
  pub revision : ℕ
  pub s_first_ino : ℕ
  pub inode_size : ℕ
  pub s_feature_incompat : ℕ
  pub s_feature_ro_compat : ℕ

-- The fields at their offsets in the packed structure.
unfoldable pub superblock_at : Bytes → ℕ → Superblock
superblock_at b o = record {
  s_inodes_count = le32 b o;
  s_blocks_count = le32 b (o + 4);
  s_first_data_block = le32 b (o + 20);
  s_log_block_size = le32 b (o + 24);
  s_blocks_per_group = le32 b (o + 32);
  s_inodes_per_group = le32 b (o + 40);
  s_magic = le16 b (o + 56);
  s_state = le16 b (o + 58);
  revision = le32 b (o + 76);
  s_first_ino = le32 b (o + 84);
  inode_size = le16 b (o + 88);
  s_feature_incompat = le32 b (o + 96);
  s_feature_ro_compat = le32 b (o + 100);
}

-- `sizeof(struct ext2_superblock)`
abbrev pub superblock_size : ℕ
superblock_size = 348

abbrev pub ext2_magic : ℕ
ext2_magic = 0xEF53

abbrev pub good_old_rev : ℕ
good_old_rev = 0

abbrev pub dynamic_rev : ℕ
dynamic_rev = 1

abbrev pub good_old_inode_size : ℕ
good_old_inode_size = 128

abbrev pub good_old_first_ino : ℕ
good_old_first_ino = 11

-- EXT2_FEATURE_INCOMPAT_FILETYPE
abbrev pub supported_incompat : ℕ
supported_incompat = 2

-- EXT2_FEATURE_RO_COMPAT_SPARSE_SUPER | EXT2_FEATURE_RO_COMPAT_LARGE_FILE
abbrev pub supported_ro_compat : ℕ
supported_ro_compat = 3

-- `struct ext2_partition`, with the state of the drive. The superblock is kept as its bytes, since
-- they are written back whole; `sb` below reads the fields. `groups` is the pointer, `descs` the
-- bytes that it points to.
pub record Fs {ℓ} (S : Type ℓ) : Type ℓ where
  pub drive : S
  pub sb_bytes : Bytes
  pub lba_start : ℕ
  pub block_size : ℕ
  pub sectors_per_block : ℕ
  pub group_count : ℕ
  pub inode_size : ℕ
  pub first_ino : ℕ
  pub inodes_per_block : ℕ
  pub itb_per_group : ℕ
  pub desc_per_block : ℕ
  pub gdb_count : ℕ
  pub groups : ℕ
  pub descs : Bytes
  pub read_only : Bool
  pub sb_dirty : Bool
  pub locked : Bool
  pub io_buf : Bytes

abbrev pub sb {ℓ} : {S : Type ℓ} → Fs S → Superblock
sb fs = superblock_at fs.sb_bytes 0

-- How a call ends: `none` where it waits for ever on a lock that it holds itself, and else its
-- result with the state behind it.
abbrev pub Outcome {ℓ} : (S A : Type ℓ) → Type ℓ
Outcome S A = Option (A × Fs S)
