-- ===== src/Ext2/Inode.antt =====
-- The block map and the inodes of src/fs/ext2/inode.c.
pub mod Bmap
pub mod Read
use tomato_os.Base.{
  ℕ, ◌+◌, ◌-◌, ◌*◌, ◌/◌, ◌%◌, Bool, true, false, ◌||◌, Option, none, some, ltb, leb, ◌==◌,
  if◌then◌else◌,
}
use tomato_os.Base.Bytes.{Bytes, le16, le32, splice}
use tomato_os.Base.Word.{wrap32, add64, mul64}
use tomato_os.Disk.{Disk}
use tomato_os.Ext2.{Fs, Outcome, sb}
use tomato_os.Ext2.Io.{spinlock_aquire, spinlock_release, read_blocks}

-- `struct ext2_inode`, the fields that the code reads. `i_block` is an array of 15.
pub record Inode : Type 0 where
  pub i_mode : ℕ
  pub i_size : ℕ
  pub i_links_count : ℕ
  pub i_block : ℕ → ℕ

-- `sizeof(struct ext2_inode)`
abbrev pub sizeof_inode : ℕ
sizeof_inode = 128

unfoldable pub inode_at : Bytes → ℕ → Inode
inode_at b o = record {
  i_mode = le16 b o;
  i_size = le32 b (o + 4);
  i_links_count = le16 b (o + 26);
  i_block = λ i. le32 b (o + 40 + 4 * i);
}

-- `ext2_get_group_desc`: whether there is a descriptor of that number; its place in `descs` is
-- `32 * group`.
unfoldable pub get_group_desc {ℓ} : {S : Type ℓ} → Fs S → (group : ℕ) → Option ℕ
get_group_desc fs group = if ltb group fs.group_count then some (32 * group) else none

-- `gd->bg_inode_table`, for the descriptor at byte `o` of the table.
abbrev pub bg_inode_table : Bytes → (o : ℕ) → ℕ
bg_inode_table b o = le32 b (o + 8)

-- The block and the offset in it at which `ext2_read_inode` finds an inode.
unfoldable pub inode_place {ℓ} : {S : Type ℓ} → Fs S → (ino table : ℕ) → ℕ × ℕ
inode_place fs ino table =
    let index = (ino - 1) % (sb fs).s_inodes_per_group in
    let byte = mul64 index fs.inode_size in
    (add64 table (byte / fs.block_size), byte % fs.block_size)

module _ {S : Type 0} where
  -- The calls below give `none` for `false`, and else the value that they store.
  infixl 5 ◌>>=◌
  abbrev pub ◌>>=◌ :
      {A B : Type 0}
      → Outcome S (Option A)
      → (A → Fs S → Outcome S (Option B))
      → Outcome S (Option B)
  none >>= k = none
  some (none, fs) >>= k = some (none, fs)
  some (some a, fs) >>= k = k a fs

module _ {S : Type 0} (disk : Disk S) where
  -- `ext2_read_ptr`, between its guard and its lock
  unfoldable pub read_locked : Fs S → (block : ℕ) → Outcome S (Option Bytes)
  read_locked fs block = elim (spinlock_aquire fs) [
    | none ↦ none
    | some fs' ↦ elim (read_blocks disk fs' block fs'.io_buf) [
      | none ↦ none
      | some (ok, b, fs'') ↦
          some (if ok then some b else none, spinlock_release (record fs'' { io_buf = b }))
    ]
  ]

  -- `ext2_read_ptr`
  unfoldable pub read_ptr : Fs S → (blk idx : ℕ) → Outcome S (Option ℕ)
  read_ptr fs blk idx =
      if ltb blk (sb fs).s_first_data_block || leb (sb fs).s_blocks_count blk
      then some (none, fs)
      else read_locked fs blk >>= λ b fs'. some (some (le32 b (4 * idx)), fs')

  -- `if (!p) return true;` and then the next pointer block.
  unfoldable pub next_ptr : (p idx : ℕ) → Fs S → Outcome S (Option ℕ)
  next_ptr p idx fs = if p == 0 then some (some 0, fs) else read_ptr fs p idx

  -- `ext2_bmap`. The result is `*disk_block`.
  unfoldable pub bmap : Fs S → Inode → (fb : ℕ) → Outcome S (Option ℕ)
  bmap fs inode fb =
      let ppb = fs.block_size / 4 in
      let one = fb - 12 in
      let two = one - ppb in
      let three = two - ppb * ppb in
      let rem = three % (ppb * ppb) in
      if ltb fb 12
      then some (some (inode.i_block fb), fs)
      else if ltb one ppb
      then next_ptr (inode.i_block 12) one fs
      else if ltb two (ppb * ppb)
      then next_ptr (inode.i_block 13) (two / ppb) fs >>= (λ p. next_ptr p (two % ppb))
      else if ltb three (ppb * ppb * ppb)
      then next_ptr (inode.i_block 14) (three / (ppb * ppb)) fs
        >>= (λ p. next_ptr p (rem / ppb))
        >>= (λ p. next_ptr p (rem % ppb))
      else some (none, fs)

  -- `ext2_read_inode` for an inode whose group has the descriptor at byte `o`.
  unfoldable pub read_from_table : Fs S → (ino o : ℕ) → Outcome S (Option Inode)
  read_from_table fs ino o =
      let (block, off) = inode_place fs ino (bg_inode_table fs.descs o) in
      let n = if ltb fs.inode_size sizeof_inode then fs.inode_size else sizeof_inode in
      if leb (sb fs).s_blocks_count block
      then some (none, fs)
      else read_locked fs (wrap32 block) >>= λ b fs'.
          some (some (inode_at (splice (λ i. 0) 0 b off n) 0), fs')

  -- `ext2_read_inode`
  unfoldable pub read_inode : Fs S → (ino : ℕ) → Outcome S (Option Inode)
  read_inode fs ino =
      if ino == 0 || ltb (sb fs).s_inodes_count ino
      then some (none, fs)
      else elim (get_group_desc fs ((ino - 1) / (sb fs).s_inodes_per_group)) [
        | none ↦ some (none, fs)
        | some o ↦ read_from_table fs ino o
      ]
