-- ===== src/Ext2/Io.antt =====
-- The block reads and writes of src/fs/ext2/io.c, and the lock of src/processor/spinlock.c.
pub mod Written
use tomato_os.Base.{ℕ, ◌*◌, Bool, true, false, Option, none, some, leb, if◌then◌else◌}
use tomato_os.Base.Bytes.{Bytes, splice}
use tomato_os.Base.Word.{wrap64, add64}
use tomato_os.Disk.{Disk, bytes_to_blocks}
use tomato_os.Ext2.{Fs, sb}

module _ {S : Type 0} where
  -- On one processor, a lock that is taken is waited for for ever.
  abbrev pub spinlock_aquire : Fs S → Option (Fs S)
  spinlock_aquire fs = if fs.locked then none else some (record fs { locked = true })

  abbrev pub spinlock_release : Fs S → Fs S
  spinlock_release fs = record fs { locked = false }

module _ {S : Type 0} (disk : Disk S) where
  -- The address of a block on the drive.
  unfoldable pub block_lba : Fs S → (block : ℕ) → ℕ
  block_lba fs block =
      add64 fs.lba_start
        (bytes_to_blocks (wrap64 (block * fs.block_size)) fs.block_size disk.lba_size).lba

  -- The part of `ext2_read_blocks` for blocks smaller than a sector, which goes through `io_buf`.
  unfoldable pub read_part : Fs S → (block : ℕ) → (buf : Bytes) → Option (Bool × Bytes × Fs S)
  read_part fs block buf =
      let r = bytes_to_blocks (wrap64 (block * fs.block_size)) fs.block_size disk.lba_size in
      let (ok, b, s) = disk.read fs.drive fs.io_buf (block_lba fs block) 1 in
      let fs' = record fs { drive = s; io_buf = b } in
      elim (spinlock_aquire fs) [
        | none ↦ none
        | some _ ↦
            some
              (ok, if ok then splice buf 0 b r.offset fs.block_size else buf, spinlock_release fs')
      ]

  -- The result is whether the read succeeded, `buf` afterwards, and the state. Where `buf` is
  -- `io_buf` itself, the caller stores it there.
  unfoldable pub read_blocks : Fs S → (block : ℕ) → (buf : Bytes) → Option (Bool × Bytes × Fs S)
  read_blocks fs block buf =
      let r = bytes_to_blocks (wrap64 (block * fs.block_size)) fs.block_size disk.lba_size in
      let (ok, b, s) = disk.read fs.drive buf (block_lba fs block) r.size_in_blocks in
      if leb (sb fs).s_blocks_count block
      then some (false, buf, fs)
      else if leb disk.lba_size fs.block_size
      then some (ok, b, record fs { drive = s })
      else read_part fs block buf

  -- The part of `ext2_write_blocks` for blocks smaller than a sector.
  unfoldable pub write_part : Fs S → (block : ℕ) → (buf : Bytes) → Option (Bool × Fs S)
  write_part fs block buf =
      let r = bytes_to_blocks (wrap64 (block * fs.block_size)) fs.block_size disk.lba_size in
      let (ok, b, s) = disk.read fs.drive fs.io_buf (block_lba fs block) 1 in
      let b' = splice b r.offset buf 0 fs.block_size in
      let (ok', s') = disk.write s b' (block_lba fs block) 1 in
      elim (spinlock_aquire fs) [
        | none ↦ none
        | some _ ↦ some (
          if ok then ok' else false,
          spinlock_release (
              if ok
              then record fs { drive = s'; io_buf = b' }
              else record fs { drive = s; io_buf = b }),
        )
      ]

  unfoldable pub write_blocks : Fs S → (block : ℕ) → (buf : Bytes) → Option (Bool × Fs S)
  write_blocks fs block buf =
      let r = bytes_to_blocks (wrap64 (block * fs.block_size)) fs.block_size disk.lba_size in
      let (ok, s) = disk.write fs.drive buf (block_lba fs block) r.size_in_blocks in
      if fs.read_only
      then some (false, fs)
      else if leb (sb fs).s_blocks_count block
      then some (false, fs)
      else if leb disk.lba_size fs.block_size
      then some (ok, record fs { drive = s })
      else write_part fs block buf
