-- ===== src/Ext2/Io/Written.antt =====
-- `ext2_write_blocks` of src/fs/ext2/io.c, and `ext2_read_blocks` after it.
use tomato_os.Base.{ℕ, ◌*◌, ◌≤◌, ◌<◌, ◌≡◌, inl, Bool, true, false, some, arith, le→leb, lt→leb}
use tomato_os.Base.Bytes.{Bytes}
use tomato_os.Base.Word.{wrap64}
use tomato_os.Disk.{Disk, bytes_to_blocks}
use tomato_os.Disk.Blocks.{bytes_to_blocks_covers}
use tomato_os.Ext2.{Fs, sb}
use tomato_os.Ext2.Io.{block_lba, read_blocks, write_blocks}
use native.Mathlib.Nat.{zero-mod}

-- A drive that keeps what is written: sectors read right after they were written have their bytes.
pub record Keeps {S : Type 0} (disk : Disk S) : Type 0 where
  pub read_back :
      (s : S) (buf b : Bytes) (lba n i : ℕ)
      → (disk.write s buf lba n).0 ≡ true
      → (disk.read (disk.write s buf lba n).1 b lba n).0 ≡ true
      → i < n * disk.lba_size
      → (disk.read (disk.write s buf lba n).1 b lba n).1 i ≡ buf i

module _ {S : Type 0} (disk : Disk S) (fs : Fs S) (block : ℕ) (buf : Bytes) where
  abbrev sectors : ℕ
  sectors =
      (bytes_to_blocks (wrap64 (block * fs.block_size)) fs.block_size disk.lba_size).size_in_blocks

  abbrev written : Bool × S
  written = disk.write fs.drive buf (block_lba disk fs block) sectors

  -- The sectors hold a whole block.
  whole_block : 0 < disk.lba_size → fs.block_size ≤ sectors * disk.lba_size
  unfolding bytes_to_blocks
  whole_block pos =
      let fits =
        (bytes_to_blocks_covers 0 fs.block_size disk.lba_size pos
          (inl (zero-mod disk.lba_size))).3 in
      omega (arith, fits)

  -- On a partition that can be written, with blocks no smaller than sectors, and a drive that keeps
  -- what is written, both calls return for every block of the file system; and when both succeed,
  -- the block that `ext2_read_blocks` reads has the bytes that `ext2_write_blocks` wrote.
  pub read_blocks-write_blocks :
      (b : Bytes)
      → Keeps disk
      → fs.read_only ≡ false
      → block < (sb fs).s_blocks_count
      → 0 < disk.lba_size
      → disk.lba_size ≤ fs.block_size
      → (ok ok' : Bool) × (b' : Bytes) × (fs' fs'' : Fs S) × (write_blocks disk fs block buf
          ≡ some (ok, fs'))
        × (read_blocks disk fs' block b ≡ some (ok', b', fs''))
        × (ok ≡ true → ok' ≡ true → (i : ℕ) → i < fs.block_size → b' i ≡ buf i)
  unfolding write_blocks read_blocks block_lba bytes_to_blocks
  read_blocks-write_blocks b keeps writable inside pos big =
      let lba = block_lba disk fs block in
      let fs' = record fs { drive = written.1 } in
      let (ok', b', s') = disk.read written.1 b lba sectors in
      (
        written.0,
        ok',
        b',
        fs',
        record fs { drive = s' },
        rw (writable, lt→leb _ _ inside, le→leb _ _ big),
        rw (lt→leb _ _ inside, le→leb _ _ big),
        λ good good' i lt.
            keeps.read_back fs.drive buf b lba sectors i good good'
              (omega (arith, whole_block pos)),
      )
