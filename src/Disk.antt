-- ===== src/Disk.antt =====
-- The block device of src/include/disk.h. A drive is a state `S` with the two operations that
-- `struct disk` points to.
pub mod Blocks
use tomato_os.Base.{ℕ, ◌+◌, ◌-◌, ◌*◌, ◌/◌, ◌%◌, ◌==◌, Bool, if◌then◌else◌}
use tomato_os.Base.Bytes.{Bytes}

-- `struct disk`, without `arg`: a call of `read` or `write` gives whether it succeeded, and the new
-- state of the drive; `read` also gives the buffer afterwards.
pub record Disk {ℓ} (S : Type ℓ) : Type ℓ where
  pub lba_size : ℕ
  pub disk_size : ℕ
  pub read : S → (buffer : Bytes) → (lba len_in_blocks : ℕ) → Bool × Bytes × S
  pub write : S → (buffer : Bytes) → (lba len_in_blocks : ℕ) → Bool × S

-- `ALIGNDOWN` and `ALIGNUP`
abbrev pub align_down : ℕ → ℕ → ℕ
align_down x align = x - x % align

abbrev pub align_up : ℕ → ℕ → ℕ
align_up x align = if x % align == 0 then x else x + (align - x % align)

-- `struct bytes_to_block_res`
pub record BytesToBlockRes : Type 0 where
  pub lba : ℕ
  pub size_in_blocks : ℕ
  pub offset : ℕ

-- The arguments are small enough that `ALIGNUP` does not wrap: byte offsets below 2^63. A drive with
-- sectors of 0 bytes is not one that the model is about: the division traps.
unfoldable pub bytes_to_blocks : (start size lba_size : ℕ) → BytesToBlockRes
bytes_to_blocks start size lba_size = record {
  lba = align_down start lba_size / lba_size;
  size_in_blocks =
      if align_up size lba_size / lba_size == 0 then 1 else align_up size lba_size / lba_size;
  offset = start - align_down start lba_size;
}
