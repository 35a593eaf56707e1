-- ===== src/Ext2/Super/Layout.antt =====
-- The layout that `ext2_compute_layout` of src/fs/ext2/super.c derives from a valid superblock.
use tomato_os.Base.{ℕ, zero, suc, ◌+◌, ◌-◌, ◌*◌, ◌/◌, ◌^◌, ◌≤◌, ◌<◌, ◌≡◌, refl, true, arith}
use tomato_os.Base.Word.{wrap32, sub32}
use tomato_os.Disk.{Disk}
use tomato_os.Ext2.{Fs, sb, superblock_at}
use tomato_os.Ext2.Super.{block_size_of, inode_size_of, groups_of, validate_sb, compute_layout}
use tomato_os.Ext2.Super.Valid.{Valid, validate_sb-Valid}
use native.Mathlib.Nat.{div-le_of_le-mul, mod-eq_of_lt}

-- The fields of the partition fit its superblock, which is valid.
pub record Laid {ℓ} {S : Type ℓ} (lba_size : ℕ) (fs : Fs S) : Type ℓ where
  pub valid : Valid lba_size (sb fs)
  pub block_size : fs.block_size ≡ block_size_of (sb fs)
  pub group_count : fs.group_count ≡ groups_of (sb fs)
  pub inode_size : fs.inode_size ≡ inode_size_of (sb fs)

le-mul : (b d : ℕ) → 0 < d → b ≤ b * d
le-mul zero d pos = omega arith
le-mul (suc b) d pos = omega (arith, le-mul b d pos)

product_le : (d b : ℕ) → 0 < d → 0 < b → d + b - 1 ≤ b * d
product_le d zero pos pos' = elim pos' [ ]
product_le d (suc b) pos pos' = omega (arith, le-mul b d pos)

-- There are no more groups than blocks.
groups_le : (d b : ℕ) → 0 < d → 0 < b → (d + b - 1) / b ≤ d
groups_le d b pos pos' = div-le_of_le-mul b (product_le d b pos pos')

groups_exact :
    (c f b : ℕ)
    → c < 2 ^ 32
    → f < c
    → 0 < b
    → wrap32 ((sub32 c f + b - 1) / b) ≡ (c - f + b - 1) / b
groups_exact c f b word lt pos =
    let diff : sub32 c f ≡ c - f = omega arith in
    let few = groups_le (c - f) b (omega arith) pos in
    let small : (c - f + b - 1) / b < 2 ^ 32 = omega (arith, few) in rw (diff, mod-eq_of_lt small)

module _ {S : Type 0} (disk : Disk S) where
  -- On a valid superblock and a drive whose sector size is a word, `ext2_compute_layout` gives the
  -- block size, the inode size and the number of groups that the validation worked with; none of
  -- them wraps.
  pub compute_layout-Laid :
      (fs : Fs S)
      → disk.lba_size < 2 ^ 32
      → validate_sb disk.lba_size (sb fs) ≡ true
      → Laid disk.lba_size (compute_layout disk fs)
  unfolding compute_layout superblock_at
  compute_layout-Laid fs small ok =
      let v = validate_sb-Valid disk.lba_size (sb fs) small (omega arith) ok in
      record {
        valid = v;
        block_size = refl;
        group_count = groups_exact _ _ _ (omega arith) v.data_pos v.group_blocks_pos;
        inode_size = ground (arith, v.revision_le);
      }
