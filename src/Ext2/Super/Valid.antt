-- ===== src/Ext2/Super/Valid.antt =====
-- What a superblock that passes `ext2_validate_sb` satisfies.
use tomato_os.Base.{
  ℕ, zero, suc, ◌+◌, ◌-◌, ◌*◌, ◌/◌, ◌%◌, ◌^◌, ◌≤◌, ◌<◌, bit_and, ◌≡◌, refl, sym, ◌⊎◌, inl, inr,
  Bool, true, ◌&&◌, ◌||◌, not, arith, dec_le, leb, ◌==◌, all_below, all_below_sound,
}
use tomato_os.Base.Word.{sub32}
use tomato_os.Ext2.{Superblock, dynamic_rev}
use tomato_os.Ext2.Super.{
  block_size_of, inode_size_of, groups_of, inode_geometry, counts_ok, tables_fit, validate_sb,
}
use mathlib.Core.Path.{subst}

-- The geometry is sound: every quotient that is taken has a divisor that is not 0.
pub record Valid (lba_size : ℕ) (s : Superblock) : Type 0 where
  pub log_small : s.s_log_block_size ≤ 2
  pub sector_pos : 0 < lba_size
  pub whole_sectors : block_size_of s % lba_size ≡ 0
  pub sector_le : lba_size ≤ block_size_of s
  pub revision_le : s.revision ≤ 1
  pub inode_pos : 128 ≤ inode_size_of s
  pub inode_le : inode_size_of s ≤ block_size_of s
  pub whole_inodes : block_size_of s % inode_size_of s ≡ 0
  pub data_pos : s.s_first_data_block < s.s_blocks_count
  pub group_blocks_pos : 0 < s.s_blocks_per_group
  pub group_inodes_pos : 0 < s.s_inodes_per_group
  pub group_inodes_le : s.s_inodes_per_group ≤ 8 * block_size_of s
  pub inodes_le : s.s_inodes_count ≤ groups_of s * s.s_inodes_per_group
  pub root_exists : 11 ≤ s.s_inodes_count
  pub table_fits :
      s.s_first_data_block + 1 + (groups_of s * 32 + block_size_of s - 1) / block_size_of s
      ≤ s.s_blocks_count

pub block_size_cases :
    (k : ℕ) → k ≤ 2 → (1024 * 2 ^ k ≡ 1024) ⊎ ((1024 * 2 ^ k ≡ 2048) ⊎ (1024 * 2 ^ k ≡ 4096))
block_size_cases zero le = inl refl
block_size_cases (suc zero) le = inr (inl refl)
block_size_cases (suc (suc zero)) le = inr (inr refl)
block_size_cases (suc (suc (suc k))) le = omega arith

-- A power of two of at least 128 divides each block size that it does not exceed.
divides : (bs x : ℕ) → Bool
divides bs x = not (leb 128 x && leb x bs && bit_and x (x - 1) == 0) || bs % x == 0

divides_1024 : all_below 1025 (divides 1024) ≡ true
unfolding all_below divides
divides_1024 = refl

divides_2048 : all_below 2049 (divides 2048) ≡ true
unfolding all_below divides
divides_2048 = refl

divides_4096 : all_below 4097 (divides 4096) ≡ true
unfolding all_below divides
divides_4096 = refl

divides_block :
    (bs x : ℕ) → (bs ≡ 1024) ⊎ ((bs ≡ 2048) ⊎ (bs ≡ 4096)) → x ≤ bs → divides bs x ≡ true
divides_block bs x (inl e) le =
    subst (λ b. divides b x ≡ true) (sym e)
      (all_below_sound 1025 (divides 1024) x divides_1024 (omega arith))
divides_block bs x (inr (inl e)) le =
    subst (λ b. divides b x ≡ true) (sym e)
      (all_below_sound 2049 (divides 2048) x divides_2048 (omega arith))
divides_block bs x (inr (inr e)) le =
    subst (λ b. divides b x ≡ true) (sym e)
      (all_below_sound 4097 (divides 4096) x divides_4096 (omega arith))

whole_inodes_of :
    (bs x : ℕ)
    → (bs ≡ 1024) ⊎ ((bs ≡ 2048) ⊎ (bs ≡ 4096))
    → 128 ≤ x
    → x ≤ bs
    → bit_and x (x - 1) ≡ 0
    → bs % x ≡ 0
unfolding divides
whole_inodes_of bs x sizes low high power = ground (arith, divides_block bs x sizes high)

-- For a sector size and an inode size that are words, `ext2_validate_sb` accepts only superblocks whose geometry is sound.
pub validate_sb-Valid :
    (lba_size : ℕ) (s : Superblock)
    → lba_size < 2 ^ 32
    → s.inode_size < 2 ^ 16
    → validate_sb lba_size s ≡ true
    → Valid lba_size s
unfolding validate_sb inode_geometry counts_ok tables_fit
validate_sb-Valid lba_size s small word ok =
    let log : s.s_log_block_size ≤ 2 = ground arith in
    let bs = block_size_cases s.s_log_block_size log in
    let inode_le : inode_size_of s ≤ block_size_of s = ground (arith, bs) in
    record {
      log_small = log;
      sector_pos = ground arith;
      whole_sectors = ground arith;
      sector_le = ground arith;
      revision_le = ground arith;
      inode_pos = ground arith;
      inode_le = inode_le;
      whole_inodes = elim (dec_le dynamic_rev s.revision) [
        | yes new ↦
            let size : inode_size_of s ≡ s.inode_size = ground arith in
            let one : sub32 s.inode_size 1 ≡ s.inode_size - 1 = ground arith in
            let raw : bit_and s.inode_size (sub32 s.inode_size 1) ≡ 0 = ground arith in
            let power : bit_and s.inode_size (s.inode_size - 1) ≡ 0 =
              subst (λ p. bit_and s.inode_size p ≡ 0) one raw in
            subst (λ x. block_size_of s % x ≡ 0) (sym size)
              (whole_inodes_of (block_size_of s) s.inode_size bs (ground arith) (ground arith)
                power)
        | no old ↦
            let size : inode_size_of s ≡ 128 = ground arith in
            subst (λ x. block_size_of s % x ≡ 0) (sym size) (omega (arith, bs))
      ];
      data_pos = ground arith;
      group_blocks_pos = ground arith;
      group_inodes_pos = ground arith;
      group_inodes_le = ground arith;
      inodes_le = ground arith;
      root_exists = ground arith;
      table_fits = ground arith;
    }
