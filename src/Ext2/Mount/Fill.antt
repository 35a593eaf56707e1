-- ===== src/Ext2/Mount/Fill.antt =====
-- `ext2_fill_super` of src/fs/ext2/super.c step by step: how each ends, and the
-- state behind it.
use tomato_os.Base.{
  ℕ, zero, suc, ◌+◌, ◌^◌, ◌≤◌, ◌<◌, ◌≡◌, refl, sym, ap, ◌∙◌, inl, inr, Bool, true, false, Option,
  none, some, ◌==◌, Bool-cases, Option-cases,
}
use tomato_os.Base.Bytes.{Bytes}
use tomato_os.Base.Word.{add64}
use tomato_os.Disk.{Disk, bytes_to_blocks}
use tomato_os.Pmm.Alloc.{IsValid}
use tomato_os.Ext2.{Fs, sb}
use tomato_os.Ext2.Super.{validate_sb, compute_layout, read_superblock}
use tomato_os.Ext2.Super.Layout.{Laid, compute_layout-Laid}
use tomato_os.Ext2.Inode.{Inode}
use tomato_os.Ext2.Inode.Read.{Returns, Ready, bmap-Returns, read_inode-Returns}
use tomato_os.Ext2.Groups.{Memory, read_group_descs, free_group_descs}
use tomato_os.Pmm.Same.{SamePages, same_pages}
use tomato_os.Ext2.Groups.Pages.{read_group_descs-SamePages}
use tomato_os.Ext2.Mount.{root_ino, root_ok, map_blocks, check_root, fill_super}
use mathlib.Core.Path.{subst}
use mathlib.Core.Bool.{false≢true}

module _ {S : Type 0} (disk : Disk S) where
  map_blocks-Returns :
      (fs : Fs S) (root : Inode) (b n : ℕ)
      → Ready disk fs
      → (s : S) × (buf : Bytes) × (map_blocks disk fs root b n
          ≡ some (record fs { drive = s; io_buf = buf; locked = false }))
  unfolding map_blocks
  map_blocks-Returns fs root b zero (free, big) =
      (fs.drive, fs.io_buf, ap (λ l. some (record fs { locked = l })) free)
  map_blocks-Returns fs root b (suc n) ready =
      let (_, s, buf, e) = bmap-Returns disk fs root b ready in
      let (s', buf', e') =
        map_blocks-Returns (record fs { drive = s; io_buf = buf; locked = false }) root (b + 1) n
          (refl, ready.1) in
      (s', buf', rw (map_blocks, e, e'))

  check_root-Returns : (fs : Fs S) → Ready disk fs → Returns disk fs (check_root disk fs)
  unfolding check_root
  check_root-Returns fs ready =
      let (r, s, buf, e) = read_inode-Returns disk fs root_ino ready in
      elim (Option-cases r) [
        | inl missing ↦ (false, s, buf, rw (check_root, e, missing))
        | inr (root, there) ↦ elim (Bool-cases (root_ok root)) [
          | inl good ↦
              let (s', buf', e') =
                map_blocks-Returns (record fs { drive = s; io_buf = buf; locked = false }) root 0 3
                  (refl, ready.1) in
              (true, s', buf', rw (check_root, e, there, good, e'))
          | inr bad ↦ (false, s, buf, rw (check_root, e, there, bad))
        ]
      ]

  -- A call of `ext2_fill_super` that ends with success leaves a sound layout and the lock free, and
  -- either way the same pages are in use.
  unfoldable pub Filled : Memory → Option (Bool × Memory × Fs S) → Type 0
  Filled mem r =
      (ok : Bool) × (mem' : Memory) × (fs' : Fs S) × (r ≡ some (ok, mem', fs'))
      × SamePages mem.pmm mem'.pmm
      × (ok ≡ true → Laid disk.lba_size fs' × (fs'.locked ≡ false))

  read_superblock-locked : (fs : Fs S) → (read_superblock disk fs).1.locked ≡ fs.locked
  unfolding read_superblock
  read_superblock-locked fs =
      let r = bytes_to_blocks 1024 1024 disk.lba_size in
      elim (Bool-cases
        (disk.read fs.drive fs.io_buf (add64 fs.lba_start r.lba) r.size_in_blocks).0) [
          | inl ok ↦ rw ok
          | inr bad ↦ rw bad
        ]

  compute_layout-locked : (fs : Fs S) → (compute_layout disk fs).locked ≡ fs.locked
  unfolding compute_layout
  compute_layout-locked fs = refl

  -- What `ext2_fill_super` does once the layout is there.
  laid_out : Memory → Fs S → Option (Bool × Memory × Fs S)
  laid_out mem fs = elim (read_group_descs disk mem fs) [
    | none ↦ none
    | some (false, mem', fs2) ↦ some (false, mem', fs2)
    | some (true, mem', fs2) ↦ elim (check_root disk fs2) [
      | none ↦ none
      | some (true, fs3) ↦ some (true, mem', fs3)
      | some (false, fs3) ↦ let (mem'', fs4) = free_group_descs mem' fs3 in some (false, mem'', fs4)
    ]
  ]

  fill_super_valid :
      (mem : Memory) (fs : Fs S)
      → let (loaded, fs1) = read_superblock disk fs in
        loaded ≡ true
        → validate_sb disk.lba_size (sb fs1) ≡ true
        → fill_super disk mem fs ≡ laid_out mem (compute_layout disk fs1)
  unfolding fill_super laid_out
  fill_super_valid mem fs good valid = rw (fill_super, good, valid)

  free_group_descs-pmm : (mem : Memory) (fs : Fs S) → (free_group_descs mem fs).0.pmm ≡ mem.pmm
  unfolding free_group_descs
  free_group_descs-pmm mem fs = elim (Bool-cases (fs.groups == 0)) [
    | inl null ↦ rw null
    | inr there ↦ rw there
  ]

  laid_out-Filled :
      (mem : Memory) (fs : Fs S)
      → Laid disk.lba_size fs
      → fs.locked ≡ false
      → fs.group_count < 2 ^ 27
      → IsValid mem.pmm
      → 0 < mem.pmm.physical_base
      → Filled mem (laid_out mem fs)
  unfolding Filled laid_out
  laid_out-Filled mem fs l free few v above =
      let big : disk.lba_size ≤ fs.block_size =
        subst (λ b. disk.lba_size ≤ b) (sym l.block_size) l.valid.sector_le in
      let (ok, mem', s, p, d, e, same) = read_group_descs-SamePages disk mem fs big few v above in
      let fs2 = record fs { drive = s; groups = p; descs = d } in
      let (root, s', buf, e') = check_root-Returns fs2 (free, big) in
      let fs3 = record fs2 { drive = s'; io_buf = buf; locked = false } in
      let (mem'', fs4) = free_group_descs mem' fs3 in
      elim (Bool-cases ok) [
        | inr bad ↦ (false, mem', fs2, rw (laid_out, e, bad), same, λ x. absurd (false≢true x))
        | inl good ↦ elim (Bool-cases root) [
          | inr bad ↦ (
            false,
            mem'',
            fs4,
            rw (laid_out, e, good, e', bad),
            subst (SamePages mem.pmm) (sym (free_group_descs-pmm mem' fs3)) same,
            λ x. absurd (false≢true x),
          )
          | inl found ↦ (
            true,
            mem',
            fs3,
            rw (laid_out, e, good, e', found),
            same,
            λ x. (
              record {
                valid = l.valid;
                block_size = l.block_size;
                group_count = l.group_count;
                inode_size = l.inode_size;
              },
              refl,
            ),
          )
        ]
      ]

  pub fill_super-Filled :
      (mem : Memory) (fs : Fs S)
      → disk.lba_size < 2 ^ 32
      → fs.locked ≡ false
      → (compute_layout disk (read_superblock disk fs).1).group_count < 2 ^ 27
      → IsValid mem.pmm
      → 0 < mem.pmm.physical_base
      → Filled mem (fill_super disk mem fs)
  unfolding fill_super Filled
  fill_super-Filled mem fs word free few v above =
      let (loaded, fs1) = read_superblock disk fs in
      elim (Bool-cases loaded) [
        | inr bad ↦ (
          false,
          mem,
          fs1,
          rw (fill_super, bad),
          same_pages mem.pmm v,
          λ x. absurd (false≢true x),
        )
        | inl good ↦ elim (Bool-cases (validate_sb disk.lba_size (sb fs1))) [
          | inr bad ↦ (
            false,
            mem,
            fs1,
            rw (fill_super, good, bad),
            same_pages mem.pmm v,
            λ x. absurd (false≢true x),
          )
          | inl valid ↦ subst (Filled mem) (sym (fill_super_valid mem fs good valid)) (
              laid_out-Filled mem (compute_layout disk fs1)
                (compute_layout-Laid disk fs1 word valid)
                (compute_layout-locked fs1 ∙ read_superblock-locked fs ∙ free) few v above)
        ]
      ]
