-- ===== src/Ext2/Groups/Pages.antt =====
-- The loading of the group descriptors of src/fs/ext2/super.c, and the page that it takes.
use tomato_os.Base.{
  ℕ, zero, suc, ◌+◌, ◌/◌, ◌≤◌, ◌<◌, ◌≡◌, refl, sym, inl, inr, Bool, true, false, ◌&&◌, some, arith,
  ℕ_discrete, ◌==◌, ne→==, Bool-cases, ltb, ◌^◌, le→ltb,
}
use tomato_os.Base.Bytes.{Bytes}
use tomato_os.Base.Word.{add32, sub32, mul32}
use tomato_os.Disk.{Disk}
use tomato_os.Pmm.{pmm_alloc_page, pmm_free}
use tomato_os.Pmm.Same.{SamePages, same_pages, alloc_failed, pmm_free-SamePages}
use tomato_os.Pmm.Alloc.{pmm_alloc_page-IsValid, IsValid}
use tomato_os.Kmem.{kmalloc, kfree}
use tomato_os.Ext2.{Fs, sb}
use tomato_os.Ext2.Inode.Read.{read_blocks_big}
use tomato_os.Ext2.Groups.{
  Memory, group_desc_size, table_bytes, add_block, load_table, descs_in_groups, fill_table,
  read_group_descs,
}
use mathlib.Core.Path.{subst}

pub zero_test : (n : ℕ) → n ≡ 0 → (n == 0) ≡ true
zero_test n e = ground arith

module _ {S : Type 0} (disk : Disk S) where
  load_table-Returns :
      (fs : Fs S) (n i : ℕ) (buf : Bytes)
      → disk.lba_size ≤ fs.block_size
      → (ok : Bool) × (s : S) × (d : Bytes) × (load_table disk fs n i buf
          ≡ some (ok, record fs { drive = s; descs = d }))
  unfolding load_table
  load_table-Returns fs zero i buf big = (true, fs.drive, fs.descs, refl)
  load_table-Returns fs (suc n) i buf big =
      let block = add32 (add32 (sb fs).s_first_data_block 1) i in
      let (ok, b, s, e) = read_blocks_big disk fs block buf big in
      elim (Bool-cases ok) [
        | inl good ↦
            let d = add_block (record fs { drive = s }) i b in
            let (ok', s', d', e') =
              load_table-Returns (record fs { drive = s; descs = d }) n (i + 1) b big in
            (ok', s', d', rw (load_table, e, good, e'))
        | inr bad ↦ (false, s, fs.descs, rw (load_table, e, bad))
      ]

  fill_table-Returns :
      (mem : Memory) (fs : Fs S) (phys : ℕ)
      → disk.lba_size ≤ fs.block_size
      → fs.group_count < 2 ^ 27
      → (ok : Bool) × (mem' : Memory) × (s : S) × (p : ℕ) × (d : Bytes) × (fill_table disk mem fs
            phys
          ≡ some (ok, mem', record fs { drive = s; groups = p; descs = d }))
        × (mem'.pmm ≡ pmm_free mem.pmm phys 1)
  unfolding fill_table
  fill_table-Returns mem fs phys big few =
      let bs = fs.block_size in
      let itable_blocks =
        sub32 (add32 (mul32 (sb fs).s_inodes_per_group fs.inode_size) bs) 1 / bs in
      let blocks = sub32 (add32 (table_bytes fs) bs) 1 / bs in
      let (ok, s, d, e) = load_table-Returns fs blocks 0 (λ i. mem.physical (phys + i)) big in
      let loaded = record fs { drive = s; descs = d } in
      let after = record mem { pmm = pmm_free mem.pmm phys 1 } in
      let held = table_bytes fs / group_desc_size in
      let whole : ltb held fs.group_count ≡ false =
        le→ltb held fs.group_count (omega (arith, few)) in
      elim (Bool-cases (ok && descs_in_groups loaded itable_blocks held)) [
        | inl good ↦ (true, after, s, fs.groups, d, rw (fill_table, e, good, whole), refl)
        | inr bad ↦ (
          false,
          record after { kmem = kfree mem.kmem fs.groups },
          s,
          0,
          d,
          rw (fill_table, e, bad),
          refl,
        )
      ]

  -- Where blocks are no smaller than sectors and there are fewer than 2^27 groups, the loading of the descriptors returns, with nothing of
  -- the partition changed but the drive and the table; and on every branch, the same pages are in
  -- use as before, provided that the allocator's region lies below 2^64 and not at 0.
  pub read_group_descs-SamePages :
      (mem : Memory) (fs : Fs S)
      → disk.lba_size ≤ fs.block_size
      → fs.group_count < 2 ^ 27
      → IsValid mem.pmm
      → 0 < mem.pmm.physical_base
      → (ok : Bool) × (mem' : Memory) × (s : S) × (p : ℕ) × (d : Bytes) × (read_group_descs disk mem
            fs
          ≡ some (ok, mem', record fs { drive = s; groups = p; descs = d }))
        × SamePages mem.pmm mem'.pmm
  unfolding read_group_descs fill_table
  read_group_descs-SamePages mem fs big few v above =
      let (p, kmem') = kmalloc mem.kmem (table_bytes fs) in
      let (phys, pmm') = pmm_alloc_page mem.pmm 4096 in
      let given = record fs { groups = p; descs = λ i. kmem'.byte (p + i) } in
      elim (ℕ_discrete p 0) [
        | yes none_left ↦ (
          false,
          record mem { kmem = kmem' },
          fs.drive,
          0,
          fs.descs,
          rw (zero_test p none_left),
          same_pages mem.pmm v,
        )
        | no there ↦ elim (ℕ_discrete phys 0) [
          | yes full ↦ (
            false,
            record mem { kmem = kfree kmem' p; pmm = pmm' },
            fs.drive,
            0,
            fs.descs,
            rw (ne→== p 0 there, zero_test phys full),
            subst (SamePages mem.pmm) (sym (alloc_failed mem.pmm 4096 v above full))
                (same_pages mem.pmm v),
          )
          | no got ↦
              let (ok, mem', s, q, d, e, freed) =
                fill_table-Returns (record mem { kmem = kmem'; pmm = pmm' }) given phys big few in
              (
                ok,
                mem',
                s,
                q,
                d,
                rw (ne→== p 0 there, ne→== phys 0 got) e,
                subst (SamePages mem.pmm) (sym freed) (
                    pmm_free-SamePages mem.pmm pmm' 4096 v got
                      (same_pages pmm' (pmm_alloc_page-IsValid mem.pmm 4096 v))),
              )
        ]
      ]
