-- ===== src/Ext2/Mount/Pages.antt =====
-- Mounting in src/fs/ext2/ext2.c: how it ends, the page that it takes, and the partition mounted.
use tomato_os.Base.{
  ℕ, ◌+◌, ◌^◌, ◌<◌, ◌≡◌, refl, sym, ◌≢◌, inl, inr, Bool, true, false, Option, some, arith,
  ℕ_discrete, leb, ne→==, Bool-cases,
}
use tomato_os.Disk.{Disk}
use tomato_os.Pmm.{pmm_alloc_page, pmm_free}
use tomato_os.Pmm.Alloc.{pmm_alloc_page-IsValid, IsValid}
use tomato_os.Ext2.{Fs}
use tomato_os.Ext2.Super.Layout.{Laid}
use tomato_os.Ext2.Groups.{Memory}
use tomato_os.Ext2.Super.{read_superblock, compute_layout}
use tomato_os.Pmm.Reach.{pmm_alloc_page-SameRegion}
use tomato_os.Pmm.Same.{SamePages, same_pages, alloc_failed, pmm_free-SamePages}
use tomato_os.Ext2.Groups.Pages.{zero_test}
use tomato_os.Ext2.Mount.{Mounts, max_partitions, fresh, add_partition, mount_at, init}
use mathlib.Core.Path.{subst}
use mathlib.Core.Bool.{false≢true, true≢false}
use tomato_os.Ext2.Mount.Fill.{Filled, fill_super-Filled}

module _ {S : Type 0} (disk : Disk S) where
  -- The number of groups that `ext2_compute_layout` finds in what is read as the superblock.
  abbrev pub groups_found : Memory → (drive : S) (lba_start : ℕ) → ℕ
  groups_found mem drive lba_start =
      let (phys, pmm') = pmm_alloc_page mem.pmm 4096 in
      let fs = record (fresh drive lba_start) { io_buf = λ i. mem.physical (phys + i) } in
      (compute_layout disk (read_superblock disk fs).1).group_count

  -- What `ext2_init` leaves behind.
  pub Mounted : Mounts S → Memory → Option (Bool × Mounts S × Memory × Fs S) → Type 0
  Mounted mounts mem r =
      (ok : Bool) × (mounts' : Mounts S) × (mem' : Memory) × (fs' : Fs S) × (r
        ≡ some (ok, mounts', mem', fs'))
      × (ok ≡ false → SamePages mem.pmm mem'.pmm × (mounts' ≡ mounts))
      × (ok ≡ true
          → Laid disk.lba_size fs' × (fs'.locked ≡ false) × (mounts' ≡ add_partition mounts fs'))

  init_page :
      (mounts : Mounts S) (mem : Memory) (drive : S) (lba_start : ℕ)
      → leb max_partitions mounts.partition_count ≡ false
      → let (phys, pmm') = pmm_alloc_page mem.pmm 4096 in
        phys ≢ 0
        → init disk mounts mem drive lba_start
          ≡ mount_at disk mounts (record mem { pmm = pmm' }) (fresh drive lba_start) phys
  unfolding init
  init_page mounts mem drive lba_start few got = rw (few, ne→== _ _ got)

  mount_at-Mounted :
      (mounts : Mounts S) (mem : Memory) (drive : S) (lba_start : ℕ)
      → disk.lba_size < 2 ^ 32
      → groups_found mem drive lba_start < 2 ^ 27
      → IsValid mem.pmm
      → 0 < mem.pmm.physical_base
      → let (phys, pmm') = pmm_alloc_page mem.pmm 4096 in
        phys ≢ 0
        → Mounted mounts mem
            (mount_at disk mounts (record mem { pmm = pmm' }) (fresh drive lba_start) phys)
  unfolding mount_at Mounted Filled fresh
  mount_at-Mounted mounts mem drive lba_start word few v above got =
      let (phys, pmm') = pmm_alloc_page mem.pmm 4096 in
      let mem1 = record mem { pmm = pmm' } in
      let fs = record (fresh drive lba_start) { io_buf = λ i. mem1.physical (phys + i) } in
      let (ok, mem2, fs', e, same, sound) =
        fill_super-Filled disk mem1 fs word refl few (pmm_alloc_page-IsValid mem.pmm 4096 v)
          (ground (arith, pmm_alloc_page-SameRegion mem.pmm 4096)) in
      elim (Bool-cases ok) [
        | inl good ↦ (
          true,
          add_partition mounts fs',
          mem2,
          fs',
          rw (mount_at, e, good),
          (λ x. absurd (true≢false x)),
          λ x. ((sound good).0, (sound good).1, refl),
        )
        | inr bad ↦ (
          false,
          mounts,
          record mem2 { pmm = pmm_free mem2.pmm phys 1 },
          fs',
          rw (mount_at, e, bad),
          (λ x. (pmm_free-SamePages mem.pmm mem2.pmm 4096 v got same, refl)),
          λ x. absurd (false≢true x),
        )
      ]

  -- Provided that the sector size is a word and not 0, that what is read as the superblock has fewer
  -- than 2^27 groups, and that the page allocator's region lies below 2^64 and not at 0, `ext2_init`
  -- returns; when it fails, the pages in use are those from before and nothing
  -- is mounted; when it succeeds, the partition mounted has a valid superblock, the layout that
  -- belongs to it, and a lock that is free.
  pub init-Mounted :
      (mounts : Mounts S) (mem : Memory) (drive : S) (lba_start : ℕ)
      → 0 < disk.lba_size
      → disk.lba_size < 2 ^ 32
      → groups_found mem drive lba_start < 2 ^ 27
      → IsValid mem.pmm
      → 0 < mem.pmm.physical_base
      → Mounted mounts mem (init disk mounts mem drive lba_start)
  unfolding init fresh Mounted
  init-Mounted mounts mem drive lba_start pos word groups v above =
      let fs = fresh drive lba_start in
      let (phys, pmm') = pmm_alloc_page mem.pmm 4096 in
      let mem' = record mem { pmm = pmm' } in
      elim (Bool-cases (leb max_partitions mounts.partition_count)) [
        | inl many ↦ (
          false,
          mounts,
          mem,
          fs,
          rw many,
          (λ x. (same_pages mem.pmm v, refl)),
          λ x. absurd (false≢true x),
        )
        | inr few ↦ elim (ℕ_discrete phys 0) [
          | yes full ↦ (
            false,
            mounts,
            mem',
            fs,
            rw (few, zero_test phys full),
            (λ x. (
              subst (SamePages mem.pmm) (sym (alloc_failed mem.pmm 4096 v above full))
                  (same_pages mem.pmm v),
              refl,
            )),
            λ x. absurd (false≢true x),
          )
          | no got ↦
              subst (Mounted mounts mem) (sym (init_page mounts mem drive lba_start few got))
                (mount_at-Mounted mounts mem drive lba_start word groups v above got)
        ]
      ]
