-- ===== src/Ext2/Groups.antt =====
-- The group descriptors of src/fs/ext2/super.c. The table lies in the kernel heap, the blocks go
-- through a page of the page allocator.
pub mod Pages
use tomato_os.Base.{
  ℕ, zero, suc, ◌+◌, ◌-◌, ◌*◌, ◌/◌, Bool, true, false, ◌&&◌, ◌||◌, not, Option, none, some, ltb,
  leb, ◌==◌, if◌then◌else◌,
}
use tomato_os.Base.Bytes.{Bytes, le32, splice}
use tomato_os.Base.Word.{wrap32, add32, sub32, mul32}
use tomato_os.Disk.{Disk}
use tomato_os.Pmm.{Pmm, pmm_alloc_page, pmm_free}
use tomato_os.Kmem.{Kmem, kmalloc, kfree}
use tomato_os.Ext2.{Fs, sb}
use tomato_os.Ext2.Io.{read_blocks}

-- The memory that a mount draws on: both allocators, and the bytes of physical memory.
pub record Memory : Type 0 where
  pub pmm : Pmm
  pub kmem : Kmem
  pub physical : Bytes

-- `sizeof(struct ext2_group_desc)`
abbrev pub group_desc_size : ℕ
group_desc_size = 32

abbrev pub table_bytes {ℓ} : {S : Type ℓ} → Fs S → ℕ
table_bytes fs = wrap32 (fs.group_count * group_desc_size)

abbrev pub drop_groups {ℓ} : {S : Type ℓ} → Fs S → Fs S
drop_groups fs = record fs { groups = 0 }

-- The bytes `descs` after block `i` of the table.
unfoldable pub add_block {ℓ} : {S : Type ℓ} → Fs S → (i : ℕ) → (buf : Bytes) → Bytes
add_block fs i buf =
    let at = mul32 i fs.block_size in
    let left = sub32 (table_bytes fs) at in
    splice fs.descs at buf 0 (if ltb fs.block_size left then fs.block_size else left)

module _ {S : Type 0} (disk : Disk S) where
  -- The loop of `ext2_read_group_descs` over the blocks of the table, with `n` blocks to go.
  unfoldable pub load_table : Fs S → (n i : ℕ) → (buf : Bytes) → Option (Bool × Fs S)
  load_table fs zero i buf = some (true, fs)
  load_table fs (suc n) i buf =
      elim (read_blocks disk fs (add32 (add32 (sb fs).s_first_data_block 1) i) buf) [
        | none ↦ none
        | some (false, b, fs') ↦ some (false, fs')
        | some (true, b, fs') ↦ load_table (record fs' { descs = add_block fs' i b }) n (i + 1) b
      ]

-- Whether the descriptor of group `g` names blocks of its group.
unfoldable pub desc_in_group {ℓ} : {S : Type ℓ} → Fs S → (itable_blocks g : ℕ) → Bool
desc_in_group fs itable_blocks g =
    let s = sb fs in
    let first_block = add32 s.s_first_data_block (mul32 g s.s_blocks_per_group) in
    let past = sub32 (add32 first_block s.s_blocks_per_group) 1 in
    let last_block = if leb s.s_blocks_count past then sub32 s.s_blocks_count 1 else past in
    let block_bitmap = le32 fs.descs (group_desc_size * g) in
    let inode_bitmap = le32 fs.descs (group_desc_size * g + 4) in
    let inode_table = le32 fs.descs (group_desc_size * g + 8) in
    not (
      ltb block_bitmap first_block
      || ltb last_block block_bitmap
      || ltb inode_bitmap first_block
      || ltb last_block inode_bitmap
      || ltb inode_table first_block
      || ltb last_block (sub32 (add32 inode_table itable_blocks) 1))

-- The loop over the groups.
unfoldable pub descs_in_groups {ℓ} : {S : Type ℓ} → Fs S → (itable_blocks n : ℕ) → Bool
descs_in_groups fs itable_blocks zero = true
descs_in_groups fs itable_blocks (suc n) =
    descs_in_groups fs itable_blocks n && desc_in_group fs itable_blocks n

module _ {S : Type 0} (disk : Disk S) where
  -- `ext2_read_group_descs` once it holds the table at `p` and the page at `phys`. The size of the
  -- table wraps from 2^27 groups on; the loop over the groups then reads behind it, unless a descriptor
  -- in it is out of range.
  unfoldable pub fill_table : Memory → Fs S → (phys : ℕ) → Option (Bool × Memory × Fs S)
  fill_table mem fs phys =
      let bs = fs.block_size in
      let itable_blocks =
        sub32 (add32 (mul32 (sb fs).s_inodes_per_group fs.inode_size) bs) 1 / bs in
      let after = record mem { pmm = pmm_free mem.pmm phys 1 } in
      let freed = record after { kmem = kfree mem.kmem fs.groups } in
      let blocks = sub32 (add32 (table_bytes fs) bs) 1 / bs in
      elim (load_table disk fs blocks 0 (λ i. mem.physical (phys + i))) [
        | none ↦ none
        | some (ok, fs') ↦
            let held = table_bytes fs / group_desc_size in
            let fit = ok && descs_in_groups fs' itable_blocks held in
            if fit && ltb held fs.group_count
            then none
            else some (if fit then (true, after, fs') else (false, freed, drop_groups fs'))
      ]

  -- `ext2_read_group_descs`
  unfoldable pub read_group_descs : Memory → Fs S → Option (Bool × Memory × Fs S)
  read_group_descs mem fs =
      let (p, kmem') = kmalloc mem.kmem (table_bytes fs) in
      let (phys, pmm') = pmm_alloc_page mem.pmm 4096 in
      let mem' = record mem { kmem = kmem' } in
      if p == 0
      then some (false, mem', drop_groups fs)
      else if phys == 0
      then some (false, record mem' { kmem = kfree kmem' p; pmm = pmm' }, drop_groups fs)
      else fill_table (record mem' { pmm = pmm' })
          (record fs { groups = p; descs = λ i. kmem'.byte (p + i) }) phys

-- `ext2_free_group_descs`
unfoldable pub free_group_descs {ℓ} : {S : Type ℓ} → Memory → Fs S → Memory × Fs S
free_group_descs mem fs =
    if fs.groups == 0
    then (mem, fs)
    else (record mem { kmem = kfree mem.kmem fs.groups }, drop_groups fs)
