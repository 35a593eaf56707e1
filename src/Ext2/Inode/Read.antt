-- ===== src/Ext2/Inode/Read.antt =====
-- Where `ext2_read_inode` of src/fs/ext2/inode.c finds an inode, and how the lookups of
-- that file use the lock.
use tomato_os.Base.{
  ℕ, ◌+◌, ◌-◌, ◌*◌, ◌/◌, ◌%◌, ◌^◌, ◌≤◌, ◌<◌, ◌≡◌, refl, sym, ap, ◌∙◌, inl, inr, Bool, true, false,
  ◌||◌, Option, none, some, List, [], ◌∷◌, arith, ltb, leb, ◌==◌, if◌then◌else◌, lt→ltb, le→leb,
  Bool-cases, Option-cases,
}
use tomato_os.Base.Bytes.{Bytes}
use tomato_os.Base.Word.{mul64, wrap32, wrap64}
use tomato_os.Disk.{Disk, bytes_to_blocks}
use tomato_os.Ext2.{Fs, Outcome, sb}
use tomato_os.Ext2.Io.{block_lba, read_blocks}
use tomato_os.Ext2.Super.{block_size_of, inode_size_of}
use tomato_os.Ext2.Super.Valid.{block_size_cases}
use tomato_os.Ext2.Super.Layout.{Laid}
use tomato_os.Ext2.Inode.{
  Inode, bg_inode_table, get_group_desc, inode_place, read_locked, read_ptr, next_ptr, bmap,
  read_from_table, read_inode, ◌>>=◌,
}
use tomato_os.Ext2.Inode.Bmap.{inside, beyond, follow, bmap-Mapped}
use native.Mathlib.Nat.{
  div-lt_iff_lt-mul, div-add-mod, mod-lt, mod-mod_of_dvd, dvd_of_mod-eq-zero, mul-mod_left,
  mul-le-mul_left, mul-le-mul, mul_comm,
}
use mathlib.Core.Path.{subst}

-- An inode slot that starts in a block ends in it.
slot_inside : (x n b : ℕ) → 0 < n → 0 < b → b % n ≡ 0 → x * n % b + n ≤ b
slot_inside x n b pos pos' whole =
    let r = x * n % b in
    let multiple : r % n ≡ 0 =
      mod-mod_of_dvd n (x * n) (dvd_of_mod-eq-zero n whole) ∙ mul-mod_left x n in
    let split : n * (b / n) ≡ b = omega (arith, div-add-mod b n) in
    let split' : n * (r / n) ≡ r = omega (arith, div-add-mod r n) in
    let below : r / n < b / n =
      (div-lt_iff_lt-mul pos).1 (omega (arith, mod-lt (x * n) pos', mul_comm n (b / n))) in
    let step : n * (r / n + 1) ≤ n * (b / n) = mul-le-mul_left n (omega (arith, below)) in
    omega (arith, step)

place_exact : (i n : ℕ) → i < 2 ^ 32 → n ≤ 2 ^ 16 → mul64 i n ≡ i * n
place_exact i n small small' =
    let bound : i * n ≤ 2 ^ 32 * 2 ^ 16 =
      mul-le-mul {n₂ = 2 ^ 32} {m₂ = 2 ^ 16} (omega arith) small' in
    omega (arith, bound)

module _ {S : Type 0} (lba_size : ℕ) (fs : Fs S) where
  -- On a partition whose layout belongs to a valid superblock, every inode number from 1 to the
  -- number of inodes belongs to a group that has a descriptor, and the inode that `ext2_read_inode`
  -- looks up for it lies in one block.
  pub read_inode_in_table :
      (ino table : ℕ)
      → Laid lba_size fs
      → 0 < ino
      → ino ≤ (sb fs).s_inodes_count
      → let group = (ino - 1) / (sb fs).s_inodes_per_group in
        (get_group_desc fs group ≡ some (32 * group))
        × ((inode_place fs ino table).1 + fs.inode_size ≤ fs.block_size)
  unfolding get_group_desc inode_place
  read_inode_in_table ino table l pos le =
      let v = l.valid in
      let sizes = block_size_cases (sb fs).s_log_block_size v.log_small in
      let per = (sb fs).s_inodes_per_group in
      let in_range : (ino - 1) / per < fs.group_count =
        subst (λ c. (ino - 1) / per < c) (sym l.group_count)
          ((div-lt_iff_lt-mul v.group_inodes_pos).1 (omega (arith, v.inodes_le))) in
      let small : (ino - 1) % per < 2 ^ 32 =
        omega (arith, mod-lt (ino - 1) v.group_inodes_pos, v.group_inodes_le, sizes) in
      let exact =
        place_exact ((ino - 1) % per) fs.inode_size small
          (omega (arith, l.inode_size, v.inode_le, sizes)) in
      let inside_block =
        slot_inside ((ino - 1) % per) (inode_size_of (sb fs)) (block_size_of (sb fs))
          (omega (arith, v.inode_pos)) (omega (arith, v.sector_pos, v.sector_le)) v.whole_inodes in
      let index = (ino - 1) % per in
      (
        rw (lt→ltb _ _ in_range),
        subst (λ m. m % fs.block_size + fs.inode_size ≤ fs.block_size) (sym exact)
            (subst (λ n. index * n % fs.block_size + n ≤ fs.block_size) (sym l.inode_size)
              (subst (λ b. index * inode_size_of (sb fs) % b + inode_size_of (sb fs) ≤ b)
                (sym l.block_size) inside_block)),
      )

module _ {S : Type 0} (disk : Disk S) where
  -- A call that ends, with the lock free again and only the drive and the buffer changed.
  abbrev pub Returns : {A : Type 0} → Fs S → Outcome S A → Type 0
  Returns {A} fs r =
      (a : A) × (s : S) × (b : Bytes) × (r
        ≡ some (a, record fs { drive = s; io_buf = b; locked = false }))

  -- The lock is free, and a block is no smaller than a sector.
  abbrev pub Ready : Fs S → Type 0
  Ready fs = (fs.locked ≡ false) × (disk.lba_size ≤ fs.block_size)

  >>=-Returns :
      {A B : Type 0} (fs : Fs S) (m : Outcome S (Option A)) (k : A → Fs S → Outcome S (Option B))
      → disk.lba_size ≤ fs.block_size
      → Returns fs m
      → ((a : A) (t : Fs S) → Ready t → Returns t (k a t))
      → Returns fs (m >>= k)
  >>=-Returns fs m k big (none, s, b, e) next = (none, s, b, rw e)
  >>=-Returns fs m k big (some a, s, b, e) next =
      let (r, s', b', e') =
        next a (record fs { drive = s; io_buf = b; locked = false }) (refl, big) in
      (r, s', b', rw (e, e'))

  unlocked : (fs : Fs S) → fs.locked ≡ false → record fs { locked = false } ≡ fs
  unlocked fs free = ap (λ l. record fs { locked = l }) (sym free)

  pub read_blocks_big :
      (fs : Fs S) (block : ℕ) (buf : Bytes)
      → disk.lba_size ≤ fs.block_size
      → (ok : Bool) × (b : Bytes) × (s : S) × (read_blocks disk fs block buf
          ≡ some (ok, b, record fs { drive = s }))
  unfolding read_blocks
  read_blocks_big fs block buf big = elim (Bool-cases (leb (sb fs).s_blocks_count block)) [
    | inl out ↦ (false, buf, fs.drive, rw out)
    | inr okay ↦
        let r = bytes_to_blocks (wrap64 (block * fs.block_size)) fs.block_size disk.lba_size in
        let (ok, b, s) = disk.read fs.drive buf (block_lba disk fs block) r.size_in_blocks in
        (ok, b, s, rw (okay, le→leb _ _ big))
  ]

  read_locked_free :
      (fs : Fs S) (block : ℕ)
      → disk.lba_size ≤ fs.block_size
      → Returns fs (read_locked disk (record fs { locked = false }) block)
  unfolding read_locked
  read_locked_free fs block big =
      let (ok, b, s, e) = read_blocks_big (record fs { locked = true }) block fs.io_buf big in
      (if ok then some b else none, s, b, rw (read_locked, e))

  read_locked-Returns : (fs : Fs S) (block : ℕ) → Ready fs → Returns fs (read_locked disk fs block)
  read_locked-Returns fs block (free, big) =
      subst (λ t. Returns fs (read_locked disk t block)) (unlocked fs free)
        (read_locked_free fs block big)

  some-Returns : {A : Type 0} (fs : Fs S) (a : A) → Ready fs → Returns fs (some (a, fs))
  some-Returns fs a (free, big) =
      (a, fs.drive, fs.io_buf, ap (λ t. some (a, t)) (sym (unlocked fs free)))

  read_ptr-Returns : (fs : Fs S) (blk idx : ℕ) → Ready fs → Returns fs (read_ptr disk fs blk idx)
  unfolding read_ptr
  read_ptr-Returns fs blk idx ready =
      elim (Bool-cases (ltb blk (sb fs).s_first_data_block || leb (sb fs).s_blocks_count blk)) [
        | inl out ↦ rw out (some-Returns fs none ready)
        | inr okay ↦ rw okay (
            >>=-Returns fs (read_locked disk fs blk) _ ready.1 (read_locked-Returns fs blk ready)
              (λ b t r. some-Returns t _ r))
      ]

  next_ptr-Returns : (p idx : ℕ) (fs : Fs S) → Ready fs → Returns fs (next_ptr disk p idx fs)
  unfolding next_ptr
  next_ptr-Returns p idx fs ready = elim (Bool-cases (p == 0)) [
    | inl null ↦ rw null (some-Returns fs (some 0) ready)
    | inr there ↦ rw there (read_ptr-Returns fs p idx ready)
  ]

  follow-Returns :
      (p : ℕ) (path : List ℕ) (fs : Fs S) → Ready fs → Returns fs (follow disk p path fs)
  unfolding next_ptr
  follow-Returns p [] fs ready = some-Returns fs (some p) ready
  follow-Returns p (i ∷ path) fs ready =
      >>=-Returns fs (next_ptr disk p i fs) _ ready.1 (next_ptr-Returns p i fs ready)
        (λ q t r. follow-Returns q path t r)

  -- With the lock free and blocks that are no smaller than a sector, `ext2_bmap` returns, the
  -- lock is free again, and nothing but the drive and the buffer has changed.
  pub bmap-Returns :
      (fs : Fs S) (inode : Inode) (fb : ℕ) → Ready fs → Returns fs (bmap disk fs inode fb)
  bmap-Returns fs inode fb ready = elim (bmap-Mapped disk fs inode fb) [
    | inside {slot = slot} {path = path} place e ↦
        subst (Returns fs) (sym e) (follow-Returns (inode.i_block slot) path fs ready)
    | beyond far e ↦ subst (Returns fs) (sym e) (some-Returns fs none ready)
  ]

  read_from_table-Returns :
      (fs : Fs S) (ino o : ℕ) → Ready fs → Returns fs (read_from_table disk fs ino o)
  unfolding read_from_table
  read_from_table-Returns fs ino o ready =
      let block = (inode_place fs ino (bg_inode_table fs.descs o)).0 in
      elim (Bool-cases (leb (sb fs).s_blocks_count block)) [
        | inl out ↦ rw out (some-Returns fs none ready)
        | inr okay ↦ rw okay (
            >>=-Returns fs (read_locked disk fs (wrap32 block)) _ ready.1
              (read_locked-Returns fs (wrap32 block) ready) (λ b t r. some-Returns t _ r))
      ]

  -- The same for `ext2_read_inode`.
  pub read_inode-Returns : (fs : Fs S) (ino : ℕ) → Ready fs → Returns fs (read_inode disk fs ino)
  unfolding read_inode read_from_table
  read_inode-Returns fs ino ready = elim (Bool-cases (ino == 0 || ltb (sb fs).s_inodes_count ino)) [
    | inl out ↦ rw out (some-Returns fs none ready)
    | inr okay ↦
        let group = (ino - 1) / (sb fs).s_inodes_per_group in
        elim (Option-cases (get_group_desc fs group)) [
          | inl missing ↦ rw (okay, missing) (some-Returns fs none ready)
          | inr (o, there) ↦ rw (okay, there) (read_from_table-Returns fs ino o ready)
        ]
  ]
