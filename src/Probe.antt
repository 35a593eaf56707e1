-- ===== src/Probe.antt =====
-- The probing of a drive in src/drivers/x86/disk.c: the partition style, and the partitions that are
-- handed to ext2. Each step takes a page as its buffer and gives it back. Log output is left out, and
-- so are the strings of `disk_type_to_str` and `mbr_to_str`.
pub mod Style
mod Tests
use tomato_os.Base.{
  ℕ, zero, suc, ◌+◌, ◌*◌, Bool, true, false, ◌&&◌, not, Option, none, some, List, [], ◌∷◌, ltb,
  ◌==◌, if◌then◌else◌,
}
use tomato_os.Base.Bytes.{Bytes, le16, le32, le64}
use tomato_os.Base.Word.{add64}
use tomato_os.Disk.{Disk, BytesToBlockRes, bytes_to_blocks}
use tomato_os.Strings.{same_bytes}
use tomato_os.Pmm.{Pmm, pmm_alloc_page, pmm_free}
use tomato_os.Kmem.{Kmem, kmalloc, kfree}
use tomato_os.Ext2.{Fs, ext2_magic}
use tomato_os.Ext2.Groups.{Memory}
use tomato_os.Ext2.Mount.{Mounts, init}

-- `enum partition_style`; nothing gives PARTITION_RAW.
pub data PartitionStyle : Type 0 where
  partition_err partition_mbr partition_gpt partition_raw : PartitionStyle

-- The state that probing changes: memory, the drive, and what is mounted.
pub record Machine (S : Type 0) : Type 0 where
  pub mem : Memory
  pub drive : S
  pub mounts : Mounts S

abbrev pub text : List ℕ → Bytes
text [] i = 0
text (c ∷ cs) zero = c
text (c ∷ cs) (suc i) = text cs i

-- GPT_SIGNATURE, "EFI PART", and its length
abbrev pub gpt_signature : Bytes
gpt_signature = text (69 ∷ 70 ∷ 73 ∷ 32 ∷ 80 ∷ 65 ∷ 82 ∷ 84 ∷ [])

-- `linux_fs_signature`
abbrev pub linux_fs_signature : Bytes
linux_fs_signature = text (
    0xAF ∷ 0x3D ∷ 0xC6 ∷ 0x0F ∷ 0x83 ∷ 0x84 ∷ 0x72 ∷ 0x47 ∷ 0x8E ∷ 0x79 ∷ 0x3D ∷ 0x69 ∷ 0xD8 ∷ 0x47
    ∷ 0x7D ∷ 0xE4 ∷ [])

-- `lba1`, which is initialised to zeros, and the field of it that is read
abbrev pub gpt_lba1 : Bytes
gpt_lba1 i = 0

abbrev pub count_partitions : Bytes → ℕ
count_partitions lba1 = le32 lba1 80

-- `sizeof(struct ext2_partition)`, rounded up to its alignment
abbrev pub sizeof_partition : ℕ
sizeof_partition = 432

module _ {S : Type 0} (disk : Disk S) where
  -- A page is taken for the time of `step`, which gets the bytes of the page, its `buffer`, and gives
  -- them up; the page is taken even where none is left, at address 0.
  abbrev pub with_page :
      {A : Type 0} → Machine S → (Machine S → Bytes → A × Machine S) → A × Machine S
  with_page m step =
      let (phys, pmm') = pmm_alloc_page m.mem.pmm 4096 in
      let taken = record m { mem = record m.mem { pmm = pmm' } } in
      let (a, m') = step taken (λ i. m.mem.physical (phys + i)) in
      (a, record m' { mem = record m'.mem { pmm = pmm_free m'.mem.pmm phys 1 } })

  abbrev pub read_into : Machine S → (buffer : Bytes) (lba n : ℕ) → Bool × Bytes × Machine S
  read_into m buffer lba n =
      let (ok, b, s) = disk.read m.drive buffer lba n in (ok, b, record m { drive = s })

  -- `determine_disk_type`
  unfoldable pub style_step : Machine S → Bytes → PartitionStyle × Machine S
  style_step m buffer =
      let (ok, b, m1) = read_into m buffer 1 1 in
      let (mbr_ok, b', m2) = read_into m1 b 0 1 in
      if not ok
      then (partition_err, m1)
      else if same_bytes b gpt_signature 8
      then (partition_gpt, m1)
      else if mbr_ok && b' 510 == 0x55 && b' 511 == 0xAA
      then (partition_mbr, m2)
      else (partition_err, m2)

  unfoldable pub determine_disk_type : Machine S → PartitionStyle × Machine S
  determine_disk_type m = with_page m style_step

  -- `disk_selftest`
  unfoldable pub selftest : Machine S → Bool × Machine S
  selftest m = with_page m (λ m' buffer. let (ok, b, m1) = read_into m' buffer 0 1 in (ok, m1))

  -- Whether the sectors at `start` hold an ext2 superblock; `none` where the read fails.
  unfoldable pub magic_step : (start : ℕ) → Machine S → Bytes → Option Bool × Machine S
  magic_step start m buffer =
      let r = bytes_to_blocks 1024 1024 disk.lba_size in
      let (ok, b, m1) = read_into m buffer (add64 start r.lba) r.size_in_blocks in
      (if ok then some (le16 b (r.offset + 56) == ext2_magic) else none, m1)

  -- The mount of the partition at `start`: `none` where `ext2_init` does not return. `checked` is
  -- whether the code looks at the result of `kmalloc`.
  unfoldable pub mount_step : (checked : Bool) (start : ℕ) → Machine S → Option (Bool × Machine S)
  mount_step checked start m =
      let (fs, kmem') = kmalloc m.mem.kmem sizeof_partition in
      let mem' = record m.mem { kmem = kmem' } in
      if fs == 0 && checked
      then some (false, record m { mem = mem' })
      else if fs == 0
      then none
      else elim (init disk m.mounts mem' m.drive start) [
        | none ↦ none
        | some (true, mounts', mem2, fs') ↦
            some (true, record { mem = mem2; drive = fs'.drive; mounts = mounts' })
        | some (false, mounts', mem2, fs') ↦ some (
          true,
          record {
            mem = record mem2 { kmem = kfree mem2.kmem fs };
            drive = fs'.drive;
            mounts = mounts';
          },
        )
      ]

  -- `disk_try_linux` for a whole disk, with `checked`, and `disk_do_mbr_linux` for a partition: the
  -- result of the call, and the machine.
  unfoldable pub try_linux : (checked : Bool) (start : ℕ) → Machine S → Option (Bool × Machine S)
  try_linux checked start m =
      let (magic, m1) = with_page m (magic_step start) in
      elim magic [
        | none ↦ some (false, m1)
        | some false ↦ some (false, m1)
        | some true ↦ mount_step checked start m1
      ]

  -- `disk_mbr` from partition `i` on, with `n` to go, over the sector in `b`.
  unfoldable pub mbr_partitions : (b : Bytes) (i n : ℕ) → Machine S → Option (Machine S)
  mbr_partitions b i zero m = some m
  mbr_partitions b i (suc n) m =
      if b (446 + 16 * i + 4) == 0x83
      then elim (try_linux false (le32 b (446 + 16 * i + 8)) m) [
        | none ↦ none
        | some (_, m') ↦ mbr_partitions b (i + 1) n m'
      ]
      else mbr_partitions b (i + 1) n m

  -- The sector in `buffer`, and the machine that goes on from it.
  unfoldable pub table_step : (lba : ℕ) → Machine S → ℕ × Bytes × Machine S
  table_step lba m =
      let (phys, pmm') = pmm_alloc_page m.mem.pmm 4096 in
      let taken = record m { mem = record m.mem { pmm = pmm' } } in
      let (ok, b, m1) = read_into taken (λ i. m.mem.physical (phys + i)) lba 1 in (phys, b, m1)

  abbrev pub release_page : (phys : ℕ) → Machine S → Machine S
  release_page phys m = record m { mem = record m.mem { pmm = pmm_free m.mem.pmm phys 1 } }

  -- `disk_mbr`
  unfoldable pub disk_mbr : Machine S → Option (Machine S)
  disk_mbr m =
      let (phys, b, m1) = table_step 0 m in
      elim (mbr_partitions b 0 4 m1) [ none ↦ none | some m2 ↦ some (release_page phys m2) ]

  -- The loop of `disk_gpt` over entries of 128 bytes, from entry `i` on, with `n` to go.
  unfoldable pub gpt_partitions : (b : Bytes) (i n : ℕ) → Machine S → Option (Machine S)
  gpt_partitions b i zero m = some m
  gpt_partitions b i (suc n) m =
      let guid = λ (j : ℕ). b (128 * i + j) in
      if same_bytes guid (λ j. 0) 16
      then gpt_partitions b (i + 1) n m
      else if same_bytes guid linux_fs_signature 16
      then elim (try_linux false (le64 b (128 * i + 32)) m) [
        | none ↦ none
        | some (_, m') ↦ gpt_partitions b (i + 1) n m'
      ]
      else gpt_partitions b (i + 1) n m

  -- `disk_gpt`. The number of partitions is that of `lba1`, and not of the sector that is read.
  unfoldable pub disk_gpt : Machine S → Option (Machine S)
  disk_gpt m =
      let (phys, b, m1) = table_step 1 m in
      elim (gpt_partitions b 0 (count_partitions gpt_lba1) m1) [
        | none ↦ none
        | some m2 ↦ some (release_page phys m2)
      ]

  unfoldable pub probe_style : PartitionStyle → Machine S → Option (Machine S)
  probe_style partition_mbr m = disk_mbr m
  probe_style partition_gpt m = disk_gpt m
  probe_style _ m = elim (try_linux true 0 m) [ none ↦ none | some (_, m') ↦ some m' ]

  -- `init_disk`
  unfoldable pub init_disk : Machine S → Option (Machine S)
  init_disk m =
      let (ok, m1) = selftest m in
      let (style, m2) = determine_disk_type m1 in if not ok then some m1 else probe_style style m2
