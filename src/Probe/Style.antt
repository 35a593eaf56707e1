-- ===== src/Probe/Style.antt =====
-- The partition style in src/drivers/x86/disk.c, and what each probe does with its page.
use tomato_os.Base.{
  ◌+◌, ◌<◌, ◌≡◌, sym, ◌≢◌, ◌⊎◌, inl, inr, Bool, true, false, ◌&&◌, arith, ◌==◌, Bool-cases,
}
use tomato_os.Base.Bytes.{Bytes}
use tomato_os.Disk.{Disk}
use tomato_os.Pmm.{pmm_alloc_page, pmm_free}
use tomato_os.Pmm.Alloc.{IsValid}
use tomato_os.Pmm.Same.{page_back, SamePages}
use tomato_os.Strings.{same_bytes}
use tomato_os.Probe.{
  Machine, PartitionStyle, partition_err, partition_mbr, partition_gpt, gpt_signature, style_step,
  determine_disk_type,
}
use mathlib.Core.Path.{subst}

module _ {S : Type 0} (disk : Disk S) (drive : S) (buffer : Bytes) where
  -- The two reads of a probe: sector 1, and then sector 0 into the same buffer.
  abbrev first_read : Bool × Bytes × S
  first_read = disk.read drive buffer 1 1

  abbrev second_read : Bool × Bytes × S
  second_read = let (ok, b, s) = first_read in disk.read s b 0 1

  -- What the reads give for each style.
  pub data Style : PartitionStyle → Type 0 where
    no_sector : first_read.0 ≡ false → Style partition_err
    is_gpt :
        first_read.0 ≡ true → same_bytes first_read.1 gpt_signature 8 ≡ true → Style partition_gpt
    is_mbr :
        first_read.0 ≡ true
        → same_bytes first_read.1 gpt_signature 8 ≡ false
        → second_read.0 ≡ true
        → second_read.1 510 ≡ 0x55
        → second_read.1 511 ≡ 0xAA
        → Style partition_mbr
    neither :
        first_read.0 ≡ true
        → same_bytes first_read.1 gpt_signature 8 ≡ false
        → (second_read.0 ≡ false) ⊎ ((second_read.1 510 ≢ 0x55) ⊎ (second_read.1 511 ≢ 0xAA))
        → Style partition_err

module _ {S : Type 0} (disk : Disk S) where
  -- The bytes of the page that a probe gets.
  abbrev pub page : Machine S → Bytes
  page m i = m.mem.physical ((pmm_alloc_page m.mem.pmm 4096).0 + i)

  style_step-Style :
      (m : Machine S) (buffer : Bytes) → Style disk m.drive buffer (style_step disk m buffer).0
  unfolding style_step
  style_step-Style m buffer = elim (Bool-cases (first_read disk m.drive buffer).0) [
    | inr bad ↦ rw bad (no_sector bad)
    | inl ok ↦ elim (Bool-cases (same_bytes (first_read disk m.drive buffer).1 gpt_signature 8)) [
      | inl gpt ↦ rw (ok, gpt) (is_gpt ok gpt)
      | inr other ↦
          let (ok', b', s') = second_read disk m.drive buffer in
          elim (Bool-cases (ok' && b' 510 == 0x55 && b' 511 == 0xAA)) [
            | inl mbr ↦
                rw (ok, other, mbr) (is_mbr ok other (ground arith) (ground arith) (ground arith))
            | inr no_mbr ↦ rw (ok, other, no_mbr) (neither ok other (ground arith))
          ]
    ]
  ]

  style_step-pmm : (m : Machine S) (buffer : Bytes) → (style_step disk m buffer).1.mem ≡ m.mem
  unfolding style_step
  style_step-pmm m buffer = elim (Bool-cases (first_read disk m.drive buffer).0) [
    | inr bad ↦ rw bad
    | inl ok ↦ elim (Bool-cases (same_bytes (first_read disk m.drive buffer).1 gpt_signature 8)) [
      | inl gpt ↦ rw (ok, gpt)
      | inr other ↦
          let (ok', b', s') = second_read disk m.drive buffer in
          elim (Bool-cases (ok' && b' 510 == 0x55 && b' 511 == 0xAA)) [
            | inl mbr ↦ rw (ok, other, mbr)
            | inr no_mbr ↦ rw (ok, other, no_mbr)
          ]
    ]
  ]

  -- `determine_disk_type` reads sector 1 and, where the GPT signature is not there, sector 0 into
  -- the same page; it gives the style that the bytes show, an error where they show none or a read
  -- fails, and its page back, provided that the allocator's region lies below 2^64 and not at 0.
  pub determine_disk_type-Style :
      (m : Machine S)
      → IsValid m.mem.pmm
      → 0 < m.mem.pmm.physical_base
      → let (style, m') = determine_disk_type disk m in
        Style disk m.drive (page m) style × SamePages m.mem.pmm m'.mem.pmm
  unfolding determine_disk_type
  determine_disk_type-Style m v above =
      let (phys, pmm') = pmm_alloc_page m.mem.pmm 4096 in
      let taken = record m { mem = record m.mem { pmm = pmm' } } in
      (
        style_step-Style taken (page m),
        subst (λ mem. SamePages m.mem.pmm (pmm_free mem.pmm phys 1))
            (sym (style_step-pmm taken (page m))) (page_back m.mem.pmm v above),
      )
