-- ===== src/Probe/Tests.antt =====
-- Drives of one kind each, probed by the code of src/drivers/x86/disk.c, and the theorems at them.
use tomato_os.Base.{
  ◌+◌, ◌-◌, ◌*◌, ◌≡◌, refl, true, false, none, [], arith, ltb, ◌==◌, if◌then◌else◌,
}
use tomato_os.Base.Bytes.{Bytes, splice}
use tomato_os.Disk.{Disk}
use tomato_os.Strings.{memcmp, memcmp_from}
use tomato_os.Pmm.{Pmm}
use tomato_os.Pmm.Alloc.{IsValid}
use tomato_os.Pmm.Same.{SamePages}
use tomato_os.Kmem.{heap_size}
use tomato_os.Probe.{
  Machine, partition_mbr, partition_gpt, gpt_signature, style_step, determine_disk_type,
}
use tomato_os.Probe.Style.{Style, page, determine_disk_type-Style}

abbrev ram : Disk Bytes
ram = record {
  lba_size = 512;
  disk_size = 128;
  read = λ s b lba n. (true, splice b 0 s (lba * 512) (n * 512), s);
  write = λ s b lba n. (true, splice s (lba * 512) b 0 (n * 512));
}

abbrev pages : Pmm
pages = record {
  physical_base = 0x10_0000;
  physical_size = 0x1_0000;
  bitmap = λ b. if b == 0 then 1 else 0;
  total_pages = 16;
  bitmap_size = 2;
  usable_base = 0x10_1000;
}

pages-IsValid : IsValid pages
pages-IsValid = record { bytes = λ b. ground arith; no_wrap = omega arith }

abbrev machine : Bytes → Machine Bytes
machine image = record {
  mem = record {
    pmm = pages;
    kmem = record {
      brk = 0x1000;
      endp = 0x1000 + heap_size;
      base = 0;
      block = λ a. record { free = false; size = 0; next = 0; prev = 0; ptr = 0 };
      byte = λ a. 0;
    };
    physical = λ a. 0;
  };
  drive = image;
  mounts = record { partitions = []; partition_count = 0; root_fs = none };
}

abbrev mbr_image : Bytes
mbr_image i = if i == 510 then 0x55 else if i == 511 then 0xAA else 0

abbrev gpt_image : Bytes
gpt_image i = if ltb i 512 then 0 else gpt_signature (i - 512)

finds_mbr : (style_step ram (machine mbr_image) (λ i. 0)).0 ≡ partition_mbr
unfolding style_step memcmp memcmp_from
finds_mbr = refl

finds_gpt : (style_step ram (machine gpt_image) (λ i. 0)).0 ≡ partition_gpt
unfolding style_step memcmp memcmp_from
finds_gpt = refl

determine_disk_type-Style_example :
    let (style, m') = determine_disk_type ram (machine gpt_image) in
    Style ram gpt_image (page ram (machine gpt_image)) style × SamePages pages m'.mem.pmm
determine_disk_type-Style_example =
    determine_disk_type-Style ram (machine gpt_image) pages-IsValid (omega arith)
