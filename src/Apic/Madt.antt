-- ===== src/Apic/Madt.antt =====
-- `init_apic` of src/cpu/apic.c, from the RSDP to the end of the walk over the MADT.
use tomato_os.Base.{ℕ, ◌+◌, bit_or, ◌≡◌, ◌≢◌, ◌⊎◌, Bool, false, ◌||◌, not, ◌==◌, if◌then◌else◌}
use tomato_os.Base.Word.{add64}
use tomato_os.Base.Bytes.{Bytes, le32}
use tomato_os.Paging.{map_page}
use tomato_os.Paging.Boot.{kernel_pflag_present, kernel_pflag_write}
use tomato_os.Apic.{
  Apic, Walked, walked, malformed, too_many, unfinished, walk_madt, sizeof_madt, lapic_spurious,
  lapic_task_priority, init_local_apic,
}
use tomato_os.Apic.Walk.{Ended}
use tomato_os.Apic.Find.{num_entries, find_madt, FirstMadt}

-- `kernel.rsdt`
abbrev pub rsdt_of : (memory : Bytes) (hhdm rsdp_table : ℕ) → ℕ
rsdt_of memory hhdm rsdp_table = add64 (le32 (λ o. memory (rsdp_table + o)) 16) hhdm

-- `madt`
abbrev pub madt_at : (memory : Bytes) (header : ℕ) → Bytes
madt_at memory header o = memory (header + o)

-- `kernel.lapic_base`
abbrev pub lapic_base_of : (madt : Bytes) (hhdm : ℕ) → ℕ
lapic_base_of madt hhdm = add64 (le32 madt 36) hhdm

-- The registers of the local APIC are mapped.
abbrev pub map_lapic : (madt : Bytes) → Apic → Apic
map_lapic madt a = record a {
  paging =
      map_page a.paging (lapic_base_of madt a.paging.hhdm) (le32 madt 36)
        (bit_or kernel_pflag_present kernel_pflag_write) 1;
}

-- How `init_apic` ends: with `halt()`, or with the state that the walk leaves, `kernel.lapic_base` and
-- the registers of the local APIC. The last one means that the walk is out of fuel.
pub data Boot : Type 0 where
  halted : Boot
  up : Apic → (lapic_base : ℕ) → (lapic : ℕ → ℕ) → Boot
  walking : Boot

-- The walk calls `halt()` at a malformed record and where there are too many.
abbrev pub after_walk : Walked → (lapic_base : ℕ) → (lapic : ℕ → ℕ) → Boot
after_walk (walked a) lapic_base lapic = up a lapic_base lapic
after_walk (malformed offset) lapic_base lapic = halted
after_walk too_many lapic_base lapic = halted
after_walk unfinished lapic_base lapic = walking

-- `init_apic`, where `supported` is what `verify_apic` gives, with the registers of the local APIC.
pub init_apic :
    (memory : Bytes) (rsdp_table : ℕ) (supported : Bool) (lapic : ℕ → ℕ) (a : Apic) → Boot
init_apic memory rsdp_table supported lapic a =
    let rsdt = rsdt_of memory a.paging.hhdm rsdp_table in
    let header = find_madt memory a.paging.hhdm rsdt in
    let madt = madt_at memory header in
    if rsdp_table == 0 || rsdt == 0 || not supported || header == 0
    then halted
    else after_walk (walk_madt madt (map_lapic madt a)) (lapic_base_of madt a.paging.hhdm)
        (init_local_apic lapic)

-- The walk starts with every interrupt to itself, and no I/O APIC counted.
abbrev pub at_start : (madt : Bytes) → Apic → Apic
at_start madt a = record (map_lapic madt a) { irq_overrides = λ i. i; ioapic_count = 0 }

-- Why `init_apic` halts, or how it ends, with the first MADT that the RSDT lists, at `header`.
pub data Booted (memory : Bytes) (rsdp_table : ℕ) (supported : Bool) (a : Apic) (rsdt : ℕ)
    : Boot → Type 0 where
  nothing_to_walk :
      (rsdp_table ≡ 0)
        ⊎ ((rsdt ≡ 0)
            ⊎ ((supported ≡ false)
                ⊎ FirstMadt memory a.paging.hhdm rsdt 0 (num_entries memory rsdt) 0))
      → Booted memory rsdp_table supported a rsdt halted
  bad_record :
      (header offset : ℕ)
      → FirstMadt memory a.paging.hhdm rsdt 0 (num_entries memory rsdt) header
      → header ≢ 0
      → Ended
          (madt_at memory header)
          (le32 (madt_at memory header) 4)
          sizeof_madt
          0
          (at_start (madt_at memory header) a)
          (malformed offset)
      → Booted memory rsdp_table supported a rsdt halted
  too_many_records :
      (header : ℕ)
      → FirstMadt memory a.paging.hhdm rsdt 0 (num_entries memory rsdt) header
      → header ≢ 0
      → Ended
          (madt_at memory header)
          (le32 (madt_at memory header) 4)
          sizeof_madt
          0
          (at_start (madt_at memory header) a)
          too_many
      → Booted memory rsdp_table supported a rsdt halted
  booted :
      {lapic : ℕ → ℕ} {a' : Apic} (header : ℕ)
      → FirstMadt memory a.paging.hhdm rsdt 0 (num_entries memory rsdt) header
      → header ≢ 0
      → Ended
          (madt_at memory header)
          (le32 (madt_at memory header) 4)
          sizeof_madt
          0
          (at_start (madt_at memory header) a)
          (walked a')
      → lapic lapic_spurious ≡ 0x1FF
      → lapic lapic_task_priority ≡ 0
      → Booted memory rsdp_table supported a rsdt
          (up a' (lapic_base_of (madt_at memory header) a.paging.hhdm) lapic)
