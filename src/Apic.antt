-- ===== src/Apic.antt =====
-- The interrupt controllers of src/cpu/apic.c: the walk over the records of the MADT, and the entries of
-- the I/O APIC. The table is the memory from its address on, a byte at each offset; the registers of
-- the I/O APIC are a function of their number, those of the local APIC of their offset. The search for
-- the table is in Find, and `init_apic` in Madt.
pub mod Walk
pub mod Find
pub mod Madt
mod Tests
use tomato_os.Base.{
  ℕ, zero, suc, ◌+◌, ◌-◌, ◌*◌, ◌/◌, ◌%◌, ◌^◌, ◌≤◌, ◌<◌, bit_and, bit_or, bit_xor, ◌≡◌, refl, sym,
  ap, ◌∙◌, fun_ext, ◌≢◌, ◌↔◌, ◌⊎◌, inl, inr, Bool, true, false, ◌&&◌, ◌||◌, not, Option, none, some,
  List, [], ◌∷◌, ◌++◌, arith, dec_lt, dec_le, ℕ_discrete, ltb, leb, ◌==◌, if◌then◌else◌, ltb→lt,
  lt→ltb, ltb→le, le→ltb, ==_iff, ==_refl, ==_true, ne→==, Bool-cases, Option-cases, all_below,
  all_below_sound, length, get_elem?, set, length-append, length-set,
}
use tomato_os.Base.Word.{add64, sub32, add32, mul32}
use tomato_os.Base.Bytes.{Bytes, le32}
use tomato_os.Paging.{Paging, map_page}
use tomato_os.Paging.Boot.{kernel_pflag_present, kernel_pflag_write}

-- `IOApic`, without its header and reserved byte.
pub record IoApic : Type 0 where
  pub ioapic_id : ℕ
  pub ioapic_addr : ℕ
  pub global_system_interrupt_base : ℕ

-- The fields of `kernel` that the walk sets, with the number of I/O APICs and the page tables. `iso` is
-- the offset of the last override, 0 for none.
pub record Apic : Type 0 where
  pub irq_overrides : ℕ → ℕ
  pub ioapic_device : IoApic
  pub ioapic_count : ℕ
  pub iso : ℕ
  pub paging : Paging

-- APIC_TYPE_IO and APIC_TYPE_IO_OVERRIDE
abbrev pub apic_type_io : ℕ
apic_type_io = 1

abbrev pub apic_type_io_override : ℕ
apic_type_io_override = 2

-- `sizeof(MADTEntryHeader)` and `sizeof(MADT)`
abbrev pub sizeof_entry_header : ℕ
sizeof_entry_header = 2

abbrev pub sizeof_madt : ℕ
sizeof_madt = 44

-- `entry_type` and `record_length`
abbrev pub entry_type : Bytes → (offset : ℕ) → ℕ
entry_type madt offset = madt offset % 256

abbrev pub record_length : Bytes → (offset : ℕ) → ℕ
record_length madt offset = madt (offset + 1) % 256

abbrev pub ioapic_at : Bytes → (offset : ℕ) → IoApic
ioapic_at madt offset = record {
  ioapic_id = madt (offset + 2) % 256;
  ioapic_addr = le32 madt (offset + 4);
  global_system_interrupt_base = le32 madt (offset + 8);
}

abbrev pub irq_source : Bytes → (offset : ℕ) → ℕ
irq_source madt offset = madt (offset + 3) % 256

abbrev pub override_gsi : Bytes → (offset : ℕ) → ℕ
override_gsi madt offset = le32 madt (offset + 4)

-- The cases of the `switch`.
pub add_ioapic : Apic → IoApic → Apic
add_ioapic a io = record a {
  ioapic_device = io;
  ioapic_count = a.ioapic_count + 1;
  paging =
      map_page a.paging (add64 io.ioapic_addr a.paging.hhdm) io.ioapic_addr
        (bit_or kernel_pflag_present kernel_pflag_write) 1;
}

pub add_override : Apic → Bytes → (offset : ℕ) → Apic
add_override a madt offset =
    let irq = irq_source madt offset in
    record a {
      irq_overrides =
          if ltb irq 16
          then (λ i. if i == irq then override_gsi madt offset else a.irq_overrides i)
          else a.irq_overrides;
      iso = offset;
    }

pub take_entry : Bytes → (offset : ℕ) → Apic → Apic
take_entry madt offset a =
    if entry_type madt offset == apic_type_io
    then add_ioapic a (ioapic_at madt offset)
    else (if entry_type madt offset == apic_type_io_override then add_override a madt offset else a)

-- How the walk ends: behind the table, or with a halt.
pub data Walked : Type 0 where
  walked : Apic → Walked
  malformed : (offset : ℕ) → Walked
  too_many : Walked
  unfinished : Walked

-- The loop. The last result means that the fuel is out.
pub walk : (fuel : ℕ) → Bytes → (madt_end offset entry_index : ℕ) → Apic → Walked
walk zero madt madt_end offset entry_index a = unfinished
walk (suc fuel) madt madt_end offset entry_index a =
    let len = record_length madt offset in
    let rest =
      walk fuel madt madt_end (add64 offset len) (entry_index + 1) (take_entry madt offset a) in
    if not (ltb offset madt_end)
    then walked a
    else (if ltb len sizeof_entry_header || ltb madt_end (add64 offset len)
        then malformed offset
        else (if ltb 256 (entry_index + 1) then too_many else rest))

-- `init_apic` from the overrides on. At most 257 records are looked at.
pub walk_madt : Bytes → Apic → Walked
walk_madt madt a =
    walk 258 madt (le32 madt 4) sizeof_madt 0
      (record a { irq_overrides = λ i. i; ioapic_count = 0 })

-- The registers of an I/O APIC: the store, and the load and store of a mask bit.
abbrev pub write_ioapic : (ℕ → ℕ) → (reg value : ℕ) → ℕ → ℕ
write_ioapic regs reg value r = if r == reg then value else regs r

pub mask_ioapic : (ℕ → ℕ) → (gsi : ℕ) → ℕ → ℕ
mask_ioapic regs gsi =
    let reg = add32 0x10 (mul32 gsi 2) in write_ioapic regs reg (bit_or (regs reg) (2 ^ 16))

pub unmask_ioapic : (ℕ → ℕ) → (gsi : ℕ) → ℕ → ℕ
unmask_ioapic regs gsi =
    let reg = add32 0x10 (mul32 gsi 2) in
    write_ioapic regs reg (bit_and (regs reg) (2 ^ 32 - 1 - 2 ^ 16))

-- `set_ioapic_entry`: the polarity, trigger and mask bits are cleared, whatever `flags` says.
pub set_ioapic_entry : (ℕ → ℕ) → (gsi_base vector irq lapic : ℕ) → ℕ → ℕ
set_ioapic_entry regs gsi_base vector irq lapic =
    let all = 2 ^ 64 - 1 in
    let info = bit_or (lapic * 2 ^ 56 % 2 ^ 64) (bit_and vector 0xff) in
    let info1 = bit_and info (all - 2 ^ 16) in
    let info2 = bit_and info1 (all - 2 ^ 15) in
    let info3 = bit_and info2 (all - 2 ^ 13) in
    let reg = add32 (mul32 (sub32 irq gsi_base) 2) 0x10 in
    write_ioapic (write_ioapic regs reg (info3 % 2 ^ 32)) (add32 reg 1) (info3 / 2 ^ 32)

-- LAPIC_SPURIOUS_INTERRUPT_VECTOR_REGISTER, LAPIC_TASK_PRIORITY_REGISTER,
-- LAPIC_DESTINATION_FORMAT_REGISTER and LAPIC_EOI_REGISTER
abbrev pub lapic_spurious : ℕ
lapic_spurious = 0x0F0

abbrev pub lapic_task_priority : ℕ
lapic_task_priority = 0x080

abbrev pub lapic_destination_format : ℕ
lapic_destination_format = 0x0E0

abbrev pub lapic_eoi : ℕ
lapic_eoi = 0x0B0

-- `write_lapic`: the registers of the local APIC by their offset.
abbrev pub write_lapic : (ℕ → ℕ) → (reg_offset val : ℕ) → ℕ → ℕ
write_lapic lapic reg_offset val r = if r == reg_offset then val else lapic r

pub init_local_apic : (ℕ → ℕ) → ℕ → ℕ
init_local_apic lapic =
    let l1 = write_lapic lapic lapic_spurious 0x1FF in
    let l2 = write_lapic l1 lapic_task_priority 0x00 in
    write_lapic l2 lapic_destination_format 0xFFFFFFFF

pub end_of_interrupt : (ℕ → ℕ) → ℕ → ℕ
end_of_interrupt lapic = write_lapic lapic lapic_eoi 0
