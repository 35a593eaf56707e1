-- ===== src/Apic/Tests.antt =====
-- Runs of src/cpu/apic.c over a small table, and the theorem at it.
use tomato_os.Base.{ℕ, ◌-◌, ltb, ◌≡◌, refl, ◌==◌, if◌then◌else◌}
use tomato_os.Base.Bytes.{Bytes}
use tomato_os.Paging.{zero_entry}
use tomato_os.Apic.{
  Apic, Walked, walked, take_entry, add_ioapic, add_override, walk, walk_madt, mask_ioapic,
  init_local_apic, end_of_interrupt, unmask_ioapic, set_ioapic_entry,
}
use tomato_os.Apic.Find.{madt_signature, find_from, find_madt}
use tomato_os.Strings.{memcmp, memcmp_from}

-- A table of 56 bytes: a local APIC of two bytes, and an override that sends interrupt 0 to 2.
abbrev madt : Bytes
madt o =
    if o == 4
    then 56
    else (if o == 45
        then 2
        else (if o == 46 then 2 else (if o == 47 then 10 else (if o == 50 then 2 else 0))))

abbrev start : Apic
start = record {
  irq_overrides = λ i. 99;
  ioapic_device = record { ioapic_id = 0; ioapic_addr = 0; global_system_interrupt_base = 0 };
  ioapic_count = 7;
  iso = 0;
  paging = record {
    pmm = record {
      physical_base = 0x10_0000;
      physical_size = 0;
      bitmap = λ b. 0;
      total_pages = 0;
      bitmap_size = 0;
      usable_base = 0;
    };
    tables = λ t i. zero_entry;
    pml4 = 0;
    hhdm = 0;
  };
}

-- The RSDP at 100, an RSDT of one entry at 200, and the table at 240.
abbrev memory : Bytes
memory i =
    if i == 116
    then 200
    else if i == 204
    then 40
    else if i == 236
    then 240
    else if ltb i 240
    then 0
    else if ltb i 244
    then madt_signature (i - 240)
    else madt (i - 240)

table_found : find_madt memory 0 200 ≡ 240
unfolding find_madt find_from memcmp memcmp_from
table_found = refl

-- Without an MADT the search ends with null.
no_table : find_madt (λ i. if i == 204 then 40 else 0) 0 200 ≡ 0
unfolding find_madt find_from memcmp memcmp_from
no_table = refl

served : end_of_interrupt (init_local_apic (λ r. 7)) 0x0F0 ≡ 0x1FF
unfolding end_of_interrupt init_local_apic
served = refl

abbrev routed_to : Walked → (irq : ℕ) → ℕ
routed_to (walked a) irq = a.irq_overrides irq
routed_to _ irq = 1000

-- The record at 46 would need 10 bytes up to 56, which are there.
override_taken : routed_to (walk_madt madt start) 0 ≡ 2
unfolding walk_madt walk take_entry add_ioapic add_override
override_taken = refl

masked : unmask_ioapic (mask_ioapic (λ r. 0x21) 1) 1 0x12 ≡ 0x21
unfolding mask_ioapic unmask_ioapic
masked = refl

-- Interrupt 1 leads to vector 33 of the APIC 0, and is not masked.
keyboard_entry :
    let regs = set_ioapic_entry (λ r. 0x1_0000) 0 33 1 0 in
    (regs 0x12 ≡ 33) × (regs 0x13 ≡ 0) × (regs 0x14 ≡ 0x1_0000)
unfolding set_ioapic_entry
keyboard_entry = (refl, refl, refl)
