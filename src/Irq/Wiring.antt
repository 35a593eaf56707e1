-- ===== src/Irq/Wiring.antt =====
-- All of `irq_create` of src/cpu/irq.c: the slot, the gate of its vector in the interrupt table, and the
-- entry of the I/O APIC.
use tomato_os.Base.{
  ℕ, ◌-◌, ◌%◌, ◌^◌, ◌<◌, ◌≡◌, ap, ◌∙◌, ◌≢◌, ◌&&◌, not, ℕ_discrete, ltb, ◌==◌, if◌then◌else◌,
  ==_refl, ==_true, ne→==,
}
use tomato_os.Apic.{set_ioapic_entry, unmask_ioapic}
use tomato_os.Descriptors.{Idt, set_idt_gate}
use tomato_os.Descriptors.Gates.{target, target-set_idt_gate}
use tomato_os.Irq.{IrqTable, dynamic_irq_base, irq_create}
use tomato_os.Irq.Table.{Installed, irq_create-Installed}

-- The table of slots, the interrupt table, the registers of the I/O APIC, the overrides of the first 16
-- interrupts, and the first interrupt of the I/O APIC.
pub record Vectors : Type 0 where
  pub table : IrqTable
  pub idt : Idt
  pub regs : ℕ → ℕ
  pub irq_overrides : ℕ → ℕ
  pub gsi_base : ℕ

-- IRQ_TYPE_LEGACY
abbrev pub irq_type_legacy : ℕ
irq_type_legacy = 1

-- `gsi`
abbrev pub gsi_of : Vectors → (irq : ℕ) → ℕ
gsi_of v irq = if ltb irq 16 then v.irq_overrides irq else irq

-- `irq_create`, where the trampoline of slot `n` is at `trampoline n`. `set_ioapic_entry` takes a byte
-- for the interrupt.
pub create_vector : (trampoline : ℕ → ℕ) → Vectors → (irq kind func arg : ℕ) → ℕ × Vectors
create_vector trampoline v irq kind func arg =
    let (vector, table') = irq_create v.table func arg in
    let gsi = gsi_of v irq in
    let set = set_ioapic_entry v.regs v.gsi_base vector (gsi % 256) 0 in
    let found = not (vector == 0) in
    (
      vector,
      record v {
        table = table';
        idt =
            if found
            then set_idt_gate v.idt vector (trampoline (vector - dynamic_irq_base)) 0x08 0x8E
            else v.idt;
        regs = if found && kind == irq_type_legacy then unmask_ioapic set gsi else v.regs;
      },
    )

-- The slot is taken as `Installed` says, the gate of its vector leads to its trampoline, and the other
-- gates lead where they did before.
pub record Wired (trampoline : ℕ → ℕ) (v : Vectors) (func arg vector : ℕ) (v' : Vectors)
    : Type 0 where
  pub slot : Installed v.table func arg (vector, v'.table)
  pub gate : vector ≢ 0 → target (v'.idt vector) ≡ trampoline (vector - dynamic_irq_base)
  pub others : (i : ℕ) → i ≢ vector → target (v'.idt i) ≡ target (v.idt i)

-- For a handler that is not null, `irq_create` gives 0 when all eight slots are in use, and otherwise
-- puts the handler in a free slot, whose vector is the result and whose trampoline calls the handler
-- until `irq_destroy` of the vector; the gate of the vector leads to that trampoline, and all other
-- gates and slots are as before.
pub create_vector-Wired :
    (trampoline : ℕ → ℕ) (v : Vectors) (irq kind func arg : ℕ)
    → ((n : ℕ) → trampoline n < 2 ^ 64)
    → func ≢ 0
    → let (vector, v') = create_vector trampoline v irq kind func arg in
      Wired trampoline v func arg vector v'
unfolding create_vector
create_vector-Wired trampoline v irq kind func arg word handler =
    let (vector, table') = irq_create v.table func arg in
    let to = trampoline (vector - dynamic_irq_base) in
    let set = λ (i : ℕ). target-set_idt_gate v.idt vector to 0x08 0x8E i (word _) in
    record {
      slot = irq_create-Installed v.table func arg handler;
      gate = λ found.
          ap
            (λ b. target ((if not b then set_idt_gate v.idt vector to 0x08 0x8E else v.idt) vector))
            (ne→== vector 0 found)
          ∙ set vector
          ∙ ap (λ b. if b then to else target (v.idt vector)) (==_refl vector);
      others = λ i other. elim (ℕ_discrete vector 0) [
        | yes none_free ↦
            ap (λ b. target ((if not b then set_idt_gate v.idt vector to 0x08 0x8E else v.idt) i))
              (==_true vector 0 none_free)
        | no found ↦
            ap (λ b. target ((if not b then set_idt_gate v.idt vector to 0x08 0x8E else v.idt) i))
              (ne→== vector 0 found)
            ∙ set i
            ∙ ap (λ b. if b then to else target (v.idt i)) (ne→== i vector other)
      ];
    }
