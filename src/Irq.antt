-- ===== src/Irq.antt =====
-- The dynamic interrupt vectors of src/cpu/irq.c: a table of eight slots. A handler and its argument
-- stand for the addresses that are kept. What `irq_create` does besides, with the interrupt table and
-- the I/O APIC, is in Wiring.
pub mod Table
pub mod Wiring
mod Tests
use tomato_os.Base.{
  ℕ, zero, suc, ◌+◌, ◌-◌, Bool, true, false, ◌||◌, Option, none, some, ltb, leb, ◌==◌,
  if◌then◌else◌,
}

-- MAX_DYNAMIC_IRQS
abbrev pub max_dynamic_irqs : ℕ
max_dynamic_irqs = 8

-- DYNAMIC_IRQ_BASE
abbrev pub dynamic_irq_base : ℕ
dynamic_irq_base = 48

-- `irq_t`
pub record Irq : Type 0 where
  pub func : ℕ
  pub arg : ℕ
  pub used : Bool

abbrev pub IrqTable : Type 0
IrqTable = ℕ → Irq

abbrev pub put : IrqTable → (slot : ℕ) → Irq → IrqTable
put table slot irq i = if slot == i then irq else table i

abbrev pub no_irq : Irq
no_irq = record { func = 0; arg = 0; used = false }

-- `init_irq_subsystem`
unfoldable pub init_irq_subsystem : IrqTable
init_irq_subsystem i = no_irq

-- The search of `irq_create` from slot `i` on, of `n`.
unfoldable pub free_slot : IrqTable → (i n : ℕ) → Option ℕ
free_slot table i zero = none
free_slot table i (suc n) =
    let rest = free_slot table (i + 1) n in if (table i).used then rest else some i

-- `irq_create`: the vector, or 0 where no slot is free.
unfoldable pub irq_create : IrqTable → (func arg : ℕ) → ℕ × IrqTable
irq_create table func arg = elim (free_slot table 0 max_dynamic_irqs) [
  | none ↦ (0, table)
  | some slot ↦
      (dynamic_irq_base + slot, put table slot (record { func = func; arg = arg; used = true }))
]

-- `irq_destroy`
unfoldable pub irq_destroy : IrqTable → (vector : ℕ) → IrqTable
irq_destroy table vector =
    if ltb vector dynamic_irq_base || leb max_dynamic_irqs (vector - dynamic_irq_base)
    then table
    else put table (vector - dynamic_irq_base) no_irq

-- `IRQ_TRAMPOLINE(n)`: the handler that is called, with its argument, before the interrupt is ended.
unfoldable pub irq_trampoline : IrqTable → (n : ℕ) → Option (ℕ × ℕ)
irq_trampoline table n =
    let irq = table n in
    if irq.used then (if irq.func == 0 then none else some (irq.func, irq.arg)) else none
