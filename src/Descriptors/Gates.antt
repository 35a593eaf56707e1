-- ===== src/Descriptors/Gates.antt =====
-- What the processor reads out of the descriptors of src/cpu/gdt.c and src/cpu/idt.c.
use tomato_os.Base.{
  ℕ, ◌+◌, ◌*◌, ◌%◌, ◌^◌, ◌<◌, ◌≡◌, refl, ap, Bool, false, ◌||◌, List, [], ◌∷◌, arith, ℕ_discrete,
  ◌==◌, if◌then◌else◌, ==_refl, ==_true, ne→==,
}
use tomato_os.Descriptors.{
  InterruptDescriptor, Idt, zero_descriptor, set_idt_gate, exception_vectors, set_gates, init_idt,
  GdtEntry, Gdt, set_gdt_gate, tss_entry,
}

-- The address that a gate leads to.
abbrev pub target : InterruptDescriptor → ℕ
target d = d.address_low + 2 ^ 16 * d.address_mid + 2 ^ 32 * d.address_high

abbrev pub segment_base : GdtEntry → ℕ
segment_base e = e.base_low + 2 ^ 16 * e.base_middle + 2 ^ 24 * e.base_high

abbrev pub segment_limit : GdtEntry → ℕ
segment_limit e = e.limit_low + 2 ^ 16 * e.limit_high

abbrev pub is_in : (v : ℕ) → List ℕ → Bool
is_in v [] = false
is_in v (x ∷ xs) = v == x || is_in v xs

pub target-set_idt_gate :
    (idt : Idt) (num base sel flags i : ℕ)
    → base < 2 ^ 64
    → target (set_idt_gate idt num base sel flags i) ≡ (if i == num then base else target (idt i))
unfolding set_idt_gate
target-set_idt_gate idt num base sel flags i word = elim (ℕ_discrete i num) [
  | yes here ↦ rw (==_true i num here) (omega arith)
  | no other ↦ rw (ne→== i num other) refl
]

set_gates_lem :
    (idt : Idt) (handler : ℕ → ℕ) (vs : List ℕ) (i : ℕ)
    → ((v : ℕ) → handler v < 2 ^ 64)
    → target (set_gates idt handler vs i) ≡ (if is_in i vs then handler i else target (idt i))
unfolding set_gates
set_gates_lem idt handler [] i word = refl
set_gates_lem idt handler (v ∷ vs) i word =
    let rest = set_gates_lem (set_idt_gate idt v (handler v) 0x08 0x8E) handler vs i word in
    let one = target-set_idt_gate idt v (handler v) 0x08 0x8E i (word v) in
    elim (ℕ_discrete i v) [
      | yes here ↦ ground (arith, rest, one, ap handler here)
      | no other ↦ ground (arith, rest, one)
    ]

-- The processor finds the whole base of a task state segment, and its limit up to 20 bits; of any
-- other segment whose entry was zero before it finds the base up to 32 bits, but of its limit only the
-- lower 16 bits.
pub segments_lem :
    (gdt : Gdt) (num base limit access gran : ℕ)
    → base < 2 ^ 64
    → (gdt num).limit_high ≡ 0
    → let t = tss_entry base limit access gran in
      let e = set_gdt_gate gdt num base limit access gran num in
      (segment_base t.entry + 2 ^ 32 * t.base_upper32 ≡ base)
      × (segment_limit t.entry ≡ limit % 2 ^ 20)
      × (segment_base e ≡ base % 2 ^ 32)
      × (segment_limit e ≡ limit % 2 ^ 16)
unfolding set_gdt_gate tss_entry
segments_lem gdt num base limit access gran word zeros = rw (==_refl num) (omega arith)

-- Behind `InitIdt`, each vector that it sets leads to its function, and every other one to address 0.
pub target-init_idt :
    (handler : ℕ → ℕ) (i : ℕ)
    → ((v : ℕ) → handler v < 2 ^ 64)
    → target (init_idt handler i) ≡ (if is_in i exception_vectors then handler i else 0)
unfolding init_idt
target-init_idt handler i word =
    set_gates_lem (λ j. zero_descriptor) handler exception_vectors i word
