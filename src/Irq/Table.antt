-- ===== src/Irq/Table.antt =====
-- What the vectors of src/cpu/irq.c lead to.
use tomato_os.Base.{
  ℕ, zero, suc, ◌+◌, ◌-◌, ◌≤◌, ◌<◌, ◌≡◌, sym, ap, ◌∙◌, ◌≢◌, inl, inr, true, false, ◌||◌, Option,
  none, some, arith, dec_lt, ℕ_discrete, ltb, leb, ==_refl, ==_true, ne→==, Bool-cases,
}
use mathlib.Core.Path.{subst}
use tomato_os.Irq.{
  Irq, IrqTable, max_dynamic_irqs, dynamic_irq_base, put, free_slot, irq_create, irq_destroy,
  irq_trampoline,
}

-- The search: the first slot from `i` on that is free.
pub data Slot (table : IrqTable) (i n : ℕ) : Option ℕ → Type 0 where
  full : ((j : ℕ) → i ≤ j → j < i + n → (table j).used ≡ true) → Slot table i n none
  at : (j : ℕ) → i ≤ j → j < i + n → (table j).used ≡ false → Slot table i n (some j)

free_slot-Slot : (table : IrqTable) (i n : ℕ) → Slot table i n (free_slot table i n)
unfolding free_slot
free_slot-Slot table i zero = full (λ j le lt. absurd (omega arith))
free_slot-Slot table i (suc n) = elim (Bool-cases (table i).used) [
  | inr free ↦ rw free (at i (omega arith) (omega arith) free)
  | inl taken ↦ rw taken (behind taken (free_slot-Slot table (i + 1) n))
]
  where
    behind :
        {r : Option ℕ} → (table i).used ≡ true → Slot table (i + 1) n r → Slot table i (suc n) r
    behind taken (full all) = full (λ j le lt. elim (dec_lt i j) [
      | yes past ↦ all j (omega arith) (omega arith)
      | no here ↦ subst (λ k. (table k).used ≡ true) (omega arith) taken
    ])
    behind taken (at j le lt free) = at j (omega arith) (omega arith) free

destroyed :
    (table : IrqTable) (irq : Irq) (slot j : ℕ)
    → slot < max_dynamic_irqs
    → (table slot).used ≡ false
    → (irq_destroy (put table slot irq) (dynamic_irq_base + slot) j).used ≡ (table j).used
unfolding irq_destroy
destroyed table irq slot j lt free =
    let valid : (ltb (dynamic_irq_base + slot) dynamic_irq_base
          || leb max_dynamic_irqs (dynamic_irq_base + slot - dynamic_irq_base))
        ≡ false =
      ground arith in
    let back : dynamic_irq_base + slot - dynamic_irq_base ≡ slot = omega arith in
    elim (ℕ_discrete slot j) [
      | yes here ↦ rw (valid, back, ==_true slot j here) (sym free ∙ ap (λ k. (table k).used) here)
      | no other ↦ rw (valid, back, ne→== slot j other)
    ]

-- How `irq_create` ends: all slots are in use, or the handler has a slot that was free before, its
-- vector leads to it, the other slots are as before, and `irq_destroy` frees the slot again.
pub data Installed (table : IrqTable) (func arg : ℕ) : ℕ × IrqTable → Type 0 where
  none_free :
      ((j : ℕ) → j < max_dynamic_irqs → (table j).used ≡ true) → Installed table func arg (0, table)
  installed :
      {table' : IrqTable} (slot : ℕ)
      → slot < max_dynamic_irqs
      → (table slot).used ≡ false
      → irq_trampoline table' slot ≡ some (func, arg)
      → ((j : ℕ) → j ≢ slot → irq_trampoline table' j ≡ irq_trampoline table j)
      → ((j : ℕ) → (irq_destroy table' (dynamic_irq_base + slot) j).used ≡ (table j).used)
      → Installed table func arg (dynamic_irq_base + slot, table')

-- For a handler that is not null, `irq_create` installs it in a free slot, whose vector is the
-- result, and leaves the handlers of the other slots alone, until `irq_destroy` of that vector; or it
-- gives 0 and changes nothing, and then all eight slots are in use.
pub irq_create-Installed :
    (table : IrqTable) (func arg : ℕ)
    → func ≢ 0
    → Installed table func arg (irq_create table func arg)
unfolding irq_create irq_trampoline irq_destroy
irq_create-Installed table func arg handler = in_slot (free_slot-Slot table 0 max_dynamic_irqs)
  where
    in_slot :
        {r : Option ℕ}
        → Slot table 0 max_dynamic_irqs r
        → Installed table func arg (elim r [
          | none ↦ (0, table)
          | some slot ↦ (
            dynamic_irq_base + slot,
            put table slot (record { func = func; arg = arg; used = true }),
          )
        ])
    in_slot (full all) = none_free (λ j lt. all j (omega arith) (omega arith))
    in_slot (at slot le lt free) =
        installed slot (omega arith) free (rw (==_refl slot, ne→== func 0 handler))
          (λ j other. rw (ne→== slot j (omega (arith, other))))
          (λ j. destroyed table _ slot j (omega arith) free)
