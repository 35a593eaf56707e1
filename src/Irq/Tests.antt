-- ===== src/Irq/Tests.antt =====
-- Vectors made and given up by src/cpu/irq.c, and the theorem at one.
use tomato_os.Base.{◌≡◌, refl, none, arith, ◌==◌, ◌+◌, ◌*◌, ◌%◌, ◌^◌, if◌then◌else◌}
use tomato_os.Irq.{init_irq_subsystem, free_slot, irq_create, irq_destroy, irq_trampoline}
use tomato_os.Irq.Wiring.{Vectors, create_vector, Wired, create_vector-Wired}
use tomato_os.Descriptors.{zero_descriptor}

first_vector : (irq_create init_irq_subsystem 7 9).0 ≡ 48
unfolding irq_create free_slot init_irq_subsystem
first_vector = refl

second_vector : (irq_create (irq_create init_irq_subsystem 7 9).1 5 5).0 ≡ 49
unfolding irq_create free_slot init_irq_subsystem
second_vector = refl

given_up : irq_trampoline (irq_destroy (irq_create init_irq_subsystem 7 9).1 48) 0 ≡ none
unfolding irq_create free_slot init_irq_subsystem irq_destroy irq_trampoline
given_up = refl

abbrev start : Vectors
start = record {
  table = init_irq_subsystem;
  idt = λ i. zero_descriptor;
  regs = λ r. 0x1_0000;
  irq_overrides = λ i. if i == 0 then 2 else i;
  gsi_base = 0;
}

-- Interrupt 0, which is overridden to 2.
create_vector-Wired_example :
    let (vector, v) = create_vector (λ n. 0x1000 + 64 * n % 2 ^ 10) start 0 1 7 9 in
    Wired (λ n. 0x1000 + 64 * n % 2 ^ 10) start 7 9 vector v
create_vector-Wired_example =
    create_vector-Wired (λ n. 0x1000 + 64 * n % 2 ^ 10) start 0 1 7 9 (λ n. omega arith)
      (omega arith)
