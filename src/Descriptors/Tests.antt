-- ===== src/Descriptors/Tests.antt =====
-- Entries of the tables of src/cpu/gdt.c and src/cpu/idt.c.
use tomato_os.Base.{◌+◌, ◌*◌, ◌≡◌, refl}
use tomato_os.Descriptors.{set_idt_gate, set_gates, init_idt, set_gdt_gate, init_segments}
use tomato_os.Descriptors.Gates.{target, segment_limit}

timer_gate :
    (target (init_idt (λ v. 0xffff_ffff_8000_0000 + 16 * v) 32) ≡ 0xffff_ffff_8000_0200)
    × (target (init_idt (λ v. 0xffff_ffff_8000_0000 + 16 * v) 15) ≡ 0)
unfolding init_idt set_gates set_idt_gate
timer_gate = (refl, refl)

-- The limit 0xFFFFF of the kernel code segment keeps only 16 bits.
code_limit : segment_limit (init_segments 1) ≡ 0xFFFF
unfolding init_segments set_gdt_gate
code_limit = refl
