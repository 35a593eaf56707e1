-- ===== src/Descriptors.antt =====
-- The descriptor tables of src/cpu/gdt.c and src/cpu/idt.c: how an entry is put together from the
-- values that it stands for. The loads of the tables into the processor are left out.
pub mod Gates
mod Tests
use tomato_os.Base.{
  ℕ, zero, suc, ◌+◌, ◌-◌, ◌*◌, ◌/◌, ◌%◌, ◌^◌, ◌≤◌, ◌<◌, bit_and, bit_or, bit_xor, ◌≡◌, refl, sym,
  ap, ◌∙◌, fun_ext, ◌≢◌, ◌↔◌, ◌⊎◌, inl, inr, Bool, true, false, ◌&&◌, ◌||◌, not, Option, none, some,
  List, [], ◌∷◌, ◌++◌, arith, dec_lt, dec_le, ℕ_discrete, ltb, leb, ◌==◌, if◌then◌else◌, ltb→lt,
  lt→ltb, ltb→le, le→ltb, ==_iff, ==_refl, ==_true, ne→==, Bool-cases, Option-cases, all_below,
  all_below_sound, length, get_elem?, set, length-append, length-set,
}
use tomato_os.Base.Word.{wrap32}

-- `struct InterruptDescriptor64`
pub record InterruptDescriptor : Type 0 where
  pub address_low : ℕ
  pub selector : ℕ
  pub ist : ℕ
  pub flags : ℕ
  pub address_mid : ℕ
  pub address_high : ℕ
  pub reserved : ℕ

abbrev pub Idt : Type 0
Idt = ℕ → InterruptDescriptor

abbrev pub zero_descriptor : InterruptDescriptor
zero_descriptor = record {
  address_low = 0;
  selector = 0;
  ist = 0;
  flags = 0;
  address_mid = 0;
  address_high = 0;
  reserved = 0;
}

-- `setIdtGate`: the reserved word is not written. `base` is an address, `num` a byte.
pub set_idt_gate : Idt → (num base sel flags : ℕ) → Idt
set_idt_gate idt num base sel flags i =
    if i == num
    then record (idt num) {
      address_low = base % 2 ^ 16;
      address_mid = base / 2 ^ 16 % 2 ^ 16;
      address_high = base / 2 ^ 32 % 2 ^ 32;
      selector = sel;
      flags = flags;
      ist = 0;
    }
    else idt i

-- The gates of `InitIdt`, each with the vector; handler `n` stands for the function of that vector.
abbrev pub exception_vectors : List ℕ
exception_vectors =
    0 ∷ 1 ∷ 3 ∷ 4 ∷ 5 ∷ 6 ∷ 7 ∷ 8 ∷ 9 ∷ 10 ∷ 11 ∷ 12 ∷ 13 ∷ 14 ∷ 16 ∷ 17 ∷ 18 ∷ 19 ∷ 20 ∷ 32 ∷ 33
    ∷ []

pub set_gates : Idt → (handler : ℕ → ℕ) → List ℕ → Idt
set_gates idt handler [] = idt
set_gates idt handler (v ∷ vs) = set_gates (set_idt_gate idt v (handler v) 0x08 0x8E) handler vs

pub init_idt : (handler : ℕ → ℕ) → Idt
init_idt handler = set_gates (λ i. zero_descriptor) handler exception_vectors

-- `struct gdt_entry_struct`
pub record GdtEntry : Type 0 where
  pub limit_low : ℕ
  pub base_low : ℕ
  pub base_middle : ℕ
  pub access : ℕ
  pub limit_high : ℕ
  pub flags : ℕ
  pub base_high : ℕ

abbrev pub Gdt : Type 0
Gdt = ℕ → GdtEntry

abbrev pub zero_segment : GdtEntry
zero_segment = record {
  limit_low = 0;
  base_low = 0;
  base_middle = 0;
  access = 0;
  limit_high = 0;
  flags = 0;
  base_high = 0;
}

-- `setGdtGate`: the upper four bits of the limit are not written, and `flags` has four bits.
pub set_gdt_gate : Gdt → (num base limit access gran : ℕ) → Gdt
set_gdt_gate gdt num base limit access gran i =
    if i == num
    then record (gdt num) {
      limit_low = limit % 2 ^ 16;
      base_low = base % 2 ^ 16;
      base_middle = base / 2 ^ 16 % 2 ^ 8;
      base_high = base / 2 ^ 24 % 2 ^ 8;
      flags = gran % 2 ^ 4;
      access = access;
    }
    else gdt i

-- The part of the table that `initGdt` fills by `setGdtGate`, from a table of zeros.
pub init_segments : Gdt
init_segments =
    let g0 = set_gdt_gate (λ i. zero_segment) 0 0 0 0 0 in
    let g1 = set_gdt_gate g0 1 0 0xFFFFF 0x9A 0xA in
    let g2 = set_gdt_gate g1 2 0 0xFFFFF 0x92 0xC in
    let g3 = set_gdt_gate g2 3 0 0xFFFFF 0xFA 0xA in set_gdt_gate g3 4 0 0xFFFFF 0xF2 0xC

-- `struct gdt_tss_entry_struct`: an entry with the upper half of its base, and a reserved word.
pub record GdtTssEntry : Type 0 where
  pub entry : GdtEntry
  pub base_upper32 : ℕ
  pub reserved : ℕ

-- `write_tss`, which writes the entry over two places of the table.
pub tss_entry : (base limit access gran : ℕ) → GdtTssEntry
tss_entry base limit access gran = record {
  entry = record {
    limit_low = limit % 2 ^ 16;
    base_low = base % 2 ^ 16;
    base_middle = base / 2 ^ 16 % 2 ^ 8;
    access = access;
    limit_high = limit / 2 ^ 16 % 2 ^ 4;
    flags = gran % 2 ^ 4;
    base_high = base / 2 ^ 24 % 2 ^ 8;
  };
  base_upper32 = wrap32 (base / 2 ^ 32);
  reserved = 0;
}
