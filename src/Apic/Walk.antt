-- ===== src/Apic/Walk.antt =====
-- The walk over the records of the MADT of src/cpu/apic.c, whatever the table holds.
use tomato_os.Base.{
  ℕ, zero, suc, ◌+◌, ◌^◌, ◌≤◌, ◌<◌, ◌≡◌, refl, ap, ◌∙◌, ◌⊎◌, inl, inr, ◌&&◌, List, [], ◌∷◌, arith,
  dec_lt, ◌==◌, if◌then◌else◌, lt→ltb, le→ltb, length,
}
use tomato_os.Base.Word.{add64}
use tomato_os.Base.Bytes.{Bytes, le32}
use tomato_os.Apic.{
  Apic, Walked, walked, malformed, too_many, apic_type_io, apic_type_io_override, entry_type,
  record_length, irq_source, override_gsi, add_ioapic, add_override, take_entry, walk, walk_madt,
  sizeof_madt,
}

-- The records from `offset` to `last` lie one behind the other, each of two bytes or more and within
-- the table, which ends at `end`.
abbrev pub Chain : Bytes → (end offset : ℕ) (offsets : List ℕ) (last : ℕ) → Type 0
Chain madt end offset [] last = last ≡ offset
Chain madt end offset (o ∷ rest) last =
    (o ≡ offset)
    × (offset < end)
    × (2 ≤ record_length madt offset)
    × (offset + record_length madt offset ≤ end)
    × Chain madt end (offset + record_length madt offset) rest last

-- Where interrupt `irq` goes: to what the last override for it says, or else to `default`.
abbrev pub routed : Bytes → List ℕ → (irq default : ℕ) → ℕ
routed madt [] irq default = default
routed madt (o ∷ offsets) irq default =
    let here = entry_type madt o == apic_type_io_override && irq_source madt o == irq in
    routed madt offsets irq (if here then override_gsi madt o else default)

-- The number of I/O APICs.
abbrev pub ioapics : Bytes → List ℕ → ℕ
ioapics madt [] = 0
ioapics madt (o ∷ offsets) =
    (if entry_type madt o == apic_type_io then 1 else 0) + ioapics madt offsets

-- What the records do to the first 16 interrupts and to the number of I/O APICs.
pub record Taken (madt : Bytes) (offsets : List ℕ) (a a' : Apic) : Type 0 where
  pub overrides : (i : ℕ) → i < 16 → a'.irq_overrides i ≡ routed madt offsets i (a.irq_overrides i)
  pub outside : (i : ℕ) → 16 ≤ i → a'.irq_overrides i ≡ a.irq_overrides i
  pub count : a'.ioapic_count ≡ a.ioapic_count + ioapics madt offsets

take_entry-Taken : (madt : Bytes) (o : ℕ) (a : Apic) → Taken madt (o ∷ []) a (take_entry madt o a)
unfolding take_entry add_ioapic add_override
take_entry-Taken madt o a = record {
  overrides = λ i lt. ground arith;
  outside = λ i le. ground arith;
  count = ground arith;
}

Taken-cons :
    (madt : Bytes) (o : ℕ) (offsets : List ℕ) {a b c : Apic}
    → Taken madt (o ∷ []) a b
    → Taken madt offsets b c
    → Taken madt (o ∷ offsets) a c
Taken-cons madt o offsets s t = record {
  overrides = λ i lt. t.overrides i lt ∙ ap (routed madt offsets i) (s.overrides i lt);
  outside = λ i le. t.outside i le ∙ s.outside i le;
  count = omega (arith, t.count, s.count);
}

-- How the walk from `offset` on ends.
pub data Ended (madt : Bytes) (end offset seen : ℕ) (a : Apic) : Walked → Type 0 where
  whole :
      {a' : Apic} (offsets : List ℕ) (last : ℕ)
      → Chain madt end offset offsets last
      → end ≤ last
      → seen + length offsets ≤ 256
      → Taken madt offsets a a'
      → Ended madt end offset seen a (walked a')
  broken :
      (offsets : List ℕ) (last : ℕ)
      → Chain madt end offset offsets last
      → last < end
      → (record_length madt last < 2) ⊎ (end < last + record_length madt last)
      → Ended madt end offset seen a (malformed last)
  overlong :
      (offsets : List ℕ) (last : ℕ)
      → Chain madt end offset offsets last
      → seen + length offsets ≡ 257
      → Ended madt end offset seen a too_many

-- A record in front of the rest.
Ended-cons :
    (madt : Bytes) (end offset seen : ℕ) (a b : Apic) {r : Walked}
    → offset < end
    → 2 ≤ record_length madt offset
    → offset + record_length madt offset ≤ end
    → Taken madt (offset ∷ []) a b
    → Ended madt end (offset + record_length madt offset) (seen + 1) b r
    → Ended madt end offset seen a r
Ended-cons madt end offset seen a b lt two fits t (whole offsets last chain out few taken) =
    whole (offset ∷ offsets) last (refl, lt, two, fits, chain) out (omega arith)
      (Taken-cons madt offset offsets t taken)
Ended-cons madt end offset seen a b lt two fits t (broken offsets last chain inside bad) =
    broken (offset ∷ offsets) last (refl, lt, two, fits, chain) inside bad
Ended-cons madt end offset seen a b lt two fits t (overlong offsets last chain many) =
    overlong (offset ∷ offsets) last (refl, lt, two, fits, chain) (omega arith)

walk-Ended :
    (fuel : ℕ) (madt : Bytes) (end offset seen : ℕ) (a : Apic)
    → end < 2 ^ 32
    → seen ≤ 256
    → 258 ≤ fuel + seen
    → Ended madt end offset seen a (walk fuel madt end offset seen a)
unfolding walk
walk-Ended zero madt end offset seen a word few enough = absurd (omega arith)
walk-Ended (suc fuel) madt end offset seen a word few enough = elim (dec_lt offset end) [
  | no over ↦ rw (le→ltb offset end (omega arith)) (
      whole [] offset refl (omega arith) (omega arith)
        (record { overrides = λ i lt. refl; outside = λ i le. refl; count = omega arith }))
  | yes lt ↦
      let len = record_length madt offset in
      let sum : add64 offset len ≡ offset + len = omega arith in
      rw (lt→ltb offset end lt) (elim (dec_lt len 2) [
        | yes short ↦ rw (lt→ltb len 2 short) (broken [] offset refl lt (inl short))
        | no two ↦ rw (le→ltb len 2 (omega arith)) (elim (dec_lt end (offset + len)) [
          | yes out ↦
              rw (lt→ltb end (add64 offset len) (omega arith)) (broken [] offset refl lt (inr out))
          | no fits ↦ rw (le→ltb end (add64 offset len) (omega arith)) (elim (dec_lt seen 256) [
            | no full ↦ rw (lt→ltb 256 (seen + 1) (omega arith)) (
                overlong (offset ∷ []) (offset + len) (refl, lt, omega arith, omega arith, refl)
                  (omega arith))
            | yes more ↦
                rw (le→ltb 256 (seen + 1) (omega arith), sum)
                  (Ended-cons madt end offset seen a (take_entry madt offset a) lt (omega arith)
                    (omega arith) (take_entry-Taken madt offset a)
                    (walk-Ended fuel madt end (offset + len) (seen + 1) (take_entry madt offset a)
                      word (omega arith) (omega arith)))
          ])
        ])
      ])
]

-- Whatever the table holds, the walk over it ends: with at most 256 records that lie one behind the
-- other and fill the table, each of the 16 interrupts routed as the last override for it says, or else
-- to itself, and the I/O APICs counted; or at a record behind others that is shorter than its header or
-- runs over the end of the table; or behind 257 records.
pub walk_madt-Ended :
    (madt : Bytes) (a : Apic)
    → Ended madt
        (le32 madt 4)
        sizeof_madt
        0
        (record a { irq_overrides = λ i. i; ioapic_count = 0 })
        (walk_madt madt a)
unfolding walk_madt
walk_madt-Ended madt a =
    walk-Ended 258 madt (le32 madt 4) sizeof_madt 0 _ (omega arith) (omega arith) (omega arith)
