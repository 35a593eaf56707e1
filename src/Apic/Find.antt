-- ===== src/Apic/Find.antt =====
-- The search for the MADT of src/cpu/apic.c, over the tables that the RSDT lists. Memory is a byte at
-- each address; the tables are reached at `hhdm` above their physical addresses.
use tomato_os.Base.{
  ℕ, zero, suc, ◌+◌, ◌*◌, ◌/◌, ◌≤◌, ◌<◌, ◌≡◌, refl, sym, ap, ◌∙◌, inl, inr, Bool, true, false,
  arith, ℕ_discrete, ◌==◌, if◌then◌else◌, Bool-cases,
}
use tomato_os.Base.Word.{add64, sub64}
use tomato_os.Base.Bytes.{Bytes, le32}
use tomato_os.Strings.{same_bytes}

-- `sizeof(root_rsdt->header)`
abbrev pub sizeof_sdt_header : ℕ
sizeof_sdt_header = 36

-- The signature "APIC".
abbrev pub madt_signature : Bytes
madt_signature i = if i == 0 then 0x41 else if i == 1 then 0x50 else if i == 2 then 0x49 else 0x43

-- `num_entries`: the subtraction is one of 64 bits.
abbrev pub num_entries : (memory : Bytes) (rsdt : ℕ) → ℕ
num_entries memory rsdt =
    let length = le32 (λ o. memory (rsdt + o)) 4 in sub64 length sizeof_sdt_header / 4

-- `this_header`, the address of the table in entry `i`
abbrev pub header_at : (memory : Bytes) (hhdm rsdt i : ℕ) → ℕ
header_at memory hhdm rsdt i =
    add64 (le32 (λ o. memory (rsdt + o)) (sizeof_sdt_header + 4 * i)) hhdm

-- Whether the table at `header` is an MADT.
abbrev pub is_madt : (memory : Bytes) (header : ℕ) → Bool
is_madt memory header = same_bytes (λ o. memory (header + o)) madt_signature 4

-- The loop of `find_MADT` from entry `i` on, with `n` entries to go.
unfoldable pub find_from : (memory : Bytes) (hhdm rsdt i n : ℕ) → ℕ
find_from memory hhdm rsdt i zero = 0
find_from memory hhdm rsdt i (suc n) =
    let header = header_at memory hhdm rsdt i in
    let rest = find_from memory hhdm rsdt (i + 1) n in
    if is_madt memory header then header else rest

unfoldable pub find_madt : (memory : Bytes) (hhdm rsdt : ℕ) → ℕ
find_madt memory hhdm rsdt = find_from memory hhdm rsdt 0 (num_entries memory rsdt)

-- `result` is the address of the first MADT among the entries from `i` to `last`, or 0 when none of
-- them is one.
pub data FirstMadt (memory : Bytes) (hhdm rsdt i last result : ℕ) : Type 0 where
  found :
      (k : ℕ)
      → i ≤ k
      → k < last
      → is_madt memory (header_at memory hhdm rsdt k) ≡ true
      → ((j : ℕ) → i ≤ j → j < k → is_madt memory (header_at memory hhdm rsdt j) ≡ false)
      → result ≡ header_at memory hhdm rsdt k
      → FirstMadt memory hhdm rsdt i last result
  missing :
      ((j : ℕ) → i ≤ j → j < last → is_madt memory (header_at memory hhdm rsdt j) ≡ false)
      → result ≡ 0
      → FirstMadt memory hhdm rsdt i last result

-- The entries from `i` on are those from `i + 1` on and entry `i` itself.
pub before_lem :
    (memory : Bytes) (hhdm rsdt i last : ℕ)
    → is_madt memory (header_at memory hhdm rsdt i) ≡ false
    → ((j : ℕ) → i + 1 ≤ j → j < last → is_madt memory (header_at memory hhdm rsdt j) ≡ false)
    → (j : ℕ) → i ≤ j
    → j < last
    → is_madt memory (header_at memory hhdm rsdt j) ≡ false
before_lem memory hhdm rsdt i last here rest j le lt = elim (ℕ_discrete j i) [
  | yes same ↦ ap (λ k. is_madt memory (header_at memory hhdm rsdt k)) same ∙ here
  | no other ↦ rest j (omega arith) lt
]

pub find_from-FirstMadt :
    (memory : Bytes) (hhdm rsdt i n last : ℕ)
    → i + n ≡ last
    → FirstMadt memory hhdm rsdt i last (find_from memory hhdm rsdt i n)
unfolding find_from
find_from-FirstMadt memory hhdm rsdt i zero last sum = missing (λ j le lt. ground arith) refl
find_from-FirstMadt memory hhdm rsdt i (suc n) last sum =
    let header = header_at memory hhdm rsdt i in
    let rest = find_from memory hhdm rsdt (i + 1) n in
    elim (Bool-cases (is_madt memory header)) [
      | inl here ↦
          found i (omega arith) (omega arith) here (λ j le lt. ground arith)
            (ap (λ b. if b then header else rest) here)
      | inr other ↦
          let skip = ap (λ b. if b then header else rest) other in
          elim (find_from-FirstMadt memory hhdm rsdt (i + 1) n last (omega arith)) [
            | found k le lt is_here before eq ↦
                found k (omega arith) (omega arith) is_here
                  (before_lem memory hhdm rsdt i k other before) (skip ∙ eq)
            | missing none_of eq ↦
                missing (before_lem memory hhdm rsdt i last other none_of) (skip ∙ eq)
          ]
    ]

-- `find_MADT` gives the address of the first table with the signature "APIC" among those that the RSDT
-- lists, or null when there is none.
pub find_madt-FirstMadt :
    (memory : Bytes) (hhdm rsdt : ℕ)
    → FirstMadt memory hhdm rsdt 0 (num_entries memory rsdt) (find_madt memory hhdm rsdt)
unfolding find_madt
find_madt-FirstMadt memory hhdm rsdt =
    let n = num_entries memory rsdt in find_from-FirstMadt memory hhdm rsdt 0 n n (omega arith)

pub null_lem :
    {memory : Bytes} {hhdm rsdt i last r : ℕ}
    → FirstMadt memory hhdm rsdt i last r
    → r ≡ 0
    → FirstMadt memory hhdm rsdt i last 0
null_lem (found k le lt here before eq) z = found k le lt here before (sym z ∙ eq)
null_lem (missing none_of eq) z = missing none_of refl
