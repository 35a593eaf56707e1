-- ===== src/Pci/Calls.antt =====
-- The calls of drivers that `__pci_launch` of src/drivers/x86/pci.c makes for a function.
use tomato_os.Base.{
  ℕ, zero, suc, ◌+◌, ◌≤◌, ◌<◌, ◌≡◌, refl, sym, ap, ◌∙◌, ◌↔◌, inl, inr, true, List, [], ◌∷◌, ◌++◌,
  arith, ℕ_discrete, if◌then◌else◌, Bool-cases,
}
use mathlib.Core.Path.{subst}
use mathlib.Core.Bool.{false≢true}
use tomato_os.Pci.{PciDriver, PciDevice, Call, call_drivers, matches}

-- A driver that is in use for the class and the subclass of a function.
abbrev pub Serves : PciDriver → PciDevice → Type 0
Serves drv d =
    (drv.used ≡ true) × (drv.class_code ≡ d.header.class_code) × (drv.subclass ≡ d.header.subclass)

-- The places from `lo` to `hi` whose drivers serve `d` are those in the list, in ascending order.
abbrev pub Servers : (ℕ → PciDriver) → PciDevice → (lo hi : ℕ) → List ℕ → Type 0
Servers drivers d lo hi [] = (j : ℕ) → lo ≤ j → j < hi → ¬ (Serves (drivers j) d)
Servers drivers d lo hi (i ∷ is) =
    (lo ≤ i)
    × (i < hi)
    × ((j : ℕ) → lo ≤ j → j < i → ¬ (Serves (drivers j) d))
    × Serves (drivers i) d
    × Servers drivers d (i + 1) hi is

-- One call for each place in the list.
abbrev pub calls_at : (ℕ → PciDriver) → PciDevice → List ℕ → List Call
calls_at drivers d [] = []
calls_at drivers d (i ∷ is) =
    record { driver = (drivers i).pcidrv; target = d } ∷ calls_at drivers d is

-- The calls that a list of functions leads to: for each in turn, one for each of the 256 drivers that
-- serve it, in the order of the table.
pub data CallsFor (drivers : ℕ → PciDriver) : List PciDevice → List Call → Type 0 where
  no_function : CallsFor drivers [] []
  next_function :
      {d : PciDevice} {ds : List PciDevice} {calls : List Call} (is : List ℕ)
      → Servers drivers d 0 256 is
      → CallsFor drivers ds calls
      → CallsFor drivers (d ∷ ds) (calls_at drivers d is ++ calls)

pub matches_iff : (drv : PciDriver) (d : PciDevice) → (matches drv d.header ≡ true) ↔ Serves drv d
matches_iff drv d = ground arith

pub before_lem :
    (drivers : ℕ → PciDriver) (d : PciDevice) (lo hi : ℕ)
    → ¬ (Serves (drivers lo) d)
    → ((j : ℕ) → lo + 1 ≤ j → j < hi → ¬ (Serves (drivers j) d))
    → (j : ℕ) → lo ≤ j
    → j < hi
    → ¬ (Serves (drivers j) d)
before_lem drivers d lo hi here rest j le lt serves = elim (ℕ_discrete j lo) [
  | yes same ↦ here (subst (λ i. Serves (drivers i) d) same serves)
  | no other ↦ rest j (omega arith) lt serves
]

pub Servers-skip :
    (drivers : ℕ → PciDriver) (d : PciDevice) (lo hi : ℕ) (is : List ℕ)
    → ¬ (Serves (drivers lo) d)
    → Servers drivers d (lo + 1) hi is
    → Servers drivers d lo hi is
Servers-skip drivers d lo hi [] here rest = before_lem drivers d lo hi here rest
Servers-skip drivers d lo hi (i ∷ is) here (le, lt, before, serves, rest) =
    (omega arith, lt, before_lem drivers d lo i here before, serves, rest)

pub call_drivers-Servers :
    (n : ℕ) (drivers : ℕ → PciDriver) (lo hi : ℕ) (d : PciDevice)
    → lo + n ≡ hi
    → (is : List ℕ) × Servers drivers d lo hi is
      × (call_drivers n drivers lo d ≡ calls_at drivers d is)
unfolding call_drivers
call_drivers-Servers zero drivers lo hi d sum = ([], (λ j le lt. absurd (omega arith)), refl)
call_drivers-Servers (suc n) drivers lo hi d sum =
    let (is, servers, e) = call_drivers-Servers n drivers (lo + 1) hi d (omega arith) in
    let rest = call_drivers n drivers (lo + 1) d in
    let call : Call = record { driver = (drivers lo).pcidrv; target = d } in
    elim (Bool-cases (matches (drivers lo) d.header)) [
      | inl yes_it_is ↦ (
        lo ∷ is,
        (
          omega arith,
          omega arith,
          (λ j le lt. absurd (omega arith)),
          (matches_iff (drivers lo) d).0 yes_it_is,
          servers,
        ),
        ap (λ b. if b then call ∷ rest else rest) yes_it_is ∙ ap (λ cs. call ∷ cs) e,
      )
      | inr other ↦ (
        is,
        Servers-skip drivers d lo hi is
            (λ serves. false≢true (sym other ∙ (matches_iff (drivers lo) d).1 serves)) servers,
        ap (λ b. if b then call ∷ rest else rest) other ∙ e,
      )
    ]
