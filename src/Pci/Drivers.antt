-- ===== src/Pci/Drivers.antt =====
-- The scan of src/drivers/x86/pci.c against the list of the functions that answer.
use tomato_os.Base.{
  ℕ, zero, suc, ◌+◌, ◌≤◌, ◌<◌, ◌≡◌, refl, sym, ap, ◌∙◌, inl, inr, some, List, [], ◌∷◌, ◌++◌, arith,
  leb, ◌==◌, if◌then◌else◌, lt→ltb, ==_refl, Bool-cases, length, get_elem?,
}
use mathlib.Core.Path.{subst}
use mathlib.Core.List.{append-nil, append_assoc}
use mathlib.Core.Option.{some-injective}
use tomato_os.Pci.{
  ConfigSpace, PciDevice, Call, Pci, max_pci_devices, max_pci_drivers, call_drivers, pci_launch,
  device_at, answers, scan_functions, scan_devices, scan_buses, initworkspace,
}
use tomato_os.Pci.Calls.{calls_at, CallsFor, call_drivers-Servers, no_function, next_function}

-- The functions that answer, in the order of their addresses; where function 0 of a device does not,
-- none of its functions counts.
pub functions_from : (n : ℕ) → ConfigSpace → (bus device function : ℕ) → List PciDevice
functions_from zero cfg bus device function = []
functions_from (suc n) cfg bus device function =
    let rest = functions_from n cfg bus device (function + 1) in
    let d = device_at cfg bus device function in if answers d then d ∷ rest else rest

pub devices_from : (n : ℕ) → ConfigSpace → (bus device : ℕ) → List PciDevice
devices_from zero cfg bus device = []
devices_from (suc n) cfg bus device =
    let d = device_at cfg bus device 0 in
    (if answers d then d ∷ functions_from 7 cfg bus device 1 else [])
    ++ devices_from n cfg bus (device + 1)

pub buses_from : (n : ℕ) → ConfigSpace → (bus : ℕ) → List PciDevice
buses_from zero cfg bus = []
buses_from (suc n) cfg bus = devices_from 32 cfg bus 0 ++ buses_from n cfg (bus + 1)

pub present : ConfigSpace → List PciDevice
present cfg = buses_from 256 cfg 0

-- One launch after the other.
abbrev launch_all : Pci → List PciDevice → Pci
launch_all k [] = k
launch_all k (d ∷ ds) = launch_all (pci_launch k d) ds

launch_all-append :
    (k : Pci) (xs ys : List PciDevice) → launch_all k (xs ++ ys) ≡ launch_all (launch_all k xs) ys
launch_all-append k [] ys = refl
launch_all-append k (x ∷ xs) ys = launch_all-append (pci_launch k x) xs ys

scan_functions_lem :
    (n : ℕ) (cfg : ConfigSpace) (k : Pci) (bus device function : ℕ)
    → scan_functions n cfg k bus device function
      ≡ launch_all k (functions_from n cfg bus device function)
unfolding scan_functions functions_from
scan_functions_lem zero cfg k bus device function = refl
scan_functions_lem (suc n) cfg k bus device function =
    let d = device_at cfg bus device function in
    elim (Bool-cases (answers d)) [
      | inl yes_there ↦
          rw yes_there (scan_functions_lem n cfg (pci_launch k d) bus device (function + 1))
      | inr gone ↦ rw gone (scan_functions_lem n cfg k bus device (function + 1))
    ]

scan_devices_lem :
    (n : ℕ) (cfg : ConfigSpace) (k : Pci) (bus device : ℕ)
    → scan_devices n cfg k bus device ≡ launch_all k (devices_from n cfg bus device)
unfolding scan_devices devices_from
scan_devices_lem zero cfg k bus device = refl
scan_devices_lem (suc n) cfg k bus device =
    let d = device_at cfg bus device 0 in
    let first : (if answers d then scan_functions 7 cfg (pci_launch k d) bus device 1 else k)
        ≡ launch_all k (if answers d then d ∷ functions_from 7 cfg bus device 1 else []) =
      elim (Bool-cases (answers d)) [
        | inl yes_there ↦ rw yes_there (scan_functions_lem 7 cfg (pci_launch k d) bus device 1)
        | inr gone ↦ rw gone refl
      ] in
    ap (λ k'. scan_devices n cfg k' bus (device + 1)) first
    ∙ scan_devices_lem n cfg _ bus (device + 1)
    ∙ sym (
        launch_all-append k (if answers d then d ∷ functions_from 7 cfg bus device 1 else [])
          (devices_from n cfg bus (device + 1)))

scan_buses_lem :
    (n : ℕ) (cfg : ConfigSpace) (k : Pci) (bus : ℕ)
    → scan_buses n cfg k bus ≡ launch_all k (buses_from n cfg bus)
unfolding scan_buses buses_from
scan_buses_lem zero cfg k bus = refl
scan_buses_lem (suc n) cfg k bus =
    ap (λ k'. scan_buses n cfg k' (bus + 1)) (scan_devices_lem 32 cfg k bus 0)
    ∙ scan_buses_lem n cfg (launch_all k (devices_from 32 cfg bus 0)) (bus + 1)
    ∙ sym (launch_all-append k (devices_from 32 cfg bus 0) (buses_from n cfg (bus + 1)))

-- What the launches of a list of functions leave behind.
pub record Launched (k : Pci) (ds : List PciDevice) (k' : Pci) : Type 0 where
  pub calls : (cs : List Call) × CallsFor k.pci_drivers ds cs × (k'.calls ≡ k.calls ++ cs)
  pub drivers : k'.pci_drivers ≡ k.pci_drivers
  pub count : k'.pci_device_count ≡ (
      if leb (k.pci_device_count + length ds) max_pci_devices
      then k.pci_device_count + length ds
      else max_pci_devices)
  pub entries :
      (i : ℕ)
      → k.pci_device_count + i < max_pci_devices
      → (d : PciDevice) → get_elem? ds i ≡ some d
      → k'.pci_devices (k.pci_device_count + i) ≡ d
  pub old : (j : ℕ) → j < k.pci_device_count → k'.pci_devices j ≡ k.pci_devices j

launch_all-Launched :
    (k : Pci) (ds : List PciDevice)
    → k.pci_device_count ≤ max_pci_devices
    → Launched k ds (launch_all k ds)
unfolding pci_launch
launch_all-Launched k [] le = record {
  calls = ([], no_function, sym (append-nil k.calls));
  drivers = refl;
  count = ground arith;
  entries = λ i lt d h. absurd (ground arith);
  old = λ j lt. refl;
}
launch_all-Launched k (d ∷ ds) le =
    let l = launch_all-Launched (pci_launch k d) ds (ground arith) in
    let (is, servers, called) =
      call_drivers-Servers max_pci_drivers k.pci_drivers 0 256 d (omega arith) in
    let (cs, calls, e) = l.calls in
    record {
      calls = (
        calls_at k.pci_drivers d is ++ cs,
        next_function is servers calls,
        e
            ∙ append_assoc k.calls (call_drivers max_pci_drivers k.pci_drivers 0 d) cs
            ∙ ap (λ c. k.calls ++ (c ++ cs)) called,
      );
      drivers = l.drivers;
      count = ground (arith, l.count);
      entries = λ i lt x h. entry l i lt x h;
      old = λ j lt. ground (arith, l.old j);
    }
  where
    entry :
        Launched (pci_launch k d) ds (launch_all (pci_launch k d) ds)
        → (i : ℕ) → k.pci_device_count + i < max_pci_devices
        → (x : PciDevice) → get_elem? (d ∷ ds) i ≡ some x
        → (launch_all (pci_launch k d) ds).pci_devices (k.pci_device_count + i) ≡ x
    entry l zero lt x h =
        ap (launch_all (pci_launch k d) ds).pci_devices (omega arith)
        ∙ l.old k.pci_device_count (ground arith)
        ∙ ap
            (λ b.
              (if b
                  then (λ j. if j == k.pci_device_count then d else k.pci_devices j)
                  else k.pci_devices)
                k.pci_device_count)
            (lt→ltb k.pci_device_count max_pci_devices (omega arith))
        ∙ ap (λ b. if b then d else k.pci_devices k.pci_device_count) (==_refl k.pci_device_count)
        ∙ some-injective d x h
    entry l (suc i) lt x h =
        ap (launch_all (pci_launch k d) ds).pci_devices (ground arith)
        ∙ l.entries i (ground arith) x h

-- From a table of at most 32 devices, the scan finds the functions that answer, in the order of their
-- addresses. For each in turn it calls the drivers in use for its class and subclass, in the order of
-- their registration, and no others; it enters them in the table behind those that are there, in
-- order, as long as there is room, and counts those that it entered.
pub initworkspace-Launched :
    (cfg : ConfigSpace) (k : Pci)
    → k.pci_device_count ≤ max_pci_devices
    → Launched k (present cfg) (initworkspace cfg k)
unfolding initworkspace present
initworkspace-Launched cfg k le =
    subst (Launched k (buses_from 256 cfg 0)) (sym (scan_buses_lem 256 cfg k 0))
      (launch_all-Launched k (buses_from 256 cfg 0) le)
