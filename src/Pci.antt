-- ===== src/Pci.antt =====
-- The PCI bus of src/drivers/x86/pci.c and src/include/pci.h: configuration space, the registration of
-- drivers, and the scan for devices. A driver is the number of its function; the calls of drivers are
-- recorded in their order. The two ports lead to a memory of 32-bit words, by the address that was
-- written to the first.
pub mod Calls
pub mod Drivers
mod Tests
use tomato_os.Base.{
  ℕ, zero, suc, ◌+◌, ◌-◌, ◌*◌, ◌/◌, ◌%◌, ◌^◌, ◌≤◌, ◌<◌, bit_and, bit_or, bit_xor, ◌≡◌, refl, sym,
  ap, ◌∙◌, fun_ext, ◌≢◌, ◌↔◌, ◌⊎◌, inl, inr, Bool, true, false, ◌&&◌, ◌||◌, not, Option, none, some,
  List, [], ◌∷◌, ◌++◌, arith, dec_lt, dec_le, ℕ_discrete, ltb, leb, ◌==◌, if◌then◌else◌, ltb→lt,
  lt→ltb, ltb→le, le→ltb, ==_iff, ==_refl, ==_true, ne→==, Bool-cases, Option-cases, all_below,
  all_below_sound, length, get_elem?, set, length-append, length-set,
}
use tomato_os.Base.Word.{wrap32}

-- `(1u << 31) | (bus << 16) | (num << 11) | (function << 8) | (offset & 0xfc)`, for a device below 32
-- and a function below 8, where no two of the parts share a bit.
abbrev pub config_address : (bus num function offset : ℕ) → ℕ
config_address bus num function offset =
    2 ^ 31 + bus * 2 ^ 16 + num * 2 ^ 11 + function * 2 ^ 8 + (offset % 256 - offset % 4)

-- What the devices hold: the word at each address.
abbrev pub ConfigSpace : Type 0
ConfigSpace = ℕ → ℕ

abbrev pub store_word : ConfigSpace → (address value : ℕ) → ConfigSpace
store_word cfg address value a = if a == address then value else cfg a

-- `(offset & 2) * 8` and `(offset & 3) * 8`
abbrev pub shift16 : ℕ → ℕ
shift16 offset = offset / 2 % 2 * 16

abbrev pub shift8 : ℕ → ℕ
shift8 offset = offset % 4 * 8

pub pci_read_config32 : ConfigSpace → (bus num function offset : ℕ) → ℕ
pci_read_config32 cfg bus num function offset =
    cfg (config_address bus num function offset) % 2 ^ 32

pub pci_read_config16 : ConfigSpace → (bus num function offset : ℕ) → ℕ
pci_read_config16 cfg bus num function offset =
    pci_read_config32 cfg bus num function offset / 2 ^ shift16 offset % 2 ^ 16

pub pci_read_config8 : ConfigSpace → (bus num function offset : ℕ) → ℕ
pci_read_config8 cfg bus num function offset =
    pci_read_config32 cfg bus num function offset / 2 ^ shift8 offset % 2 ^ 8

pub pci_write_config32 : ConfigSpace → (bus num function offset value : ℕ) → ConfigSpace
pci_write_config32 cfg bus num function offset value =
    store_word cfg (config_address bus num function offset) (wrap32 value)

-- `(current & ~(mask << shift)) | (value << shift)`, on 32 bits.
abbrev pub merged : (current mask value shift : ℕ) → ℕ
merged current mask value shift =
    bit_or (bit_and current (2 ^ 32 - 1 - mask * 2 ^ shift)) (wrap32 (value * 2 ^ shift))

pub pci_write_config16 : ConfigSpace → (bus num function offset value : ℕ) → ConfigSpace
pci_write_config16 cfg bus num function offset value =
    store_word cfg (config_address bus num function offset)
      (merged (pci_read_config32 cfg bus num function offset) 0xffff value (shift16 offset))

pub pci_write_config8 : ConfigSpace → (bus num function offset value : ℕ) → ConfigSpace
pci_write_config8 cfg bus num function offset value =
    store_word cfg (config_address bus num function offset)
      (merged (pci_read_config32 cfg bus num function offset) 0xff value (shift8 offset))

-- `pci_t`, as far as it is used.
pub record Header : Type 0 where
  pub vendor_id : ℕ
  pub device_id : ℕ
  pub prog_if : ℕ
  pub subclass : ℕ
  pub class_code : ℕ
  pub bar0 : ℕ
  pub bar1 : ℕ

-- `__pci_load`: 32 reads of 16 bits each, seen as the structure.
pub pci_load : ConfigSpace → (bus num function : ℕ) → Header
pci_load cfg bus num function =
    let p = λ (i : ℕ). pci_read_config16 cfg bus num function (i * 2) in
    record {
      vendor_id = p 0;
      device_id = p 1;
      prog_if = p 4 / 2 ^ 8;
      subclass = p 5 % 2 ^ 8;
      class_code = p 5 / 2 ^ 8;
      bar0 = p 8 + 2 ^ 16 * p 9;
      bar1 = p 10 + 2 ^ 16 * p 11;
    }

-- `pci_driver_t` and `pci_device_entry_t`
pub record PciDriver : Type 0 where
  pub used : Bool
  pub class_code : ℕ
  pub subclass : ℕ
  pub pcidrv : ℕ

pub record PciDevice : Type 0 where
  pub header : Header
  pub bus : ℕ
  pub device : ℕ
  pub function : ℕ

-- A call of a driver.
pub record Call : Type 0 where
  pub driver : ℕ
  pub target : PciDevice

abbrev pub max_pci_devices : ℕ
max_pci_devices = 32

abbrev pub max_pci_drivers : ℕ
max_pci_drivers = 256

-- The PCI fields of `kernel`, with the calls that were made.
pub record Pci : Type 0 where
  pub pci_drivers : ℕ → PciDriver
  pub pci_devices : ℕ → PciDevice
  pub pci_device_count : ℕ
  pub calls : List Call

-- The loop of `reg`, from entry `i` on; where all are used, nothing happens.
pub reg_loop : (n : ℕ) → (ℕ → PciDriver) → (i : ℕ) → PciDriver → ℕ → PciDriver
reg_loop zero drivers i new = drivers
reg_loop (suc n) drivers i new =
    let rest = reg_loop n drivers (i + 1) new in
    if not (drivers i).used then (λ j. if j == i then new else drivers j) else rest

pub reg : Pci → (pcidrv class_code subclass : ℕ) → Pci
reg k pcidrv class_code subclass = record k {
  pci_drivers =
      reg_loop max_pci_drivers k.pci_drivers 0
        (record { used = true; class_code = class_code; subclass = subclass; pcidrv = pcidrv });
}

abbrev pub matches : PciDriver → Header → Bool
matches d h = d.used && (d.class_code == h.class_code && d.subclass == h.subclass)

-- The loop of `__pci_launch` over the drivers from `i` on.
pub call_drivers : (n : ℕ) → (ℕ → PciDriver) → (i : ℕ) → PciDevice → List Call
call_drivers zero drivers i d = []
call_drivers (suc n) drivers i d =
    let rest = call_drivers n drivers (i + 1) d in
    if matches (drivers i) d.header
    then record { driver = (drivers i).pcidrv; target = d } ∷ rest
    else rest

pub pci_launch : Pci → PciDevice → Pci
pci_launch k d =
    let room = ltb k.pci_device_count max_pci_devices in
    record k {
      pci_devices =
          if room
          then (λ i. if i == k.pci_device_count then d else k.pci_devices i)
          else k.pci_devices;
      pci_device_count = if room then k.pci_device_count + 1 else k.pci_device_count;
      calls = k.calls ++ call_drivers max_pci_drivers k.pci_drivers 0 d;
    }

abbrev pub device_at : ConfigSpace → (bus device function : ℕ) → PciDevice
device_at cfg bus device function = record {
  header = pci_load cfg bus device function;
  bus = bus;
  device = device;
  function = function;
}

-- A device answers when its vendor is not 0xFFFF.
abbrev pub answers : PciDevice → Bool
answers d = not (d.header.vendor_id == 0xffff)

-- The loops of `initworkspace`, each from its variable on.
pub scan_functions : (n : ℕ) → ConfigSpace → Pci → (bus device function : ℕ) → Pci
scan_functions zero cfg k bus device function = k
scan_functions (suc n) cfg k bus device function =
    let d = device_at cfg bus device function in
    scan_functions n cfg (if answers d then pci_launch k d else k) bus device (function + 1)

pub scan_devices : (n : ℕ) → ConfigSpace → Pci → (bus device : ℕ) → Pci
scan_devices zero cfg k bus device = k
scan_devices (suc n) cfg k bus device =
    let d = device_at cfg bus device 0 in
    let all = scan_functions 7 cfg (pci_launch k d) bus device 1 in
    scan_devices n cfg (if answers d then all else k) bus (device + 1)

pub scan_buses : (n : ℕ) → ConfigSpace → Pci → (bus : ℕ) → Pci
scan_buses zero cfg k bus = k
scan_buses (suc n) cfg k bus = scan_buses n cfg (scan_devices 32 cfg k bus 0) (bus + 1)

pub initworkspace : ConfigSpace → Pci → Pci
initworkspace cfg k = scan_buses 256 cfg k 0
