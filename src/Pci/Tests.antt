-- ===== src/Pci/Tests.antt =====
-- Runs of src/drivers/x86/pci.c with one device, and the theorem at it.
use tomato_os.Base.{◌≡◌, refl, false, ◌||◌, [], arith, ◌==◌, if◌then◌else◌, length}
use tomato_os.Pci.{
  ConfigSpace, PciDriver, PciDevice, Pci, config_address, pci_read_config32, pci_read_config16,
  pci_write_config16, pci_load, reg, reg_loop, call_drivers, pci_launch, scan_functions,
  initworkspace,
}
use tomato_os.Pci.Drivers.{Launched, present, initworkspace-Launched}

-- Device 3 on bus 0 has functions 0 and 2, both of class 1 and subclass 8; the rest reads as ones.
abbrev cfg : ConfigSpace
cfg a =
    if a == config_address 0 3 0 0 || a == config_address 0 3 2 0
    then 0x1000_8086
    else (if a == config_address 0 3 0 8 || a == config_address 0 3 2 8
        then 0x0108_0200
        else 0xffff_ffff)

abbrev no_driver : PciDriver
no_driver = record { used = false; class_code = 0; subclass = 0; pcidrv = 0 }

abbrev no_device : PciDevice
no_device = record {
  header = record {
    vendor_id = 0;
    device_id = 0;
    prog_if = 0;
    subclass = 0;
    class_code = 0;
    bar0 = 0;
    bar1 = 0;
  };
  bus = 0;
  device = 0;
  function = 0;
}

abbrev empty : Pci
empty = record {
  pci_drivers = λ i. no_driver;
  pci_devices = λ i. no_device;
  pci_device_count = 0;
  calls = [];
}

abbrev registered : Pci
registered = reg empty 77 1 8

initworkspace-Launched_example : Launched registered (present cfg) (initworkspace cfg registered)
unfolding reg
initworkspace-Launched_example = initworkspace-Launched cfg registered (omega arith)

class_read : (pci_load cfg 0 3 2).class_code ≡ 1
unfolding pci_load pci_read_config16 pci_read_config32
class_read = refl

-- The functions of the device from 1 on.
two_launched :
    let k = scan_functions 2 cfg registered 0 3 1 in (k.pci_device_count ≡ 1) × (length k.calls ≡ 1)
unfolding scan_functions pci_load pci_read_config16 pci_read_config32 pci_launch call_drivers reg
    reg_loop
two_launched = (refl, refl)

-- The write of 16 bits leaves the other half of the word.
half_written : pci_write_config16 cfg 0 3 0 2 0x1234 (config_address 0 3 0 0) ≡ 0x1234_8086
unfolding pci_write_config16 pci_read_config32
half_written = refl
