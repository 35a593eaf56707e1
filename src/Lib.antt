-- ===== src/Lib.antt =====
-- A verification library for TomatoOs, a hobby operating system kernel for x86-64 in C (src/).
--
-- The parts of the kernel and the files that model them, each with child modules for its proofs and a
-- module of tests:
--   Base      shared helpers: tests on numbers, lists, machine words that wrap, runs of bytes
--   Pmm       src/mem/pmm.c, the physical page allocator: a bitmap over one memory region
--   Paging    src/mem/paging.c, the page tables: the walk of an address and the mapping of pages
--   Nvme      src/drivers/x86/nvme.c, commands to NVMe drives: Nvme itself for input and output, and
--             Admin for the admin commands
--   Kmem      src/kmem/kmalloc.c, kfree.c and krealloc.c, the kernel heap: headers in a linked list
--   Strings   src/string/, the byte and string functions
--   Disk      src/include/disk.h, a drive as a state with two operations, and bytes to sectors
--   Ext2      src/fs/ext2/, the ext2 file system as far as it is read: Io (io.c), Super and Groups
--             (super.c), Inode (inode.c), Mount (super.c and ext2.c)
--   Probe     src/drivers/x86/disk.c, which finds the partitions of a drive and mounts them
--   Vfs       src/fs/vfs.c, the file system in memory
--   Keyboard  src/drivers/keyboard.c, from the interrupt to the command that is run
--   Irq       src/cpu/irq.c, the table of dynamic interrupt vectors
--   Pci       src/drivers/x86/pci.c and src/include/pci.h, the PCI bus: registration and scan
--   Apic      src/cpu/apic.c, the interrupt controllers: Apic itself for the registers and
--             the walk over the MADT, Find for the search and Madt for init_apic
--   Printf    src/stdio/, formatted output
--   Descriptors  src/cpu/gdt.c and src/cpu/idt.c, the entries of the descriptor tables
--
-- How they interact: `Probe.init_disk` reads a `Disk` and calls `Ext2.Mount.init`, which takes pages
-- of `Pmm` and blocks of `Kmem` as the C code does; the state of both allocators is passed on
-- explicitly, and so is that of the drive. The file system in memory takes blocks of `Kmem`, and the
-- keyboard compares words by the functions of `Strings`. Paging takes its tables from `Pmm`; the NVMe
-- driver finds the pages of a buffer by `Paging`, and takes pages for its lists and rings from `Pmm`;
-- the walk over the MADT maps the registers that it finds by `Paging`. `Irq.Wiring` joins the slots of
-- `Irq` to the gates of `Descriptors` and to the I/O APIC entries of `Apic`.
--
-- How C is modelled. A structure is a record and an array a function of the index or a list; a
-- pointer is its address, 0 when it is null. Operations give their result and the new state. Unsigned
-- arithmetic wraps where the code's can. A call that waits for ever on a lock that it holds, or goes
-- on out of the bounds of an array, has the result `none`, or a result of its own. An `int` wraps as
-- the compiled code does, and a bit-field that is wider than an `int` is shifted in its own width, as
-- gcc does. Sectors of 0 bytes, by which the code would divide, are left to the hypotheses. Output and
-- logging are left out.
--
-- Bounds and fuel. The search for pages runs on as many rounds as there are pages, and moves on by at
-- least one page in each. The loops over the blocks of the heap run on its size in bytes, and every
-- block takes at least 40 of them. Names of files are compared over the 256 bytes of their array,
-- which always ends in 0; `limit` stands for a number above the length of a string that the caller
-- gives. A command line is split over the 100 bytes of its array, and the keyboard's ring is read for
-- at most 128 scan codes. A wait for an NVMe completion looks at the ring at most once for each 10 units
-- of its timeout, and has two rounds more. The walk over the MADT has fuel for 258 rounds, of which the
-- last ends it; the digits of a number have as much fuel as the number itself; `kprintf` has a round
-- for each character of the format and one to see its end.
--
-- Not modelled: the timers, ACPI, power and start-up, which mostly act on devices
-- or registers; the reset of an NVMe controller; and the copies of uACPI, Flanterm and the Limine header
-- in the repository. What a controller writes to memory is a parameter of the NVMe driver, and what the
-- PCI devices and the MADT hold is one of theirs.
pub mod Base
pub mod Pmm
pub mod Kmem
pub mod Disk
pub mod Ext2
pub mod Strings
pub mod Vfs
pub mod Keyboard
pub mod Probe
pub mod Paging
pub mod Nvme
pub mod Printf
pub mod Apic
pub mod Pci
pub mod Descriptors
pub mod Irq
