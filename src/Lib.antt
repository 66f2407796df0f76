-- ===== src/Lib.antt =====
-- 8GodOS, a small x86-64 kernel in C: its core as definitions, with the theorems that make it
-- correct.
--
-- The parts, and how they interact. The boot code calls `kmain`, which fills the interrupt table
-- (src/idt.c), reads the memory map (src/mb2.c) into the frame allocator (src/pmm.c), sets up the
-- kernel heap (src/heap.c), the interrupt controllers (src/pic.c) and the keyboard
-- (src/keyboard.c), and then polls the keyboard and prints (src/vga.c). An interrupt enters
-- `isr_handler` of src/idt.c, which sends lines 0 to 15 to `irq_dispatch` of src/irq.c and from
-- there to the registered handler, and asks the memory layer about page faults.
--
-- The files. Each top-level module defines one part with the names of the C functions; its child
-- modules hold the proofs, and its Tests module runs and instances.   Base      tests, lists, bit
-- operations, counted loops and literals that all parts share   Io        src/io.h: `outb` and
-- `inb` as an interface to the devices   Regs      src/idt.h: the frame of an interrupt   Heap
-- src/heap.c: block headers in memory, `kmalloc`, `kfree`, `heap_free_bytes`   Pmm
-- src/pmm.c: the bitmap of frames, `pmm_bitmap_init`, `pmm_alloc_frame`, `pmm_free_frame`   Mb2
-- src/mb2.c: the walk over the boot information   Vm        src/vm.c: the walk over page tables,
-- `vm_map`, `vm_unmap`, address spaces, page faults   Identity  src/pmm.c: `ensure_2mb_mapped` and
-- `pmm_extend_identity`, on tables of large pages   Boot      src/pmm.c: `pmm_init`, which joins
-- Identity, Mb2, Pmm and the prints of Vga, and             `pmm_self_test` (Boot/SelfTest)
-- Keyboard  src/keyboard.c: scancodes, the ring buffer, `kb_get`   Vga       src/vga.c: the text
-- screen, numbers, `vga_printf` (Vga/Format)   Pic       src/pic.c: masks and acknowledgement of
-- interrupts   Irq       src/irq.c: the handler table and the dispatch   Idt       src/idt.c: the
-- gates and the entry of all interrupts   Kernel    src/kernel.c: `kmain` up to the self tests,
-- and the main loop among interrupts
--
-- State and numbers. The static variables of a C file are a record that the functions take and
-- return; memory is a function from addresses, indices or frames. Integers are natural numbers with
-- the wrap-around of their width written out where the code can reach it. A `char` is its byte. A
-- pointer that is null is 0. `heap_panic` and the halting loop, which do not return, are outcomes.
--
-- Specifications. The heap is compared with first fit on a list of blocks (Heap/Blocks,
-- Heap/Layout), the keyboard with a decoder in front of a bounded queue (Keyboard/Queue), the
-- frame allocator with the set of used frames (Pmm/Bitmap), and `vga_printf` with what the spelled
-- directives of a format mean (Vga/Directives). Page tables are compared with what the processor
-- finds: the entry of the page of an address (Vm/Lookup), in tables each of which has one level
-- and one place (Vm/Forest), and at the boot the address in a large page (Identity). The main loop
-- and the interrupts are a step relation (Kernel/Typing).
--
-- Interfaces. Devices are not in the source: the drivers take a `Bus`, and what they rely on is a
-- record of documented laws, `IsCrtc` for the cursor registers and `IsPic` for the mask registers
-- after the initialisation words. The handlers of interrupts, and the answer of the page-fault
-- handler, are arguments of the dispatch, which Kernel fills with the keyboard's handler and the
-- handler of Vm.
--
-- Loops with fuel, and why it is enough. The walks over the heap take one round more than blocks
-- of 16 bytes fit into its 16 MB. The walks over frames take one round more than there are frames
-- below 1 GB. The walk over the boot information takes a round for every 8 bytes of 1 MB, which is
-- the least a tag has. The loop of `ensure_2mb_mapped` takes one of the 512 entries of a PD in
-- each round, and the inner loop of `kmain` one of at most 63 characters. The first write of the
-- heap is tried twice, since a fault that is served leaves its page there. `vga_printf` takes a
-- round for each character of its format at most, and a number of 64 bits has at most 64 digits.
-- Running out of fuel is a result of its own or is shown not to happen.
--
-- Not modelled. src/boot.asm, src/isr.asm and the linker script are assembly; their symbols are
-- arguments, and what the boot code leaves in the tables is a hypothesis (Boot/Ready,
-- Kernel/Touch). The self-tests of src/vm.c and src/heap.c print and exercise the operations on
-- one scenario, and `kmain` is modelled before and after the calls of the self-tests. Page tables
-- and the bytes of the boot information are two memories. The first write of `heap_init` goes
-- through the tables and the page-fault handler, and halts the kernel where no frame is left; the
-- later uses of the heap in Heap do not: they stand for runs in which the pages that they reach
-- are mapped or are mapped by the handler. The width of a conversion in `vga_printf` is not
-- bounded: its overflow is undefined in C.
pub mod Base
pub mod Boot
pub mod Heap
pub mod Identity
pub mod Idt
pub mod Io
pub mod Irq
pub mod Kernel
pub mod Keyboard
pub mod Mb2
pub mod Pic
pub mod Pmm
pub mod Regs
pub mod Vga
pub mod Vm
