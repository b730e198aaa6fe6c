-- ===== src/Lib.antt =====
-- jOeS, a hobby kernel for x86-64, and what of it is verified here.
--
-- The parts and how they interact. The physical memory manager (kernel/src/memory/pmm.c) keeps an
-- array of memory regions, each with a bitmap of its pages (kernel/src/memory/pmm_region.c), and
-- hands pages out and takes them back. The paging code (kernel/src/memory/paging.c) takes pages
-- from it for page tables, in which it maps, resolves and unmaps virtual addresses.
-- The PS/2 controller (kernel/src/drivers/ps2.c) is set up over I/O ports, finds the devices at its
-- two ports and starts the keyboard driver (kernel/src/drivers/ps2_keyboard.c), which decodes the
-- bytes of scan codes in its interrupt handler, keeps the modifier flags, and appends key events to
-- a ring buffer (kernel/src/drivers/keyboard.c). The interrupt handler
-- (kernel/src/cpu/interrupt_handler.c), which the gates of kernel/src/cpu/idt.c lead to, calls the
-- keyboard driver, takes the events out at each tick of the timer (kernel/src/drivers/pit.c), prints
-- their characters by the German layout (kernel/include/drivers/keyboard_layouts.h), and ends each
-- interrupt at the controllers of kernel/src/drivers/pic.c. Text goes through printf
-- (libc/stdio/printf.c) to the terminal (kernel/src/terminal.c) and onto the framebuffer, or through
-- kernel/src/logging.c to a backend, as the serial port (kernel/src/drivers/serial.c).
--
-- Files.
--   Base: shared names; Boolean tests on native numbers, C arrays as lists, machine words, and the
--     bits of a byte, whose laws are checked for all 256 bytes by computation.
--   Memory/Region: `struct pmm_region_t`, `pmm_region_init` (region_init) and
--     `pmm_region_mark_page_used` and `pmm_region_mark_page_free` (mark_page_used, mark_page_free).
--     Region/Bitmap, Region/Marks and Region/Init hold the lemmas on them.
--   Memory/Pmm: the state of pmm.c with the two caches of `pmm_alloc`; `get_region_containing_page`,
--     `pmm_check_page` (check_page), `pmm_alloc` (alloc) and `pmm_free` (free). Its children hold the
--     lemmas on the scan of a bitmap, the state, the allocation, the search, single pages, and a
--     page's way from `pmm_alloc` to `pmm_free`.
--     Pmm/Setup is `pmm_init`, over the memory map as a list of its entries; its children show that it
--     sets up a valid state and that the metadata has room.
--   Memory/Paging: the page tables of kernel/src/memory/paging.c, over the memory manager:
--     `paging_map_page` (map_page) and `paging_resolve_virtual_address`; Paging/Entry has the entries,
--     Paging/Unmap `paging_unmap_page`, Paging/Clone `paging_clone_page_table`, Paging/Dump
--     `paging_dump_page_table`. Paging/Tables is the invariant of the tables, as a tree over pages in
--     use; Paging/Walk has the levels of the resolving walk as instances of one record, Paging/Beside
--     what a write to one entry changes for it. Paging/Owned, Paging/Frames, Paging/Descend,
--     Paging/Map, Paging/Through, Paging/Resolve and Paging/MapResolve lead to the theorem on mapping,
--     the children of Paging/Unmap to that on unmapping, and Paging/RoundTrip puts both together;
--     Paging/Indices has `paging_get_virt_address_from_indices`, Paging/Taken mapping over a page.
--   Keyboard/KeyCode, Keyboard/Mask, Keyboard/Event, Keyboard/Layout: the types of keyboard.h, the
--     layout's tables, and `kbd_key_event_to_ascii` (key_event_to_ascii).
--   Keyboard/Buffer: the ring buffer; Buffer/Queue relates it to a queue.
--   Keyboard/Modifiers: `ps2_kbd_set_modifiers` (set_modifiers), with its flags and counters.
--   Keyboard/Scancodes, Keyboard/Irq: the table of scan code set 1 and the interrupt handler
--     (irq_callback); `receive` is a sequence of interrupts.
--   Drivers/Port: kernel/include/cpu/port_io.h. The device behind the ports is a parameter, its type
--     included; a machine has the device, the interrupt flag, and the accesses so far. Port/Io are
--     sequences of accesses as a state monad, Port/Total their total correctness.
--   Drivers/Pic, Drivers/Pit, Drivers/Serial: the functions of pic.c, pit.c and serial.c by their
--     names; Pic/Mask has the interrupts that are masked, Serial/Line what a line leaves in memory.
--     Serial/Log sends the messages of logging.c through COM1.
--   Drivers/Ps2: sending and receiving of ps2.c; Ps2/Device: resetting and identifying a device, and
--     `ps2_kbd_init`; Ps2/Controller: `ps2_init_controller`, in stages. Ps2/Send, Ps2/Quiet and
--     Controller/Outcome, Controller/Init hold what they do.
--   Cpu/Gdt, Cpu/Idt: the segment descriptors and the interrupt gates. Cpu/Interrupts: the interrupt
--     handler over a machine, the keyboard and the terminal's text; Interrupts/Drain and
--     Interrupts/Eoi show what the timer does and how each interrupt ends; Interrupts/Faults
--     has the exceptions whose descriptions have their arguments.
--     Interrupts/Typing goes from the bytes of a key to its characters on the terminal.
--   Format: what printf.c and logging.c share; Format/Printf and Format/Logging are the two
--     interpreters of format strings, and Format/Agree relates them. Format/Numbers shows that messages
--     with numbers have a text.
--   Terminal: the functions of terminal.c; Terminal/Drawing those of framebuffer.c, on the screen as
--     the cell at each index; Terminal/Font the bitmaps of charset.c. Terminal/Cursor and
--     Terminal/Bounds show where the cursor and the drawn cells are.
--   Libc: libc/string over memory as the byte at each address; Libc/Copy, Libc/Strings and
--     Libc/Numbers hold the lemmas.
--   Boot: `kmain` of kernel/src/main.c in stages, over the models above; Boot/Main has what it needs up
--     to the page tables (with Boot/Greeting and Boot/Early), Boot/Mapping what follows them. Boot/Messages has
--     the strings of its messages, Boot/Logged their way to the serial port.
--
-- How C is read. An unsigned number is a native number with its wrap-around written out. An array is
-- a list; an access outside of it, which C leaves undefined, gives `none` or a fault of its own. Page
-- tables, the screen and the memory of libc are functions of the address.
-- Static variables are fields of a record that each operation takes and returns. Messages to the log
-- are left out of the drivers, the memory manager and the paging code but for its dump; those of
-- `kmain` and of the interrupt handler go to the backend. Loops are structural recursion on the number of rounds that are left:
-- the loops over bits, bytes, regions and pixels have a fixed number of rounds, the loops of ps2.c
-- with a timeout its 100000, and the binary search gets as many rounds as there are regions, as its
-- loop in C does. `strlen`, `strrev` and `utoa` take fuel, which their theorems bound by the length of
-- the string and by the 64 bits of a number. The loops that wait for a device without a timeout take
-- fuel too; a theorem that needs them to end says so of the device. The timer's loop over the key
-- events takes at most 33 rounds.
--
-- Not modelled: the interrupts that arrive while `kmain` is running; the assembly stubs, and the
-- instructions that load the descriptor tables, the page table or halt, beyond the values that they
-- load.
pub mod Base
pub mod Libc
pub mod Cpu
pub mod Drivers
pub mod Format
pub mod Terminal
pub mod Memory
pub mod Keyboard
pub mod Boot
