-- ===== src/Lib.antt =====
-- JohnOS: a verification library for a 32-bit kernel in C. Its modules follow the kernel's files;
-- every definition takes a global that the C function uses as an argument, and gives what the
-- function leaves in it.
--
-- Common holds the shared names: tests on numbers (Common/Tests), words of 8, 16 and 32 bits with
-- their wrap-around written out (Common/Words), the bits of a word and what the bitwise operators
-- do to each of them (Common/Bits), and memory as a function from addresses to bytes or from
-- indexes to words (Common/Store).
--
-- PageMap models the page allocator of kernel/mem.c: a bitmap with one bit for each page of 4096
-- bytes. The record Pages holds the globals Os_memmap, mem_block, mem_bt_temp and mbt_freeflag
-- and the memory that is handed out; each function has the name that it has in C. The searches
-- run on fuel, one round more than the pages that they may test. PageMap/Bits is about single
-- bits, PageMap/Search about the two searches, PageMap/Allocate about the allocations of one page
-- and their release, and PageMap/Blocks about alloc_free_blocks. The array mem_block has 128
-- entries: alloc_free_blocks gives none where the C function writes behind it or, with no page
-- free, behind Os_memmap; PageMap/Count counts the free pages for this.
--
-- MemFill models the fill, copy and zeroing loops of kernel/mem.c on a memory of bytes. A count
-- of the C loop is the recursion's argument; setmembyte steps by 4 and has as many rounds as
-- bytes.
--
-- Text models kernel/string.c. A string is an address in a memory; strlength has the 126 rounds
-- that its bound of 127 allows, and stringlength, which has no bound, takes a number of rounds
-- and gives none where they are not enough.
--
-- Numbers models the functions of kernel/graphics/screen.c that print numbers, as the characters
-- that they hand to printch, and power_of of kernel/util.c. The decimal loops have as many rounds
-- as a number of their width has digits.
--
-- KernelHeap models kernel/kernel_heap_alloc_nopaging.c, which gives out parts of the pages of
-- PageMap. Its record Heap holds the arrays Os_memmap_free_info and Os_memmap_size_info as
-- functions from indexes, and the globals mem_bt_temp, mbt_freeflag, OS_memory_bit_pos and the
-- page map. A loop that does not end is none; a scan of a page has 4097 rounds, one more than a
-- page has bytes, and kmem_allocate has 0x265 rounds, one more than mem_bt_temp can be put on.
-- KernelHeap/Whole is about the tests on a whole page, KernelHeap/Scan about scan_address and
-- kmem_allocate, and KernelHeap/Release about kernel_free, which takes the addresses of both
-- arrays as arguments because it computes with them.
--
-- Console models the screen of kernel/graphics/screen.c: text memory, cursor, colour, prompt and
-- the two buffers of scrolled rows, and the bytes that are written to the ports of the display
-- controller. scrollUp, newLineCheck and printch call each other through the printing of the
-- prompt; in Console/Scroll they take it as an argument, and print_prompt ties the knot with a
-- bound on the depth.
--
-- Descriptors models kernel/gdt.c, kernel/idt.c and the tables that kernel/isr.c and kernel/irq.c
-- fill; Interrupts models the handlers of kernel/irq.c and the timer of kernel/timer.c. What a
-- handler does is an argument of irq_handler. The wait of kernel_delay_100 runs on the number of
-- timer interrupts that arrive.
--
-- Sort models sort_array2 of kernel/util.c.
--
-- MassStorage models the command blocks of kernel/device/usb/usb_mass_storage.c, as bytes in
-- memory, and the functions that split a block number. MassStorage/Wrapper is what a device reads
-- from such a block, independent of the code: a command, a direction and a number of bytes; the
-- operation of Identify is not among its commands. MassStorage/Prepare is
-- prepare_usb_storage_bulk_transfer, with the page of the block from PageMap and the transfer of
-- the host controller as an argument.
--
-- Pci models kernel/device/pci.c: the reads of the configuration space, with the bus as a
-- function from addresses to dwords (Pci), the search for a device and the scan of all of them
-- (Pci/Find), and the table of names that are printed for a device (Pci/Names). The loops have as
-- many rounds as there are buses, devices and functions.
--
-- Fat16 models the boot block and the reading of a file in kernel/fs/fat16.c, with the transfer
-- of a block from MassStorage/Prepare; Fat16/Sectors has the sectors of its clusters. The loop
-- over the characters of a file has as many rounds as there are characters. The walk over
-- directories is not modelled.
--
-- Acpi models kernel/power: Acpi is the search for the root pointer and the tables in
-- kernel/power/using_acpi.c, with the pages from PageMap, the copies of MemFill and the
-- comparison of Text; Acpi/Power is init_acpi_variables and the files
-- kernel/power/check_enable_acpi.c and kernel/power/check_shutdown_acpi.c. The loops have as many
-- rounds as there are places, entries or bytes of code to look at; the loops that wait for ACPI
-- to be enabled take the list of what they read, and give none where it ends before they do.
--
-- Multitasking models kernel/multitasking.c: the creation of the two tasks, with their pages from
-- PageMap, and the choice of the next task. The structures of tasks and of registers are two
-- tables by address, which is how they lie in memory while the allocator still has pages to give.
-- Multitasking/Ring is about the order of the tasks and Multitasking/Stacks about their stack
-- pointers.
--
-- Keyboard models kernel/device/kb.c. Its record Keyboard holds the two line buffers and the
-- count of characters; Keyboard/Line is the line that a user sees, as a list of characters.
-- Keyboard/Files is the search for a file by its name, Keyboard/Commands the chain of tests for
-- the commands with what each one calls, Keyboard/Directories and its child Scan the commands
-- that change and list the directory, and Keyboard/Handler puts these together to
-- keyboard_handler. Keyboard/Addresses is keyboard_handler2 and keyboard_handler3. Strings are
-- pointers into one memory and are compared by Text; the addresses of string literals and the
-- function that reads a file are arguments. The walks through the table of directories have as
-- many rounds as the table has bytes; the walk back of "cd b" has 52, one more than the table has
-- entries below 455, and gives none where its subtraction leaves the table.
--
-- Not modelled are the rest of the USB drivers, the drivers for AHCI and the network, the switch
-- of registers between tasks and the start-up code. Messages that functions print besides their
-- work are left out, as are hlt, cli and sti.
pub mod Acpi
pub mod Common
pub mod Console
pub mod Descriptors
pub mod Fat16
pub mod Interrupts
pub mod KernelHeap
pub mod Keyboard
pub mod MassStorage
pub mod MemFill
pub mod Multitasking
pub mod Numbers
pub mod PageMap
pub mod Pci
pub mod Sort
pub mod Text
