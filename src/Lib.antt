-- ===== src/Lib.antt =====
-- A verification library for the Zenix kernel, a 32-bit x86 kernel in C.
--
-- The program's parts and how they meet. kernel_main (kernel/core/kernel.c) sets up descriptor tables and
-- interrupts, then the physical memory manager, the heap, paging, the file system, the processes, the
-- scheduler, the timer, the keyboard and the system calls, and then draws and reads keys. The modules here
-- follow the parts that have a state of their own:
--   Pmm       kernel/mm/pmm.c: the bitmap of frames, as the list of its 32-bit words.
--   Heap      kernel/mm/heap.c: kmalloc and kfree over the chain of block headers in memory.
--   Strings   lib/libc/string.c: the string and memory routines over a flat memory of bytes.
--   Proc      kernel/proc/process.c, kernel/proc/scheduler.c, and the handler of kernel/drivers/timer/pit.c:
--             processes, which lie where the heap put them, the ready queue and the timer ticks.
--   Keyboard  kernel/drivers/keyboard/keyboard.c: the interrupt handler and the ring that it fills.
--   Paging    kernel/mm/paging.c: the page directory and the pool of page tables.
--   Monitor   kernel/core/monitor.c: the text screen and the printing of numbers.
--   Interrupts kernel/hal/irq.c, kernel/hal/pic.c and timer_init of kernel/drivers/timer/pit.c: which handler
--             a request runs, and what is written to the ports.
--   Descriptors kernel/hal/gdt.c and kernel/hal/idt.c: the entries of the descriptor tables.
--   Vfs       kernel/fs/vfs_complete.c: paths and the table of open files, over nodes whose functions are a
--             parameter.
--   Nodes     kernel/fs/vfs.c: the node layer that the shell uses.
--   Initrd    kernel/fs/initrd.c: the RAM disk, whose functions the nodes of the shell's commands point to.
--   Apps      kernel/apps/app_manager.c: the slots of the applications, over the processes of Proc.
--   Calculator kernel/apps/calculator/calculator_app.c: the buttons, the display and the dragging; the arithmetic on
--             double is a parameter.
--   Gui       kernel/gui/gui.c: the windows and what the mouse does to them.
--   Shell     kernel/shell/shell.c: the line editor, the reading of a line, and the commands.
--   Syscall   kernel/syscall/syscall.c, kernel/syscall/handlers.c: the table of the system calls and its handlers.
--   Mouse     kernel/drivers/mouse/mouse.c: the packets, the pointer, and the set-up of the device.
--   Boot      kernel/core/kernel.c: what the order of set-up means for the memory parts.
-- Prelude holds what they share: tests and lists on native numbers, machine words, bits, masks and signed
-- numbers.
--
-- How the code is read. A function of the source is a definition of the same name; the globals of a file are
-- the fields of a record, which a function that changes them takes and returns. A loop that the source writes
-- inside a function is a definition of its own, named for what it does. Unsigned words wrap as u8, u16 and u32
-- say, and sub32 is the subtraction of uint32_t. Pointers are numbers and 0 is the null pointer. A function
-- whose loop has no bound in the source takes fuel, and none means that it ran out:
--   - the walks over the heap's blocks have chain_limit = 0x400000 rounds, more than a region of 4 MB has
--     blocks of 12 bytes at least; the theorems on kmalloc and kfree say that they end;
--   - the loops of string.c that look for a terminating 0 take their fuel as an argument, and their theorems
--     ask for one round more than the text has bytes;
--   - print_dec has 10 rounds, which is what a 32-bit number has digits;
--   - the walk of vfs_resolve_path has one round more than the path has bytes;
--   - the loop of shell_cat takes its fuel as an argument; a round more than the file has bytes is enough;
--   - the loop of sys_sleep too; a round more than the ticks to wait is enough, if each halt ends with a tick.
-- The other loops count, and run on the rounds left.
--
-- What is left out inside the parts: the messages that set-up functions print; the bytes of the heap's payload,
-- so that the heap's memory is a function from the address of a header to the header; the wrap-around of
-- addresses in string.c; CR3 and the TLB in paging; the registers that a context switch saves, the switch
-- itself being an answer of schedule. The page tables lie in the kernel's own data and the processes in the
-- heap, and each is a function of its address; that no other part writes there is taken for granted.
--
-- What is not modelled: the exceptions and their messages, user mode, the drawing of windows with the colours and
-- the drivers of the screen and the graphics processor, the assembly files and the host tool.
pub mod Prelude
pub mod Pmm
pub mod Heap
pub mod Strings
pub mod Proc
pub mod Keyboard
pub mod Paging
pub mod Monitor
pub mod Boot
pub mod Calculator
pub mod Interrupts
pub mod Descriptors
pub mod Nodes
pub mod Initrd
pub mod Apps
pub mod Gui
pub mod Shell
pub mod Syscall
pub mod Vfs
pub mod Mouse
