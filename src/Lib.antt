-- ===== src/Lib.antt =====
-- Verification of the servos kernel, a small RISC-V operating system.
--
-- The kernel maps memory through three-level page tables (kernel/src/vmm), keeps a line editor
-- between the serial port and the readers of the console (kernel/src/dev/console.rs), and gives
-- processes files through descriptors (kernel/src/fs/vfs.rs) of file systems, of which the initial
-- ramdisk (kernel/src/fs/initrd.rs) is one. Paths (kernel/src/fs/path.rs) are sequences of
-- components; a process keeps its descriptors in an array with holes (kernel/src/arr.rs). A trap
-- of a process (kernel/src/trap.rs) ends in a system call (kernel/src/sys.rs) or in the scheduler,
-- which keeps the processes in a list and a queue (kernel/src/proc.rs). The programs (user) make
-- these calls through userstd: a shell, cat, ls and others, and user/bf, which compiles and runs a
-- small language.
--
-- Prelude        shared names, lists by native numbers, bit masks, calls that may panic
-- Arr            kernel/src/arr.rs: HoleArray
-- Heap           kernel/src/heap.rs: BlockAlloc, its fallback allocator a parameter
-- Lock           kernel/src/lock.rs: SpinLocked and Guard, and InterruptToken of riscv.rs, as steps of
--                harts that interleave in any order; Handover has the locks of try_find_execute
-- Vmm/Vaddr      kernel/src/vmm/vaddr.rs: address fields; page_number and page_offset of paging.rs
-- Vmm/Pte        kernel/src/vmm/paging.rs: PageTableEntry, PteLink and the flags
-- Vmm/Memory     the pages that tables and data live in; the allocator's free pages
-- Vmm/Paging     kernel/src/vmm/paging.rs: PageTable; the children hold the ownership invariant and
--                the laws of mapping and unmapping; Drop frees a whole table
-- Vmm/Translate  kernel/src/vmm/vaddr.rs: to_phys and PhysIter::next
-- Vmm/Copy       kernel/src/vmm/vaddr.rs: copy_to, copy_from and PhysIter::zero
-- Dev/Console    kernel/src/dev/console.rs: Buffer; Screen is the abstract editor
-- Fs/Path        kernel/src/fs/path.rs: components, prefixes, equality; Order has the order
-- Fs/Result      kernel/src/fs/mod.rs: FsError, VNode, FsResult
-- Fs/InitRd      kernel/src/fs/initrd.rs: the operations of a loaded image; Load has InitRd::new, and
--                the images that mkfs.py writes
-- Fs/Fd          kernel/src/fs/vfs.rs: Fd and its position; User has rw_va of kernel/src/fs/mod.rs,
--                read_va and write_va, and open_in_cwd
-- Fs/Vfs         kernel/src/fs/vfs.rs: the mount table, a tree of one node (up to eleven mounts)
--                where it is searched by another order than its own
-- Fs/Devices     kernel/src/fs/dev.rs and kernel/src/dev: the device directory, null and zero
-- Bf/Code        user/bf/src/bc.rs: Opcode and the addresses in the code
-- Bf/Compile     user/bf/src/bc.rs: Program::compile; Tree has the blocks that a program spells
-- Bf/Machine     user/bf/src/bc.rs: Vm; Meaning is the language without code and addresses
-- Proc           kernel/src/proc.rs: Process, ProcessNode, Scheduler
-- Sys/Code       shared/src/sys.rs: Sys and SysError
-- Sys/User       kernel/src/sys.rs and vmm/vaddr.rs: reads and writes of user memory
-- Sys/Files, Sys/Procs, Sys/Spawn  kernel/src/sys.rs: the system calls
-- Sys/Load       kernel/src/proc.rs: the part of Process::spawn that opens and loads a program
-- Sys/Handle     kernel/src/sys.rs: handle_syscall; user/userstd/src/sys.rs: syscall!, sys_result
-- Trap           kernel/src/trap.rs: handle_u_trap; Machine has the harts and their steps
-- Trap/External  kernel/src/trap.rs, kernel/src/plic.rs: traps of the kernel, interrupts of devices
-- Elf            kernel/src/elf.rs: ElfFile::new
-- User/Syscall   user/userstd/src/sys.rs: syscall! and the functions; Return and Kernel set them
--                on the kernel's trap
-- User/Calls     the calls as the other programs see them, an interface
-- User/Cat, User/Shell, User/Ls  user/cat, user/sh and user/ls (src/main.rs)
-- User/Small     user/echo, user/kill, user/init and user/shutdown (src/main.rs)
-- User/Start     user/userstd/src/lib.rs: _start; user/userstd/src/io.rs: read_file
--
-- A machine word is a natural number with its wrap-around or its overflow check written out; an
-- assertion, an index out of range and an overflow are the value `panic`. A loop over the three
-- levels of a page table is a recursion on the level, and most other loops one on a list or on the
-- number of rounds that are left. The loops over the ranges of a PhysIter are recursions on fuel,
-- one more than the number of bytes asked for, which is enough as each range has a byte at
-- least. Dropping a page table takes fuel for three levels of tables, which is enough where each
-- table has its owner. The loops of the programs take fuel; for a file that ends in the first page
-- of cat's buffer two rounds are enough, and the others end when the calls let them. A slice of a
-- path carries the position of its first byte in place of its pointer. The global allocator is the
-- list of pages it hands out, and the list of its answers to reservations
-- of heap memory. A process is an address of the heap, which the list, the queue and the harts
-- refer to; a step of the machine of Trap is a whole trap, so that the locks are not part of its
-- state; the locks have a model of their own, in which the programs of the harts are left open.
--
-- Not modelled: what the console echoes, the assembly around a trap, boot code, drivers and firmware
-- calls, which are access to hardware; the form of what the programs print; their allocator, which
-- belongs to a crate; and user/tests.
pub mod Prelude
pub mod Arr
pub mod Heap
pub mod Lock
pub mod Vmm
pub mod Dev
pub mod Fs
pub mod Bf
pub mod Proc
pub mod Sys
pub mod Trap
pub mod Elf
pub mod User
