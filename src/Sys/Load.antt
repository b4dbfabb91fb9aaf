-- ===== src/Sys/Load.antt =====
-- The part of Process::spawn of kernel/src/proc.rs that opens and loads a program. The file is read
-- into a new buffer, whose address is asked of the platform. What owns the new page table drops it
-- when a later call returns an error.
pub mod Program
pub mod Kept
pub mod Layout
mod Tests
use servos.Prelude.{
  ℕ, ◌+◌, ◌*◌, ◌/◌, none, some, List, [], ◌∷◌, length, reverse, not, if◌then◌else◌, bit_or,
}
use servos.Prelude.Outcome.{done, panic}
use servos.Vmm.Memory.{Memory, try_alloc, page_zeroed, free_page}
use servos.Vmm.Vaddr.{page_size, page_number}
use servos.Vmm.Pte.Flag
use servos.Vmm.Paging.{map_pages, map_owned_page}
use servos.Vmm.Paging.Drop.{drop_box}
use servos.Fs.Path.{Bytes}
use servos.Fs.Fd.{Fd, read, stat}
use servos.Elf.{ElfFile, new}
use servos.Proc.{Kernel, drop_table_of}
use servos.Sys.Code.{SysResult, ok, err, panic, stops, no_memory, bad_arg}
use servos.Sys.User.{Platform, Loaded, ◌>>=◌, of_fs, with_capacity}
use servos.Sys.Files.{open_from}
use servos.Sys.Load.Program.{
  user_trap_vec, user_trap_frame, stack_top, load_segments, map_stack, push_args, push_ptrs,
  checked,
}

-- a call that changes memory only
abbrev pub on_memory :
    {A : Type 0} → (Memory → SysResult A × Memory) → Kernel → SysResult A × Kernel
on_memory f k = let (r, m) = f k.memory in (r, record k { memory = m })

-- the end of a scope that owns a page table: an error drops it
abbrev pub owning : {A : Type 0} → ℕ → SysResult A × Kernel → SysResult A × Kernel
owning pt (ok a, k) = (ok a, k)
owning pt (err e, k) = (err e, record k { memory = drop_table_of pt k.memory })
owning pt (panic, k) = (panic, k)
owning pt (stops n, k) = (stops n, k)

-- ElfFile::new, and `let Some(file) = … else`
unfoldable pub parse : Platform → Bytes → Kernel → SysResult ElfFile × Kernel
parse sys bytes k = elim (new (sys.buffer_at k) bytes) [
  | panic ↦ (panic, k)
  | done none ↦ (err bad_arg, k)
  | done (some file) ↦ (ok file, k)
]

-- the file at a path, read and parsed
unfoldable pub read_program : Platform → Bytes → Fd → Kernel → SysResult ElfFile × Kernel
read_program sys path cwd k = (open_from sys cwd path 0, k) >>= λ file k1.
    (of_fs (stat file), k1) >>= λ st k2.
    with_capacity st.size k2 >>= λ u k3. (of_fs (read file 0 st.size).0, k3) >>= parse sys

-- map_trap_code
unfoldable pub map_trap_code : Platform → ℕ → Memory → SysResult (Unit {0}) × Memory
map_trap_code sys pt m =
    checked no_memory
      (map_pages pt (page_number sys.trap_code) user_trap_vec page_size (bit_or Flag.r Flag.x) m) m

-- the trap frame's page, which is dropped when the trap code is not mapped
unfoldable pub map_trap_frame : Platform → ℕ → Memory → SysResult (Unit {0}) × Memory
map_trap_frame sys pt m = elim (page_zeroed m) [
  | none ↦ (err no_memory, m)
  | some (a, m1) ↦
      let (r, m2) = map_trap_code sys pt m1 in
      elim r [
        | ok u ↦
            checked no_memory (map_owned_page pt a user_trap_frame (bit_or Flag.r Flag.w) m2) m2
        | err e ↦ (err e, free_page a m2)
        | other ↦ (other, m2)
      ]
]

-- from the program to the stack pointer, over a new page table
unfoldable pub fill : Platform → ℕ → ElfFile → List Bytes → Kernel → SysResult Loaded × Kernel
fill sys pt file args k = on_memory (map_trap_frame sys pt) k >>= λ u k1.
    on_memory (load_segments pt file.raw file.pheaders 0) k1 >>= λ highest_va k2.
    on_memory (map_stack pt) k2 >>= λ v k3. with_capacity (length args * 8) k3 >>= λ w k4.
    on_memory (push_args pt args stack_top) k4 >>= λ pushed k5.
    on_memory (push_ptrs pt (reverse pushed.0) (pushed.1 / 8 * 8)) k5 >>= λ sp k6.
    (ok (record { pagetable = pt; highest_va = highest_va; entry = file.ehdr.entry; sp = sp }), k6)

-- Process::spawn up to the new process; the first argument is the path
unfoldable pub load_process :
    Platform → Bytes → Fd → List Bytes → Kernel → SysResult Loaded × Kernel
load_process sys path cwd args k = read_program sys path cwd k >>= λ file k1.
    elim (try_alloc k1.memory) [
      | none ↦ (err no_memory, k1)
      | some (pt, m) ↦ owning pt (fill sys pt file (path ∷ args) (record k1 { memory = m }))
    ]
