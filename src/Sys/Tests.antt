-- ===== src/Sys/Tests.antt =====
-- System calls on a small kernel.
use servos.Prelude.{
  ℕ, false, replicate, length, length-replicate, ◌+◌, ◌≡◌, refl, true, none, [], ◌∷◌, ◌==◌, arith,
}
use servos.Fs.Result as Fs
use servos.Fs.InitRd.{DirEntry, Stat}
use servos.Fs.Fd.User.{read_access, rw_va}
use servos.Fs.Fd.Count.{Answers, counts, rw_va-Answers}
use servos.Vmm.Translate.{Range}
use servos.Vmm.Memory.{Memory}
use servos.Fs.Fd.{FileSystem}
use servos.Vmm.Vaddr.{next_page, page_number}
use servos.Vmm.Copy.{copy_from}
use servos.Vmm.Copy.Enough.{Copied, copy_from-Copied}
use servos.Proc.{Process, running, Kernel, TrapFrame, put_proc}
use servos.Sys.Code.{ok, panic}
use servos.Sys.User.{Platform}
use servos.Sys.Procs.{sys_sbrk}
use servos.Vmm.Pte.{next}
use servos.Vmm.Translate.{to_phys, to_phys_walk}
use servos.Proc as Procs
use servos.Sys.Procs.{sys_kill, find_pid}
use servos.User.Syscall.{gone}
use servos.User.Syscall as U
use servos.User.Syscall.Return.{trap, seen, stays}
use servos.User.Syscall.Kernel.{IsWrapped, syscalls-IsWrapped}
use servos.Sys.Break.{sys_sbrk-next_page, sys_sbrk-boundary}

abbrev no_fs : FileSystem
no_fs = record {
  read = λ vn pos n. Fs.err Fs.eof;
  write = λ vn pos b. Fs.err Fs.eof;
  readdir = λ vn pos. Fs.err Fs.eof;
  stat = λ vn. Fs.err Fs.eof;
}

abbrev frame : TrapFrame
frame = record { regs = λ r. 99; hartid = 0 }

abbrev process : TrapFrame → Process
process f = record {
  pid = 1;
  status = running;
  files = [];
  cwd = record {
    node = record { ino = 0; directory = true; readonly = true };
    dev = no_fs;
    pos = 0;
  };
  brk = 8200;
  killed = none;
  pagetable = 0;
  trapframe = f;
}

abbrev kernel : TrapFrame → Kernel
kernel f = record {
  procs = λ n. process f;
  live = λ n. n == 1;
  proc_list = 1 ∷ [];
  awaiting = [];
  memory = record { tables = λ a b. 0; bytes = λ a. 0; free = [] };
  reserves = true ∷ [];
  next_pid = 2;
}

abbrev platform : Platform
platform = record {
  mounts = [];
  dev_open = λ dev path flags vn. Fs.err Fs.path_not_found;
  entry_bytes = λ e. [];
  stat_bytes = λ s. [];
  trap_code = 0x80200000;
  buffer_at = λ k. 0x10000;
  new_box = λ k. 2;
}

-- what the process finds in its memory
abbrev a_stat : ℕ → Kernel → Stat
a_stat entry k = record { size = k.memory.bytes entry; readonly = true; directory = false }

abbrev an_entry : ℕ → Kernel → DirEntry
an_entry entry k = record { name = b'a' ∷ []; name_len = 1; entry_stat = a_stat entry k }

syscalls-IsWrapped_example : IsWrapped platform 0 1 64 an_entry a_stat (kernel frame)
syscalls-IsWrapped_example =
    syscalls-IsWrapped platform 0 1 64 an_entry a_stat (kernel frame) (omega arith)

-- a process that kills itself does not come back
kills_itself : U.kill (trap platform 0 1 64) an_entry a_stat 1 (kernel frame) ≡ gone
unfolding sys_kill find_pid Procs.kill Procs.put seen stays
kills_itself =
    (syscalls-IsWrapped platform 0 1 64 an_entry a_stat (kernel frame) (omega arith)).kills 1

-- the break is at 8200, and the next page at 12288
next_page_here : 8200 + 4088 ≡ next_page 8200
unfolding next_page page_number
next_page_here = refl

sys_sbrk-next_page_example : sys_sbrk 1 4088 (kernel frame) ≡ (panic, kernel frame)
sys_sbrk-next_page_example =
    sys_sbrk-next_page 1 4088 (kernel frame) (omega arith) (omega arith) (omega arith)
      next_page_here

-- the same process with its break at 8192, the start of a page that nothing is mapped to
abbrev on_boundary : Kernel
on_boundary = record (kernel frame) { procs = λ n. record (process frame) { brk = 8192 } }

nothing_mapped : to_phys 0 8192 22 on_boundary.memory ≡ none
unfolding to_phys to_phys_walk next
nothing_mapped = refl

sys_sbrk-boundary_example :
    (k' : Kernel) × (sys_sbrk 1 16 on_boundary ≡ (ok 8208, k'))
    × ((k'.procs 1).brk ≡ 8208)
    × (to_phys (k'.procs 1).pagetable 8192 22 k'.memory ≡ none)
sys_sbrk-boundary_example =
    sys_sbrk-boundary 1 16 22 on_boundary refl (omega arith) (omega arith) nothing_mapped

copy_from-Copied_example : Copied 3 (copy_from 0 4096 3 (kernel frame).memory)
copy_from-Copied_example = copy_from-Copied 0 4096 3 (kernel frame).memory (omega arith)

-- a file system whose files are zeros
abbrev zero_fs : FileSystem
zero_fs = record {
  read = λ vn pos n. Fs.ok (replicate n 0);
  write = λ vn pos b. Fs.err Fs.read_only;
  readdir = λ vn pos. Fs.err Fs.eof;
  stat = λ vn. Fs.err Fs.eof;
}

abbrev zero_node : Fs.VNode
zero_node = record { ino = 1; directory = false; readonly = true }

zero_fs-Answers :
    (pos : ℕ) (r : Range) (m : Memory) → Answers r.len (read_access zero_fs zero_node pos r m).0
unfolding read_access
zero_fs-Answers pos r m =
    counts (length (replicate {A = ℕ} r.len 0)) (omega (arith, length-replicate {A = ℕ} r.len 0))

rw_va-Answers_example :
    Answers 3 (rw_va 0 0 4096 3 0 (read_access zero_fs zero_node) (kernel frame).memory).0
rw_va-Answers_example =
    rw_va-Answers 0 (read_access zero_fs zero_node) zero_fs-Answers 0 4096 3 0 (kernel frame).memory
      (omega arith) (omega arith)
