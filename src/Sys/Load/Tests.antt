-- ===== src/Sys/Load/Tests.antt =====
-- A small executable, without a segment, is loaded with one argument.
use servos.Prelude.{
  ℕ, zero, suc, ◌+◌, ◌≡◌, refl, ap, inl, arith, true, false, none, List, [], ◌∷◌, ◌++◌, replicate,
  take,
}
use servos.Vmm.Memory.{Memory, try_alloc, page_zeroed, write_entry}
use servos.Fs.Path.{Bytes}
use servos.Fs.Result as Fs
use servos.Fs.Fd.{Fd, FileSystem}
use servos.Proc.{Kernel, running}
use servos.Sys.Code.{SysResult, ok, panic}
use servos.Sys.User.{Platform, Loaded}
use servos.Sys.Load
use servos.Sys.Load.{load_process}
use servos.Sys.Load.Program
use servos.Elf
use servos.Elf.{Phdr}
use servos.Sys.Load.Program.Refused.{load_segments-panics}
use servos.Vmm.Paging
use servos.Vmm.Copy
use servos.Vmm.Pte.{next, new_entry, intersects, perms, contains}
use servos.Vmm.Vaddr.{page_number, page_offset, vpn, offset}
use servos.Vmm.Translate.{to_phys, to_phys_walk, next_range}
use servos.Fs.Path.{is_absolute}
use servos.Fs.Fd as Fds
use servos.Fs.Fd.User
use servos.Fs.InitRd.Load.Le.{to_le_bytes}
use servos.Sys.User.{with_capacity, from_le}
use servos.Proc.{reserve}
use servos.Sys.Load.Layout.{HasStack, load_process-HasStack}

abbrev header : Bytes
header =
    0x7f ∷ 0x45 ∷ 0x4c ∷ 0x46 ∷ 2 ∷ 1 ∷ 1 ∷ 0 ∷ 0 ∷ 0 ∷ 0 ∷ 0 ∷ 0 ∷ 0 ∷ 0 ∷ 0 ∷ 2 ∷ 0 ∷ 243 ∷ 0 ∷ 1
    ∷ 0 ∷ 0 ∷ 0 ∷ 0 ∷ 16 ∷ 0 ∷ 0 ∷ 0 ∷ 0 ∷ 0 ∷ 0 ∷ 64 ∷ 0 ∷ 0 ∷ 0 ∷ 0 ∷ 0 ∷ 0 ∷ 0 ∷ 64 ∷ 0 ∷ 0 ∷ 0
    ∷ 0 ∷ 0 ∷ 0 ∷ 0 ∷ 0 ∷ 0 ∷ 0 ∷ 0 ∷ 64 ∷ 0 ∷ 56 ∷ 0 ∷ 0 ∷ 0 ∷ 64 ∷ 0 ∷ 0 ∷ 0 ∷ 0 ∷ 0 ∷ []

abbrev program : Bytes
program = header ++ replicate 56 0

abbrev files : FileSystem
files = record {
  read = λ vn pos n. Fs.ok (take n program);
  write = λ vn pos b. Fs.err Fs.read_only;
  readdir = λ vn pos. Fs.err Fs.eof;
  stat = λ vn. Fs.ok (record { size = 120; readonly = true; directory = false });
}

abbrev cwd : Fd
cwd = record { node = record { ino = 0; directory = true; readonly = true }; dev = files; pos = 0 }

abbrev platform : Platform
platform = record {
  mounts = [];
  dev_open = λ dev path flags vn. Fs.ok (record { ino = 1; directory = false; readonly = true });
  entry_bytes = λ e. [];
  stat_bytes = λ s. [];
  trap_code = 0x80200000;
  buffer_at = λ k. 0x10000;
  new_box = λ k. 2;
}

pages : ℕ → ℕ → List ℕ
pages zero a = []
pages (suc n) a = a ∷ pages n (a + 0x1000)

abbrev kernel : Kernel
kernel = record {
  procs = λ n. record {
    pid = 1;
    status = running;
    files = [];
    cwd = cwd;
    brk = 0;
    killed = none;
    pagetable = 0;
    trapframe = record { regs = λ r. 0; hartid = 0 };
  };
  live = λ n. false;
  proc_list = [];
  awaiting = [];
  memory = record { tables = λ t i. 0; bytes = λ p. 0; free = pages 300 0x81000000 };
  reserves = true ∷ true ∷ [];
  next_pid = 2;
}

abbrev run : SysResult Loaded × Kernel
run = load_process platform (b'p' ∷ []) cwd ((b'x' ∷ b'y' ∷ []) ∷ []) kernel

abbrev loaded : Loaded
loaded = record { pagetable = 0x81000000; highest_va = 0; entry = 0x1000; sp = 0x3f_ffff_cfe8 }

loads : run.0 ≡ ok loaded
unfolding load_process pages Load.read_program User.open_in_cwd is_absolute Fds.stat Fds.new
    with_capacity reserve Fds.read Fds.exec_with_pos_raw Load.parse Elf.new Elf.as_struct
    Elf.is_supported Elf.ehdr_at Elf.field from_le Elf.get_from Elf.as_slice Elf.read_all
    Elf.shdr_at Elf.phdr_at Elf.find_strtable try_alloc Load.fill Load.map_trap_frame page_zeroed
    Load.map_trap_code Paging.map_pages Paging.page_range page_number Paging.map_pages_from
    Paging.map_page_raw Paging.map_walk next new_entry write_entry vpn Paging.map_owned_page
    intersects Program.load_segments Program.map_stack Paging.map_new_pages Paging.map_new_from
    Program.push_args Copy.copy_to Copy.copy_to_loop Copy.iter_phys next_range to_phys to_phys_walk
    Copy.write_bytes offset page_offset perms contains Program.push_ptrs to_le_bytes
loads = refl

runs : run ≡ (ok loaded, run.1)
runs = ap (λ r. (r, run.1)) loads

load_process-HasStack_example : HasStack ((b'p' ∷ []) ∷ (b'x' ∷ b'y' ∷ []) ∷ []) loaded
load_process-HasStack_example =
    load_process-HasStack platform (b'p' ∷ []) cwd ((b'x' ∷ b'y' ∷ []) ∷ []) kernel run.1 loaded
      runs

abbrev empty_segment : Phdr
empty_segment = record {
  typ = 1;
  flags = 0;
  offset = 0;
  vaddr = 0x1000;
  paddr = 0;
  filesz = 0;
  memsz = 0;
  align = 0;
}

load_segments-panics_example :
    (m' : Memory) × (Program.load_segments 0x81000000 program (empty_segment ∷ []) 0 kernel.memory
      ≡ (panic, m'))
load_segments-panics_example =
    load_segments-panics 0x81000000 program empty_segment [] 0 kernel.memory refl (omega arith)
      (inl refl)
