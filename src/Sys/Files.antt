-- ===== src/Sys/Files.antt =====
-- The system calls on files, of kernel/src/sys.rs.
use servos.Prelude.{ℕ, bit_and, none, some, set, if◌then◌else◌}
use servos.Arr.{HoleArray, Pushed, pushed, full}
use servos.Arr as Holes
use servos.Fs.Path.{Bytes}
use servos.Fs.Fd.{Fd, readdir, stat}
use servos.Fs.Fd.User.{read_va, write_va, open_in_cwd}
use servos.Proc.{Kernel, put_proc}
use servos.Sys.Code.{bad_fd, bad_arg, no_memory, SysResult, ok, err}
use servos.Sys.User.{Platform, ◌>>=◌, of_fs, with_capacity, copy_in, copy_out}

-- the descriptor that a call leaves in its slot
abbrev pub keep_fd : ℕ → ℕ → Fd → Kernel → Kernel
keep_fd n fd f k = let p = k.procs n in put_proc n (record p { files = set p.files fd (some f) }) k

-- sys_close
unfoldable pub sys_close : ℕ → ℕ → Kernel → SysResult ℕ × Kernel
sys_close n fd k =
    let p = k.procs n in
    let (f, files) = Holes.remove p.files fd in
    let k' = put_proc n (record p { files = files }) k in
    elim f [ none ↦ (err bad_fd, k') | some file ↦ (ok 0, k') ]

-- sys_read
unfoldable pub sys_read : ℕ → ℕ → ℕ → ℕ → ℕ → Kernel → SysResult ℕ × Kernel
sys_read n fd pos buf buflen k =
    let p = k.procs n in
    elim (Holes.get p.files fd) [
      | none ↦ (err bad_fd, k)
      | some f ↦
          let ((r, f'), m) = read_va f pos p.pagetable buf buflen k.memory in
          (of_fs r, record (keep_fd n fd f' k) { memory = m })
    ]

-- sys_write
unfoldable pub sys_write : ℕ → ℕ → ℕ → ℕ → ℕ → Kernel → SysResult ℕ × Kernel
sys_write n fd pos buf buflen k =
    let p = k.procs n in
    elim (Holes.get p.files fd) [
      | none ↦ (err bad_fd, k)
      | some f ↦
          let ((r, f'), m) = write_va f pos p.pagetable buf buflen k.memory in
          (of_fs r, record (keep_fd n fd f' k) { memory = m })
    ]

module _ (sys : Platform) where
  -- Vfs::open_in_cwd with some flags, from the process's directory
  abbrev pub open_from : Fd → Bytes → ℕ → SysResult Fd
  open_from cwd path flags =
      of_fs (open_in_cwd (λ dev rest vn. sys.dev_open dev rest flags vn) sys.mounts cwd path)

  -- sys_open; `from_bits_truncate` keeps the four flags there are
  unfoldable pub sys_open : ℕ → ℕ → ℕ → ℕ → Kernel → SysResult ℕ × Kernel
  sys_open n path len flags k = with_capacity len k >>= λ u k1.
      copy_in (k1.procs n).pagetable path len k1 >>= λ buf k2.
      (open_from (k2.procs n).cwd buf (bit_and flags 15), k2) >>= λ file k3.
      elim (Holes.push (k3.procs n).files file) [
        | full f ↦ (err no_memory, k3)
        | pushed i files ↦ (ok i, put_proc n (record (k3.procs n) { files = files }) k3)
      ]

  -- sys_readdir
  unfoldable pub sys_readdir : ℕ → ℕ → ℕ → ℕ → Kernel → SysResult ℕ × Kernel
  sys_readdir n fd pos entry k = elim (Holes.get (k.procs n).files fd) [
    | none ↦ (err bad_fd, k)
    | some f ↦
        let (r, f') = readdir f pos in
        (of_fs r, keep_fd n fd f' k) >>= λ found k1. elim found [
          | none ↦ (ok 0, k1)
          | some ent ↦
              copy_out (k1.procs n).pagetable entry (sys.entry_bytes ent) k1 >>= λ u k2. (ok 1, k2)
        ]
  ]

  -- sys_stat
  unfoldable pub sys_stat : ℕ → ℕ → ℕ → Kernel → SysResult ℕ × Kernel
  sys_stat n fd to k = elim (Holes.get (k.procs n).files fd) [
    | none ↦ (err bad_fd, k)
    | some f ↦ (of_fs (stat f), k) >>= λ st k1.
        copy_out (k1.procs n).pagetable to (sys.stat_bytes st) k1 >>= λ u k2. (ok 0, k2)
  ]

  -- sys_chdir
  unfoldable pub sys_chdir : ℕ → ℕ → ℕ → Kernel → SysResult ℕ × Kernel
  sys_chdir n path len k = with_capacity len k >>= λ u k1.
      copy_in (k1.procs n).pagetable path len k1 >>= λ buf k2.
      (open_from (k2.procs n).cwd buf 0, k2) >>= λ cwd k3.
      if cwd.node.directory
      then (ok 0, put_proc n (record (k3.procs n) { cwd = cwd }) k3)
      else (err bad_arg, k3)
