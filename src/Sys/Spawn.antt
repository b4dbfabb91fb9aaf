-- ===== src/Sys/Spawn.antt =====
-- sys_spawn of kernel/src/sys.rs and the end of Process::spawn of kernel/src/proc.rs. The arguments are copied in, one behind the other, and then cut
-- apart.
use servos.Prelude.{
  ℕ, zero, suc, ◌+◌, ◌*◌, ◌^◌, true, none, List, [], ◌∷◌, ◌++◌, length, take, drop, ltb, ◌==◌, ◌%◌,
  if◌then◌else◌,
}
use servos.Fs.Path.{Bytes}
use servos.Fs.Fd.{Fd}
use servos.Proc.{Kernel, Process, idle, put, set_reg, enqueue_process}
use servos.Proc.Reg
use servos.Arr as Holes
use servos.Sys.Code.{SysResult, ok, err, panic, no_memory}
use servos.Sys.Load.{load_process, owning}
use servos.Sys.User.{Platform, Loaded, ◌>>=◌, with_capacity, try_box, copy_in, read_nth}

-- the first loop, from argument `i` on, with `n` arguments left
unfoldable pub gather_args : ℕ → ℕ → ℕ → ℕ → Bytes → Kernel → SysResult Bytes × Kernel
gather_args zero i pt argv args k = (ok args, k)
gather_args (suc n) i pt argv args k = read_nth pt argv i k >>= λ str k1.
    with_capacity str.len k1 >>= λ u k2.
    copy_in pt str.ptr str.len k2 >>= λ bytes k3. gather_args n (i + 1) pt argv (args ++ bytes) k3

-- the second loop; its `unwrap` and `split_at` panic
unfoldable pub split_args : ℕ → ℕ → ℕ → ℕ → Bytes → Kernel → SysResult (List Bytes)
split_args zero i pt argv buf k = ok []
split_args (suc n) i pt argv buf k =
    let (str, k') = read_nth pt argv i k in
    elim str [
      | ok s ↦
          let rest = split_args n (i + 1) pt argv (drop s.len buf) k in
          if ltb (length buf) s.len
          then panic
          else elim rest [ ok args ↦ ok (take s.len buf ∷ args) | other ↦ other ]
      | other ↦ panic
    ]

-- the new process and its trap frame, whose page is zeroed
unfoldable pub new_process : Loaded → ℕ → Fd → ℕ → Process
new_process l pid cwd nargs = record {
  pid = pid;
  status = idle;
  files = Holes.empty 32;
  cwd = cwd;
  brk = l.highest_va;
  killed = none;
  pagetable = l.pagetable;
  trapframe = set_reg Reg.a1 l.sp (
      set_reg Reg.a0 (nargs + 1)
        (set_reg Reg.sp l.sp (set_reg Reg.pc l.entry (record { regs = λ r. 0; hartid = 0 }))));
}

-- Process::spawn; NEXTPID is a `u32`
unfoldable pub spawn_process : Platform → Bytes → Fd → List Bytes → Kernel → SysResult ℕ × Kernel
spawn_process sys path cwd args k = load_process sys path cwd args k >>= λ l k1.
    let pid = k1.next_pid in
    owning l.pagetable (try_box (record k1 { next_pid = (pid + 1) % 2 ^ 32 })) >>= λ u k2.
    let n = sys.new_box k2 in
    let (success, k3) = enqueue_process n (record k2 {
      procs = put n (new_process l pid cwd (length args)) k2.procs;
      live = λ n'. if n == n' then true else k2.live n';
    }) in
    if success then (ok pid, k3) else (err no_memory, k3)

-- sys_spawn; a slice of the arguments has 16 bytes
unfoldable pub sys_spawn : Platform → ℕ → ℕ → ℕ → ℕ → ℕ → Kernel → SysResult ℕ × Kernel
sys_spawn sys n path pathlen argv nargs k = with_capacity pathlen k >>= λ u k1.
    with_capacity (nargs * 16) k1 >>= λ v k2.
    copy_in (k2.procs n).pagetable path pathlen k2 >>= λ buf k3.
    gather_args nargs 0 (k3.procs n).pagetable argv [] k3 >>= λ args k4.
    (split_args nargs 0 (k4.procs n).pagetable argv args k4, k4) >>= λ slices k5.
    spawn_process sys buf (k5.procs n).cwd slices k5
