-- ===== src/Trap/Tests.antt =====
-- A machine with two harts and three processes.
use servos.Prelude.{
  ℕ, suc, ◌+◌, ◌<◌, ◌≡◌, refl, true, false, none, some, List, [], ◌∷◌, ◌==◌, if◌then◌else◌, arith,
}
use servos.Fs.Result as Fs
use servos.Fs.Fd.{Fd, FileSystem}
use servos.Proc.{
  Process, ProcStatus, idle, running, waiting, Kernel, yields, resume, kill, put, is_waiting,
}
use servos.Proc.Count.{one, count}
use servos.Proc.Wake.{Awaited}
use servos.Proc.Sched.{yield_hart, AllWait, yield_hart-finds}
use servos.Sys.Code.{ok}
use servos.Sys.User.{Platform}
use servos.Sys.Queues.{queues}
use servos.Trap.{page_fault, current, ecall, goes_on, handle_u_trap}
use servos.Trap.Sound.{Fits}
use servos.Trap.Exit.{exit-wakes}
use servos.Trap.Kill.{sys_kill-ends}
use servos.Sys.Procs.{find_pid, sys_kill}
use servos.Trap.Machine.{
  Machine, Step, trap, schedule, Reaches, here, further, IsOwned, Reaches-IsOwned,
}
use servos.Trap.Machine as Machines

abbrev no_fs : FileSystem
no_fs = record {
  read = λ vn pos n. Fs.err Fs.eof;
  write = λ vn pos b. Fs.err Fs.eof;
  readdir = λ vn pos. Fs.err Fs.eof;
  stat = λ vn. Fs.err Fs.eof;
}

abbrev root : Fd
root = record { node = record { ino = 0; directory = true; readonly = true }; dev = no_fs; pos = 0 }

abbrev process : ℕ → ProcStatus → (ℕ → ℕ) → Process
process pid status regs = record {
  pid = pid;
  status = status;
  files = [];
  cwd = root;
  brk = 0;
  killed = none;
  pagetable = 0;
  trapframe = record { regs = regs; hartid = 0 };
}

-- the registers of a call of `exit`, with the code 7
abbrev exiting : ℕ → ℕ
exiting r = if r == 17 then 14 else 7

-- process 1 waits for process 2, which runs and exits; process 3 is queued
abbrev store : ℕ → Process
store n =
    if n == 1
    then process 1 (waiting 2) (λ r. 0)
    else if n == 2
    then process 2 running exiting
    else process 3 idle (λ r. 0)

abbrev kernel : Kernel
kernel = record {
  procs = store;
  live = λ n. if n == 1 then true else if n == 2 then true else if n == 3 then true else false;
  proc_list = 1 ∷ 2 ∷ 3 ∷ [];
  awaiting = 1 ∷ 3 ∷ [];
  memory = record { tables = λ a b. 0; bytes = λ a. 0; free = [] };
  reserves = true ∷ true ∷ [];
  next_pid = 4;
}

total : List ℕ → ℕ
total [] = 0
total (n ∷ l) = n + total l

abbrev platform : Platform
platform = record {
  mounts = [];
  dev_open = λ dev path flags vn. Fs.err Fs.path_not_found;
  entry_bytes = λ e. [];
  stat_bytes = λ s. [];
  trap_code = 0x80200000;
  buffer_at = λ k. 0x10000;
  new_box = λ k. suc (total k.proc_list);
}

count-total : (n : ℕ) (l : List ℕ) → total l < n → count n l ≡ 0
unfolding count total
count-total n [] h = refl
count-total n (m ∷ l) h =
    let e = count-total n l (omega arith) in let f : one n m ≡ 0 = ground arith in omega arith

new_box-free : (k : Kernel) (r : ℕ → ℕ) → Fits r (queues k) → k.live (platform.new_box k) ≡ false
unfolding Fits
new_box-free k r f =
    let (a, b) = f (suc (total k.proc_list)) in
    let e = count-total (suc (total k.proc_list)) k.proc_list (omega arith) in ground arith

kernel-Fits : Fits (λ n. 0 + one n 2) (queues kernel)
unfolding Fits count
kernel-Fits n = ground arith

exit-wakes_example :
    (k' : Kernel) × (handle_u_trap platform 0 2 ecall 64 kernel ≡ goes_on yields k')
    × (k'.live 2 ≡ false)
    × Awaited 2 7 (store 1) (k'.procs 1)
exit-wakes_example =
    exit-wakes 0 2 platform 64 1 (λ n. 0) kernel refl (omega arith) (ground arith) kernel-Fits
      (ground arith) refl

abbrev machine : Machine
machine = record { harts = some 2 ∷ none ∷ []; kernel = kernel }

machine-IsOwned : IsOwned machine
unfolding IsOwned count Machines.running
machine-IsOwned n = ground arith

exited :
    (k' : Kernel) × (handle_u_trap platform 0 2 ecall 64 kernel ≡ goes_on yields k')
    × (k'.live 2 ≡ false)
    × Awaited 2 7 (store 1) (k'.procs 1)
exited =
    exit-wakes 0 2 platform 64 1 (λ n. 0) kernel refl (omega arith) (ground arith) kernel-Fits
      (ground arith) refl

-- the machine after the process has ended
abbrev after_exit : Machine
after_exit = record { harts = none ∷ none ∷ []; kernel = exited.0 }

Reaches-IsOwned_example : IsOwned after_exit
unfolding current
Reaches-IsOwned_example = Reaches-IsOwned platform new_box-free machine-IsOwned (
    further machine after_exit here
      (trap 0 2 64 8 (some 2 ∷ none ∷ []) kernel exited.0 yields refl exited.1))

kernel-AllWait : AllWait store (1 ∷ [])
unfolding AllWait is_waiting
kernel-AllWait = (refl, tt)

three-waits : is_waiting (store 3).status ≡ false
unfolding is_waiting
three-waits = refl

yield_hart-finds_example : yield_hart 2 0 kernel ≡ resume 0 3 (record kernel { awaiting = 1 ∷ [] })
yield_hart-finds_example = yield_hart-finds 0 3 (1 ∷ []) [] kernel refl kernel-AllWait three-waits

two-found : find_pid 2 kernel.proc_list store ≡ some 2
unfolding find_pid
two-found = refl

-- process 3 kills process 2, which ends at a page fault
abbrev marked : Kernel
marked = (sys_kill 2 kernel).1

marked-number : (marked.procs 2).pid ≡ 2
unfolding sys_kill find_pid kill put
marked-number = refl

marked-Fits : Fits (λ n. 0 + one n 2) (queues marked)
unfolding sys_kill find_pid
marked-Fits = kernel-Fits

sys_kill-ends_example :
    (k' : Kernel) × ((sys_kill 2 kernel).0 ≡ ok 0)
    × (handle_u_trap platform 0 2 page_fault 64 marked ≡ goes_on yields k')
    × (k'.live 2 ≡ false)
sys_kill-ends_example =
    sys_kill-ends platform 0 2 2 64 page_fault (λ n. 0) kernel marked (ground arith) two-found refl
      marked-number marked-Fits (λ e. cc) (λ e. cc)
