-- ===== src/Proc.antt =====
-- kernel/src/proc.rs: the processes, the list of them and the scheduler's queue.
--
-- A process is a heap object that the list, the queue and the trap frames point to: `procs` is the
-- heap, from addresses to processes, and `live` tells which addresses are allocated. The code
-- follows a pointer without a check, and so does the model. A call runs between two traps of
-- one hart with no other hart's call in between, so a lock is not part of the state.
pub mod Reg
pub mod Queue
pub mod Count
pub mod Wake
pub mod GiveBack
mod Tests
pub mod Sched
use servos.Prelude.{
  ℕ, zero, suc, ◌+◌, ◌-◌, ◌^◌, Bool, true, false, Option, none, some, List, [], ◌∷◌, ◌++◌, ◌==◌,
  if◌then◌else◌,
}
use servos.Prelude.Outcome.{Outcome, done, panic}
use servos.Proc.Queue.{position, swap_remove_back, pop_back}
use servos.Arr.{HoleArray}
use servos.Vmm.Memory.{Memory}
use servos.Vmm.Paging.Drop.{drop_box}
use servos.Fs.Fd.{Fd}

pub data ProcStatus : Type 0 where
  idle running : ProcStatus
  waiting : ℕ → ProcStatus

-- TrapFrame; its fields that no operation here reads are left out
pub record TrapFrame : Type 0 where
  pub regs : ℕ → ℕ
  pub hartid : ℕ

pub record Process : Type 0 where
  pub pid : ℕ
  pub status : ProcStatus
  pub files : HoleArray Fd
  pub cwd : Fd
  pub brk : ℕ
  pub killed : Option ℕ
  pub pagetable : ℕ
  pub trapframe : TrapFrame

-- the state of the kernel that processes and system calls share; `reserves` holds the answers of the
-- reservations of heap memory to come, which fail when there is none left
pub record Kernel : Type 0 where
  pub procs : ℕ → Process
  pub live : ℕ → Bool
  pub proc_list : List ℕ
  pub awaiting : List ℕ
  pub memory : Memory
  pub reserves : List Bool
  pub next_pid : ℕ

-- IndexMut::index_mut of a trap frame
unfoldable pub set_reg : ℕ → ℕ → TrapFrame → TrapFrame
set_reg r v f = record f { regs = λ r'. if r == r' then v else f.regs r' }

abbrev pub with_reg : ℕ → ℕ → Process → Process
with_reg r v p = record p { trapframe = set_reg r v p.trapframe }

-- what a write through a process's pointer changes
unfoldable pub put : ℕ → Process → (ℕ → Process) → ℕ → Process
put n p procs n' = if n == n' then p else procs n'

abbrev pub put_proc : ℕ → Process → Kernel → Kernel
put_proc n p k = record k { procs = put n p k.procs }

-- Process::kill
unfoldable pub kill : Option ℕ → Process → Process
kill code p = record p { killed = some (elim code [ none ↦ 2 ^ 64 - 1 | some c ↦ c ]) }

-- `proc.status == ProcStatus::Waiting(pid)`
unfoldable pub waits_for : ℕ → ProcStatus → Bool
waits_for pid idle = false
waits_for pid running = false
waits_for pid (waiting p) = p == pid

-- `matches!(proc.status, ProcStatus::Waiting(_))`
unfoldable pub is_waiting : ProcStatus → Bool
is_waiting idle = false
is_waiting running = false
is_waiting (waiting p) = true

-- the body of the loop of `destroy`
unfoldable pub wake : ℕ → ℕ → Process → Process
wake pid ecode p =
    if waits_for pid p.status
    then with_reg Reg.a1 0 (with_reg Reg.a0 ecode (record p { status = idle }))
    else p

-- the loop of `destroy`
unfoldable pub wake_all : ℕ → ℕ → List ℕ → (ℕ → Process) → ℕ → Process
wake_all pid ecode [] procs = procs
wake_all pid ecode (n ∷ list) procs =
    wake_all pid ecode list (put n (wake pid ecode (procs n)) procs)

-- The drop of a box of a page table. The tables have three levels, for which the fuel is enough.
unfoldable pub drop_table_of : ℕ → Memory → Memory
drop_table_of pt m = elim (drop_box 3 pt m) [ none ↦ m | some m' ↦ m' ]

-- Process::drop
unfoldable pub drop_process : Process → Memory → Memory
unfolding drop_table_of
drop_process p m = drop_table_of p.pagetable m

-- ProcessNode::free
unfoldable pub free : ℕ → Kernel → Kernel
free n k = record k {
  live = λ n'. if n == n' then false else k.live n';
  memory = drop_process (k.procs n) k.memory;
}

-- ProcessNode::destroy
unfoldable pub destroy : ℕ → ℕ → Kernel → Outcome Kernel
destroy n ecode k =
    let mypid = (k.procs n).pid in
    if mypid == 0
    then panic
    else let list : List ℕ = elim (position n k.proc_list) [
      | none ↦ k.proc_list
      | some i ↦ swap_remove_back i k.proc_list
    ] in
      done (free n (record k { proc_list = list; procs = wake_all mypid ecode list k.procs }))

-- one reservation of memory
unfoldable pub reserve : Kernel → Bool × Kernel
reserve k = elim k.reserves [ [] ↦ (false, k) | b ∷ answers ↦ (b, record k { reserves = answers }) ]

-- `vec.try_reserve(1).is_err() && vec.try_reserve_exact(1).is_err()`, negated
unfoldable pub reserve_one : Kernel → Bool × Kernel
reserve_one k = let (b, k') = reserve k in if b then (true, k') else reserve k'

-- Scheduler::take
unfoldable pub take : ℕ → Kernel → Bool × Kernel
take n k =
    let (ok, k') = reserve_one k in
    if ok then (true, record k' { awaiting = k'.awaiting ++ n ∷ [] }) else (false, k')

-- Process::enqueue_process
unfoldable pub enqueue_process : ℕ → Kernel → Bool × Kernel
enqueue_process n k =
    let (ok, k1) = reserve_one k in
    if ok
    then (let (taken, k2) = take n (record k1 { proc_list = k1.proc_list ++ n ∷ [] }) in
        if taken
        then (true, k2)
        else (false, free n (record k2 { proc_list = pop_back k2.proc_list })))
    else (false, free n k1)

-- what a hart does after a call: it goes on with a process, or looks for one
pub data Next : Type 0 where
  resumes : ℕ → Next
  yields : Next

-- Process::resume on a hart
unfoldable pub resume : ℕ → ℕ → Kernel → Next × Kernel
resume hart n k =
    let p = k.procs n in
    (
      resumes n,
      put_proc n (record p { status = running; trapframe = record p.trapframe { hartid = hart } })
          k,
    )

-- Scheduler::try_find_execute on a hart that gets the lock
unfoldable pub try_find_execute : ℕ → Kernel → Next × Kernel
try_find_execute hart k = elim k.awaiting [
  | [] ↦ (yields, k)
  | next ∷ rest ↦
      if is_waiting (k.procs next).status
      then (yields, record k { awaiting = rest ++ next ∷ [] })
      else resume hart next (record k { awaiting = rest })
]
