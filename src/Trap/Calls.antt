-- ===== src/Trap/Calls.antt =====
-- A trap keeps the ownership of the processes: the system calls, and the trap as a whole.
use servos.Prelude.{
  ℕ, ◌+◌, ◌*◌, ◌^◌, ◌%◌, ◌≡◌, ◌⊎◌, Bool, true, false, Option, none, some, inl, inr, List, [], ◌∷◌,
  ◌++◌, ltb, ◌==◌, if◌then◌else◌, arith,
}
use servos.Fs.Path.{Bytes}
use servos.Fs.Fd.{Fd}
use servos.Proc.{Kernel, Process, reserve, reserve_one, take, free, enqueue_process}
use servos.Proc.Count.{one, pop_back-append}
use servos.Sys.Code.{
  Sys, SysError, SysResult, ok, err, panic, stops, from_repr, error_number, no_memory,
}
use servos.Sys.Code as Code
use servos.Sys.User.{Platform, Loaded, ◌>>=◌, with_capacity, try_box, copy_in}
use servos.Sys.Load.{load_process, owning}
use servos.Sys.Load.Kept.{load_process-Keeps, owning-Keeps}
use servos.Sys.Spawn.{gather_args, split_args, spawn_process, sys_spawn}
use servos.Sys.Handle.{dispatch, handle_syscall, conclude, answer, Handled, back, crashed, stopped}
use servos.Sys.Queues.{
  queues, Keeps, with_capacity-Keeps, copy_in-Keeps, gather_args-Keeps, sys_open-Keeps,
  sys_close-Keeps, sys_read-Keeps, sys_write-Keeps, sys_readdir-Keeps, sys_stat-Keeps,
  sys_chdir-Keeps, sys_kill-Keeps, sys_shutdown-Keeps, sys_waitpid-Keeps, sys_sbrk-Keeps,
}
use servos.Sys.Files.{sys_open, sys_close, sys_read, sys_write, sys_readdir, sys_stat, sys_chdir}
use servos.Sys.Procs.{sys_shutdown, sys_kill, sys_getpid, sys_waitpid, sys_sbrk, sys_exit}
use servos.Trap as Traps
use servos.Trap.{
  Cause, external_intr, timer_intr, ecall, page_fault, other_cause, unknown_cause, Trapped, goes_on,
  panics, CauseResult, left, trap_panics, trap_stops, handle_cause, finish_trap, handle_u_trap,
}
use servos.Trap.Sound.{Fits, Fits-queues, spawned-Fits, dropped-Fits}
use servos.Trap.Owned.{After, went, off, finish_trap-After}
use servos.Trap.Owned as Owned

-- a kernel whose processes have their owners
abbrev FitsK : (ℕ → ℕ) → Kernel → Type 0
FitsK r k = Fits r (queues k)

enqueue-queues :
    (n : ℕ) (k : Kernel)
    → (queues (enqueue_process n k).1 ≡ (k.proc_list ++ n ∷ [], k.awaiting ++ n ∷ [], k.live))
      ⊎ (queues (enqueue_process n k).1
          ≡ (k.proc_list, k.awaiting, λ m. if n == m then false else k.live m))
unfolding enqueue_process take free reserve_one reserve
enqueue-queues n k = let e = pop_back-append k.proc_list n in ground arith

module _ (r : ℕ → ℕ) where
  bind-Fits :
      {A B : Type 0} (x : SysResult A × Kernel) (f : A → Kernel → SysResult B × Kernel)
      → FitsK r x.1
      → ((a : A) (k : Kernel) → FitsK r k → FitsK r (f a k).1)
      → FitsK r (x >>= f).1
  bind-Fits (ok a, k) f h g = g a k h
  bind-Fits (err e, k) f h g = h
  bind-Fits (panic, k) f h g = h
  bind-Fits (stops n, k) f h g = h

  kept : {A : Type 0} (x : SysResult A × Kernel) (k : Kernel) → Keeps x k → FitsK r k → FitsK r x.1
  kept x k e f = Fits-queues r (queues k) (queues x.1) e f

  then-Fits :
      {A B : Type 0} (x : SysResult A × Kernel) (f : A → Kernel → SysResult B × Kernel) (k : Kernel)
      → Keeps x k
      → FitsK r k
      → ((a : A) (k' : Kernel) → FitsK r k' → FitsK r (f a k').1)
      → FitsK r (x >>= f).1
  then-Fits x f k e h g = bind-Fits x f (kept x k e h) g

  -- a new process, at an address that is not allocated
  abbrev fresh : ℕ → (ℕ → Process) → Kernel → Kernel
  fresh n procs k = record k { procs = procs; live = λ m. if n == m then true else k.live m }

  enqueue_process-Fits :
      (n : ℕ) (procs : ℕ → Process) (k : Kernel)
      → k.live n ≡ false
      → FitsK r k
      → FitsK r (enqueue_process n (fresh n procs k)).1
  enqueue_process-Fits n procs k e f = elim (enqueue-queues n (fresh n procs k)) [
    | inl q ↦ Fits-queues r _ _ q (spawned-Fits n r k.proc_list k.awaiting k.live e f)
    | inr q ↦ Fits-queues r _ _ q (dropped-Fits n r k.proc_list k.awaiting k.live e f)
  ]

  spawned :
      (x : Bool × Kernel) (pid : ℕ)
      → FitsK r x.1
      → FitsK r (
          let y : SysResult ℕ × Kernel = (if x.0 then (ok pid, x.1) else (err no_memory, x.1)) in
          y.1)
  spawned (true, k) pid f = f
  spawned (false, k) pid f = f

  try_box-Keeps : (k : Kernel) → Keeps (try_box k) k
  unfolding try_box reserve
  try_box-Keeps k = ground arith

  module _ (sys : Platform)
      (new_box-free : (k : Kernel) (r : ℕ → ℕ)
        → Fits r (queues k)
        → k.live (sys.new_box k) ≡ false) where
    spawn_process-Fits :
        (path : Bytes) (cwd : Fd) (args : List Bytes) (k : Kernel)
        → FitsK r k
        → FitsK r (spawn_process sys path cwd args k).1
    unfolding spawn_process
    spawn_process-Fits path cwd args k f =
        then-Fits (load_process sys path cwd args k) _ k (load_process-Keeps sys path cwd args k) f
          (λ (l : Loaded) k1 f1.
            let k1' : Kernel = record k1 { next_pid = (k1.next_pid + 1) % 2 ^ 32 } in
            then-Fits (owning l.pagetable (try_box k1')) _ k1'
              (owning-Keeps l.pagetable (try_box k1') k1' (try_box-Keeps k1')) f1
              (λ u k2 f2.
                spawned (enqueue_process (sys.new_box k2) (fresh (sys.new_box k2) _ k2)) k1.next_pid
                  (enqueue_process-Fits (sys.new_box k2) _ k2 (new_box-free k2 r f2) f2)))

    sys_spawn-Fits :
        (n path pathlen argv nargs : ℕ) (k : Kernel)
        → FitsK r k
        → FitsK r (sys_spawn sys n path pathlen argv nargs k).1
    unfolding sys_spawn
    sys_spawn-Fits n path pathlen argv nargs k f =
        then-Fits (with_capacity pathlen k) _ k (with_capacity-Keeps pathlen k) f (λ u k1 f1.
          then-Fits (with_capacity (nargs * 16) k1) _ k1 (with_capacity-Keeps (nargs * 16) k1) f1
            (λ v k2 f2.
              let pt2 = (k2.procs n).pagetable in
              then-Fits (copy_in pt2 path pathlen k2) _ k2 (copy_in-Keeps pt2 path pathlen k2) f2
                (λ buf k3 f3.
                  let pt3 = (k3.procs n).pagetable in
                  then-Fits (gather_args nargs 0 pt3 argv [] k3) _ k3
                    (gather_args-Keeps nargs 0 pt3 argv [] k3) f3
                    (λ args k4 f4.
                      bind-Fits (split_args nargs 0 (k4.procs n).pagetable argv args k4, k4) _ f4
                        (λ slices k5 f5. spawn_process-Fits buf (k5.procs n).cwd slices k5 f5)))))

    dispatch-Fits :
        (n : ℕ) (call : Option Sys) (a0 a1 a2 a3 : ℕ) (k : Kernel)
        → FitsK r k
        → FitsK r (dispatch sys n call a0 a1 a2 a3 k).1
    unfolding dispatch sys_getpid sys_exit
    dispatch-Fits n none a0 a1 a2 a3 k f = f
    dispatch-Fits n (some Code.shutdown) a0 a1 a2 a3 k f =
        kept (sys_shutdown a0 k) k (sys_shutdown-Keeps a0 k) f
    dispatch-Fits n (some Code.kill) a0 a1 a2 a3 k f =
        kept (sys_kill a0 k) k (sys_kill-Keeps a0 k) f
    dispatch-Fits n (some Code.getpid) a0 a1 a2 a3 k f = f
    dispatch-Fits n (some Code.sys_open) a0 a1 a2 a3 k f =
        kept (sys_open sys n a0 a1 (a2 % 2 ^ 32) k) k (sys_open-Keeps sys n a0 a1 (a2 % 2 ^ 32) k) f
    dispatch-Fits n (some Code.close) a0 a1 a2 a3 k f =
        kept (sys_close n a0 k) k (sys_close-Keeps n a0 k) f
    dispatch-Fits n (some Code.read) a0 a1 a2 a3 k f =
        kept (sys_read n a0 a1 a2 a3 k) k (sys_read-Keeps n a0 a1 a2 a3 k) f
    dispatch-Fits n (some Code.write) a0 a1 a2 a3 k f =
        kept (sys_write n a0 a1 a2 a3 k) k (sys_write-Keeps n a0 a1 a2 a3 k) f
    dispatch-Fits n (some Code.readdir) a0 a1 a2 a3 k f =
        kept (sys_readdir sys n a0 a1 a2 k) k (sys_readdir-Keeps sys n a0 a1 a2 k) f
    dispatch-Fits n (some Code.chdir) a0 a1 a2 a3 k f =
        kept (sys_chdir sys n a0 a1 k) k (sys_chdir-Keeps sys n a0 a1 k) f
    dispatch-Fits n (some Code.spawn) a0 a1 a2 a3 k f = sys_spawn-Fits n a0 a1 a2 a3 k f
    dispatch-Fits n (some Code.stat) a0 a1 a2 a3 k f =
        kept (sys_stat sys n a0 a1 k) k (sys_stat-Keeps sys n a0 a1 k) f
    dispatch-Fits n (some Code.sbrk) a0 a1 a2 a3 k f =
        kept (sys_sbrk n a0 k) k (sys_sbrk-Keeps n a0 k) f
    dispatch-Fits n (some Code.waitpid) a0 a1 a2 a3 k f =
        kept (sys_waitpid n a0 k) k (sys_waitpid-Keeps n a0 k) f
    dispatch-Fits n (some Code.exit) a0 a1 a2 a3 k f = f

module _ (sys : Platform)
    (new_box-free : (k : Kernel) (r : ℕ → ℕ) → Fits r (queues k) → k.live (sys.new_box k) ≡ false)
    (r : ℕ → ℕ) (hart n : ℕ) where
  -- what the rest of a trap does after a system call
  abbrev rest_of : ℕ → Handled → Trapped
  rest_of sepc h =
      elim (elim h as (λ x. CauseResult) [
        | back k' ↦ if ltb (sepc + 4) (2 ^ 64) then left k' (sepc + 4) false else trap_panics
        | crashed ↦ trap_panics
        | stopped typ ↦ trap_stops
      ]) [
        | left k' pc must_yield ↦ finish_trap hart n pc must_yield k'
        | trap_panics ↦ panics
        | trap_stops ↦ Traps.stops
      ]

  returned :
      (sepc : ℕ) (k : Kernel) (b : Bool)
      → FitsK (λ m. r m + one m n) k
      → After r (elim (if b then left k (sepc + 4) false else trap_panics) [
        | left k' pc must_yield ↦ finish_trap hart n pc must_yield k'
        | trap_panics ↦ panics
        | trap_stops ↦ Traps.stops
      ])
  returned sepc k true f = finish_trap-After r n hart (sepc + 4) false k f
  returned sepc k false f = Owned.crashed

  syscall-After :
      (sepc : ℕ) (x : SysResult ℕ × Kernel)
      → FitsK (λ m. r m + one m n) x.1
      → After r (rest_of sepc (conclude n x))
  unfolding conclude answer
  syscall-After sepc (ok v, k) f = returned sepc _ _ f
  syscall-After sepc (err e, k) f = returned sepc _ _ f
  syscall-After sepc (panic, k) f = Owned.crashed
  syscall-After sepc (stops typ, k) f = off

  -- A trap of a process that its hart runs, when the other harts run `r`, leaves each process with
  -- its owner.
  pub handle_u_trap-After :
      (cause : Cause) (sepc : ℕ) (k : Kernel)
      → FitsK (λ m. r m + one m n) k
      → After r (handle_u_trap sys hart n cause sepc k)
  unfolding handle_u_trap handle_cause handle_syscall
  handle_u_trap-After external_intr sepc k f = finish_trap-After r n hart sepc false k f
  handle_u_trap-After timer_intr sepc k f = finish_trap-After r n hart sepc true k f
  handle_u_trap-After ecall sepc k f =
      syscall-After sepc _ (dispatch-Fits (λ m. r m + one m n) sys new_box-free n _ _ _ _ _ k f)
  handle_u_trap-After page_fault sepc k f = finish_trap-After r n hart sepc false _ f
  handle_u_trap-After other_cause sepc k f = finish_trap-After r n hart sepc false _ f
  handle_u_trap-After unknown_cause sepc k f = Owned.crashed
