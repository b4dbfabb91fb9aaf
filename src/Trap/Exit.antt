-- ===== src/Trap/Exit.antt =====
-- The end of a process: from its `exit` to the processes that wait for it.
use servos.Prelude.{
  ℕ, ◌+◌, ◌^◌, ◌<◌, ◌≡◌, ◌≢◌, ap, ap₂, sym, ◌∙◌, subst, Bool, true, false, Option, none, some, ◌==◌,
  if◌then◌else◌, ltb, arith, lt→ltb, ==_self, ne→==,
}
use servos.Prelude.Outcome.{Outcome, done, panic}
use servos.Proc.{Kernel, Process, yields, put, put_proc, with_reg, kill, wake, wake_all, free}
use servos.Proc.Reg
use servos.Proc.Queue.{swap_remove_back}
use servos.Proc.Count.{one, count, count-swap_remove_back}
use servos.Proc.Wake.{put_self, put_other, wake_all-member, Awaited, wake-Awaited}
use servos.Sys.Code.{number, exit, from_repr, from_repr-number}
use servos.Sys.User.{Platform}
use servos.Sys.Procs.{sys_exit}
use servos.Sys.Handle.{dispatch, conclude, answer, handle_syscall, Handled, back, crashed, stopped}
use servos.Sys.Queues.{queues}
use servos.Trap as Traps
use servos.Trap.{
  Trapped, goes_on, panics, CauseResult, left, trap_panics, trap_stops, ecall, handle_cause,
  handle_u_trap, finish_trap, end_process,
}
use servos.Trap.Sound.{Fits}
use servos.Trap.Owned.{listed, destroy-found}

some_of :
    (o : Option ℕ) (t : Trapped) (g : ℕ → Trapped) (e : ℕ)
    → o ≡ some e
    → (elim o [ none ↦ t | some c ↦ g c ]) ≡ g e
some_of o t g e h = ap (λ x. elim x [ none ↦ t | some c ↦ g c ]) h

module _ (hart n : ℕ) where
  pub finish_trap-killed :
      (sepc e : ℕ) (b : Bool) (k : Kernel)
      → (k.procs n).killed ≡ some e
      → finish_trap hart n sepc b k
        ≡ end_process n e (put_proc n (with_reg Reg.pc sepc (k.procs n)) k)
  unfolding finish_trap
  finish_trap-killed sepc e b k h =
      let q = put_self n (with_reg Reg.pc sepc (k.procs n)) k.procs in
      let g : ((put n (with_reg Reg.pc sepc (k.procs n)) k.procs) n).killed ≡ some e =
        ap (λ (p : Process). p.killed) q ∙ h in
      some_of _ _ (λ c. end_process n c (put_proc n (with_reg Reg.pc sepc (k.procs n)) k)) e g

  -- the kernel when the process ends: its registers and its mark are all that has changed
  abbrev marked : ℕ → ℕ → Kernel → Kernel
  marked sepc e k =
      let k1 : Kernel = put_proc n (kill (some e) (k.procs n)) k in
      let k2 : Kernel = answer n 0 0 k1 in put_proc n (with_reg Reg.pc sepc (k2.procs n)) k2

  -- a process keeps a part of its record that the end does not touch
  marked-other : (sepc e m : ℕ) (k : Kernel) → n ≢ m → (marked sepc e k).procs m ≡ k.procs m
  unfolding answer
  marked-other sepc e m k ne = put_other n m _ _ ne ∙ (put_other n m _ _ ne ∙ put_other n m _ _ ne)

  marked-pid : (sepc e : ℕ) (k : Kernel) → ((marked sepc e k).procs n).pid ≡ (k.procs n).pid
  unfolding answer kill
  marked-pid sepc e k =
      ap (λ (p : Process). p.pid) (put_self n _ _)
      ∙ (ap (λ (p : Process). p.pid) (put_self n _ _)
          ∙ ap (λ (p : Process). p.pid) (put_self n _ _))

  marked-killed :
      (k : Kernel) (e : ℕ)
      → ((answer n 0 0 (put_proc n (kill (some e) (k.procs n)) k)).procs n).killed ≡ some e
  unfolding answer kill
  marked-killed k e =
      ap (λ (p : Process). p.killed) (put_self n _ _)
      ∙ ap (λ (p : Process). p.killed) (put_self n _ _)

  handle_u_trap-exit :
      (sys : Platform) (sepc : ℕ) (k : Kernel)
      → (k.procs n).trapframe.regs Reg.a7 ≡ 14
      → sepc + 4 < 2 ^ 64
      → handle_u_trap sys hart n ecall sepc k
        ≡ end_process n
            ((k.procs n).trapframe.regs Reg.a0)
            (marked (sepc + 4) ((k.procs n).trapframe.regs Reg.a0) k)
  unfolding handle_u_trap handle_cause handle_syscall dispatch conclude sys_exit number
  handle_u_trap-exit sys sepc k e lt =
      let regs = (k.procs n).trapframe.regs in
      let k2 : Kernel = answer n 0 0 (put_proc n (kill (some (regs Reg.a0)) (k.procs n)) k) in
      ap
        (λ c.
          after_call (
            conclude n
              (dispatch sys n c (regs Reg.a0) (regs Reg.a1) (regs Reg.a2) (regs Reg.a3) k)))
        (ap from_repr e ∙ from_repr-number exit)
      ∙ (ap (λ b. rest_of (if b then left k2 (sepc + 4) false else trap_panics))
            (lt→ltb (sepc + 4) (2 ^ 64) lt)
          ∙ finish_trap-killed (sepc + 4) (regs Reg.a0) false k2 (marked-killed k (regs Reg.a0)))
    where
      rest_of : CauseResult → Trapped
      rest_of c = elim c [
        | left k' pc must_yield ↦ finish_trap hart n pc must_yield k'
        | trap_panics ↦ panics
        | trap_stops ↦ Traps.stops
      ]

      after_call : Handled → Trapped
      after_call h = rest_of (elim h [
        | back k' ↦ if ltb (sepc + 4) (2 ^ 64) then left k' (sepc + 4) false else trap_panics
        | crashed ↦ trap_panics
        | stopped typ ↦ trap_stops
      ])

  -- A process that is not the first one and that makes the system call `exit` ends: its address is
  -- freed and its hart looks for another process. Any other allocated process that waits for the one
  -- that ends no longer waits, and has the exit code in its register 10 and 0 in its register 11, but
  -- is otherwise as it was; one that does not wait for it is as it was.
  pub exit-wakes :
      (sys : Platform) (sepc m : ℕ) (r : ℕ → ℕ) (k : Kernel)
      → (k.procs n).trapframe.regs 17 ≡ 14
      → sepc + 4 < 2 ^ 64
      → (k.procs n).pid ≢ 0
      → Fits (λ x. r x + one x n) (queues k)
      → n ≢ m
      → k.live m ≡ true
      → (k' : Kernel) × (handle_u_trap sys hart n ecall sepc k ≡ goes_on yields k')
        × (k'.live n ≡ false)
        × Awaited (k.procs n).pid ((k.procs n).trapframe.regs 10) (k.procs m) (k'.procs m)
  unfolding end_process free Fits answer
  exit-wakes sys sepc m r k e lt ne f other alive =
      let code = (k.procs n).trapframe.regs Reg.a0 in
      let km : Kernel = marked (sepc + 4) code k in
      let (i, p) = listed r n k.proc_list k.awaiting k.live f in
      let pid_same = marked-pid (sepc + 4) code k in
      let found =
        destroy-found n code i km (ap (λ x. x == 0) pid_same ∙ ne→== (k.procs n).pid 0 ne) p in
      let list = swap_remove_back i k.proc_list in
      let (a, b) = f m in
      let there : count m list == 0 ≡ false =
        ground (arith, count-swap_remove_back n k.proc_list i m p) in
      (
        free n
            (record km { proc_list = list; procs = wake_all (km.procs n).pid code list km.procs }),
        handle_u_trap-exit sys sepc k e lt ∙ ap ended found,
        ap (λ x. if x then false else k.live n) (==_self n),
        subst (Awaited (k.procs n).pid code (k.procs m))
            (sym (
              wake_all-member (km.procs n).pid code list km.procs m
              ∙ (ap (λ x. if x then km.procs m else wake (km.procs n).pid code (km.procs m)) there
                  ∙ ap₂ (λ x y. wake x code y) pid_same (marked-other (sepc + 4) code m k other))))
            (wake-Awaited (k.procs n).pid code (k.procs m)),
      )
    where
      ended : Outcome Kernel → Trapped
      ended x = elim x [ panic ↦ panics | done k' ↦ goes_on yields k' ]
