-- ===== src/User/Syscall/Return.antt =====
-- A system call from the program's `ecall` to the point where the program goes on: handle_u_trap of
-- kernel/src/trap.rs around handle_syscall.
use servos.Prelude.{
  ℕ, ◌+◌, ◌-◌, ◌^◌, ◌<◌, ◌≡◌, refl, ap, ap₂, ◌∙◌, Bool, true, false, not, ◌&&◌, Option, none, some,
  List, ltb, lt→ltb, if◌then◌else◌,
}
use servos.Prelude.Outcome.{Outcome, done, panic}
use servos.Proc.{
  Kernel, TrapFrame, Process, running, resumes, yields, put_proc, set_reg, with_reg, is_waiting,
  destroy, take, resume,
}
use servos.Proc.Reg
use servos.Proc.Wake.{put_self}
use servos.Sys.Code.{Sys, SysResult, error_number, from_repr, from_repr-number}
use servos.Sys.Code as Code
use servos.Sys.User.{Platform}
use servos.Sys.Handle.{
  dispatch, answer, Handled, back, crashed, stopped, conclude, handle_syscall, sys_result,
}
use servos.Sys.Answer.{answer-ok, answer-err}
use servos.Trap as Traps
use servos.Trap.{
  ecall, Trapped, goes_on, panics, CauseResult, left, trap_panics, trap_stops, handle_cause,
  handle_u_trap, finish_trap, end_process,
}
use servos.User.Calls.{ok, err}
use servos.User.Syscall.{Back, away, Called, returns, gone, enter, map_ok, unwrap}
use servos.User.Syscall as U

-- process `n`, at the trap of a call
abbrev pub entered : ℕ → Sys → List ℕ → Kernel → Kernel
entered n call args k =
    let p = k.procs n in put_proc n (record p { trapframe = enter call args p.trapframe }) k

-- what the program finds when the trap is over: the registers of the answer, when its hart goes on with
-- it, or nothing, when it ended, has to wait, or the machine came to an end
abbrev pub resumed : ℕ → Trapped → Back Kernel
resumed n (goes_on (resumes m) k) =
    let regs = (k.procs n).trapframe.regs in U.back (regs Reg.a0) (regs Reg.a1) k
resumed n (goes_on yields k) = away
resumed n panics = away
resumed n Traps.stops = away

-- handle_u_trap, on the call of process `n` that a hart runs, at the address `sepc`
abbrev pub trap : Platform → ℕ → ℕ → ℕ → Sys → List ℕ → Kernel → Back Kernel
trap sys hart n sepc call args k =
    resumed n (handle_u_trap sys hart n ecall sepc (entered n call args k))

-- the kernel when the process goes on behind the call
abbrev pub rejoined : ℕ → ℕ → ℕ → Kernel → Kernel
rejoined hart n pc k = (resume hart n (put_proc n (with_reg Reg.pc pc (k.procs n)) k)).1

-- The program comes back when its process is neither marked as killed nor waits.
unfoldable pub stays : {A : Type 0} → Option ℕ → Bool → Called A Kernel → Called A Kernel
stays (some ecode) waits x = gone
stays none true x = gone
stays none false x = x

module _ (hart n sepc : ℕ) where
  -- what the program gets of a result of the kernel's function, its value passed through `f`
  unfoldable pub seen : {A : Type 0} → (ℕ → Kernel → A) → SysResult ℕ × Kernel → Called A Kernel
  seen f (Code.ok v, k) =
      let k' = rejoined hart n (sepc + 4) (answer n v 0 k) in
      stays (k.procs n).killed (is_waiting (k.procs n).status) (returns (ok (f v k')) k')
  seen f (Code.err e, k) =
      let k' = rejoined hart n (sepc + 4) (answer n 0 (error_number e) k) in
      stays (k.procs n).killed (is_waiting (k.procs n).status) (returns (err e) k')
  seen f (Code.panic, k) = gone
  seen f (Code.stops typ, k) = gone

pub map_ok-stays :
    {A B : Type 0} (f : A → Kernel → B) (o : Option ℕ) (b : Bool) (x : Called A Kernel)
    → map_ok f (stays o b x) ≡ stays o b (map_ok f x)
unfolding map_ok stays
map_ok-stays f (some e) b x = refl
map_ok-stays f none true x = refl
map_ok-stays f none false x = refl

pub unwrap-stays :
    {A : Type 0} (o : Option ℕ) (b : Bool) (x : Called A Kernel)
    → unwrap (stays o b x) ≡ stays o b (unwrap x)
unfolding unwrap stays
unwrap-stays (some e) b x = refl
unwrap-stays none true x = refl
unwrap-stays none false x = refl

module _ (hart n sepc : ℕ) where
  pub map_ok-seen :
      {A : Type 0} (f : ℕ → Kernel → A) (x : SysResult ℕ × Kernel)
      → map_ok f (seen hart n sepc (λ v k. v) x) ≡ seen hart n sepc f x
  unfolding map_ok seen
  map_ok-seen f (Code.ok v, k) = map_ok-stays f _ _ _
  map_ok-seen f (Code.err e, k) = map_ok-stays f _ _ _
  map_ok-seen f (Code.panic, k) = refl
  map_ok-seen f (Code.stops typ, k) = refl

  -- the end of a trap of a process that is marked as killed
  end_process-away : (ecode : ℕ) (k : Kernel) → resumed n (end_process n ecode k) ≡ away
  unfolding end_process
  end_process-away ecode k = go (destroy n ecode k)
    where
      go :
          (o : Outcome Kernel)
          → resumed n (elim o [ panic ↦ panics | done k' ↦ goes_on yields k' ]) ≡ away
      go panic = refl
      go (done k') = refl

  requeued-away :
      (r : Bool × Kernel)
      → resumed n (if r.0 then goes_on yields r.1 else end_process n (2 ^ 64 - 1) r.1) ≡ away
  requeued-away (true, k) = refl
  requeued-away (false, k) = end_process-away (2 ^ 64 - 1) k

  -- The program's view of the last part of its trap.
  finish_trap-stays :
      (k : Kernel)
      → (let regs = (k.procs n).trapframe.regs in
          U.answered (resumed n (finish_trap hart n (sepc + 4) false k))
          ≡ stays
              (k.procs n).killed
              (is_waiting (k.procs n).status)
              (U.resume (rejoined hart n (sepc + 4) k) (sys_result (regs Reg.a0) (regs Reg.a1))))
  unfolding finish_trap U.answered resume set_reg
  finish_trap-stays k =
      ap (λ (q : Process). U.answered (resumed n (body q.killed (is_waiting q.status))))
        (put_self n moved k.procs)
      ∙ go (k.procs n).killed (is_waiting (k.procs n).status)
    where
      moved : Process
      moved = with_reg Reg.pc (sepc + 4) (k.procs n)

      at_end : Kernel
      at_end = put_proc n moved k

      at_rest : Process
      at_rest = record (at_end.procs n) {
        status = running;
        trapframe = record (at_end.procs n).trapframe { hartid = hart };
      }

      body : Option ℕ → Bool → Trapped
      body o b = elim o [
        | some ecode ↦ end_process n ecode at_end
        | none ↦
            if not false && not b
            then (let (next, k') = resume hart n at_end in goes_on next k')
            else let (taken, k') = take n at_end in
              if taken then goes_on yields k' else end_process n (2 ^ 64 - 1) k'
      ]

      go :
          (o : Option ℕ) (b : Bool)
          → (let regs = (k.procs n).trapframe.regs in
              U.answered (resumed n (body o b))
              ≡ stays o b (
                  U.resume (rejoined hart n (sepc + 4) k) (sys_result (regs Reg.a0) (regs Reg.a1))))
      go (some ecode) b = unfold stays in ap U.answered (end_process-away ecode at_end)
      go none true = unfold stays in ap U.answered (requeued-away (take n at_end))
      go none false =
          let kept : (r : ℕ) → (at_end.procs n).trapframe.regs r ≡ moved.trapframe.regs r =
            λ r. ap (λ (q : Process). q.trapframe.regs r) (put_self n moved k.procs) in
          let again = put_self n at_rest at_end.procs in
          unfold stays in
          ap₂ (λ a0 a1. U.resume (rejoined hart n (sepc + 4) k) (sys_result a0 a1))
            (ap (λ (q : Process). q.trapframe.regs Reg.a0) again ∙ kept Reg.a0)
            (ap (λ (q : Process). q.trapframe.regs Reg.a1) again ∙ kept Reg.a1)

  -- The program's view of its whole trap, when the kernel has handled the call.
  concluded : Handled → Back Kernel
  concluded h = resumed n (rest_of (after_call h))
    where
      rest_of : CauseResult → Trapped
      rest_of c = elim c [
        | left k' pc must_yield ↦ finish_trap hart n pc must_yield k'
        | trap_panics ↦ panics
        | trap_stops ↦ Traps.stops
      ]

      after_call : Handled → CauseResult
      after_call h = elim h [
        | back k' ↦ if ltb (sepc + 4) (2 ^ 64) then left k' (sepc + 4) false else trap_panics
        | crashed ↦ trap_panics
        | stopped typ ↦ trap_stops
      ]

  concluded-back :
      (k : Kernel)
      → sepc + 4 < 2 ^ 64
      → concluded (back k) ≡ resumed n (finish_trap hart n (sepc + 4) false k)
  unfolding concluded
  concluded-back k lt =
      ap
        (λ b. resumed n (elim (if b then left k (sepc + 4) false else trap_panics) [
          | left k' pc must_yield ↦ finish_trap hart n pc must_yield k'
          | trap_panics ↦ panics
          | trap_stops ↦ Traps.stops
        ]))
        (lt→ltb (sepc + 4) (2 ^ 64) lt)

  -- The answer that was put into the registers is what the program gets, if it comes back.
  answer-stays :
      (a0 a1 : ℕ) (r : SysResult ℕ) (k : Kernel)
      → sepc + 4 < 2 ^ 64
      → (let regs = ((answer n a0 a1 k).procs n).trapframe.regs in
          sys_result (regs Reg.a0) (regs Reg.a1) ≡ r)
      → U.answered (concluded (back (answer n a0 a1 k)))
        ≡ stays
            (k.procs n).killed
            (is_waiting (k.procs n).status)
            (U.resume (rejoined hart n (sepc + 4) (answer n a0 a1 k)) r)
  unfolding answer
  answer-stays a0 a1 r k lt e =
      let k' = answer n a0 a1 k in
      let p = put_self n (with_reg Reg.a1 a1 (with_reg Reg.a0 a0 (k.procs n))) k.procs in
      ap U.answered (concluded-back k' lt)
      ∙ (finish_trap-stays k'
          ∙ (ap
                (λ (q : Process). stays q.killed (is_waiting q.status) (
                  U.resume (rejoined hart n (sepc + 4) k') (
                    sys_result ((k'.procs n).trapframe.regs Reg.a0)
                      ((k'.procs n).trapframe.regs Reg.a1))))
                p
              ∙ ap
                  (λ x.
                    stays (k.procs n).killed (is_waiting (k.procs n).status)
                      (U.resume (rejoined hart n (sepc + 4) k') x))
                  e))

  concluded-seen :
      (x : SysResult ℕ × Kernel)
      → sepc + 4 < 2 ^ 64
      → U.answered (concluded (conclude n x)) ≡ seen hart n sepc (λ v k. v) x
  unfolding seen conclude U.resume concluded U.answered
  concluded-seen (Code.ok v, k) lt = answer-stays v 0 (Code.ok v) k lt (answer-ok n v k)
  concluded-seen (Code.err e, k) lt =
      answer-stays 0 (error_number e) (Code.err e) k lt (answer-err n e k)
  concluded-seen (Code.panic, k) lt = refl
  concluded-seen (Code.stops typ, k) lt = refl

call_number :
    (call : Sys) (args : List ℕ) (f : TrapFrame)
    → from_repr ((enter call args f).regs Reg.a7) ≡ some call
unfolding enter set_reg
call_number call args f = from_repr-number call

-- A call comes to what the kernel's dispatch makes of the registers that were set.
pub syscall-dispatch :
    (sys : Platform) (hart n sepc : ℕ) (call : Sys) (args : List ℕ) (k : Kernel)
    → sepc + 4 < 2 ^ 64
    → U.answered (trap sys hart n sepc call args k) ≡ (
        let regs = (enter call args (k.procs n).trapframe).regs in
        seen hart n sepc
          (λ v k. v)
          (dispatch sys n
            (some call)
            (regs Reg.a0)
            (regs Reg.a1)
            (regs Reg.a2)
            (regs Reg.a3)
            (entered n call args k)))
unfolding handle_u_trap handle_cause handle_syscall concluded
syscall-dispatch sys hart n sepc call args k lt =
    ap
      (λ (p : Process).
        U.answered (
          concluded hart n sepc
            (conclude n (on (from_repr (p.trapframe.regs Reg.a7)) p.trapframe))))
      (put_self n entering k.procs)
    ∙ (ap (λ o. U.answered (concluded hart n sepc (conclude n (on o entering.trapframe))))
          (call_number call args (k.procs n).trapframe)
        ∙ concluded-seen hart n sepc (on (some call) entering.trapframe) lt)
  where
    entering : Process
    entering = record (k.procs n) { trapframe = enter call args (k.procs n).trapframe }

    on : Option Sys → TrapFrame → SysResult ℕ × Kernel
    on o f =
        dispatch sys n o (f.regs Reg.a0) (f.regs Reg.a1) (f.regs Reg.a2) (f.regs Reg.a3)
          (entered n call args k)
