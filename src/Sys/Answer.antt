-- ===== src/Sys/Answer.antt =====
-- The two sides of a system call: what the program gets back is what the call came to.
use servos.Prelude.{ℕ, ◌<◌, ◌≡◌, ◌⊎◌, inl, inr, ap, ap₂, sym, subst, ◌∙◌, none, some, if◌then◌else◌}
use servos.Proc.{Kernel, Process, TrapFrame, set_reg, with_reg, put}
use servos.Proc.Reg
use servos.Proc.Wake.{put_self}
use servos.Sys.Code.{
  Sys, from_repr, from_repr-number, from_repr-none, from_repr_zero, SysError, bad_syscall,
  error_number, error_from_repr, error_from_repr-error_number, error_number-ne, SysResult, ok, err,
  panic, stops,
}
use servos.Sys.User.{Platform}
use servos.Sys.Handle.{
  dispatch, answer, Handled, back, crashed, stopped, conclude, handle_syscall, syscall_frame,
  sys_result,
}

-- What a call comes to, seen from the program: its result in the two registers, or nothing, when it
-- does not come back.
pub data Seen (n : ℕ) : SysResult ℕ → Handled → Type 0 where
  answered :
      (r : SysResult ℕ) (k : Kernel)
      → sys_result ((k.procs n).trapframe.regs Reg.a0) ((k.procs n).trapframe.regs Reg.a1) ≡ r
      → Seen n r (back k)
  never_panics : Seen n panic crashed
  never_stops : (typ : ℕ) → Seen n (stops typ) (stopped typ)

answer-regs :
    (n a0 a1 : ℕ) (k : Kernel)
    → (((answer n a0 a1 k).procs n).trapframe.regs Reg.a0 ≡ a0)
      × (((answer n a0 a1 k).procs n).trapframe.regs Reg.a1 ≡ a1)
unfolding answer put set_reg
answer-regs n a0 a1 k =
    let e = put_self n (with_reg Reg.a1 a1 (with_reg Reg.a0 a0 (k.procs n))) k.procs in
    (
      ap (λ (p : Process). p.trapframe.regs Reg.a0) e,
      ap (λ (p : Process). p.trapframe.regs Reg.a1) e,
    )

-- the program's view of a value in the two registers
pub answer-ok :
    (n v : ℕ) (k : Kernel)
    → (let regs = ((answer n v 0 k).procs n).trapframe.regs in
        sys_result (regs Reg.a0) (regs Reg.a1) ≡ ok v)
unfolding sys_result
answer-ok n v k = let (e, f) = answer-regs n v 0 k in ap₂ sys_result e f

-- the program's view of an error
pub answer-err :
    (n : ℕ) (x : SysError) (k : Kernel)
    → (let regs = ((answer n 0 (error_number x) k).procs n).trapframe.regs in
        sys_result (regs Reg.a0) (regs Reg.a1) ≡ err x)
unfolding sys_result
answer-err n x k =
    let (e, f) = answer-regs n 0 (error_number x) k in
    ap₂ sys_result e f
    ∙ (ap
          (λ b.
            if b
            then ok 0
            else elim (error_from_repr (error_number x)) [ none ↦ panic | some y ↦ err y ])
          (error_number-ne x)
        ∙ ap (λ o. elim o [ none ↦ panic | some y ↦ err y ]) (error_from_repr-error_number x))

conclude-Seen : (n : ℕ) (x : SysResult ℕ × Kernel) → Seen n x.0 (conclude n x)
unfolding conclude
conclude-Seen n (ok v, k) = answered (ok v) (answer n v 0 k) (answer-ok n v k)
conclude-Seen n (err x, k) = answered (err x) (answer n 0 (error_number x) k) (answer-err n x k)
conclude-Seen n (panic, k) = never_panics
conclude-Seen n (stops typ, k) = never_stops typ

-- A program that has set its registers as `syscall!` does gets back what the function of that system
-- call came to on those arguments, a value or an error.
pub handle_syscall-Seen :
    (sys : Platform) (n a0 a1 a2 a3 : ℕ) (call : Sys) (f : TrapFrame) (k : Kernel)
    → (k.procs n).trapframe ≡ syscall_frame call a0 a1 a2 a3 f
    → Seen n (dispatch sys n (some call) a0 a1 a2 a3 k).0 (handle_syscall sys n k)
unfolding handle_syscall syscall_frame set_reg
handle_syscall-Seen sys n a0 a1 a2 a3 call f k e =
    subst (λ (g : TrapFrame). Seen n (dispatch sys n (some call) a0 a1 a2 a3 k).0 (ran g)) (sym e)
      (subst
        (λ o.
          Seen n (dispatch sys n (some call) a0 a1 a2 a3 k).0
            (conclude n (dispatch sys n o a0 a1 a2 a3 k)))
        (sym (from_repr-number call)) (conclude-Seen n (dispatch sys n (some call) a0 a1 a2 a3 k)))
  where
    ran : TrapFrame → Handled
    ran g = conclude n (
        dispatch sys n (from_repr (g.regs Reg.a7)) (g.regs Reg.a0) (g.regs Reg.a1) (g.regs Reg.a2)
          (g.regs Reg.a3) k)

-- A call with a number that is none of the system calls' is refused as such, and changes nothing but
-- the two registers of the answer.
pub handle_syscall-unknown :
    (sys : Platform) (n : ℕ) (k : Kernel)
    → ((k.procs n).trapframe.regs Reg.a7 ≡ 0) ⊎ (14 < (k.procs n).trapframe.regs Reg.a7)
    → handle_syscall sys n k ≡ back (answer n 0 (error_number bad_syscall) k)
unfolding handle_syscall dispatch conclude
handle_syscall-unknown sys n k h =
    let regs = (k.procs n).trapframe.regs in
    ap
      (λ o. conclude n (dispatch sys n o (regs Reg.a0) (regs Reg.a1) (regs Reg.a2) (regs Reg.a3) k))
      (none_of h)
  where
    none_of :
        ((k.procs n).trapframe.regs Reg.a7 ≡ 0) ⊎ (14 < (k.procs n).trapframe.regs Reg.a7)
        → from_repr ((k.procs n).trapframe.regs Reg.a7) ≡ none
    none_of (inl e) = ap from_repr e ∙ from_repr_zero
    none_of (inr l) = from_repr-none _ l
