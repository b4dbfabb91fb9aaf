-- ===== src/Trap.antt =====
-- `handle_u_trap` of kernel/src/trap.rs: what the kernel does with a trap of a process, up to the
-- next thing that the hart does. What the hardware says of the trap is a parameter: its cause and
-- the program counter. The handler of external interrupts gives a byte to the console, which is no
-- part of this state.
pub mod Sound
pub mod Owned
pub mod Calls
pub mod Machine
pub mod Exit
pub mod Kill
pub mod External
mod Tests
use servos.Prelude.{
  ℕ, ◌+◌, ◌-◌, ◌^◌, Bool, true, false, ◌&&◌, not, Option, none, some, ltb, leb, bit_and, ◌==◌,
  if◌then◌else◌,
}
use servos.Prelude.Outcome.{Outcome, done, panic}
use servos.Proc.{
  Kernel, Process, Next, resumes, yields, put_proc, with_reg, kill, destroy, take, resume,
  is_waiting,
}
use servos.Proc.Reg
use servos.Sys.User.{Platform}
use servos.Sys.Handle.{handle_syscall, Handled, back, crashed, stopped}

-- what TrapCause::current answers: the causes that `handle_u_trap` tells apart, any other that has a
-- name, and one that has none
pub data Cause : Type 0 where
  external_intr timer_intr ecall page_fault other_cause unknown_cause : Cause

-- TrapCause::current, of the cause register; its highest bit marks an interrupt
unfoldable pub current : ℕ → Cause
current scause =
    let c = bit_and scause (2 ^ 63 + 0xff) in
    if c == 2 ^ 63 + 9
    then external_intr
    else if c == 2 ^ 63 + 5
    then timer_intr
    else if c == 8
    then ecall
    else if c == 12
    then page_fault
    else if c == 13
    then page_fault
    else if c == 15
    then page_fault
    else if leb c 9
    then other_cause
    else if c == 18
    then other_cause
    else if c == 19
    then other_cause
    else if c == 2 ^ 63 + 1
    then other_cause
    else if c == 2 ^ 63 + 13
    then other_cause
    else unknown_cause

-- the end of a trap: the hart goes on, the kernel panics, or the machine stops
pub data Trapped : Type 0 where
  goes_on : Next → Kernel → Trapped
  panics stops : Trapped

-- what the first part of a trap leaves: the kernel, the program counter and `must_yield`
pub data CauseResult : Type 0 where
  left : Kernel → ℕ → Bool → CauseResult
  trap_panics trap_stops : CauseResult

-- the `match` on the cause
unfoldable pub handle_cause : Platform → ℕ → Cause → ℕ → Kernel → CauseResult
handle_cause sys n external_intr sepc k = left k sepc false
handle_cause sys n timer_intr sepc k = left k sepc true
handle_cause sys n ecall sepc k = elim (handle_syscall sys n k) [
  | back k' ↦ if ltb (sepc + 4) (2 ^ 64) then left k' (sepc + 4) false else trap_panics
  | crashed ↦ trap_panics
  | stopped typ ↦ trap_stops
]
handle_cause sys n page_fault sepc k = left (put_proc n (kill none (k.procs n)) k) sepc false
handle_cause sys n other_cause sepc k = left (put_proc n (kill none (k.procs n)) k) sepc false
handle_cause sys n unknown_cause sepc k = trap_panics

-- a process that ends leaves its hart
unfoldable pub end_process : ℕ → ℕ → Kernel → Trapped
end_process n ecode k = elim (destroy n ecode k) [ panic ↦ panics | done k' ↦ goes_on yields k' ]

-- the part behind the `match`, with the process's lock
unfoldable pub finish_trap : ℕ → ℕ → ℕ → Bool → Kernel → Trapped
finish_trap hart n sepc must_yield k0 =
    let k = put_proc n (with_reg Reg.pc sepc (k0.procs n)) k0 in
    elim (k.procs n).killed [
      | some ecode ↦ end_process n ecode k
      | none ↦
          if not must_yield && not (is_waiting (k.procs n).status)
          then (let (next, k') = resume hart n k in goes_on next k')
          else let (ok, k') = take n k in
            if ok then goes_on yields k' else end_process n (2 ^ 64 - 1) k'
    ]

-- handle_u_trap
unfoldable pub handle_u_trap : Platform → ℕ → ℕ → Cause → ℕ → Kernel → Trapped
handle_u_trap sys hart n cause sepc k = elim (handle_cause sys n cause sepc k) [
  | left k' pc must_yield ↦ finish_trap hart n pc must_yield k'
  | trap_panics ↦ panics
  | trap_stops ↦ stops
]
