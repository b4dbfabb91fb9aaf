-- ===== src/Sys/Handle.antt =====
-- handle_syscall of kernel/src/sys.rs, and the other side of the call: `syscall!` and `sys_result` of
-- user/userstd/src/sys.rs.
use servos.Prelude.{ℕ, ◌%◌, ◌^◌, Option, none, some, ◌==◌, if◌then◌else◌}
use servos.Proc.{Kernel, TrapFrame, set_reg, with_reg, put_proc}
use servos.Proc.Reg
use servos.Sys.Code.{
  Sys, shutdown, kill, getpid, close, read, write, readdir, chdir, spawn, stat, sbrk, waitpid, exit,
  number, from_repr, SysError, bad_syscall, error_number, error_from_repr, SysResult, ok, err,
  panic, stops,
}
use servos.Sys.Code as Code
use servos.Sys.User.{Platform}
use servos.Sys.Files.{sys_open, sys_close, sys_read, sys_write, sys_readdir, sys_stat, sys_chdir}
use servos.Sys.Procs.{sys_shutdown, sys_kill, sys_getpid, sys_waitpid, sys_sbrk, sys_exit}
use servos.Sys.Spawn.{sys_spawn}

-- the `match` of handle_syscall, on the call and its four arguments
unfoldable pub dispatch : Platform → ℕ → Option Sys → ℕ → ℕ → ℕ → ℕ → Kernel → SysResult ℕ × Kernel
dispatch sys n none a0 a1 a2 a3 k = (err bad_syscall, k)
dispatch sys n (some shutdown) a0 a1 a2 a3 k = sys_shutdown a0 k
dispatch sys n (some kill) a0 a1 a2 a3 k = sys_kill a0 k
dispatch sys n (some getpid) a0 a1 a2 a3 k = sys_getpid n k
dispatch sys n (some Code.sys_open) a0 a1 a2 a3 k = sys_open sys n a0 a1 (a2 % 2 ^ 32) k
dispatch sys n (some close) a0 a1 a2 a3 k = sys_close n a0 k
dispatch sys n (some read) a0 a1 a2 a3 k = sys_read n a0 a1 a2 a3 k
dispatch sys n (some write) a0 a1 a2 a3 k = sys_write n a0 a1 a2 a3 k
dispatch sys n (some readdir) a0 a1 a2 a3 k = sys_readdir sys n a0 a1 a2 k
dispatch sys n (some chdir) a0 a1 a2 a3 k = sys_chdir sys n a0 a1 k
dispatch sys n (some spawn) a0 a1 a2 a3 k = sys_spawn sys n a0 a1 a2 a3 k
dispatch sys n (some stat) a0 a1 a2 a3 k = sys_stat sys n a0 a1 k
dispatch sys n (some sbrk) a0 a1 a2 a3 k = sys_sbrk n a0 k
dispatch sys n (some waitpid) a0 a1 a2 a3 k = sys_waitpid n a0 k
dispatch sys n (some exit) a0 a1 a2 a3 k = sys_exit n a0 k

-- `(res, 0)` or `(0, err as usize)`, in the registers of the process
unfoldable pub answer : ℕ → ℕ → ℕ → Kernel → Kernel
answer n a0 a1 k = put_proc n (with_reg Reg.a1 a1 (with_reg Reg.a0 a0 (k.procs n))) k

-- what a call leaves: the kernel, a panic or a stopped machine
pub data Handled : Type 0 where
  back : Kernel → Handled
  crashed : Handled
  stopped : ℕ → Handled

-- the end of handle_syscall
unfoldable pub conclude : ℕ → SysResult ℕ × Kernel → Handled
conclude n (ok res, k) = back (answer n res 0 k)
conclude n (err e, k) = back (answer n 0 (error_number e) k)
conclude n (panic, k) = crashed
conclude n (stops typ, k) = stopped typ

-- handle_syscall
unfoldable pub handle_syscall : Platform → ℕ → Kernel → Handled
handle_syscall sys n k =
    let regs = (k.procs n).trapframe.regs in
    conclude n (
      dispatch sys n (from_repr (regs Reg.a7)) (regs Reg.a0) (regs Reg.a1) (regs Reg.a2)
        (regs Reg.a3) k)

-- the registers that `syscall!` sets before the trap
unfoldable pub syscall_frame : Sys → ℕ → ℕ → ℕ → ℕ → TrapFrame → TrapFrame
syscall_frame call a0 a1 a2 a3 f =
    set_reg Reg.a7 (number call)
      (set_reg Reg.a3 a3 (set_reg Reg.a2 a2 (set_reg Reg.a1 a1 (set_reg Reg.a0 a0 f))))

-- sys_result; an error that has no name is a panic of the program
unfoldable pub sys_result : ℕ → ℕ → SysResult ℕ
sys_result result e =
    if e == 0 then ok result else elim (error_from_repr e) [ none ↦ panic | some x ↦ err x ]
