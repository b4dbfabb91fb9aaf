-- ===== src/User/Syscall/Kernel.antt =====
-- The functions of user/userstd/src/sys.rs over the kernel: handle_u_trap of kernel/src/trap.rs and
-- handle_syscall of kernel/src/sys.rs.
use servos.Prelude.{
  ℕ, ◌+◌, ◌%◌, ◌^◌, ◌<◌, ◌≡◌, ap, ◌∙◌, Bool, ◌==◌, if◌then◌else◌, Option, none, some, List, [], ◌∷◌,
}
use servos.Fs.InitRd.{DirEntry, Stat}
use servos.Proc.{Kernel, set_reg}
use servos.Proc.Reg
use servos.Sys.Code.{Sys}
use servos.Sys.Code as Code
use servos.Sys.User.{Platform}
use servos.Sys.Files.{sys_open, sys_close, sys_read, sys_write, sys_readdir, sys_stat, sys_chdir}
use servos.Sys.Procs.{sys_shutdown, sys_kill, sys_getpid, sys_sbrk, sys_exit}
use servos.Sys.Spawn.{sys_spawn}
use servos.Sys.Handle.{dispatch}
use servos.User.Syscall.{
  Slice, set_args, enter, map_ok, unwrap, unwrap_err, pos_or_max, bit, syscall,
}
use servos.User.Syscall as U
use servos.User.Syscall.Return.{
  entered, trap, seen, map_ok-stays, unwrap-stays, map_ok-seen, syscall-dispatch,
}

-- The functions but waitpid, each set against the kernel's function, at the kernel that the trap finds.
pub record IsWrapped (sys : Platform) (hart n sepc : ℕ) (entry_at : ℕ → Kernel → DirEntry)
    (stat_at : ℕ → Kernel → Stat) (k : Kernel) : Type 0 where
  pub shuts_down :
      (restart : Bool)
      → U.shutdown (trap sys hart n sepc) entry_at stat_at restart k
        ≡ unwrap_err (
            seen hart n sepc
              (λ v k'. v)
              (sys_shutdown (bit restart) (entered n Code.shutdown (bit restart ∷ []) k)))
  pub exits :
      (ecode : ℕ)
      → U.exit (trap sys hart n sepc) entry_at stat_at ecode k
        ≡ unwrap_err
            (seen hart n sepc (λ v k'. v) (sys_exit n ecode (entered n Code.exit (ecode ∷ []) k)))
  pub closes :
      (fd : ℕ)
      → U.close (trap sys hart n sepc) entry_at stat_at fd k
        ≡ seen hart n sepc (λ v k'. tt) (sys_close n fd (entered n Code.close (fd ∷ []) k))
  pub kills :
      (pid : ℕ)
      → U.kill (trap sys hart n sepc) entry_at stat_at pid k
        ≡ seen hart n sepc (λ v k'. tt) (sys_kill pid (entered n Code.kill (pid ∷ []) k))
  pub gets_pid :
      U.getpid (trap sys hart n sepc) entry_at stat_at k
      ≡ seen hart n sepc (λ v k'. v % 2 ^ 32) (sys_getpid n (entered n Code.getpid [] k))
  pub opens :
      (path : Slice) (flags : ℕ)
      → U.open_file (trap sys hart n sepc) entry_at stat_at path flags k
        ≡ seen hart n sepc
            (λ v k'. v)
            (sys_open sys n path.ptr path.len
              (flags % 2 ^ 32)
              (entered n Code.sys_open (path.ptr ∷ path.len ∷ flags ∷ []) k))
  pub reads :
      (fd : ℕ) (pos : Option ℕ) (buf : Slice)
      → U.read (trap sys hart n sepc) entry_at stat_at fd pos buf k
        ≡ seen hart n sepc
            (λ v k'. v)
            (sys_read n fd
              (pos_or_max pos)
              buf.ptr
              buf.len
              (entered n Code.read (fd ∷ pos_or_max pos ∷ buf.ptr ∷ buf.len ∷ []) k))
  pub writes :
      (fd : ℕ) (pos : Option ℕ) (buf : Slice)
      → U.write (trap sys hart n sepc) entry_at stat_at fd pos buf k
        ≡ seen hart n sepc
            (λ v k'. v)
            (sys_write n fd
              (pos_or_max pos)
              buf.ptr
              buf.len
              (entered n Code.write (fd ∷ pos_or_max pos ∷ buf.ptr ∷ buf.len ∷ []) k))
  pub reads_dir :
      (entry fd : ℕ) (pos : Option ℕ)
      → U.readdir (trap sys hart n sepc) entry_at stat_at entry fd pos k
        ≡ seen hart n sepc
            (λ v k'. if v == 0 then none else some (entry_at entry k'))
            (sys_readdir sys n fd
              (pos_or_max pos)
              entry
              (entered n Code.readdir (fd ∷ pos_or_max pos ∷ entry ∷ []) k))
  pub stats :
      (entry fd : ℕ)
      → U.stat (trap sys hart n sepc) entry_at stat_at entry fd k
        ≡ seen hart n sepc
            (λ v k'. stat_at entry k')
            (sys_stat sys n fd entry (entered n Code.stat (fd ∷ entry ∷ []) k))
  pub changes_dir :
      (path : Slice)
      → U.chdir (trap sys hart n sepc) entry_at stat_at path k
        ≡ seen hart n sepc
            (λ v k'. tt)
            (sys_chdir sys n path.ptr path.len (entered n Code.chdir (path.ptr ∷ path.len ∷ []) k))
  pub moves_break :
      (inc : ℕ)
      → U.sbrk (trap sys hart n sepc) entry_at stat_at inc k
        ≡ seen hart n sepc (λ v k'. v) (sys_sbrk n inc (entered n Code.sbrk (inc ∷ []) k))
  pub spawns :
      (path args : Slice)
      → U.spawn (trap sys hart n sepc) entry_at stat_at path args k
        ≡ seen hart n sepc
            (λ v k'. v % 2 ^ 32)
            (sys_spawn sys n path.ptr path.len args.ptr args.len
              (entered n Code.spawn (path.ptr ∷ path.len ∷ args.ptr ∷ args.len ∷ []) k))

module _ (sys : Platform) (hart n sepc : ℕ) (k : Kernel) (lt : sepc + 4 < 2 ^ 64) where
  -- `syscall!` on a call
  called :
      (call : Sys) (args : List ℕ)
      → U.answered (trap sys hart n sepc call args k) ≡ (
          let regs = (enter call args (k.procs n).trapframe).regs in
          seen hart n sepc
            (λ v k'. v)
            (dispatch sys n
              (some call)
              (regs Reg.a0)
              (regs Reg.a1)
              (regs Reg.a2)
              (regs Reg.a3)
              (entered n call args k)))
  called call args = syscall-dispatch sys hart n sepc call args k lt

  -- and on one whose value `f` passes on
  passed :
      {A : Type 0} (f : ℕ → Kernel → A) (call : Sys) (args : List ℕ)
      → map_ok f (U.answered (trap sys hart n sepc call args k)) ≡ (
          let regs = (enter call args (k.procs n).trapframe).regs in
          seen hart n sepc f (
            dispatch sys n
              (some call)
              (regs Reg.a0)
              (regs Reg.a1)
              (regs Reg.a2)
              (regs Reg.a3)
              (entered n call args k)))
  passed f call args = ap (map_ok f) (called call args) ∙ map_ok-seen hart n sepc f _

  -- the number of a process, which is no error
  pid_passed :
      map_ok (λ v k'. v % 2 ^ 32) (unwrap (U.answered (trap sys hart n sepc Code.getpid [] k)))
      ≡ seen hart n sepc (λ v k'. v % 2 ^ 32) (sys_getpid n (entered n Code.getpid [] k))
  unfolding dispatch sys_getpid seen map_ok unwrap
  pid_passed =
      ap (λ x. map_ok (λ v k'. v % 2 ^ 32) (unwrap x)) (called Code.getpid [])
      ∙ (ap (map_ok (λ v k'. v % 2 ^ 32)) (unwrap-stays _ _ _) ∙ map_ok-stays _ _ _ _)

-- Each function of the program's side but waitpid gives the program what the kernel's function of the
-- same name answers to the same arguments, its error or its value; the number of a process is cut to
-- 32 bits, and an entry or a stat is what the program's memory then holds. The program does not come
-- back when its process is then marked as killed or waits, nor where the kernel's function panics or
-- stops the machine. The call is at an address that leaves room for its four bytes.
pub syscalls-IsWrapped :
    (sys : Platform) (hart n sepc : ℕ) (entry_at : ℕ → Kernel → DirEntry)
    (stat_at : ℕ → Kernel → Stat) (k : Kernel)
    → sepc + 4 < 2 ^ 64
    → IsWrapped sys hart n sepc entry_at stat_at k
unfolding U.shutdown U.close U.kill U.getpid U.open_file U.read U.write U.readdir U.stat U.chdir
    U.sbrk U.spawn U.exit syscall dispatch enter set_args set_reg
syscalls-IsWrapped sys hart n sepc entry_at stat_at k lt =
    let call = called sys hart n sepc k lt in
    record {
      shuts_down = λ restart. ap unwrap_err (call Code.shutdown (bit restart ∷ []));
      exits = λ ecode. ap unwrap_err (call Code.exit (ecode ∷ []));
      closes = λ fd. passed sys hart n sepc k lt (λ v k'. tt) Code.close (fd ∷ []);
      kills = λ pid. passed sys hart n sepc k lt (λ v k'. tt) Code.kill (pid ∷ []);
      gets_pid = pid_passed sys hart n sepc k lt;
      opens = λ path flags. call Code.sys_open (path.ptr ∷ path.len ∷ flags ∷ []);
      reads = λ fd pos buf. call Code.read (fd ∷ pos_or_max pos ∷ buf.ptr ∷ buf.len ∷ []);
      writes = λ fd pos buf. call Code.write (fd ∷ pos_or_max pos ∷ buf.ptr ∷ buf.len ∷ []);
      reads_dir = λ entry fd pos.
          passed sys hart n sepc k lt (λ v k'. if v == 0 then none else some (entry_at entry k'))
            Code.readdir (fd ∷ pos_or_max pos ∷ entry ∷ []);
      stats = λ entry fd.
          passed sys hart n sepc k lt (λ v k'. stat_at entry k') Code.stat (fd ∷ entry ∷ []);
      changes_dir =
          λ path. passed sys hart n sepc k lt (λ v k'. tt) Code.chdir (path.ptr ∷ path.len ∷ []);
      moves_break = λ inc. call Code.sbrk (inc ∷ []);
      spawns = λ path args.
          passed sys hart n sepc k lt (λ v k'. v % 2 ^ 32) Code.spawn
            (path.ptr ∷ path.len ∷ args.ptr ∷ args.len ∷ []);
    }
