-- ===== src/User/Syscall.antt =====
-- The functions of user/userstd/src/sys.rs, over what a trap does to the world behind the program. A
-- slice is an address with a length; the machine words of a call are natural numbers.
pub mod Return
pub mod Kernel
use servos.Prelude.{
  ℕ, suc, ◌-◌, ◌%◌, ◌^◌, Bool, true, false, ◌==◌, if◌then◌else◌, Option, none, some, List, [], ◌∷◌,
}
use servos.Fs.InitRd.{DirEntry, Stat}
use servos.Proc.{TrapFrame, set_reg}
use servos.Proc.Reg
use servos.Sys.Code.{Sys, SysResult}
use servos.Sys.Code as Code
use servos.Sys.Handle.{sys_result}
use servos.User.Calls.{Result, ok, err}

pub record Slice : Type 0 where
  pub ptr : ℕ
  pub len : ℕ

-- What a trap comes to: the two registers of the answer, or no return.
pub data Back (W : Type 0) : Type 0 where
  back : ℕ → ℕ → W → Back W
  away : Back W

-- What a function of sys.rs comes to: a result, a panic of the program, or no return.
pub data Called (A W : Type 0) : Type 0 where
  returns : Result A → W → Called A W
  crashes : W → Called A W
  gone : Called A W

-- the registers that `syscall!` sets for its arguments, from a0 on
unfoldable pub set_args : ℕ → List ℕ → TrapFrame → TrapFrame
set_args r [] f = f
set_args r (a ∷ args) f = set_args (suc r) args (set_reg r a f)

-- all the registers that `syscall!` sets
unfoldable pub enter : Sys → List ℕ → TrapFrame → TrapFrame
enter call args f = set_reg Reg.a7 (Code.number call) (set_args Reg.a0 args f)

-- `restart as usize`
unfoldable pub bit : Bool → ℕ
bit true = 1
bit false = 0

-- `map`
unfoldable pub map_ok : {A B W : Type 0} → (A → W → B) → Called A W → Called B W
map_ok f (returns (ok a) w) = returns (ok (f a w)) w
map_ok f (returns (err e) w) = returns (err e) w
map_ok f (crashes w) = crashes w
map_ok f gone = gone

-- `unwrap`
unfoldable pub unwrap : {A W : Type 0} → Called A W → Called A W
unwrap (returns (ok a) w) = returns (ok a) w
unwrap (returns (err e) w) = crashes w
unwrap (crashes w) = crashes w
unwrap gone = gone

-- `Err(x.unwrap_err())`, of a call that has no value
unfoldable pub unwrap_err : {A W : Type 0} → Called A W → Called ⊥ W
unwrap_err (returns (ok a) w) = crashes w
unwrap_err (returns (err e) w) = returns (err e) w
unwrap_err (crashes w) = crashes w
unwrap_err gone = gone

-- a position that may be left out: 2 ^ 64 - 1 in the register
unfoldable pub pos_or_max : Option ℕ → ℕ
pos_or_max none = 2 ^ 64 - 1
pos_or_max (some p) = p

-- the answer of sys_result, to which the program comes back
unfoldable pub resume : {W : Type 0} → W → SysResult ℕ → Called ℕ W
resume w (Code.ok v) = returns (ok v) w
resume w (Code.err e) = returns (err e) w
resume w Code.panic = crashes w
resume w (Code.stops typ) = crashes w

-- sys_result on the two registers
unfoldable pub answered : {W : Type 0} → Back W → Called ℕ W
answered (back a0 a1 w) = resume w (sys_result a0 a1)
answered away = gone

-- The trap, and what the program finds in its memory where the kernel has put an entry or a stat.
module _ {W : Type 0} (trap : Sys → List ℕ → W → Back W) (entry_at : ℕ → W → DirEntry)
    (stat_at : ℕ → W → Stat) where
  -- `syscall!`
  unfoldable pub syscall : Sys → List ℕ → W → Called ℕ W
  syscall call args w = answered (trap call args w)

  unfoldable pub shutdown : Bool → W → Called ⊥ W
  shutdown restart w = unwrap_err (syscall Code.shutdown (bit restart ∷ []) w)

  unfoldable pub close : ℕ → W → Called Unit W
  close fd w = map_ok (λ v w'. tt) (syscall Code.close (fd ∷ []) w)

  unfoldable pub kill : ℕ → W → Called Unit W
  kill pid w = map_ok (λ v w'. tt) (syscall Code.kill (pid ∷ []) w)

  unfoldable pub getpid : W → Called ℕ W
  getpid w = map_ok (λ v w'. v % 2 ^ 32) (unwrap (syscall Code.getpid [] w))

  unfoldable pub open_file : Slice → ℕ → W → Called ℕ W
  open_file path flags w = syscall Code.sys_open (path.ptr ∷ path.len ∷ flags ∷ []) w

  unfoldable pub read : ℕ → Option ℕ → Slice → W → Called ℕ W
  read fd pos buf w = syscall Code.read (fd ∷ pos_or_max pos ∷ buf.ptr ∷ buf.len ∷ []) w

  unfoldable pub write : ℕ → Option ℕ → Slice → W → Called ℕ W
  write fd pos buf w = syscall Code.write (fd ∷ pos_or_max pos ∷ buf.ptr ∷ buf.len ∷ []) w

  -- readdir, whose entry has the address `entry`
  unfoldable pub readdir : ℕ → ℕ → Option ℕ → W → Called (Option DirEntry) W
  readdir entry fd pos w =
      map_ok (λ v w'. if v == 0 then none else some (entry_at entry w'))
        (syscall Code.readdir (fd ∷ pos_or_max pos ∷ entry ∷ []) w)

  -- stat, whose result has the address `entry`
  unfoldable pub stat : ℕ → ℕ → W → Called Stat W
  stat entry fd w = map_ok (λ v w'. stat_at entry w') (syscall Code.stat (fd ∷ entry ∷ []) w)

  unfoldable pub chdir : Slice → W → Called Unit W
  chdir path w = map_ok (λ v w'. tt) (syscall Code.chdir (path.ptr ∷ path.len ∷ []) w)

  unfoldable pub sbrk : ℕ → W → Called ℕ W
  sbrk inc w = syscall Code.sbrk (inc ∷ []) w

  unfoldable pub spawn : Slice → Slice → W → Called ℕ W
  spawn path args w =
      map_ok (λ v w'. v % 2 ^ 32)
        (syscall Code.spawn (path.ptr ∷ path.len ∷ args.ptr ∷ args.len ∷ []) w)

  unfoldable pub waitpid : ℕ → W → Called ℕ W
  waitpid pid w = syscall Code.waitpid (pid ∷ []) w

  unfoldable pub exit : ℕ → W → Called ⊥ W
  exit ecode w = unwrap_err (syscall Code.exit (ecode ∷ []) w)
