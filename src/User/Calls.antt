-- ===== src/User/Calls.antt =====
-- What the programs of user/ use of user/userstd: the system calls, and the output. The state of the
-- world behind the calls is a parameter.
use servos.Prelude.{ℕ, Bool, Option, List}
use servos.Fs.Path.{Bytes}
use servos.Fs.InitRd.{DirEntry, Stat}
use servos.Sys.Code.{SysError}

pub data Result (A : Type 0) : Type 0 where
  ok : A → Result A
  err : SysError → Result A

-- What a program prints besides the bytes that it writes.
pub data Report : Type 0 where
  not_there : Bytes → Report
  read_error : Bytes → SysError → Report
  too_many_arguments : Report
  cd_error : SysError → Report
  spawn_error : Bytes → SysError → Report
  background : ℕ → Report
  prompt : ℕ → Report
  no_pid : Bytes → Report
  killed : ℕ → Report
  kill_error : ℕ → SysError → Report
  shutdown_error : SysError → Report
  not_first booted : Report
  blank_line : Report
  heading : Bytes → Report
  entry : Bytes → Stat → Report

-- user/userstd/src/sys.rs, over the world `W`; `read` gives the bytes that the buffer was filled with.
-- `say` prints a message; `is_utf8` is core::str::from_utf8, and `parse_u32` str::parse.
pub record Calls (W : Type 0) : Type 0 where
  pub open_file : Bytes → ℕ → W → Result ℕ × W
  pub close : ℕ → W → Result (Unit {0}) × W
  pub read : ℕ → Option ℕ → ℕ → W → Result Bytes × W
  pub write : ℕ → Option ℕ → Bytes → W → Result ℕ × W
  pub chdir : Bytes → W → Result (Unit {0}) × W
  pub spawn : Bytes → List Bytes → W → Result ℕ × W
  pub waitpid : ℕ → W → Result ℕ × W
  pub kill : ℕ → W → Result (Unit {0}) × W
  pub shutdown : Bool → W → SysError × W
  pub getpid : W → ℕ × W
  pub stat : ℕ → W → Result Stat × W
  pub readdir : ℕ → Option ℕ → W → Result (Option DirEntry) × W
  pub sbrk : ℕ → W → Result ℕ × W
  pub say : Report → W → W
  pub is_utf8 : Bytes → Bool
  pub parse_u32 : Bytes → Option ℕ

-- How a program ends: with an exit code, with a panic, or not within its fuel.
pub data Ends (W : Type 0) : Type 0 where
  exits : ℕ → W → Ends W
  panics : W → Ends W
  runs_on : Ends W
