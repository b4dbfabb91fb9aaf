-- ===== src/Sys/Code.antt =====
-- shared/src/sys.rs: the numbers of the system calls and of their errors, `From<FsError>` of
-- kernel/src/sys.rs, and `sys_result` of user/userstd/src/sys.rs.
use servos.Prelude.{ℕ, ◌<◌, ◌≡◌, refl, Option, none, some, false, ◌==◌, if◌then◌else◌, arith}
use servos.Fs.Result.{
  FsError, path_not_found, no_mem, read_only, invalid_op, unsupported, corrupted_fs, invalid_perms,
  bad_va, eof,
}

pub data Sys : Type 0 where
  shutdown kill getpid sys_open close read write readdir chdir spawn stat sbrk waitpid exit : Sys

unfoldable pub number : Sys → ℕ
number shutdown = 1
number kill = 2
number getpid = 3
number sys_open = 4
number close = 5
number read = 6
number write = 7
number readdir = 8
number chdir = 9
number spawn = 10
number stat = 11
number sbrk = 12
number waitpid = 13
number exit = 14

-- Sys::from_repr
unfoldable pub from_repr : ℕ → Option Sys
from_repr n =
    if n == 1
    then some shutdown
    else if n == 2
    then some kill
    else if n == 3
    then some getpid
    else if n == 4
    then some sys_open
    else if n == 5
    then some close
    else if n == 6
    then some read
    else if n == 7
    then some write
    else if n == 8
    then some readdir
    else if n == 9
    then some chdir
    else if n == 10
    then some spawn
    else if n == 11
    then some stat
    else if n == 12
    then some sbrk
    else if n == 13
    then some waitpid
    else if n == 14
    then some exit
    else none

pub data SysError : Type 0 where
  bad_syscall bad_arg not_found bad_fd : SysError
  from_fs : FsError → SysError

abbrev pub no_memory : SysError
no_memory = from_fs no_mem

abbrev pub bad_addr : SysError
bad_addr = from_fs bad_va

-- `err as usize`; the errors that come from the file system have the numbers 5 to 13
unfoldable pub error_number : SysError → ℕ
error_number bad_syscall = 1
error_number bad_arg = 2
error_number not_found = 3
error_number bad_fd = 4
error_number (from_fs no_mem) = 5
error_number (from_fs path_not_found) = 6
error_number (from_fs read_only) = 7
error_number (from_fs invalid_op) = 8
error_number (from_fs unsupported) = 9
error_number (from_fs corrupted_fs) = 10
error_number (from_fs invalid_perms) = 11
error_number (from_fs bad_va) = 12
error_number (from_fs eof) = 13

-- SysError::from_repr
unfoldable pub error_from_repr : ℕ → Option SysError
error_from_repr n =
    if n == 1
    then some bad_syscall
    else if n == 2
    then some bad_arg
    else if n == 3
    then some not_found
    else if n == 4
    then some bad_fd
    else if n == 5
    then some (from_fs no_mem)
    else if n == 6
    then some (from_fs path_not_found)
    else if n == 7
    then some (from_fs read_only)
    else if n == 8
    then some (from_fs invalid_op)
    else if n == 9
    then some (from_fs unsupported)
    else if n == 10
    then some (from_fs corrupted_fs)
    else if n == 11
    then some (from_fs invalid_perms)
    else if n == 12
    then some (from_fs bad_va)
    else if n == 13
    then some (from_fs eof)
    else none

-- what a system call comes to: `SysResult`, a panic of the kernel, or a stop of the machine
pub data SysResult (A : Type 0) : Type 0 where
  ok : A → SysResult A
  err : SysError → SysResult A
  panic : SysResult A
  stops : ℕ → SysResult A

pub from_repr-number : (s : Sys) → from_repr (number s) ≡ some s
unfolding from_repr number
from_repr-number shutdown = refl
from_repr-number kill = refl
from_repr-number getpid = refl
from_repr-number sys_open = refl
from_repr-number close = refl
from_repr-number read = refl
from_repr-number write = refl
from_repr-number readdir = refl
from_repr-number chdir = refl
from_repr-number spawn = refl
from_repr-number stat = refl
from_repr-number sbrk = refl
from_repr-number waitpid = refl
from_repr-number exit = refl

pub from_repr-none : (n : ℕ) → 14 < n → from_repr n ≡ none
unfolding from_repr
from_repr-none n h = ground arith

pub from_repr_zero : from_repr 0 ≡ none
unfolding from_repr
from_repr_zero = refl

pub error_from_repr-error_number : (e : SysError) → error_from_repr (error_number e) ≡ some e
unfolding error_from_repr error_number
error_from_repr-error_number bad_syscall = refl
error_from_repr-error_number bad_arg = refl
error_from_repr-error_number not_found = refl
error_from_repr-error_number bad_fd = refl
error_from_repr-error_number (from_fs no_mem) = refl
error_from_repr-error_number (from_fs path_not_found) = refl
error_from_repr-error_number (from_fs read_only) = refl
error_from_repr-error_number (from_fs invalid_op) = refl
error_from_repr-error_number (from_fs unsupported) = refl
error_from_repr-error_number (from_fs corrupted_fs) = refl
error_from_repr-error_number (from_fs invalid_perms) = refl
error_from_repr-error_number (from_fs bad_va) = refl
error_from_repr-error_number (from_fs eof) = refl

-- An error's number is never 0.
pub error_number-ne : (e : SysError) → (error_number e == 0) ≡ false
unfolding error_number
error_number-ne bad_syscall = refl
error_number-ne bad_arg = refl
error_number-ne not_found = refl
error_number-ne bad_fd = refl
error_number-ne (from_fs no_mem) = refl
error_number-ne (from_fs path_not_found) = refl
error_number-ne (from_fs read_only) = refl
error_number-ne (from_fs invalid_op) = refl
error_number-ne (from_fs unsupported) = refl
error_number-ne (from_fs corrupted_fs) = refl
error_number-ne (from_fs invalid_perms) = refl
error_number-ne (from_fs bad_va) = refl
error_number-ne (from_fs eof) = refl
