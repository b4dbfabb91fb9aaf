-- ===== src/Sys/User.antt =====
-- How a system call reads and writes the memory of its process: kernel/src/sys.rs, and `User` of
-- kernel/src/vmm/vaddr.rs.
use servos.Prelude.{
  ℕ, ◌+◌, ◌*◌, ◌^◌, true, false, Option, none, some, [], ◌∷◌, take, drop, ltb, ◌==◌, if◌then◌else◌,
}
use servos.Prelude.Outcome.{done, panic}
use servos.Vmm.Copy.{copy_to, copy_from}
use servos.Fs.Path.{Bytes}
use servos.Fs.InitRd.{DirEntry, Stat}
use servos.Fs.Result.{FsResult, ok, err, panic, VNode}
use servos.Fs.Vfs.{Mounts}
use servos.Fs.Fd.{FileSystem}
use servos.Proc.{Kernel, reserve}
use servos.Sys.Code.{from_fs, no_memory, bad_addr, SysResult, ok, err, panic, stops}

-- what the first part of Process::spawn comes to: a page table with the program, its arguments and a
-- stack, and where the program starts
pub record Loaded : Type 0 where
  pub pagetable : ℕ
  pub highest_va : ℕ
  pub entry : ℕ
  pub sp : ℕ

-- What the system calls are given: the mounted file systems and their `open`, with its flags; the
-- bytes of a `DirEntry` and of a `Stat` in memory; the address of the code that enters a trap, of the
-- next buffer for a file, and of the next box.
pub record Platform : Type 0 where
  pub mounts : Mounts FileSystem
  pub dev_open : FileSystem → Bytes → ℕ → Option VNode → FsResult VNode
  pub entry_bytes : DirEntry → Bytes
  pub stat_bytes : Stat → Bytes
  pub trap_code : ℕ
  pub buffer_at : Kernel → ℕ
  pub new_box : Kernel → ℕ

infixl 5 ◌>>=◌
-- a call that may fail and changes the kernel, or memory, and what follows it
abbrev pub ◌>>=◌ : {S A B : Type 0} → SysResult A × S → (A → S → SysResult B × S) → SysResult B × S
(ok a, k) >>= f = f a k
(err e, k) >>= f = (err e, k)
(panic, k) >>= f = (panic, k)
(stops n, k) >>= f = (stops n, k)

-- a call of the file system, with `?`
abbrev pub of_fs : {A : Type 0} → FsResult A → SysResult A
of_fs (ok a) = ok a
of_fs (err e) = err (from_fs e)
of_fs panic = panic

-- `Vec::try_with_capacity(len)?`, for `len` bytes
unfoldable pub with_capacity : ℕ → Kernel → SysResult (Unit {0}) × Kernel
with_capacity len k =
    if len == 0
    then (ok tt, k)
    else if ltb len (2 ^ 63)
    then (let (b, k') = reserve k in if b then (ok tt, k') else (err no_memory, k'))
    else (err no_memory, k)

-- `Box::try_new(…)?`
unfoldable pub try_box : Kernel → SysResult (Unit {0}) × Kernel
try_box k = let (b, k') = reserve k in if b then (ok tt, k') else (err no_memory, k')

-- `va.copy_from(pt, buf)?`, into a buffer of `len` bytes
unfoldable pub copy_in : ℕ → ℕ → ℕ → Kernel → SysResult Bytes × Kernel
copy_in pt va len k = elim (copy_from pt va len k.memory) [
  | panic ↦ (panic, k)
  | done none ↦ (err bad_addr, k)
  | done (some bs) ↦ (ok bs, k)
]

-- User::write
unfoldable pub copy_out : ℕ → ℕ → Bytes → Kernel → SysResult (Unit {0}) × Kernel
copy_out pt va bs k = elim (copy_to pt va bs none k.memory) [
  | panic ↦ (panic, k)
  | done (false, m) ↦ (err bad_addr, record k { memory = m })
  | done (true, m) ↦ (ok tt, record k { memory = m })
]

-- a `usize` of eight bytes in memory
unfoldable pub from_le : Bytes → ℕ
from_le [] = 0
from_le (b ∷ bs) = b + 256 * from_le bs

-- KString
pub record KString : Type 0 where
  pub ptr : ℕ
  pub len : ℕ

-- User::read_nth of a `KString`, which has 16 bytes
unfoldable pub read_nth : ℕ → ℕ → ℕ → Kernel → SysResult KString × Kernel
read_nth pt argv n k =
    if ltb (argv + n * 16) (2 ^ 64)
    then (copy_in pt (argv + n * 16) 16 k
        >>= (λ bs k'. (ok (record { ptr = from_le (take 8 bs); len = from_le (drop 8 bs) }), k')))
    else (panic, k)
