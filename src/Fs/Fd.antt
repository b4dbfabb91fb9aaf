-- ===== src/Fs/Fd.antt =====
-- `Fd` of kernel/src/fs/vfs.rs: an open file, its vnode, its file system and its position. A call
-- answers with a result and leaves the descriptor with its new position, the only state that a
-- descriptor has of its own: what a call changes in the file system is the file system's.
pub mod Reads
pub mod Image
pub mod User
pub mod Count
pub mod Pages
mod Tests
use servos.Prelude.{
  ℕ, ◌+◌, ◌-◌, ◌^◌, Bool, true, false, ◌||◌, Option, List, length, ltb, ◌==◌, if◌then◌else◌,
}
use servos.Fs.Result.{FsError, invalid_op, read_only, FsResult, ok, err, panic, VNode, ◌>>=◌}
use servos.Fs.Path.{Bytes}
use servos.Fs.InitRd.{DirEntry, Stat}

-- what a descriptor uses of the trait `FileSystem`; `read` takes the length of the buffer
pub record FileSystem : Type 0 where
  pub read : VNode → ℕ → ℕ → FsResult Bytes
  pub write : VNode → ℕ → Bytes → FsResult ℕ
  pub readdir : VNode → ℕ → FsResult (Option DirEntry)
  pub stat : VNode → FsResult Stat

pub record Fd : Type 0 where
  pub node : VNode
  pub dev : FileSystem
  pub pos : ℕ

abbrev pub u64_max : ℕ
u64_max = 2 ^ 64 - 1

-- Fd::new
unfoldable pub new : VNode → FileSystem → Fd
new node dev = record { node = node; dev = dev; pos = 0 }

-- `self.pos.update(|pos| pos + n)`
unfoldable pub advance {ℓ} : {A : Type ℓ} → Fd → ℕ → A → FsResult A × Fd
advance fd n a =
    if ltb (fd.pos + n) (2 ^ 64) then (ok a, record fd { pos = fd.pos + n }) else (panic, fd)

-- the part of exec_with_pos_raw behind the call
unfoldable pub moved {ℓ} : {A : Type ℓ} → Fd → FsResult (ℕ × A) → FsResult (ℕ × A) × Fd
moved fd (ok (n, a)) = advance fd n (n, a)
moved fd (err e) = (err e, fd)
moved fd panic = (panic, fd)

-- Fd::exec_with_pos_raw
unfoldable pub exec_with_pos_raw {ℓ} :
    {A : Type ℓ} → Fd → ℕ → (ℕ → FsResult (ℕ × A)) → FsResult (ℕ × A) × Fd
exec_with_pos_raw fd pos f = if pos == u64_max then moved fd (f fd.pos) else (f pos, fd)

-- Fd::exec_with_pos
unfoldable pub exec_with_pos : Fd → ℕ → (ℕ → FsResult ℕ) → FsResult ℕ × Fd
exec_with_pos fd pos f =
    let (r, fd') = exec_with_pos_raw {0} fd pos (λ p. f p >>= λ n. ok (n, tt)) in
    (r >>= λ v. ok v.0, fd')

-- Fd::read
unfoldable pub read : Fd → ℕ → ℕ → FsResult Bytes × Fd
read fd pos buf =
    let (r, fd') =
      exec_with_pos_raw fd pos (λ p. fd.dev.read fd.node p buf >>= λ b. ok (length b, b)) in
    if fd.node.directory then (err invalid_op, fd) else (r >>= λ v. ok v.1, fd')

-- Fd::write
unfoldable pub write : Fd → ℕ → Bytes → FsResult ℕ × Fd
write fd pos buf =
    if fd.node.directory || fd.node.readonly
    then (err read_only, fd)
    else exec_with_pos fd pos (λ p. fd.dev.write fd.node p buf)

-- Fd::readdir; the position moves whatever the call answers
unfoldable pub readdir : Fd → ℕ → FsResult (Option DirEntry) × Fd
readdir fd cur =
    if cur == u64_max
    then (if ltb (fd.pos + 1) (2 ^ 64)
        then (fd.dev.readdir fd.node fd.pos, record fd { pos = fd.pos + 1 })
        else (panic, fd))
    else (fd.dev.readdir fd.node cur, fd)

-- Fd::stat
unfoldable pub stat : Fd → FsResult Stat
stat fd = fd.dev.stat fd.node
