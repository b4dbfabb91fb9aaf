-- ===== src/Fs/Fd/User.antt =====
-- Reads and writes between a file and user memory: `rw_va` of kernel/src/fs/mod.rs, and `read_va`
-- and `write_va` of `FileSystem` and of `Fd`, and `Vfs::open_in_cwd`.
use servos.Prelude.{
  ℕ, zero, suc, ◌+◌, ◌^◌, ◌||◌, Option, none, some, length, ltb, ◌==◌, if◌then◌else◌, bit_or,
}
use servos.Prelude.Outcome.{done, panic}
use servos.Vmm.Memory.{Memory}
use servos.Vmm.Pte.Flag
use servos.Vmm.Translate.{Range, PhysIter, finished, bad_addr, range, next_range}
use servos.Vmm.Copy.{iter_phys, read_bytes, write_bytes}
use servos.Fs.Path.{Bytes, is_absolute}
use servos.Fs.Result.{bad_va, invalid_op, FsResult, ok, err, panic, VNode, ◌>>=◌}
use servos.Fs.Vfs.{Mounts, open_at}
use servos.Fs.Fd.{FileSystem, Fd, new, moved, u64_max}

-- a call of the file system at a position, on a range of physical memory
abbrev pub Access : Type 0
Access = ℕ → Range → Memory → FsResult ℕ × Memory

-- the loop of rw_va, with fuel for its rounds; both sums are of `u64`
unfoldable pub rw_loop : ℕ → ℕ → Access → ℕ → ℕ → PhysIter → Memory → FsResult ℕ × Memory
rw_loop zero pt f pos total it m = (panic, m)
rw_loop (suc fuel) pt f pos total it m = elim (next_range pt it m) [
  | panic ↦ (panic, m)
  | done (finished, it') ↦ (ok total, m)
  | done (bad_addr, it') ↦ (err bad_va, m)
  | done (range r, it') ↦
      let (res, m') = f pos r m in
      elim res [
        | err e ↦ (err e, m')
        | panic ↦ (panic, m')
        | ok count ↦
            let rest = rw_loop fuel pt f (pos + count) (total + count) it' m' in
            if ltb count r.len
            then (ok (total + count), m')
            else if ltb (pos + count) (2 ^ 64)
            then rest
            else (panic, m')
      ]
]

-- rw_va
unfoldable pub rw_va : ℕ → ℕ → ℕ → ℕ → ℕ → Access → Memory → FsResult ℕ × Memory
rw_va pos pt buf len perms f m = rw_loop (suc len) pt f pos 0 (iter_phys buf len perms) m

-- the closure of FileSystem::read_va
unfoldable pub read_access : FileSystem → VNode → Access
read_access dev vn pos r m = elim (dev.read vn pos r.len) [
  | ok bs ↦ (ok (length bs), write_bytes r.start bs m)
  | err e ↦ (err e, m)
  | panic ↦ (panic, m)
]

-- the closure of FileSystem::write_va
unfoldable pub write_access : FileSystem → VNode → Access
write_access dev vn pos r m = (dev.write vn pos (read_bytes r.start r.len m), m)

-- FileSystem::read_va
unfoldable pub dev_read_va : FileSystem → VNode → ℕ → ℕ → ℕ → ℕ → Memory → FsResult ℕ × Memory
dev_read_va dev vn pos pt buf len m =
    rw_va pos pt buf len (bit_or Flag.u Flag.w) (read_access dev vn) m

-- FileSystem::write_va
unfoldable pub dev_write_va : FileSystem → VNode → ℕ → ℕ → ℕ → ℕ → Memory → FsResult ℕ × Memory
dev_write_va dev vn pos pt buf len m =
    rw_va pos pt buf len (bit_or Flag.u Flag.r) (write_access dev vn) m

-- exec_with_pos of a call that moves bytes in user memory too
unfoldable pub exec_va : Fd → ℕ → (ℕ → FsResult ℕ × Memory) → (FsResult ℕ × Fd) × Memory
exec_va fd pos f =
    if pos == u64_max
    then (let (r, m') = f fd.pos in
        let (r', fd') = moved {0} fd (r >>= λ n. ok (n, tt)) in ((r' >>= λ v. ok v.0, fd'), m'))
    else (let (r, m') = f pos in ((r, fd), m'))

-- Fd::read_va
unfoldable pub read_va : Fd → ℕ → ℕ → ℕ → ℕ → Memory → (FsResult ℕ × Fd) × Memory
read_va fd pos pt va len m =
    if fd.node.directory
    then ((err invalid_op, fd), m)
    else exec_va fd pos (λ p. dev_read_va fd.dev fd.node p pt va len m)

-- Fd::write_va
unfoldable pub write_va : Fd → ℕ → ℕ → ℕ → ℕ → Memory → (FsResult ℕ × Fd) × Memory
write_va fd pos pt va len m =
    if fd.node.directory || fd.node.readonly
    then ((err invalid_op, fd), m)
    else exec_va fd pos (λ p. dev_write_va fd.dev fd.node p pt va len m)

-- Vfs::open_in_cwd, with `dev_open` the `open` of a file system, from a vnode or from its root
unfoldable pub open_in_cwd :
    (FileSystem → Bytes → Option VNode → FsResult VNode)
    → Mounts FileSystem
    → Fd
    → Bytes
    → FsResult Fd
open_in_cwd dev_open mounts cwd path =
    let absolute : FsResult Fd =
      (open_at (λ dev rest. dev_open dev rest none) path mounts >>= (λ v. ok (new v.1 v.0))) in
    let relative : FsResult Fd =
      (dev_open cwd.dev path (some cwd.node) >>= (λ vn. ok (new vn cwd.dev))) in
    if cwd.node.directory then (if is_absolute path then absolute else relative) else panic
