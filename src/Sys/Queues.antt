-- ===== src/Sys/Queues.antt =====
-- What the system calls leave of the list of processes, the scheduler's queue and the heap: only
-- sys_spawn changes them.
use servos.Prelude.{
  ℕ, zero, suc, ◌+◌, ◌*◌, ◌≡◌, refl, ◌∙◌, Bool, true, false, Option, none, some, List, ◌++◌,
  if◌then◌else◌, arith,
}
use servos.Prelude.Outcome.{panic}
use servos.Arr as Holes
use servos.Fs.Path.{Bytes}
use servos.Fs.InitRd.{DirEntry, Stat}
use servos.Fs.Fd.{Fd, readdir, stat}
use servos.Proc.{Kernel, put_proc, reserve}
use servos.Sys.Code.{bad_arg, no_memory, SysResult, ok, err, panic, stops}
use servos.Sys.User.{Platform, ◌>>=◌, of_fs, with_capacity, copy_in, copy_out, read_nth}
use servos.Sys.Files.{
  keep_fd, open_from, sys_open, sys_close, sys_read, sys_write, sys_readdir, sys_stat, sys_chdir,
}
use servos.Sys.Spawn.{gather_args}
use servos.Sys.Procs.{sys_shutdown, sys_kill, sys_waitpid, sys_sbrk}

-- what a step of the scheduler depends on
abbrev pub Queues : Type 0
Queues = List ℕ × List ℕ × (ℕ → Bool)

abbrev pub queues : Kernel → Queues
queues k = (k.proc_list, k.awaiting, k.live)

-- A call that keeps the queues.
abbrev pub Keeps : {A : Type 0} → SysResult A × Kernel → Kernel → Type 0
Keeps x k = queues x.1 ≡ queues k

pub bind-Keeps :
    {A B : Type 0} (x : SysResult A × Kernel) (f : A → Kernel → SysResult B × Kernel) (k : Kernel)
    → Keeps x k
    → ((a : A) (k' : Kernel) → queues k' ≡ queues k → Keeps (f a k') k)
    → Keeps (x >>= f) k
bind-Keeps (ok a, k') f k h g = g a k' h
bind-Keeps (err e, k') f k h g = h
bind-Keeps (panic, k') f k h g = h
bind-Keeps (stops n, k') f k h g = h

reserve-queues : (k : Kernel) → queues (reserve k).1 ≡ queues k
unfolding reserve
reserve-queues k = ground arith

pub with_capacity-Keeps : (len : ℕ) (k : Kernel) → Keeps (with_capacity len k) k
unfolding with_capacity reserve
with_capacity-Keeps len k = ground arith

pub copy_in-Keeps : (pt va len : ℕ) (k : Kernel) → Keeps (copy_in pt va len k) k
unfolding copy_in
copy_in-Keeps pt va len k = ground arith

pub copy_out-Keeps : (pt va : ℕ) (bs : Bytes) (k : Kernel) → Keeps (copy_out pt va bs k) k
unfolding copy_out
copy_out-Keeps pt va bs k = ground arith

pub sys_close-Keeps : (n fd : ℕ) (k : Kernel) → Keeps (sys_close n fd k) k
unfolding sys_close
sys_close-Keeps n fd k = ground arith

pub sys_read-Keeps :
    (n fd pos buf buflen : ℕ) (k : Kernel) → Keeps (sys_read n fd pos buf buflen k) k
unfolding sys_read
sys_read-Keeps n fd pos buf buflen k = ground arith

pub sys_write-Keeps :
    (n fd pos buf buflen : ℕ) (k : Kernel) → Keeps (sys_write n fd pos buf buflen k) k
unfolding sys_write
sys_write-Keeps n fd pos buf buflen k = ground arith

pub sys_kill-Keeps : (pid : ℕ) (k : Kernel) → Keeps (sys_kill pid k) k
unfolding sys_kill
sys_kill-Keeps pid k = ground arith

pub sys_shutdown-Keeps : (typ : ℕ) (k : Kernel) → Keeps (sys_shutdown typ k) k
unfolding sys_shutdown
sys_shutdown-Keeps typ k = ground arith

pub sys_waitpid-Keeps : (n pid : ℕ) (k : Kernel) → Keeps (sys_waitpid n pid k) k
unfolding sys_waitpid
sys_waitpid-Keeps n pid k = ground arith

pub sys_sbrk-Keeps : (n inc : ℕ) (k : Kernel) → Keeps (sys_sbrk n inc k) k
unfolding sys_sbrk
sys_sbrk-Keeps n inc k = ground arith

if-Keeps :
    {A : Type 0} (b : Bool) (x y : SysResult A × Kernel) (k : Kernel)
    → Keeps x k
    → Keeps y k
    → Keeps (if b then x else y) k
if-Keeps true x y k h g = h
if-Keeps false x y k h g = g

option-Keeps :
    {A B : Type 0} (o : Option B) (x : SysResult A × Kernel) (f : B → SysResult A × Kernel)
    (k : Kernel)
    → Keeps x k
    → ((b : B) → Keeps (f b) k)
    → Keeps (elim o as (λ u. SysResult A × Kernel) [ none ↦ x | some b ↦ f b ]) k
option-Keeps none x f k h g = h
option-Keeps (some b) x f k h g = g b

read_nth-Keeps : (pt argv i : ℕ) (k : Kernel) → Keeps (read_nth pt argv i k) k
unfolding read_nth
read_nth-Keeps pt argv i k =
    if-Keeps _ _ _ k
      (bind-Keeps (copy_in pt (argv + i * 16) 16 k) _ k (copy_in-Keeps pt (argv + i * 16) 16 k)
        (λ bs k' e. e))
      refl

pub gather_args-Keeps :
    (n i pt argv : ℕ) (args : Bytes) (k : Kernel) → Keeps (gather_args n i pt argv args k) k
unfolding gather_args
gather_args-Keeps zero i pt argv args k = refl
gather_args-Keeps (suc n) i pt argv args k =
    bind-Keeps (read_nth pt argv i k) _ k (read_nth-Keeps pt argv i k) (λ str k1 e1.
      bind-Keeps (with_capacity str.len k1) _ k (with_capacity-Keeps str.len k1 ∙ e1) (λ u k2 e2.
        bind-Keeps (copy_in pt str.ptr str.len k2) _ k (copy_in-Keeps pt str.ptr str.len k2 ∙ e2)
          (λ bytes k3 e3. gather_args-Keeps n (i + 1) pt argv (args ++ bytes) k3 ∙ e3)))

module _ (sys : Platform) (n : ℕ) where
  pub sys_open-Keeps : (path len flags : ℕ) (k : Kernel) → Keeps (sys_open sys n path len flags k) k
  unfolding sys_open
  sys_open-Keeps path len flags k =
      bind-Keeps (with_capacity len k) _ k (with_capacity-Keeps len k) (λ u k1 e1.
        bind-Keeps (copy_in (k1.procs n).pagetable path len k1) _ k
          (copy_in-Keeps _ path len k1 ∙ e1)
          (λ buf k2 e2.
            bind-Keeps (_, k2) _ k e2
              (λ file k3 e3. pushes (Holes.push (k3.procs n).files file) k3 e3)))
    where
      pushes :
          (r : Holes.Pushed Fd) (k3 : Kernel)
          → queues k3 ≡ queues k
          → Keeps
              (elim r as (λ x. SysResult ℕ × Kernel) [
                | Holes.full f ↦ (err no_memory, k3)
                | Holes.pushed i files ↦
                    (ok i, put_proc n (record (k3.procs n) { files = files }) k3)
              ])
              k
      pushes (Holes.full f) k3 e = e
      pushes (Holes.pushed i files) k3 e = e

  pub sys_chdir-Keeps : (path len : ℕ) (k : Kernel) → Keeps (sys_chdir sys n path len k) k
  unfolding sys_chdir
  sys_chdir-Keeps path len k =
      bind-Keeps (with_capacity len k) _ k (with_capacity-Keeps len k) (λ u k1 e1.
        bind-Keeps (copy_in (k1.procs n).pagetable path len k1) _ k
          (copy_in-Keeps _ path len k1 ∙ e1)
          (λ buf k2 e2.
            bind-Keeps {A = Fd} {B = ℕ} (open_from sys (k2.procs n).cwd buf 0, k2) _ k e2
              (λ cwd k3 e3.
                if-Keeps {A = ℕ} cwd.node.directory
                  (ok 0, put_proc n (record (k3.procs n) { cwd = cwd }) k3) (err bad_arg, k3) k e3
                  e3)))

  copied-Keeps :
      (pt va : ℕ) (bs : Bytes) (v : ℕ) (k1 k : Kernel)
      → queues k1 ≡ queues k
      → Keeps (copy_out pt va bs k1 >>= λ u k2. (ok v, k2)) k
  copied-Keeps pt va bs v k1 k e =
      bind-Keeps (copy_out pt va bs k1) _ k (copy_out-Keeps pt va bs k1 ∙ e) (λ u k2 e2. e2)

  pub sys_readdir-Keeps :
      (fd pos entry : ℕ) (k : Kernel) → Keeps (sys_readdir sys n fd pos entry k) k
  unfolding sys_readdir
  sys_readdir-Keeps fd pos entry k = option-Keeps (Holes.get (k.procs n).files fd) _ _ k refl (λ f.
      bind-Keeps {A = Option DirEntry} {B = ℕ}
        (of_fs (readdir f pos).0, keep_fd n fd (readdir f pos).1 k) _ k refl
        (λ found k1 e1.
          option-Keeps found _ _ k e1
            (λ ent. copied-Keeps (k1.procs n).pagetable entry (sys.entry_bytes ent) 1 k1 k e1)))

  pub sys_stat-Keeps : (fd to : ℕ) (k : Kernel) → Keeps (sys_stat sys n fd to k) k
  unfolding sys_stat
  sys_stat-Keeps fd to k = option-Keeps (Holes.get (k.procs n).files fd) _ _ k refl (λ f.
      bind-Keeps {A = Stat} {B = ℕ} (of_fs (stat f), k) _ k refl
        (λ st k1 e1. copied-Keeps (k1.procs n).pagetable to (sys.stat_bytes st) 0 k1 k e1))
