-- ===== src/Sys/Load/Kept.antt =====
-- Loading a program leaves the list of processes, the scheduler's queue and the heap as they were.
use servos.Prelude.{ℕ, ◌*◌, ◌/◌, ◌≡◌, refl, ◌∙◌, Option, none, some, List, ◌∷◌, length, reverse}
use servos.Prelude.Outcome.{Outcome, done, panic}
use servos.Vmm.Memory.{Memory, try_alloc}
use servos.Fs.Path.{Bytes}
use servos.Fs.InitRd.{Stat}
use servos.Fs.Fd.{Fd, read, stat}
use servos.Elf.{ElfFile, new}
use servos.Proc.{Kernel}
use servos.Sys.Code.{SysResult, ok, err, panic, stops, no_memory, bad_arg}
use servos.Sys.User.{Platform, Loaded, of_fs, with_capacity}
use servos.Sys.Files.{open_from}
use servos.Sys.Queues.{queues, Keeps, bind-Keeps, with_capacity-Keeps}
use servos.Sys.Load.{on_memory, owning, parse, read_program, map_trap_frame, fill, load_process}
use servos.Sys.Load.Program.{load_segments, map_stack, push_args, push_ptrs, stack_top}

pub owning-Keeps :
    {A : Type 0} (pt : ℕ) (x : SysResult A × Kernel) (k : Kernel)
    → Keeps x k
    → Keeps (owning pt x) k
owning-Keeps pt (ok a, k') k h = h
owning-Keeps pt (err e, k') k h = h
owning-Keeps pt (panic, k') k h = h
owning-Keeps pt (stops n, k') k h = h

parsed-Keeps :
    (o : Outcome (Option ElfFile)) (k : Kernel)
    → Keeps {A = ElfFile}
        (elim o as (λ u. SysResult ElfFile × Kernel) [
          | panic ↦ (panic, k)
          | done none ↦ (err bad_arg, k)
          | done (some file) ↦ (ok file, k)
        ])
        k
parsed-Keeps panic k = refl
parsed-Keeps (done none) k = refl
parsed-Keeps (done (some file)) k = refl

parse-Keeps : (sys : Platform) (bytes : Bytes) (k : Kernel) → Keeps (parse sys bytes k) k
unfolding parse
parse-Keeps sys bytes k = parsed-Keeps (new (sys.buffer_at k) bytes) k

module _ (sys : Platform) where
  read_program-Keeps :
      (path : Bytes) (cwd : Fd) (k : Kernel) → Keeps (read_program sys path cwd k) k
  unfolding read_program
  read_program-Keeps path cwd k =
      bind-Keeps {A = Fd} (open_from sys cwd path 0, k) _ k refl
        (λ file k1 e1.
          bind-Keeps {A = Stat} (of_fs (stat file), k1) _ k e1
            (λ st k2 e2.
              bind-Keeps (with_capacity st.size k2) _ k (with_capacity-Keeps st.size k2 ∙ e2)
                (λ u k3 e3.
                  bind-Keeps {A = Bytes} (of_fs (read file 0 st.size).0, k3) _ k e3
                    (λ bytes k4 e4. parse-Keeps sys bytes k4 ∙ e4))))

  fill-Keeps :
      (pt : ℕ) (file : ElfFile) (args : List Bytes) (k : Kernel) → Keeps (fill sys pt file args k) k
  unfolding fill
  fill-Keeps pt file args k = bind-Keeps (on_memory (map_trap_frame sys pt) k) _ k refl (λ u k1 e1.
      bind-Keeps (on_memory (load_segments pt file.raw file.pheaders 0) k1) _ k e1 (λ va k2 e2.
        bind-Keeps (on_memory (map_stack pt) k2) _ k e2 (λ v k3 e3.
          bind-Keeps (with_capacity (length args * 8) k3) _ k
            (with_capacity-Keeps (length args * 8) k3 ∙ e3)
            (λ w k4 e4.
              bind-Keeps (on_memory (push_args pt args stack_top) k4) _ k e4 (λ pushed k5 e5.
                bind-Keeps (on_memory (push_ptrs pt (reverse pushed.0) (pushed.1 / 8 * 8)) k5) _ k
                  e5 (λ sp k6 e6. e6))))))

  filled-Keeps :
      (o : Option (ℕ × Memory)) (file : ElfFile) (args : List Bytes) (k1 k : Kernel)
      → queues k1 ≡ queues k
      → Keeps
          (elim o as (λ u. SysResult Loaded × Kernel) [
            | none ↦ (err no_memory, k1)
            | some (pt, m) ↦ owning pt (fill sys pt file args (record k1 { memory = m }))
          ])
          k
  filled-Keeps none file args k1 k e = e
  filled-Keeps (some (pt, m)) file args k1 k e =
      let k2 : Kernel = record k1 { memory = m } in
      owning-Keeps pt (fill sys pt file args k2) k (fill-Keeps pt file args k2 ∙ e)

  pub load_process-Keeps :
      (path : Bytes) (cwd : Fd) (args : List Bytes) (k : Kernel)
      → Keeps (load_process sys path cwd args k) k
  unfolding load_process
  load_process-Keeps path cwd args k =
      bind-Keeps (read_program sys path cwd k) _ k (read_program-Keeps path cwd k)
        (λ file k1 e1. filled-Keeps (try_alloc k1.memory) file (path ∷ args) k1 k e1)
