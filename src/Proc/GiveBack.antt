-- ===== src/Proc/GiveBack.antt =====
-- The memory of a process that ends: kernel/src/proc.rs and `Drop` of kernel/src/vmm/paging.rs.
use servos.Prelude.{ℕ, ◌≡◌, ◌≢◌, refl, ap, ◌∙◌, none, some, List, [], ◌∷◌, ◌++◌, ◌↔◌, arith}
use servos.Prelude.Outcome.{done}
use servos.Vmm.Memory.{Memory}
use servos.Vmm.Paging.Owner.{Owners, Owns}
use servos.Vmm.Paging.Drop.{drop_box}
use servos.Vmm.Paging.Drop.Once.{Once}
use servos.Vmm.Paging.Drop.Frees.{In, Part, drop_box-frees}
use servos.Proc.Queue.{position, swap_remove_back}
use servos.Proc.{Kernel, Process, put, wake, wake_all, free, drop_process, destroy}

put-pagetable :
    (n : ℕ) (p : Process) (procs : ℕ → Process) (n' : ℕ)
    → p.pagetable ≡ (procs n).pagetable
    → (put n p procs n').pagetable ≡ (procs n').pagetable
unfolding put
put-pagetable n p procs n' h = ground arith

wake-pagetable : (pid ecode : ℕ) (p : Process) → (wake pid ecode p).pagetable ≡ p.pagetable
unfolding wake
wake-pagetable pid ecode p = ground arith

wake_all-pagetable :
    (pid ecode : ℕ) (list : List ℕ) (procs : ℕ → Process) (n : ℕ)
    → (wake_all pid ecode list procs n).pagetable ≡ (procs n).pagetable
unfolding wake_all
wake_all-pagetable pid ecode [] procs n = refl
wake_all-pagetable pid ecode (x ∷ list) procs n =
    wake_all-pagetable pid ecode list (put x (wake pid ecode (procs x)) procs) n
    ∙ put-pagetable x (wake pid ecode (procs x)) procs n (wake-pagetable pid ecode (procs x))

drop_process-memory :
    (p : Process) (m m' : Memory) → drop_box 3 p.pagetable m ≡ some m' → drop_process p m ≡ m'
unfolding drop_process
drop_process-memory p m m' h = ground arith

-- the kernel in front of `free`
abbrev unlisted : ℕ → ℕ → Kernel → Kernel
unlisted n ecode k =
    let list : List ℕ = elim (position n k.proc_list) [
      | none ↦ k.proc_list
      | some i ↦ swap_remove_back i k.proc_list
    ] in
    record k { proc_list = list; procs = wake_all (k.procs n).pid ecode list k.procs }

destroy-free :
    (n ecode : ℕ) (k : Kernel)
    → (k.procs n).pid ≢ 0
    → destroy n ecode k ≡ done (free n (unlisted n ecode k))
unfolding destroy
destroy-free n ecode k h = ground arith

-- A process that is not the first one can be destroyed. Where every page in use has its owner, this
-- puts a list of pages in front of the free ones and changes nothing else in memory; these pages are
-- just the parts of the process's page table: its tables, and the pages that an entry owns, such as
-- its trap frame; and no page is then free twice.
pub destroy-gives_back :
    (n ecode : ℕ) (own : Owners) (k : Kernel)
    → (k.procs n).pid ≢ 0
    → Owns (k.procs n).pagetable own k.memory
    → (k' : Kernel) × (freed : List ℕ) × (destroy n ecode k ≡ done k')
      × (k'.memory ≡ record k.memory { free = freed ++ k.memory.free })
      × ((x : ℕ) → In x freed ↔ Part k.memory (k.procs n).pagetable x)
      × Once (freed ++ k.memory.free)
unfolding free
destroy-gives_back n ecode own k h w =
    let (freed, e, parts, once) = drop_box-frees (k.procs n).pagetable own k.memory w in
    let woken = (unlisted n ecode k).procs n in
    let same : woken.pagetable ≡ (k.procs n).pagetable =
      wake_all-pagetable (k.procs n).pid ecode (unlisted n ecode k).proc_list k.procs n in
    (
      free n (unlisted n ecode k),
      freed,
      destroy-free n ecode k h,
      drop_process-memory woken k.memory (record k.memory { free = freed ++ k.memory.free })
          (ap (λ pt. drop_box 3 pt k.memory) same ∙ e),
      parts,
      once,
    )
