-- ===== src/Trap/Machine.antt =====
-- The machine: its harts, each of which runs a process or looks for one, over one kernel. A step is
-- a trap of a process on a hart, or a look into the scheduler's queue of a hart without one.
use servos.Prelude.{
  ℕ, zero, suc, ◌+◌, ◌≡◌, refl, ap, sym, subst, ◌∙◌, Bool, true, false, Option, none, some, List,
  [], ◌∷◌, ◌++◌, if◌then◌else◌, arith, get_elem?, set, fun_ext,
}
use servos.Fs.Path.Prefix.{some-eq, none-some}
use servos.Proc.{Kernel, Next, resumes, yields, is_waiting, try_find_execute, resume}
use servos.Proc.Count.{one, count}
use servos.Sys.User.{Platform}
use servos.Sys.Queues.{Queues, queues}
use servos.Trap.{current, Trapped, goes_on, handle_u_trap}
use servos.Trap.Sound.{Fits, rotated-Fits, taken-Fits}
use servos.Trap.Owned.{on, After, went}
use servos.Trap.Calls.{handle_u_trap-After}

pub record Machine : Type 0 where
  pub harts : List (Option ℕ)
  pub kernel : Kernel

-- the process of a hart after a step
abbrev pub runs : Next → Option ℕ
runs (resumes n) = some n
runs yields = none

pub data Step (sys : Platform) : Machine → Machine → Type 0 where
  trap :
      (hart n sepc scause : ℕ) (harts : List (Option ℕ)) (k k' : Kernel) (next : Next)
      → get_elem? harts hart ≡ some (some n)
      → handle_u_trap sys hart n (current scause) sepc k ≡ goes_on next k'
      → Step sys
          (record { harts = harts; kernel = k })
          (record { harts = set harts hart (runs next); kernel = k' })
  schedule :
      (hart : ℕ) (harts : List (Option ℕ)) (k : Kernel)
      → get_elem? harts hart ≡ some none
      → Step sys
          (record { harts = harts; kernel = k })
          (record {
            harts = set harts hart (runs (try_find_execute hart k).0);
            kernel = (try_find_execute hart k).1;
          })

pub data Reaches (sys : Platform) (m : Machine) : Machine → Type 0 where
  here : Reaches sys m m
  further : (m' m'' : Machine) → Reaches sys m m' → Step sys m' m'' → Reaches sys m m''

-- how many harts run a process
abbrev held : ℕ → Option ℕ → ℕ
held n none = 0
held n (some m) = one n m

unfoldable pub running : ℕ → List (Option ℕ) → ℕ
running n [] = 0
running n (h ∷ harts) = held n h + running n harts

-- Each allocated process is in the list of processes once, and is run by one hart or queued
-- once; no other address is in the list, queued or run.
unfoldable pub IsOwned : Machine → Type 0
IsOwned m =
    (n : ℕ)
    → (count n m.kernel.proc_list ≡ (if m.kernel.live n then 1 else 0))
      × (running n m.harts + count n m.kernel.awaiting ≡ (if m.kernel.live n then 1 else 0))

-- the other harts
abbrev others : ℕ → List (Option ℕ) → ℕ → ℕ
others hart harts n = running n (set harts hart none)

running-set :
    (harts : List (Option ℕ)) (hart : ℕ) (h h' : Option ℕ) (n : ℕ)
    → get_elem? harts hart ≡ some h
    → running n (set harts hart h') ≡ running n (set harts hart none) + held n h'
unfolding running
running-set [] hart h h' n e = absurd (none-some e)
running-set (x ∷ harts) zero h h' n e = omega arith
running-set (x ∷ harts) (suc hart) h h' n e = omega (arith, running-set harts hart h h' n e)

running-get :
    (harts : List (Option ℕ)) (hart : ℕ) (h : Option ℕ) (n : ℕ)
    → get_elem? harts hart ≡ some h
    → running n harts ≡ running n (set harts hart none) + held n h
unfolding running
running-get [] hart h n e = absurd (none-some e)
running-get (x ∷ harts) zero h n e = let f = ap (held n) (some-eq e) in omega arith
running-get (x ∷ harts) (suc hart) h n e = omega (arith, running-get harts hart h n e)

module _ (sys : Platform)
    (new_box-free : (k : Kernel) (r : ℕ → ℕ)
      → Fits r (queues k)
      → k.live (sys.new_box k) ≡ false) where
  -- the owners, with the harts counted in another way
  recount : (r r' : ℕ → ℕ) (q : Queues) → ((n : ℕ) → r' n ≡ r n) → Fits r q → Fits r' q
  recount r r' q e f = subst (λ x. Fits x q) (sym (fun_ext e)) f

  trap-Fits :
      (r : ℕ → ℕ) (t : Trapped) (next : Next) (k : Kernel)
      → After r t
      → t ≡ goes_on next k
      → Fits (λ m. r m + on next m) (queues k)
  trap-Fits r t next k a e = gone (subst (After r) e a)
    where
      gone : After r (goes_on next k) → Fits (λ m. r m + on next m) (queues k)
      gone (went next k f) = f

  held-runs : (n : ℕ) (next : Next) → held n (runs next) ≡ on next n
  held-runs n (resumes m) = refl
  held-runs n yields = refl

  abbrev Looked : (ℕ → ℕ) → Next × Kernel → Type 0
  Looked r x = Fits (λ n. r n + on x.0 n) (queues x.1)

  if-Looked :
      (r : ℕ → ℕ) (b : Bool) (x y : Next × Kernel)
      → Looked r x
      → Looked r y
      → Looked r (if b then x else y)
  if-Looked r true x y f g = f
  if-Looked r false x y f g = g

  -- A look into the queue, when the other harts run `r`.
  try_find_execute-Fits :
      (r : ℕ → ℕ) (hart : ℕ) (k : Kernel)
      → Fits (λ n. r n + 0) (queues k)
      → Looked r (try_find_execute hart k)
  unfolding try_find_execute resume
  try_find_execute-Fits r hart k f = look k.awaiting f
    where
      look :
          (l : List ℕ)
          → Fits (λ n. r n + 0) (k.proc_list, l, k.live)
          → Looked r (elim l as (λ x. Next × Kernel) [
            | [] ↦ (yields, k)
            | next ∷ rest ↦
                if is_waiting (k.procs next).status
                then (yields, record k { awaiting = rest ++ next ∷ [] })
                else resume hart next (record k { awaiting = rest })
          ])
      look [] g = f
      look (next ∷ rest) g =
          if-Looked r (is_waiting (k.procs next).status) _ _
            (rotated-Fits next (λ n. r n + 0) k.proc_list rest k.live g)
            (taken-Fits next (λ n. r n + 0) (λ n. r n + one n next) k.proc_list rest k.live
              (λ m. omega arith) g)

  Step-IsOwned : {m m' : Machine} → Step sys m m' → IsOwned m → IsOwned m'
  unfolding IsOwned Fits
  Step-IsOwned (trap hart n sepc scause harts k k' next g e) f =
      let f1 : Fits (λ m. others hart harts m + one m n) (queues k) =
        recount (λ m. running m harts) _ (queues k) (λ m. sym (running-get harts hart (some n) m g))
          f in
      let a =
        handle_u_trap-After sys new_box-free (others hart harts) hart n (current scause) sepc k
          f1 in
      recount _ (λ m. running m (set harts hart (runs next))) (queues k')
        (λ m.
          running-set harts hart (some n) (runs next) m g
          ∙ ap (λ x. others hart harts m + x) (held-runs m next))
        (trap-Fits (others hart harts) (handle_u_trap sys hart n (current scause) sepc k) next k' a
          e)
  Step-IsOwned (schedule hart harts k g) f =
      let f1 : Fits (λ m. others hart harts m + 0) (queues k) =
        recount (λ m. running m harts) _ (queues k) (λ m. sym (running-get harts hart none m g))
          f in
      let next : Next = (try_find_execute hart k).0 in
      recount _ (λ m. running m (set harts hart (runs next))) (queues (try_find_execute hart k).1)
        (λ m.
          running-set harts hart none (runs next) m g
          ∙ ap (λ x. others hart harts m + x) (held-runs m next))
        (try_find_execute-Fits (others hart harts) hart k f1)

  -- Whatever the machine does from a state in which each process has its owner, each process that
  -- is allocated is in the list of processes once and is run by one hart or queued once, and no
  -- other address is in the list, queued or run: no process that was freed is used again. A
  -- new box is at an address that is not allocated, in each kernel whose processes have owners.
  pub Reaches-IsOwned : {m m' : Machine} → IsOwned m → Reaches sys m m' → IsOwned m'
  Reaches-IsOwned f here = f
  Reaches-IsOwned f (further m' m'' r s) = Step-IsOwned s (Reaches-IsOwned f r)
