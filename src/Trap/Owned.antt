-- ===== src/Trap/Owned.antt =====
-- A trap keeps the ownership of the processes: the part of `handle_u_trap` behind the `match`.
use servos.Prelude.{
  ℕ, ◌+◌, ◌-◌, ◌^◌, ◌≡◌, ap, sym, subst, ◌∙◌, Bool, true, false, not, ◌&&◌, Option, none, some, inl,
  inr, List, [], ◌∷◌, ◌++◌, ◌==◌, if◌then◌else◌, arith, Bool-cases,
}
use servos.Prelude.Outcome.{Outcome, done, panic}
use servos.Proc.{
  Kernel, Next, resumes, yields, put_proc, with_reg, reserve_one, take, free, destroy, resume,
  is_waiting, wake_all,
}
use servos.Proc.Reg
use servos.Proc.Queue.{position, swap_remove_back}
use servos.Proc.Count.{one, count-position}
use servos.Sys.Queues.{queues}
use servos.Trap.{Trapped, goes_on, panics, stops, end_process, finish_trap}
use servos.Trap.Sound.{Fits, Fits-queues, Leaves, reserve_one-queues, queued-Fits, freed-Fits}

-- the process that a hart runs next
abbrev pub on : Next → ℕ → ℕ
on (resumes n) m = one m n
on yields m = 0

-- What is owned after a trap, where the other harts run `r`.
pub data After (r : ℕ → ℕ) : Trapped → Type 0 where
  went :
      (next : Next) (k : Kernel) → Fits (λ m. r m + on next m) (queues k) → After r (goes_on next k)
  crashed : After r panics
  off : After r stops

left_by : (r : ℕ → ℕ) (n : ℕ) → Leaves n (λ m. r m + one m n) (λ m. r m + 0)
left_by r n m = omega arith

pub listed :
    (r : ℕ → ℕ) (n : ℕ) (list awaiting : List ℕ) (live : ℕ → Bool)
    → Fits (λ m. r m + one m n) (list, awaiting, live)
    → (i : ℕ) × (position n list ≡ some i)
unfolding Fits
listed r n list awaiting live f = let (a, b) = f n in count-position n list (ground arith)

pub destroy-found :
    (n ecode i : ℕ) (k : Kernel)
    → ((k.procs n).pid == 0) ≡ false
    → position n k.proc_list ≡ some i
    → destroy n ecode k
      ≡ done (
          free n (record k {
            proc_list = swap_remove_back i k.proc_list;
            procs = wake_all (k.procs n).pid ecode (swap_remove_back i k.proc_list) k.procs;
          }))
unfolding destroy
destroy-found n ecode i k h e =
    ap
      (λ b.
        if b
        then panic
        else done (
            freed (elim (position n k.proc_list) [
              | none ↦ k.proc_list
              | some j ↦ swap_remove_back j k.proc_list
            ])))
      h
    ∙ ap
        (λ o.
          done (freed (elim o [ none ↦ k.proc_list | some j ↦ swap_remove_back j k.proc_list ])))
        e
  where
    freed : List ℕ → Kernel
    freed l = free n (record k { proc_list = l; procs = wake_all (k.procs n).pid ecode l k.procs })

destroy-init :
    (n ecode : ℕ) (k : Kernel) → ((k.procs n).pid == 0) ≡ true → destroy n ecode k ≡ panic
unfolding destroy
destroy-init n ecode k h = ground arith

module _ (r : ℕ → ℕ) (n : ℕ) where
  from : {t t' : Trapped} → t ≡ t' → After r t' → After r t
  from e a = subst (After r) (sym e) a

  end_process-After :
      (ecode : ℕ) (k : Kernel)
      → Fits (λ m. r m + one m n) (queues k)
      → After r (end_process n ecode k)
  unfolding end_process free
  end_process-After ecode k f = elim (Bool-cases ((k.procs n).pid == 0)) [
    | inl e ↦ from (ap ended (destroy-init n ecode k e)) crashed
    | inr e ↦
        let (i, p) = listed r n k.proc_list k.awaiting k.live f in
        from (ap ended (destroy-found n ecode i k e p)) (
          went yields _ (
            freed-Fits n i (λ m. r m + one m n) (λ m. r m + 0) k.proc_list k.awaiting k.live
              (left_by r n) p f))
  ]
    where
      ended : Outcome Kernel → Trapped
      ended x = elim x [ panic ↦ panics | done k' ↦ goes_on yields k' ]

  -- the process goes to the queue, or ends when there is no memory for it
  parked-After :
      (x : Bool × Kernel) (k : Kernel)
      → queues x.1 ≡ queues k
      → Fits (λ m. r m + one m n) (queues k)
      → After r (
          let y : Bool × Kernel =
            (if x.0
              then (true, record x.1 { awaiting = x.1.awaiting ++ n ∷ [] })
              else (false, x.1)) in
          if y.0 then goes_on yields y.1 else end_process n (2 ^ 64 - 1) y.1)
  parked-After (true, k') k e f = went yields _ (
      queued-Fits n (λ m. r m + one m n) (λ m. r m + 0) k'.proc_list k'.awaiting k'.live
        (left_by r n) (Fits-queues (λ m. r m + one m n) (queues k) (queues k') e f))
  parked-After (false, k') k e f =
      end_process-After (2 ^ 64 - 1) k'
        (Fits-queues (λ m. r m + one m n) (queues k) (queues k') e f)

  if-After : (b : Bool) (t t' : Trapped) → After r t → After r t' → After r (if b then t else t')
  if-After true t t' a a' = a
  if-After false t t' a a' = a'

  option-After :
      (o : Option ℕ) (t : Trapped) (g : ℕ → Trapped)
      → After r t
      → ((e : ℕ) → After r (g e))
      → After r (elim o [ none ↦ t | some e ↦ g e ])
  option-After none t g a b = a
  option-After (some e) t g a b = b e

  pub finish_trap-After :
      (hart sepc : ℕ) (must_yield : Bool) (k : Kernel)
      → Fits (λ m. r m + one m n) (queues k)
      → After r (finish_trap hart n sepc must_yield k)
  unfolding finish_trap take resume
  finish_trap-After hart sepc must_yield k f =
      let k1 : Kernel = put_proc n (with_reg Reg.pc sepc (k.procs n)) k in
      option-After (k1.procs n).killed _ _
        (if-After (not must_yield && not (is_waiting (k1.procs n).status)) _ _
          (went (resume hart n k1).0 (resume hart n k1).1 (resumed hart k1 f))
          (parked-After (reserve_one k1) k1 (reserve_one-queues k1) f))
        (λ ecode. end_process-After ecode k1 f)
    where
      resumed :
          (hart : ℕ) (k1 : Kernel)
          → Fits (λ m. r m + one m n) (queues k1)
          → Fits (λ m. r m + on (resume hart n k1).0 m) (queues (resume hart n k1).1)
      resumed hart k1 f = f
