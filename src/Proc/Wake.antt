-- ===== src/Proc/Wake.antt =====
-- What `destroy` does to the processes that wait.
use servos.Prelude.{
  ℕ, ◌+◌, ◌≡◌, ◌≢◌, inl, inr, refl, ap, sym, ◌∙◌, Bool, true, false, List, [], ◌∷◌, ◌==◌,
  if◌then◌else◌, arith, eq-or-ne, Bool-cases, ==_self, ==→eq, ne→==,
}
use servos.Proc.{
  Process, ProcStatus, idle, running, waiting, waits_for, wake, wake_all, put, set_reg, with_reg,
}
use servos.Proc.Reg
use servos.Proc.Count.{one, count}

-- a process that was woken does not wait
wake-wake : (pid ecode : ℕ) (p : Process) → wake pid ecode (wake pid ecode p) ≡ wake pid ecode p
unfolding wake waits_for
wake-wake pid ecode p = elim (Bool-cases (waits_for pid p.status)) [
  | inl e ↦ let q = ap (λ b. if b then woken else p) e in ap (wake pid ecode) q ∙ sym q
  | inr e ↦ ap (wake pid ecode) (ap (λ b. if b then woken else p) e)
]
  where
    woken : Process
    woken = with_reg Reg.a1 0 (with_reg Reg.a0 ecode (record p { status = idle }))

pub put_self : (n : ℕ) (p : Process) (procs : ℕ → Process) → put n p procs n ≡ p
unfolding put
put_self n p procs = ap (λ b. if b then p else procs n) (==_self n)

pub put_other : (n m : ℕ) (p : Process) (procs : ℕ → Process) → n ≢ m → put n p procs m ≡ procs m
unfolding put
put_other n m p procs ne = ap (λ b. if b then p else procs m) (ne→== n m ne)

pick : (b : Bool) (x y z : Process) → x ≡ z → y ≡ z → (if b then x else y) ≡ z
pick true x y z p q = p
pick false x y z p q = q

-- Each process of the list is woken, and no other.
pub wake_all-member :
    (pid ecode : ℕ) (list : List ℕ) (procs : ℕ → Process) (n : ℕ)
    → wake_all pid ecode list procs n
      ≡ (if count n list == 0 then procs n else wake pid ecode (procs n))
unfolding wake_all count
wake_all-member pid ecode [] procs n = refl
wake_all-member pid ecode (m ∷ list) procs n =
    wake_all-member pid ecode list (put m (wake pid ecode (procs m)) procs) n
    ∙ elim (eq-or-ne m n) [
      | inl e ↦
          let same : put m (wake pid ecode (procs m)) procs n ≡ wake pid ecode (procs n) =
            ap (put m (wake pid ecode (procs m)) procs) (sym e)
            ∙ (put_self m (wake pid ecode (procs m)) procs
                ∙ ap (λ x. wake pid ecode (procs x)) e) in
          let found : (one n m + count n list == 0) ≡ false = ground arith in
          pick (count n list == 0) _ _ (wake pid ecode (procs n)) same
            (ap (wake pid ecode) same ∙ wake-wake pid ecode (procs n))
          ∙ sym (ap (λ b. if b then procs n else wake pid ecode (procs n)) found)
      | inr ne ↦
          let same = put_other m n (wake pid ecode (procs m)) procs ne in
          let none_here : count n list ≡ one n m + count n list = ground arith in
          ap (λ p. if count n list == 0 then p else wake pid ecode p) same
          ∙ ap (λ x. if x == 0 then procs n else wake pid ecode (procs n)) none_here
    ]

-- What the end of a process with the number `pid` and the exit code `code` makes of another process. It
-- is not stated by the registers' names but by their numbers in the calling convention.
pub data Awaited (pid code : ℕ) (p p' : Process) : Type 0 where
  not_waiting : p.status ≢ waiting pid → p' ≡ p → Awaited pid code p p'
  woken :
      (regs' : ℕ → ℕ)
      → p.status ≡ waiting pid
      → p' ≡ record p {
        status = idle;
        trapframe = record { regs = regs'; hartid = p.trapframe.hartid };
      }
      → regs' 10 ≡ code
      → regs' 11 ≡ 0
      → ((r : ℕ) → regs' r ≡ (if r == 10 then code else if r == 11 then 0 else p.trapframe.regs r))
      → Awaited pid code p p'

status-waits : (pid : ℕ) (s : ProcStatus) → waits_for pid s ≡ true → s ≡ waiting pid
unfolding waits_for
status-waits pid idle h = ground arith
status-waits pid running h = ground arith
status-waits pid (waiting p) h = ap waiting (==→eq p pid h)

waits-status : (pid : ℕ) (s : ProcStatus) → waits_for pid s ≡ false → s ≢ waiting pid
unfolding waits_for
waits-status pid s h e =
    let t : waits_for pid s ≡ true = ap (waits_for pid) e ∙ ==_self pid in ground arith

pub wake-Awaited : (pid code : ℕ) (p : Process) → Awaited pid code p (wake pid code p)
unfolding wake set_reg
wake-Awaited pid code p = elim (Bool-cases (waits_for pid p.status)) [
  | inl e ↦
      woken _ (status-waits pid p.status e) (ap (λ b. if b then result else p) e) refl refl
        (λ r. ground arith)
  | inr e ↦ not_waiting (waits-status pid p.status e) (ap (λ b. if b then result else p) e)
]
  where
    result : Process
    result = with_reg Reg.a1 0 (with_reg Reg.a0 code (record p { status = idle }))
