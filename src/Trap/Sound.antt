-- ===== src/Trap/Sound.antt =====
-- Who owns a process: what the operations of kernel/src/proc.rs, the system calls and a trap keep.
use servos.Prelude.{
  ℕ, ◌+◌, ◌≡◌, ◌≢◌, refl, ap, sym, subst, Bool, true, false, some, inl, inr, List, [], ◌∷◌, ◌++◌,
  ◌==◌, if◌then◌else◌, arith, eq-or-ne,
}
use servos.Proc.{Kernel, reserve, reserve_one, resume}
use servos.Proc.Queue.{position, swap_remove_back}
use servos.Proc.Count.{one, count, count-append, count-swap_remove_back}
use servos.Sys.Queues.{Queues, queues}

-- Each allocated process is in the list once, and is run by one hart or queued once; no other
-- address is in the list, queued or run. `r` counts the harts that run a process.
unfoldable pub Fits : (ℕ → ℕ) → Queues → Type 0
Fits r (list, awaiting, live) =
    (n : ℕ)
    → (count n list ≡ (if live n then 1 else 0))
      × (r n + count n awaiting ≡ (if live n then 1 else 0))

pub Fits-queues : (r : ℕ → ℕ) (q q' : Queues) → q' ≡ q → Fits r q → Fits r q'
Fits-queues r q q' e f = subst (Fits r) (sym e) f

pub reserve_one-queues : (k : Kernel) → queues (reserve_one k).1 ≡ queues k
unfolding reserve_one reserve
reserve_one-queues k = ground arith

pub resume-queues : (hart n : ℕ) (k : Kernel) → queues (resume hart n k).1 ≡ queues k
unfolding resume
resume-queues hart n k = refl

-- the harts after one of them left the process
abbrev pub Leaves : ℕ → (ℕ → ℕ) → (ℕ → ℕ) → Type 0
Leaves n r r' = (m : ℕ) → r' m + one m n ≡ r m

-- A process that goes to the queue is left by its hart.
pub queued-Fits :
    (n : ℕ) (r r' : ℕ → ℕ) (list awaiting : List ℕ) (live : ℕ → Bool)
    → Leaves n r r'
    → Fits r (list, awaiting, live)
    → Fits r' (list, awaiting ++ n ∷ [], live)
unfolding Fits
queued-Fits n r r' list awaiting live l f =
    λ m. let (a, b) = f m in let c = count-append m awaiting n in let d = l m in (a, omega arith)

-- A process that is destroyed is left by its hart.
pub freed-Fits :
    (n i : ℕ) (r r' : ℕ → ℕ) (list awaiting : List ℕ) (live : ℕ → Bool)
    → Leaves n r r'
    → position n list ≡ some i
    → Fits r (list, awaiting, live)
    → Fits r' (swap_remove_back i list, awaiting, λ m. if n == m then false else live m)
unfolding Fits
freed-Fits n i r r' list awaiting live l e f = λ m. elim (eq-or-ne n m) [
  | inl q ↦
      subst (Fine n i r' list awaiting live) q
        (here (f n) (count-swap_remove_back n list i n e) (l n))
  | inr ne ↦ there m ne (f m) (count-swap_remove_back n list i m e) (l m)
]
  where
    Fine : ℕ → ℕ → (ℕ → ℕ) → List ℕ → List ℕ → (ℕ → Bool) → ℕ → Type 0
    Fine n i r' list awaiting live m =
        (count m (swap_remove_back i list) ≡ (if (if n == m then false else live m) then 1 else 0))
        × (r' m + count m awaiting ≡ (if (if n == m then false else live m) then 1 else 0))

    here :
        (count n list ≡ (if live n then 1 else 0))
          × (r n + count n awaiting ≡ (if live n then 1 else 0))
        → count n (swap_remove_back i list) + one n n ≡ count n list
        → r' n + one n n ≡ r n
        → Fine n i r' list awaiting live n
    here (a, b) c d = ground arith

    there :
        (m : ℕ)
        → n ≢ m
        → (count m list ≡ (if live m then 1 else 0))
          × (r m + count m awaiting ≡ (if live m then 1 else 0))
        → count m (swap_remove_back i list) + one m n ≡ count m list
        → r' m + one m n ≡ r m
        → Fine n i r' list awaiting live m
    there m ne (a, b) c d = ground arith

-- A new process at an address that is not allocated is listed and queued.
pub spawned-Fits :
    (n : ℕ) (r : ℕ → ℕ) (list awaiting : List ℕ) (live : ℕ → Bool)
    → live n ≡ false
    → Fits r (list, awaiting, live)
    → Fits r (list ++ n ∷ [], awaiting ++ n ∷ [], λ m. if n == m then true else live m)
unfolding Fits
spawned-Fits n r list awaiting live e f = λ m.
    let (a, b) = f m in
    let c = count-append m awaiting n in
    let d = count-append m list n in
    elim (eq-or-ne n m) [ inl q ↦ (let s = ap live q in ground arith) | inr ne ↦ ground arith ]

-- An address that is given back before it is listed leaves all as it was.
pub dropped-Fits :
    (n : ℕ) (r : ℕ → ℕ) (list awaiting : List ℕ) (live : ℕ → Bool)
    → live n ≡ false
    → Fits r (list, awaiting, live)
    → Fits r (list, awaiting, λ m. if n == m then false else (if n == m then true else live m))
unfolding Fits
dropped-Fits n r list awaiting live e f = λ m.
    let (a, b) = f m in
    elim (eq-or-ne n m) [ inl q ↦ (let s = ap live q in ground arith) | inr ne ↦ ground arith ]

-- a process at the front of the queue that has to wait goes to its back
pub rotated-Fits :
    (n : ℕ) (r : ℕ → ℕ) (list rest : List ℕ) (live : ℕ → Bool)
    → Fits r (list, n ∷ rest, live)
    → Fits r (list, rest ++ n ∷ [], live)
unfolding Fits count
rotated-Fits n r list rest live f =
    λ m. let (a, b) = f m in let c = count-append m rest n in (a, omega arith)

-- a process at the front of the queue that a hart takes
pub taken-Fits :
    (n : ℕ) (r r' : ℕ → ℕ) (list rest : List ℕ) (live : ℕ → Bool)
    → Leaves n r' r
    → Fits r (list, n ∷ rest, live)
    → Fits r' (list, rest, live)
unfolding Fits count
taken-Fits n r r' list rest live l f = λ m. let (a, b) = f m in let d = l m in (a, omega arith)
