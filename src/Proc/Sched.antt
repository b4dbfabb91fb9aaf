-- ===== src/Proc/Sched.antt =====
-- The search of a hart for a process.
use servos.Prelude.{
  ℕ, zero, suc, ◌≡◌, ap, sym, ◌∙◌, true, false, List, [], ◌∷◌, ◌++◌, length, append_assoc,
  append-nil, if◌then◌else◌,
}
use servos.Proc.{Process, Kernel, Next, resumes, yields, is_waiting, resume, try_find_execute}

-- the loop of Scheduler::yield_hart, for a number of rounds
unfoldable pub yield_hart : ℕ → ℕ → Kernel → Next × Kernel
yield_hart zero hart k = (yields, k)
yield_hart (suc rounds) hart k =
    let (next, k') = try_find_execute hart k in
    elim next [ resumes n ↦ (resumes n, k') | yields ↦ yield_hart rounds hart k' ]

-- all processes of a list wait
unfoldable pub AllWait : (ℕ → Process) → List ℕ → Type 0
AllWait procs [] = Unit
AllWait procs (n ∷ l) = (is_waiting (procs n).status ≡ true) × AllWait procs l

look : ℕ → Kernel → List ℕ → Next × Kernel
look hart k l = elim l [
  | [] ↦ (yields, k)
  | next ∷ rest ↦
      if is_waiting (k.procs next).status
      then (yields, record k { awaiting = rest ++ next ∷ [] })
      else resume hart next (record k { awaiting = rest })
]

waits :
    (hart n : ℕ) (rest : List ℕ) (k : Kernel)
    → k.awaiting ≡ n ∷ rest
    → is_waiting (k.procs n).status ≡ true
    → try_find_execute hart k ≡ (yields, record k { awaiting = rest ++ n ∷ [] })
unfolding try_find_execute look
waits hart n rest k e w =
    ap (look hart k) e
    ∙ ap
        (λ b.
          if b
          then (yields, record k { awaiting = rest ++ n ∷ [] })
          else resume hart n (record k { awaiting = rest }))
        w

takes :
    (hart n : ℕ) (rest : List ℕ) (k : Kernel)
    → k.awaiting ≡ n ∷ rest
    → is_waiting (k.procs n).status ≡ false
    → try_find_execute hart k ≡ resume hart n (record k { awaiting = rest })
unfolding try_find_execute look
takes hart n rest k e w =
    ap (look hart k) e
    ∙ ap
        (λ b.
          if b
          then (yields, record k { awaiting = rest ++ n ∷ [] })
          else resume hart n (record k { awaiting = rest }))
        w

-- A hart that looks for a process finds the first one in the queue that does not wait, after as many
-- rounds as processes before it wait, and these go to the back of the queue in their order.
pub yield_hart-finds :
    (hart n : ℕ) (before rest : List ℕ) (k : Kernel)
    → k.awaiting ≡ before ++ n ∷ rest
    → AllWait k.procs before
    → is_waiting (k.procs n).status ≡ false
    → yield_hart (suc (length before)) hart k
      ≡ resume hart n (record k { awaiting = rest ++ before })
unfolding yield_hart AllWait resume
yield_hart-finds hart n [] rest k e w h =
    ap
      (λ (x : Next × Kernel). elim x.0 [
        | resumes m ↦ (resumes m, x.1)
        | yields ↦ yield_hart 0 hart x.1
      ])
      (takes hart n rest k e h)
    ∙ ap (λ l. resume hart n (record k { awaiting = l })) (sym (append-nil rest))
yield_hart-finds hart n (m ∷ before) rest k e (w, ws) h =
    ap
      (λ (x : Next × Kernel). elim x.0 [
        | resumes m ↦ (resumes m, x.1)
        | yields ↦ yield_hart (suc (length before)) hart x.1
      ])
      (waits hart m (before ++ n ∷ rest) k e w)
    ∙ (yield_hart-finds hart n before (rest ++ m ∷ [])
          (record k { awaiting = (before ++ n ∷ rest) ++ m ∷ [] })
          (append_assoc before (n ∷ rest) (m ∷ [])) ws h
        ∙ ap (λ l. resume hart n (record k { awaiting = l })) (append_assoc rest (m ∷ []) before))
