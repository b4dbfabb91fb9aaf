-- ===== src/Trap/External/Laws.antt =====
-- The registers of the interrupt controller do not overlap, and a trap of the kernel keeps the console's
-- line in order.
use servos.Prelude.{
  ℕ, ◌/◌, ◌<◌, ◌≡◌, ◌≢◌, Bool, true, false, Option, none, some, ◌==◌, if◌then◌else◌, arith,
}
use servos.Prelude.Outcome.{Outcome, done, panic}
use servos.Dev.Console.{Buffer}
use servos.Dev.Console.Valid.{IsValid, put-IsValid}
use servos.Trap.{Cause, external_intr, timer_intr, ecall, page_fault, other_cause, unknown_cause}
use servos.Trap.External.{
  s_ctx_offset, priority_addr, enable_addr, threshold_addr, claim_addr, Wires, is_uart0,
  hart_complete, deliver, handle_external_intr, sv_trap_vec,
}

-- Two harts do not share a word of enable bits, nor do two sources of one hart but those of one word.
enable_addr-injective :
    (h h' src src' : ℕ)
    → src < 1024
    → src' < 1024
    → enable_addr h src ≡ enable_addr h' src'
    → (h ≡ h') × (src / 32 ≡ src' / 32)
unfolding enable_addr s_ctx_offset
enable_addr-injective h h' src src' l l' e = (omega arith, omega arith)

-- Of a hart below 7935, the words of enable bits lie behind the priorities of all sources, and in front
-- of the thresholds and claims of all harts.
enable_addr-between :
    (h h' src src' : ℕ)
    → h < 7935
    → src < 1024
    → src' < 1024
    → (priority_addr src' < enable_addr h src)
      × (enable_addr h src < threshold_addr h')
      × (enable_addr h src < claim_addr h')
unfolding priority_addr enable_addr threshold_addr claim_addr s_ctx_offset
enable_addr-between h h' src src' lh l l' = (omega arith, omega arith, omega arith)

-- the register of a claim is no threshold's
claim_addr-threshold_addr : (h h' : ℕ) → claim_addr h ≢ threshold_addr h'
unfolding claim_addr threshold_addr s_ctx_offset
claim_addr-threshold_addr h h' e = omega arith

-- an outcome whose console is in order, where there is one
abbrev Keeps : {W : Type 0} → Outcome (Buffer × W) → Type 0
Keeps panic = Unit
Keeps (done (b, w)) = IsValid b

module _ {W : Type 0} (hw : Wires W) (hart : ℕ) (uart0 : Option ℕ) where
  deliver-IsValid : (b : Buffer) (r : Option ℕ × W) → IsValid b → Keeps (deliver hw hart uart0 b r)
  unfolding deliver
  deliver-IsValid b (none, w) v = tt
  deliver-IsValid b (some ch, w) v = put-IsValid b ch v

  completed-IsValid :
      (irq : ℕ) (o : Outcome (Buffer × W))
      → Keeps o
      → Keeps (elim o as (λ o. Outcome (Buffer × W)) [
        | panic ↦ panic
        | done (b', w2) ↦ done (b', hart_complete hw hart uart0 irq w2)
      ])
  completed-IsValid irq panic v = tt
  completed-IsValid irq (done (b, w)) v = v

  chosen : (c : Bool) (x y : Outcome (Buffer × W)) → Keeps x → Keeps y → Keeps (if c then x else y)
  chosen true x y p q = p
  chosen false x y p q = q

  handle_external_intr-IsValid :
      (b : Buffer) (w : W) → IsValid b → Keeps (handle_external_intr hw hart uart0 b w)
  unfolding handle_external_intr
  handle_external_intr-IsValid b w v =
      let (irq, w1) = hw.load (claim_addr hart) w in
      let own = is_uart0 hw hart uart0 irq in
      let handled =
        chosen own (deliver hw hart uart0 b (hw.receive w1)) (done (b, w1))
          (deliver-IsValid b (hw.receive w1) v) v in
      chosen (irq == 0) (done (b, w1)) _ v (completed-IsValid irq _ handled)

  -- A trap of the kernel that does not panic leaves the four positions of the ring in order.
  sv_trap_vec-IsValid :
      (c : Cause) (b : Buffer) (w : W) → IsValid b → Keeps (sv_trap_vec hw hart uart0 c b w)
  unfolding sv_trap_vec
  sv_trap_vec-IsValid external_intr b w v = handle_external_intr-IsValid b w v
  sv_trap_vec-IsValid timer_intr b w v = v
  sv_trap_vec-IsValid ecall b w v = tt
  sv_trap_vec-IsValid page_fault b w v = tt
  sv_trap_vec-IsValid other_cause b w v = tt
  sv_trap_vec-IsValid unknown_cause b w v = tt
