-- ===== src/Trap/External.antt =====
-- Interrupts of devices: handle_external_intr and sv_trap_vec of kernel/src/trap.rs, and the registers of
-- kernel/src/plic.rs after `init`, the addresses relative to the controller's. What the hardware does
-- behind its registers is a parameter. The debug assertions on the number of a source are left out.
mod Laws
use servos.Prelude.{
  ℕ, ◌+◌, ◌*◌, ◌/◌, ◌%◌, ◌^◌, Bool, true, false, Option, none, some, ◌==◌, if◌then◌else◌,
}
use servos.Prelude.Outcome.{Outcome, done, panic}
use servos.Dev.Console.{Buffer, put}
use servos.Trap.{Cause, external_intr, timer_intr, ecall, page_fault, other_cause, unknown_cause}

-- Plic::s_ctx_offset; the hart's number is in the register tp
unfoldable pub s_ctx_offset : ℕ → ℕ → ℕ
s_ctx_offset hart offset = offset + hart * offset * 2

-- the address of the register that set_priority writes
unfoldable pub priority_addr : ℕ → ℕ
priority_addr src = 0 + src * 4

-- the address and the value that hart_enable writes
unfoldable pub enable_addr : ℕ → ℕ → ℕ
enable_addr hart src = 0x2000 + src / 32 * 4 + s_ctx_offset hart 0x80

unfoldable pub enable_word : ℕ → ℕ
enable_word src = 2 ^ (src % 32)

-- set_hart_priority_threshold
unfoldable pub threshold_addr : ℕ → ℕ
threshold_addr hart = 0x200000 + s_ctx_offset hart 0x1000

-- hart_claim and hart_complete
unfoldable pub claim_addr : ℕ → ℕ
claim_addr hart = 0x200000 + 4 + s_ctx_offset hart 0x1000

-- The registers of the interrupt controller by their addresses, the terminal, and the timer.
pub record Wires (W : Type 0) : Type 0 where
  pub load : ℕ → W → ℕ × W
  pub store : ℕ → ℕ → W → W
  pub receive : W → Option ℕ × W
  pub send : ℕ → W → W
  pub set_timer : W → W

module _ {W : Type 0} (hw : Wires W) (hart : ℕ) (uart0 : Option ℕ) where
  -- Plic::set_priority
  unfoldable pub set_priority : ℕ → ℕ → W → W
  set_priority src priority w = hw.store (priority_addr src) priority w

  -- Plic::hart_enable
  unfoldable pub hart_enable : ℕ → W → W
  hart_enable src w = hw.store (enable_addr hart src) (enable_word src) w

  -- Plic::set_hart_priority_threshold
  unfoldable pub set_hart_priority_threshold : ℕ → W → W
  set_hart_priority_threshold priority w = hw.store (threshold_addr hart) priority w

  -- Irq::is_uart0, of a claim that is not 0
  unfoldable pub is_uart0 : ℕ → Bool
  is_uart0 irq = elim uart0 [ none ↦ false | some u ↦ u == irq ]

  -- Irq::drop, of a claim that is not 0
  unfoldable pub hart_complete : ℕ → W → W
  hart_complete irq w = hw.store (claim_addr hart) irq w

  -- the byte of an interrupt of the terminal: to the console, or a bell when that is full
  unfoldable pub deliver : Buffer → Option ℕ × W → Outcome (Buffer × W)
  deliver b (none, w) = panic
  deliver b (some ch, w) = let (taken, b') = put b ch in done (b', if taken then w else hw.send 7 w)

  -- handle_external_intr
  unfoldable pub handle_external_intr : Buffer → W → Outcome (Buffer × W)
  handle_external_intr b w =
      let (irq, w1) = hw.load (claim_addr hart) w in
      let handled = (if is_uart0 irq then deliver b (hw.receive w1) else done (b, w1)) in
      if irq == 0 then done (b, w1) else elim handled as (λ o. Outcome (Buffer × W)) [
        | panic ↦ panic
        | done (b', w2) ↦ done (b', hart_complete irq w2)
      ]

  -- sv_trap_vec, for a trap of the kernel
  unfoldable pub sv_trap_vec : Cause → Buffer → W → Outcome (Buffer × W)
  sv_trap_vec external_intr b w = handle_external_intr b w
  sv_trap_vec timer_intr b w = done (b, hw.set_timer w)
  sv_trap_vec ecall b w = panic
  sv_trap_vec page_fault b w = panic
  sv_trap_vec other_cause b w = panic
  sv_trap_vec unknown_cause b w = panic
