-- ===== src/Proc/Reg.antt =====
-- `Reg` of kernel/src/proc.rs: the numbers of the registers in a trap frame. Register 0 is always
-- zero, so its slot holds the program counter.
use servos.Prelude.{ℕ}

abbrev pub pc : ℕ
pc = 0

abbrev pub sp : ℕ
sp = 2

abbrev pub a0 : ℕ
a0 = 10

abbrev pub a1 : ℕ
a1 = 11

abbrev pub a2 : ℕ
a2 = 12

abbrev pub a3 : ℕ
a3 = 13

abbrev pub a7 : ℕ
a7 = 17
