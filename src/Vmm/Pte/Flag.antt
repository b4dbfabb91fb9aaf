-- ===== src/Vmm/Pte/Flag.antt =====
-- The flags of `Pte` in kernel/src/vmm/paging.rs.
use servos.Prelude.{ℕ, ◌^◌}

abbrev pub v : ℕ
v = 2 ^ 0

abbrev pub r : ℕ
r = 2 ^ 1

abbrev pub w : ℕ
w = 2 ^ 2

abbrev pub x : ℕ
x = 2 ^ 3

abbrev pub u : ℕ
u = 2 ^ 4

abbrev pub a : ℕ
a = 2 ^ 6

abbrev pub d : ℕ
d = 2 ^ 7

abbrev pub owned : ℕ
owned = 2 ^ 8

abbrev pub rwx : ℕ
rwx = 14

abbrev pub urw : ℕ
urw = 22
