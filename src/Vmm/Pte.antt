-- ===== src/Vmm/Pte.antt =====
-- `PteLink` and `PageTableEntry` of kernel/src/vmm/paging.rs: an entry is a 64-bit word.
pub mod Flag
pub mod Fields
use servos.Prelude.{ℕ, ◌-◌, ◌*◌, ◌/◌, ◌%◌, ◌^◌, bit_and, bit_or, Bool, not, ◌==◌, if◌then◌else◌}
use servos.Vmm.Pte.Flag

pub data PteLink : Type 0 where
  leaf : ℕ → PteLink
  page_table : ℕ → PteLink
  invalid : PteLink

-- bitflags' `intersects` and `contains`
unfoldable pub intersects : ℕ → ℕ → Bool
intersects p q = not (bit_and p q == 0)

unfoldable pub contains : ℕ → ℕ → Bool
contains p q = bit_and p q == q

-- PageTableEntry::new
unfoldable pub new_entry : ℕ → ℕ → ℕ
new_entry pa perms = bit_or (bit_or (pa / 2 ^ 12 * 2 ^ 10) (bit_and perms 0x3ff)) Flag.v

unfoldable pub is_valid : ℕ → Bool
is_valid e = not (bit_and e Flag.v == 0)

unfoldable pub is_leaf : ℕ → Bool
is_leaf e = not (bit_and e Flag.rwx == 0)

unfoldable pub is_owned : ℕ → Bool
is_owned e = not (bit_and e Flag.owned == 0)

-- `(self.0 >> 10) << 12`
unfoldable pub link_addr : ℕ → ℕ
link_addr e = e / 2 ^ 10 * 2 ^ 12 % 2 ^ 64

unfoldable pub next : ℕ → PteLink
unfolding is_valid is_leaf link_addr
next e =
    if not (is_valid e)
    then invalid
    else if is_leaf e
    then leaf (link_addr e)
    else page_table (link_addr e)

unfoldable pub perms : ℕ → ℕ
perms e = bit_and e 0x3ff
