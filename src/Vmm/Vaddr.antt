-- ===== src/Vmm/Vaddr.antt =====
-- The address arithmetic of kernel/src/vmm/vaddr.rs and paging.rs. A `usize` is a number below
-- `2 ^ 64`; `!m` of a mask is `2 ^ 64 - 1 - m`.
pub mod Fields
mod Tests
use servos.Prelude.{ℕ, ◌+◌, ◌-◌, ◌*◌, ◌/◌, ◌^◌, bit_and}

-- Page::SIZE
abbrev pub page_size : ℕ
page_size = 0x1000

abbrev pub sv39_levels : ℕ
sv39_levels = 3

-- VirtAddr::MAX
abbrev pub max_va : ℕ
max_va = 2 ^ (12 + sv39_levels * 9 - 1)

unfoldable pub page_number : ℕ → ℕ
page_number addr = bit_and addr (2 ^ 64 - 1 - (page_size - 1))

unfoldable pub page_offset : ℕ → ℕ
page_offset addr = bit_and addr (page_size - 1)

unfoldable pub vpn : ℕ → ℕ → ℕ
vpn va level = bit_and (va / 2 ^ (12 + level * 9)) 0x1ff

unfoldable pub offset : ℕ → ℕ → ℕ
offset va level = bit_and va (2 ^ (12 + level * 9) - 1)

unfoldable pub page : ℕ → ℕ
page va = page_number va

unfoldable pub next_page : ℕ → ℕ
next_page va = page_number (va + page_size)
