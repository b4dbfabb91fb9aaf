-- ===== src/Vmm/Vaddr/Fields.antt =====
-- What the masks and shifts compute, and how an address is put together from its fields.
use servos.Prelude.{ℕ, ◌+◌, ◌-◌, ◌*◌, ◌/◌, ◌%◌, ◌^◌, ◌≤◌, ◌<◌, ◌≡◌, ◌∙◌, arith}
use servos.Prelude.Bits.{bit_and_ones, bit_and_high}
use servos.Vmm.Vaddr.{page_size, page_number, page_offset, vpn, offset, next_page}

pub page_offset-mod : (a : ℕ) → page_offset a ≡ a % 4096
unfolding page_offset
page_offset-mod a = bit_and_ones 12 a

pub page_number-div : (a : ℕ) → a < 2 ^ 64 → page_number a ≡ a / 4096 * 4096
unfolding page_number
page_number-div a h = bit_and_high 12 a (2 ^ 52 - 1) ∙ omega (arith, bit_and_ones 52 (a / 4096))

pub vpn-mod : (va level : ℕ) → vpn va level ≡ va / 2 ^ (12 + level * 9) % 512
unfolding vpn
vpn-mod va level = bit_and_ones 9 (va / 2 ^ (12 + level * 9))

pub vpn-lt : (va level : ℕ) → vpn va level < 512
vpn-lt va level = omega (arith, vpn-mod va level)

pub offset-mod : (va level : ℕ) → offset va level ≡ va % 2 ^ (12 + level * 9)
unfolding offset
offset-mod va level = bit_and_ones (12 + level * 9) va

-- An Sv39 address is its three page numbers and the offset in the page, and no two different
-- addresses below 2^39 have the same four fields.
pub fields-compose :
    (va : ℕ)
    → va < 2 ^ 39
    → ((vpn va 2 * 512 + vpn va 1) * 512 + vpn va 0) * page_size + offset va 0 ≡ va
fields-compose va h = omega (arith, vpn-mod va 2, vpn-mod va 1, vpn-mod va 0, offset-mod va 0)

-- The next page starts at most one page further, above the address and on a page boundary.
pub next_page_bounds :
    (va : ℕ)
    → va + page_size < 2 ^ 64
    → (va < next_page va) × (next_page va ≤ va + page_size) × (page_offset (next_page va) ≡ 0)
unfolding next_page
next_page_bounds va h =
    omega (arith, page_number-div (va + page_size), page_offset-mod (page_number (va + page_size)))

pub page-add-offset : (a : ℕ) → a < 2 ^ 64 → page_number a + page_offset a ≡ a
page-add-offset a h = omega (arith, page_number-div a, page_offset-mod a)
