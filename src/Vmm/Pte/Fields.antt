-- ===== src/Vmm/Pte/Fields.antt =====
-- What an entry that `PageTableEntry::new` builds says when it is read back.
use servos.Prelude.{
  ℕ, ◌+◌, ◌*◌, ◌/◌, ◌%◌, ◌^◌, ◌<◌, ◌≡◌, sym, ◌∙◌, ap, bit_and, bit_or, arith, ◌==◌, true, not,
}
use servos.Prelude.Bits.{
  bit_and_ones, bit_and_high, bit_and_bit, bit_or_low, bit_or_step, bit_or-zero,
}
use servos.Vmm.Pte.Flag
use servos.Vmm.Pte.{
  new_entry, is_valid, is_leaf, is_owned, next, perms, leaf, page_table, intersects,
}

-- setting the lowest bit
or-one : (x : ℕ) → bit_or x 1 ≡ x / 2 * 2 + 1
or-one x = omega (arith, bit_or_step x 1, bit_or-zero (x / 2))

-- An entry in digits: the page number above the ten flag bits, with the valid bit set.
pub new_entry_digits : (pa q : ℕ) → new_entry pa q ≡ (pa / 4096 * 1024 + q % 1024) / 2 * 2 + 1
unfolding new_entry
new_entry_digits pa q =
    or-one (bit_or (pa / 4096 * 1024) (bit_and q 1023))
    ∙ omega (
      arith,
      bit_or_low 10 (pa / 4096) (bit_and q 1023) (omega (arith, bit_and_ones 10 q)),
      bit_and_ones 10 q,
    )

pub is_valid-digits : (e : ℕ) → is_valid e ≡ (e % 2 == 1)
unfolding is_valid
is_valid-digits e = ground (arith, bit_and_bit 0 e)

pub is_leaf-digits : (e : ℕ) → is_leaf e ≡ intersects (e % 1024) 14
unfolding is_leaf intersects
is_leaf-digits e = ground (
  arith,
  bit_and_high 1 e 7,
  bit_and_ones 3 (e / 2),
  bit_and_high 1 (e % 1024) 7,
  bit_and_ones 3 (e % 1024 / 2),
)

pub perms-digits : (e : ℕ) → perms e ≡ e % 1024
unfolding perms
perms-digits e = bit_and_ones 10 e

pub perms-new_entry : (pa q : ℕ) → perms (new_entry pa q) ≡ q % 1024 / 2 * 2 + 1
perms-new_entry pa q = omega (arith, perms-digits (new_entry pa q), new_entry_digits pa q)

-- The valid bit has no part in the test for a leaf.
rwx_digits : (x : ℕ) → intersects x 14 ≡ not (x / 2 % 8 == 0)
unfolding intersects
rwx_digits x = ground (arith, bit_and_high 1 x 7, bit_and_ones 3 (x / 2))

leaf_digits : (e : ℕ) → is_leaf e ≡ not (e / 2 % 8 == 0)
leaf_digits e =
    is_leaf-digits e ∙ (rwx_digits (e % 1024) ∙ ap (λ (x : ℕ). not (x == 0)) (omega arith))

-- An entry with no permission is a link to the table at that address.
pub next-new_entry_table : (b : ℕ) → b % 4096 ≡ 0 → b < 2 ^ 64 → next (new_entry b 0) ≡ page_table b
unfolding next
next-new_entry_table b al small =
    ground
      (arith, new_entry_digits b 0, is_valid-digits (new_entry b 0), leaf_digits (new_entry b 0))

-- An entry with a permission to read, write or execute is a leaf for the page of the address.
pub next-new_entry_leaf :
    (pa q : ℕ)
    → pa < 2 ^ 64
    → intersects q Flag.rwx ≡ true
    → next (new_entry pa q) ≡ leaf (pa / 4096 * 4096)
unfolding next
next-new_entry_leaf pa q small h = ground (
  arith,
  new_entry_digits pa q,
  rwx_digits q,
  is_valid-digits (new_entry pa q),
  leaf_digits (new_entry pa q),
)

owned_digits : (e : ℕ) → is_owned e ≡ (e / 256 % 2 == 1)
unfolding is_owned
owned_digits e = ground (arith, bit_and_bit 8 e)

pub is_owned-new_entry : (pa q : ℕ) → is_owned (new_entry pa q) ≡ intersects q Flag.owned
unfolding intersects
is_owned-new_entry pa q =
    ground (arith, owned_digits (new_entry pa q), new_entry_digits pa q, bit_and_bit 8 q)

or_even : (x y q : ℕ) → y ≡ q + q → bit_or x y ≡ bit_or (x / 2) q * 2 + x % 2
or_even x y q e = omega (arith, bit_or_step x y, ap (bit_or (x / 2)) half)
  where
    half : y / 2 ≡ q
    half = omega arith

or_bit_above : (p b : ℕ) → bit_or p (b * 16) % 16 ≡ p % 16
or_bit_above p b = omega (
  arith,
  or_even p (b * 16) (b * 8) (omega arith),
  or_even (p / 2) (b * 8) (b * 4) (omega arith),
  or_even (p / 2 / 2) (b * 4) (b * 2) (omega arith),
  or_even (p / 2 / 2 / 2) (b * 2) b (omega arith),
)

-- The flags that `map_page_raw` adds leave the test for a leaf as it was.
pub rwx-or_above : (p b : ℕ) → intersects (bit_or p (b * 16)) Flag.rwx ≡ intersects p Flag.rwx
rwx-or_above p b =
    rwx_digits (bit_or p (b * 16))
    ∙ (ap (λ (x : ℕ). not (x == 0)) (omega (arith, or_bit_above p b)) ∙ sym (rwx_digits p))
