-- ===== src/Vmm/Paging/Drop.antt =====
-- `Drop for PageTable` of kernel/src/vmm/paging.rs. Dropping the box of a table drops the table and
-- then gives its page back. The recursion takes fuel, one unit for each level of tables.
pub mod Pages
pub mod Once
pub mod Frees
use servos.Prelude.{ℕ, zero, suc, ◌+◌, Option, none, some, if◌then◌else◌}
use servos.Vmm.Pte.{leaf, page_table, invalid, next, is_owned}
use servos.Vmm.Memory.{Memory, free_page}

infixl 5 ◌>>=◌
-- what runs on as long as the fuel lasts
abbrev pub ◌>>=◌ : {A B : Type 0} → Option A → (A → Option B) → Option B
none >>= f = none
some a >>= f = f a

-- one turn of the loop, on an entry
unfoldable pub drop_entry : (ℕ → Memory → Option Memory) → ℕ → Memory → Option Memory
drop_entry drop_box e m = elim (next e) [
  | page_table pt ↦ drop_box pt m
  | leaf a ↦ some (if is_owned e then free_page a m else m)
  | invalid ↦ some m
]

-- the loop from the entry `i` on, with `n` entries left
unfoldable pub drop_from : (ℕ → Memory → Option Memory) → ℕ → ℕ → ℕ → Memory → Option Memory
drop_from drop_box pt i zero m = some m
drop_from drop_box pt i (suc n) m =
    drop_entry drop_box (m.tables pt i) m >>= λ m'. drop_from drop_box pt (i + 1) n m'

-- PageTable::drop
unfoldable pub drop_table : ℕ → ℕ → Memory → Option Memory
drop_table zero pt m = none
drop_table (suc fuel) pt m =
    drop_from (λ a m'. drop_table fuel a m' >>= λ m''. some (free_page a m'')) pt 0 512 m

-- dropping a `Box<PageTable>`
unfoldable pub drop_box : ℕ → ℕ → Memory → Option Memory
drop_box fuel a m = drop_table fuel a m >>= λ m'. some (free_page a m')
