-- ===== src/Vmm/Memory.antt =====
-- The physical memory that page tables live in. A page of memory holds either a page table, whose
-- words are in `tables`, or data, whose bytes are in `bytes`. `free` lists the pages that the
-- global allocator hands out, in order: an allocation fails when none is left. The allocator
-- itself is a parameter here, so nothing else is said about which page it chooses.
use servos.Prelude.{ℕ, ◌*◌, ◌/◌, Option, none, some, List, [], ◌∷◌, ◌==◌, if◌then◌else◌}
use servos.Vmm.Vaddr.{page_size}

pub record Memory : Type 0 where
  pub tables : ℕ → ℕ → ℕ
  pub bytes : ℕ → ℕ
  pub free : List ℕ

-- one entry of one table
abbrev pub update : (ℕ → ℕ → ℕ) → ℕ → ℕ → ℕ → ℕ → ℕ → ℕ
update f pt i e pt' i' = if pt == pt' then (if i == i' then e else f pt' i') else f pt' i'

unfoldable pub write_entry : ℕ → ℕ → ℕ → Memory → Memory
write_entry pt i e m = record m { tables = update m.tables pt i e }

-- PageTable::try_alloc: a table of 512 zero entries
unfoldable pub try_alloc : Memory → Option (ℕ × Memory)
try_alloc m = elim m.free [
  | [] ↦ none
  | a ∷ rest ↦
      some (a, record m { tables = λ pt i. if a == pt then 0 else m.tables pt i; free = rest })
]

-- Page::uninit
unfoldable pub page_uninit : Memory → Option (ℕ × Memory)
page_uninit m = elim m.free [ [] ↦ none | a ∷ rest ↦ some (a, record m { free = rest }) ]

-- Page::zeroed
unfoldable pub page_zeroed : Memory → Option (ℕ × Memory)
page_zeroed m = elim m.free [
  | [] ↦ none
  | a ∷ rest ↦ some (
    a,
    record m { bytes = λ p. if p / page_size * page_size == a then 0 else m.bytes p; free = rest },
  )
]

-- dropping a `Box<Page>`
unfoldable pub free_page : ℕ → Memory → Memory
free_page a m = record m { free = a ∷ m.free }
