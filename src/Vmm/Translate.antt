-- ===== src/Vmm/Translate.antt =====
-- Reading memory through a page table: `VirtAddr::to_phys`, `PhysIter`, `copy_to` and `copy_from`
-- of kernel/src/vmm/vaddr.rs.
use servos.Prelude.{ℕ, zero, suc, ◌+◌, ◌-◌, ◌^◌, min, Option, none, some, ◌==◌, ltb, if◌then◌else◌}
use servos.Prelude.Outcome.{Outcome, done, ◌>>◌, assert}
use servos.Vmm.Vaddr.{page_size, page_offset, page_number, vpn, offset}
use servos.Vmm.Pte.{leaf, page_table, invalid, next, perms, contains}
use servos.Vmm.Memory.{Memory}

-- The loop of `to_phys` from a level down; `none` is `VirtToPhysErr`.
unfoldable pub to_phys_walk : ℕ → ℕ → ℕ → ℕ → Memory → Option ℕ
to_phys_walk zero pt va req m = elim (next (m.tables pt (vpn va 0))) [
  | page_table n ↦ none
  | leaf a ↦ if contains (perms (m.tables pt (vpn va 0))) req then some (a + offset va 0) else none
  | invalid ↦ none
]
to_phys_walk (suc level) pt va req m = elim (next (m.tables pt (vpn va (suc level)))) [
  | page_table n ↦ to_phys_walk level n va req m
  | leaf a ↦
      if contains (perms (m.tables pt (vpn va (suc level)))) req
      then some (a + offset va (suc level))
      else none
  | invalid ↦ none
]

-- VirtAddr::to_phys
unfoldable pub to_phys : ℕ → ℕ → ℕ → Memory → Option ℕ
to_phys pt va req m = to_phys_walk 2 pt va req m

pub record Range : Type 0 where
  pub start : ℕ
  pub len : ℕ

pub record PhysIter : Type 0 where
  pub va : ℕ
  pub size : ℕ
  pub perms : ℕ

-- What `PhysIter::next` yields: nothing, an error, or a range of physical memory.
pub data Item : Type 0 where
  finished : Item
  bad_addr : Item
  range : Range → Item

-- PhysIter::next
unfoldable pub next_range : ℕ → PhysIter → Memory → Outcome (Item × PhysIter)
next_range pt it m =
    if it.size == 0 then done (finished, it) else elim (to_phys pt it.va it.perms m) [
      | none ↦ done (bad_addr, it)
      | some phys ↦ do
        assert (ltb (it.va + page_size) (2 ^ 64))
        let n = min (page_size - page_offset it.va) it.size
        done (
          range (record { start = phys; len = n }),
          record it { va = page_number (it.va + page_size); size = it.size - n },
        )
    ]
