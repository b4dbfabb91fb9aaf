-- ===== src/Vmm/Paging/Tests.antt =====
-- Runs of the page table operations, and the theorems at concrete tables.
use servos.Prelude.{
  ℕ, ◌+◌, ◌*◌, ◌/◌, ◌≡◌, refl, Bool, true, ◌&&◌, ◌⊎◌, none, some, [], ◌∷◌, ◌==◌, if◌then◌else◌,
  arith,
}
use servos.Prelude.Outcome.{done}
use servos.Vmm.Vaddr.{vpn, offset}
use servos.Vmm.Pte.{next, invalid, new_entry, perms, contains, intersects, is_owned}
use servos.Vmm.Pte.Flag
use servos.Vmm.Memory.{Memory, write_entry, try_alloc}
use servos.Vmm.Translate.{to_phys, to_phys_walk}
use servos.Vmm.Paging.{map_page_raw, map_walk, unmap_page}
use servos.Vmm.Paging.Owner.{Owners, Owns, table, Fits-Owns}
use servos.Vmm.Paging.Alloc.{Fits-empty}
use servos.Vmm.Paging.Lookup.{lookup, same_page}
use servos.Vmm.Paging.Walk.{leaf_entry, FitsPage}
use servos.Vmm.Paging.MapLaws.{map_page_raw-to_phys}
use servos.Vmm.Paging.Unmap.{unmap_page-to_phys}

-- An empty table at 0x1000, and three free pages.
abbrev empty_memory : Memory
empty_memory = record { tables = λ t i. 0; bytes = λ p. 0; free = 0x2000 ∷ 0x3000 ∷ 0x4000 ∷ [] }

abbrev owners₀ : Owners
owners₀ a = if a == 0x1000 then some (table 2 0) else none

empty-Owns : Owns 0x1000 owners₀ empty_memory
empty-Owns =
    Fits-Owns empty_memory refl (λ a l p i h s. Fits-empty owners₀ l p a i 0 refl) (ground arith)

-- Three tables link up to the entry for 0x40_0000, and the last free page stays free.
map_runs :
    (m' : Memory) × (map_page_raw 0x1000 0x9000 0x400000 Flag.urw empty_memory ≡ done (true, m'))
    × (m'.free ≡ 0x4000 ∷ [])
    × (to_phys 0x1000 0x400123 Flag.u m' ≡ some 0x9123)
    × (to_phys 0x1000 0x401123 Flag.u m' ≡ none)
unfolding map_page_raw map_walk to_phys to_phys_walk write_entry try_alloc next new_entry vpn offset
    perms contains
map_runs = (_, refl, refl, refl, refl)

fits_frame : FitsPage owners₀ (leaf_entry 0x9000 Flag.urw)
unfolding next new_entry is_owned
fits_frame = (λ b h. cc, λ b h o. cc)

map_page_raw-to_phys_example :
    (ok : Bool) × (m' : Memory) × (own' : Owners) × (map_page_raw 0x1000 0x9000 0x400000 Flag.urw
        empty_memory
      ≡ done (ok, m'))
    × Owns 0x1000 own' m'
    × ((x req : ℕ)
        → to_phys 0x1000 x req m' ≡ (
            if ok && same_page 2 0x400000 x
            then (if contains (perms (leaf_entry 0x9000 Flag.urw)) req
                then some (0x9000 / 4096 * 4096 + offset x 0)
                else none)
            else to_phys 0x1000 x req empty_memory))
unfolding lookup next intersects
map_page_raw-to_phys_example =
    map_page_raw-to_phys 0x1000 owners₀ empty_memory empty-Owns 0x9000 0x400000 Flag.urw refl
      (omega arith) refl fits_frame

unmap_page-to_phys_example :
    (found : Bool) × (m' : Memory) × (own' : Owners) × (unmap_page 0x1000 0x400000 empty_memory
      ≡ done (found, m'))
    × Owns 0x1000 own' m'
    × ((found ≡ true) ⊎ (next (lookup 2 0x1000 0x400000 empty_memory) ≡ invalid))
    × ((x req : ℕ)
        → to_phys 0x1000 x req m'
          ≡ (if found && same_page 2 0x400000 x then none else to_phys 0x1000 x req empty_memory))
unmap_page-to_phys_example = unmap_page-to_phys 0x1000 owners₀ empty_memory 0x400000 empty-Owns
