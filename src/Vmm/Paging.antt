-- ===== src/Vmm/Paging.antt =====
-- `PageTable` of kernel/src/vmm/paging.rs. A loop over the levels is a recursion on the level.
pub mod Owner
pub mod Alloc
pub mod Lookup
pub mod Map
pub mod Link
pub mod HandOver
pub mod Walk
pub mod MapLaws
pub mod Unmap
pub mod Drop
mod Tests
use servos.Prelude.{
  ℕ, zero, suc, ◌+◌, ◌-◌, ◌*◌, ◌/◌, ◌%◌, ◌^◌, bit_and, bit_or, Bool, true, false, ◌&&◌, Option,
  none, some, ◌==◌, ltb, leb, if◌then◌else◌,
}
use servos.Prelude.Outcome.{Outcome, done, panic, ◌>>=◌, ◌>>◌, assert}
use servos.Vmm.Vaddr.{page_size, max_va, vpn, page, page_number}
use servos.Vmm.Pte.{PteLink, leaf, page_table, invalid, new_entry, next, intersects, is_owned}
use servos.Vmm.Pte.Flag
use servos.Vmm.Memory.{Memory, write_entry, try_alloc, page_zeroed, page_uninit, free_page}

-- SATP_MODE_SV39
abbrev pub satp_mode_sv39 : ℕ
satp_mode_sv39 = 8

-- PageTable::make_satp
unfoldable pub make_satp : ℕ → ℕ
make_satp table = bit_or (satp_mode_sv39 * 2 ^ 60) (table / 2 ^ 12)

-- The loop of `map_page_raw` from a level down to 1, and the write at level 0. `false` is a failed
-- allocation of a table.
unfoldable pub map_walk : ℕ → ℕ → ℕ → ℕ → ℕ → Memory → Outcome (Bool × Memory)
map_walk zero pt pa va perms m = elim (next (m.tables pt (vpn va 0))) [
  | invalid ↦
      done (true, write_entry pt (vpn va 0) (new_entry pa (bit_or (bit_or perms Flag.d) Flag.a)) m)
  | leaf a ↦ panic
  | page_table n ↦ panic
]
map_walk (suc level) pt pa va perms m = elim (next (m.tables pt (vpn va (suc level)))) [
  | page_table n ↦ map_walk level n pa va perms m
  | leaf a ↦ panic
  | invalid ↦ elim (try_alloc m) [
    | none ↦ done (false, m)
    | some (n, m') ↦
        map_walk level n pa va perms (write_entry pt (vpn va (suc level)) (new_entry n 0) m')
  ]
]

-- PageTable::map_page_raw
unfoldable pub map_page_raw : ℕ → ℕ → ℕ → ℕ → Memory → Outcome (Bool × Memory)
map_page_raw pt pa va perms m = map_walk 2 pt pa va perms m

-- PageTable::map_owned_page
unfoldable pub map_owned_page : ℕ → ℕ → ℕ → ℕ → Memory → Outcome (Bool × Memory)
map_owned_page pt pa va perms m = do
  assert (intersects perms Flag.rwx)
  assert (ltb va max_va)
  map_page_raw pt pa va (bit_or perms Flag.owned) m

-- The loop of `map_pages`, with `n` pages left. `va + i` overflows like any addition on `usize`.
unfoldable pub map_pages_from : ℕ → ℕ → ℕ → ℕ → ℕ → Memory → Outcome (Bool × Memory)
map_pages_from zero pt pa va perms m = done (true, m)
map_pages_from (suc n) pt pa va perms m = do
  assert (ltb va (2 ^ 64))
  (ok, m') ← map_page_raw pt pa va perms m
  let rest = map_pages_from n pt (pa + page_size) (va + page_size) perms m'
  if ok then rest else done (false, m')

-- `[page_number(start), page_number(start.wrapping_add(size) - 1)]`
unfoldable pub page_range : ℕ → ℕ → Outcome (ℕ × ℕ)
page_range start size = do
  let end = (start + size) % 2 ^ 64
  assert (ltb 0 end)
  done (page_number start, page_number (end - 1))

-- the number of rounds of `(first..=last).step_by(Page::SIZE)`
abbrev pub pages_between : ℕ → ℕ → ℕ
pages_between first last = (last - first) / page_size + 1

-- PageTable::map_pages
unfoldable pub map_pages : ℕ → ℕ → ℕ → ℕ → ℕ → Memory → Outcome (Bool × Memory)
map_pages pt pa va size perms m = do
  assert (intersects perms Flag.rwx)
  assert (ltb 0 size)
  (first, last) ← page_range pa size
  assert (ltb first max_va && ltb last max_va && leb first last)
  map_pages_from (pages_between first last) pt first (page_number va)
      (bit_and perms (2 ^ 64 - 1 - Flag.owned)) m

-- The loop of `map_new_pages`, with `n` pages left. A page whose mapping failed is not given back.
unfoldable pub map_new_from : ℕ → ℕ → ℕ → ℕ → Bool → Memory → Outcome (Bool × Memory)
map_new_from zero pt va perms zeroed m = done (true, m)
map_new_from (suc n) pt va perms zeroed m = elim (if zeroed then page_zeroed m else page_uninit m) [
  | none ↦ done (false, m)
  | some (pa, m') ↦ do
    (ok, m'') ← map_page_raw pt pa va (bit_or perms Flag.owned) m'
    let rest = map_new_from n pt (va + page_size) perms zeroed m''
    if ok then rest else done (false, m'')
]

-- PageTable::map_new_pages
unfoldable pub map_new_pages : ℕ → ℕ → ℕ → ℕ → Bool → Memory → Outcome (Bool × Memory)
map_new_pages pt va size perms zeroed m = do
  assert (intersects perms Flag.rwx)
  assert (ltb 0 size)
  (first, last) ← page_range va size
  let in_range = ltb first max_va && ltb last max_va && leb first last
  if in_range
      then map_new_from (pages_between first last) pt first perms zeroed m
      else done (false, m)

-- PageTable::map_identity
unfoldable pub map_identity : ℕ → ℕ → ℕ → ℕ → Memory → Outcome (Bool × Memory)
map_identity pt start end perms m =
    if start == end
    then map_pages pt start start page_size perms m
    else if ltb end start
    then panic
    else map_pages pt start start (end - start) perms m

-- The loop of `unmap_page`, from a level down.
unfoldable pub unmap_walk : ℕ → ℕ → ℕ → Memory → Outcome (Bool × Memory)
unmap_walk zero pt va m = elim (next (m.tables pt (vpn va 0))) [
  | page_table n ↦ done (false, m)
  | leaf a ↦ done (
    true,
    write_entry pt (vpn va 0) 0 (if is_owned (m.tables pt (vpn va 0)) then free_page a m else m),
  )
  | invalid ↦ done (false, m)
]
unmap_walk (suc level) pt va m = elim (next (m.tables pt (vpn va (suc level)))) [
  | page_table n ↦ unmap_walk level n va m
  | leaf a ↦ panic
  | invalid ↦ done (false, m)
]

-- PageTable::unmap_page
unfoldable pub unmap_page : ℕ → ℕ → Memory → Outcome (Bool × Memory)
unmap_page pt va m = unmap_walk 2 pt va m

-- The loop of `unmap_pages`, with `n` pages left.
unfoldable pub unmap_from : ℕ → ℕ → ℕ → Memory → Outcome Memory
unmap_from zero pt va m = done m
unmap_from (suc n) pt va m = do
  (found, m') ← unmap_page pt va m
  unmap_from n pt (va + page_size) m'

-- PageTable::unmap_pages
unfoldable pub unmap_pages : ℕ → ℕ → ℕ → Memory → Outcome Memory
unmap_pages pt va va_end m = do
  assert (ltb va max_va && ltb va_end max_va && leb va va_end)
  unmap_from (pages_between (page va) (page va_end)) pt (page va) m
